-- ===== src/SightLine/Ends.antt =====
-- The loops of the line of sight come to their end.
use odirion_mmoserver.Base.{
  ℕ, zero, suc, ◌+◌, ◌-◌, ◌^◌, ◌≤◌, ◌<◌, ◌≡◌, ◌⊎◌, refl, sym, subst, ◌∙◌, inl, inr, Bool, true,
  false, not, ◌&&◌, ◌||◌, some, arith, ltb, ◌==◌, if◌then◌else◌, Bool-cases,
}
use odirion_mmoserver.Base.Int.{pos, negsuc, sub_ℕ, ◌+ℤ◌}
use odirion_mmoserver.Position.{
  Position, IsPosition, equals, distance_x, distance_y, distance_z, offset_x, offset_y, offset_z,
}
use odirion_mmoserver.SightLine.{
  Tiles, Line, direction_of, line_between, off_line, moved, move, check_floors, is_above,
  check_tiles, check_sight_line, is_sight_clear,
}
use odirion_mmoserver.SightLine.Products.{IsShort, line_between-IsShort}
use odirion_mmoserver.SightLine.Moves.{
  apart, Way, Rises, Falls, value, off_line-value, no_stall, next, chosen,
}

-- A tile on the way to the destination.
record IsOnWay (l : Line) (d p : Position) : Type 0 where
  way_x : Way (Falls l.b) (Rises l.b) l.mx p.x d.x
  way_y : Way (Rises l.a) (Falls l.a) l.my p.y d.y
  bound_x : p.x < 2 ^ 16
  bound_y : p.y < 2 ^ 16
  short : IsShort l

abbrev rest : Position → Position → ℕ
rest d p = apart p.x d.x + apart p.y d.y

held_back :
    (ex ey u v : Bool)
    → ex ≡ false
    → ey ≡ false
    → (not ey && (ex || u || v)) ≡ false
    → (u ≡ false) × (v ≡ false)
held_back ex ey u v e f h = (ground (arith, e, f, h), ground (arith, e, f, h))

less_of_gains :
    (cx cy : Bool) (ax ax' ay ay' : ℕ)
    → (cy ≡ false → cx ≡ false → ⊥)
    → ax' + (if cx then 1 else 0) ≡ ax
    → ay' + (if cy then 1 else 0) ≡ ay
    → ax' + ay' < ax + ay
less_of_gains false false ax ax' ay ay' one hx hy = absurd (one refl refl)
less_of_gains true cy ax ax' ay ay' one hx hy = ground (arith, hx, hy)
less_of_gains false true ax ax' ay ay' one hx hy = ground (arith, hx, hy)

module _ (l : Line) (d p : Position) (dx : d.x < 2 ^ 16) (dy : d.y < 2 ^ 16)
    (w : IsOnWay l d p) where
  abbrev hor : ℕ
  hor = off_line l (pos p.x +ℤ l.mx) (pos p.y)

  abbrev ver : ℕ
  ver = off_line l (pos p.x) (pos p.y +ℤ l.my)

  abbrev cross : ℕ
  cross = off_line l (pos p.x +ℤ l.mx) (pos p.y +ℤ l.my)

  -- Where neither coordinate has arrived, one of the moves is made.
  not_held : (p.x == d.x) ≡ false → (p.y == d.y) ≡ false → hor ≡ ver → hor ≤ cross → ⊥
  not_held ex ey same less =
      let (x', nx) = next l.mx p.x d.x w.bound_x dx w.way_x ex in
      let (y', ny) = next l.my p.y d.y w.bound_y dy w.way_y ey in
      let h : hor ≡ value l.a l.b l.c x' p.y =
        rw nx.as_number (off_line-value l x' p.y w.short nx.bound w.bound_y) in
      let v : ver ≡ value l.a l.b l.c p.x y' =
        rw ny.as_number (off_line-value l p.x y' w.short w.bound_x ny.bound) in
      let c : cross ≡ value l.a l.b l.c x' y' =
        rw (nx.as_number, ny.as_number) (off_line-value l x' y' w.short nx.bound ny.bound) in
      no_stall l.mx l.my l.a l.b l.c p.x x' p.y y' nx.step ny.step (sym h ∙ same ∙ v)
        (omega (arith, h, c, less))

  abbrev moves_y : Bool
  moves_y = not (p.y == d.y) && (p.x == d.x || ltb ver hor || ltb cross hor)

  abbrev y_after : ℕ
  y_after = if moves_y then moved p.y l.my else p.y

  abbrev moves_x : Bool
  moves_x = not (p.x == d.x) && (y_after == d.y || ltb hor ver || ltb cross ver)

  some_move : is_above p d ≡ false → moves_y ≡ false → moves_x ≡ false → ⊥
  some_move far my mx =
      let stays : y_after ≡ p.y = rw my refl in
      let mx' : (not (p.x == d.x) && (p.y == d.y || ltb hor ver || ltb cross ver)) ≡ false =
        subst (λ y. (not (p.x == d.x) && (y == d.y || ltb hor ver || ltb cross ver)) ≡ false) stays
          mx in
      elim (Bool-cases (p.x == d.x)) [
        | inl ex ↦ absurd (ground (arith, far, my, ex))
        | inr ex ↦ elim (Bool-cases (p.y == d.y)) [
          | inl ey ↦ absurd (ground (arith, far, mx', ex, ey))
          | inr ey ↦
              let by_y =
                held_back (p.x == d.x) (p.y == d.y) (ltb ver hor) (ltb cross hor) ex ey my in
              let by_x =
                held_back (p.y == d.y) (p.x == d.x) (ltb hor ver) (ltb cross ver) ey ex mx' in
              let a = by_y.0 in
              let b = by_y.1 in
              let c = by_x.0 in not_held ex ey (ground (arith, a, c)) (ground (arith, b))
        ]
      ]

  -- A turn comes nearer.
  move-IsOnWay : is_above p d ≡ false → IsOnWay l d (move l d p) × (rest d (move l d p) < rest d p)
  unfolding move
  move-IsOnWay far =
      let y = chosen l.my p.y d.y w.bound_y dy w.way_y moves_y (λ e. ground (arith, e)) in
      let x = chosen l.mx p.x d.x w.bound_x dx w.way_x moves_x (λ e. ground (arith, e)) in
      let one = some_move far in
      (
        record {
          way_x = x.way_on;
          way_y = y.way_on;
          bound_x = x.bound;
          bound_y = y.bound;
          short = w.short;
        },
        less_of_gains moves_x moves_y (apart p.x d.x) _ (apart p.y d.y) _ one x.gain y.gain,
      )

check_floors-ends :
    (t : Tiles) (fuel z : ℕ) (p : Position)
    → p.z + fuel ≡ z
    → (b : Bool) × (check_floors t fuel z p ≡ some b)
unfolding check_floors
check_floors-ends t zero z p h =
    let here : (p.z == z) ≡ true = ground (arith, h) in (true, rw here refl)
check_floors-ends t (suc fuel) z p h = elim (Bool-cases (p.z == z)) [
  | inl y ↦ (true, rw (y, check_floors) refl)
  | inr n ↦ elim (Bool-cases (t.has_things p)) [
    | inl y ↦ (false, rw (n, y, check_floors) refl)
    | inr m ↦
        let (b, e) = check_floors-ends t fuel z (record p { z = p.z + 1 }) (omega (arith, h)) in
        (b, rw (n, m, check_floors) e)
  ]
]

module _ (t : Tiles) (l : Line) (d : Position) (floors : ℕ) (dx : d.x < 2 ^ 16)
    (dy : d.y < 2 ^ 16) where
  check_tiles-ends :
      (fuel : ℕ) (p : Position)
      → IsOnWay l d p
      → rest d p ≤ fuel
      → p.z + floors ≡ d.z
      → (b : Bool) × (check_tiles t l d floors fuel p ≡ some b)
  unfolding check_tiles
  check_tiles-ends zero p w h z =
      let here : is_above p d ≡ true = ground (arith, h) in
      let (b, e) = check_floors-ends t floors d.z p z in (b, rw here e)
  check_tiles-ends (suc fuel) p w h z = elim (Bool-cases (is_above p d)) [
    | inl y ↦ let (b, e) = check_floors-ends t floors d.z p z in (b, rw (y, check_tiles) e)
    | inr n ↦
        let m = move-IsOnWay l d p dx dy w n in
        elim (Bool-cases (t.blocks_projectile (move l d p))) [
          | inl y ↦ (false, rw (n, y, check_tiles) refl)
          | inr k ↦
              let same_floor : (move l d p).z ≡ p.z = unfold move in refl in
              let (b, e) =
                check_tiles-ends fuel (move l d p) m.0 (omega (arith, m.1, h))
                  (omega (arith, z, same_floor)) in
              (b, rw (n, k, check_tiles) e)
        ]
  ]

falls : (a b : ℕ) → a < b → Falls (sub_ℕ a b)
falls a b h = (b - a - 1, ground (arith, h))

rises : (a b : ℕ) → b < a → Rises (sub_ℕ a b)
rises a b h = (a - b - 1, ground (arith, h))

trichotomy : (a b : ℕ) → (a < b) ⊎ (b < a) ⊎ (a ≡ b)
trichotomy a b = ground arith

module _ (s d : ℕ) where
  goes_up : s < d → direction_of s d ≡ pos 1
  unfolding direction_of
  goes_up h = ground (arith, h)

  goes_down : d < s → direction_of s d ≡ negsuc 0
  unfolding direction_of
  goes_down h = ground (arith, h)

-- Less than 2 ^ 13 tiles apart from west to east and from north to south.
abbrev pub IsNear : Position → Position → Type 0
IsNear s d = (distance_x s d < 2 ^ 13) × (distance_y s d < 2 ^ 13)

IsNear-sym : (s d : Position) → IsNear s d → IsNear d s
unfolding distance_x distance_y offset_x offset_y
IsNear-sym s d (near_x, near_y) = (ground (arith, near_x), ground (arith, near_y))

start-IsOnWay :
    (s d : Position) → IsPosition s → IsPosition d → IsNear s d → IsOnWay (line_between s d) d s
unfolding line_between offset_x offset_y
start-IsOnWay s d hs hd near = record {
  way_x = elim (trichotomy s.x d.x) [
    | inl h ↦ inl (goes_up s.x d.x h, falls s.x d.x h, omega (arith, h))
    | inr (inl h) ↦ inr (inl (goes_down s.x d.x h, rises s.x d.x h, omega (arith, h)))
    | inr (inr e) ↦ inr (inr e)
  ];
  way_y = elim (trichotomy s.y d.y) [
    | inl h ↦ inl (goes_up s.y d.y h, rises d.y s.y h, omega (arith, h))
    | inr (inl h) ↦ inr (inl (goes_down s.y d.y h, falls d.y s.y h, omega (arith, h)))
    | inr (inr e) ↦ inr (inr e)
  ];
  bound_x = hs.0;
  bound_y = hs.1;
  short = line_between-IsShort s d hd near.0 near.1;
}

-- From any place the turns of both loops are enough.
between-ends :
    (t : Tiles) (s d : Position)
    → IsPosition s
    → IsPosition d
    → IsNear s d
    → s.z ≤ d.z
    → (b : Bool) × (check_tiles t
          (line_between s d)
          d
          (distance_z s d)
          (distance_x s d + distance_y s d)
          s
        ≡ some b)
unfolding distance_x distance_y distance_z offset_x offset_y offset_z
between-ends t s d hs hd near up =
    check_tiles-ends t (line_between s d) d (distance_z s d) hd.0 hd.1
      (distance_x s d + distance_y s d) s (start-IsOnWay s d hs hd near) (ground arith)
      (ground (arith, up))

-- The loops of `checkSightLine` end for any two near positions.
check_sight_line-ends :
    (t : Tiles) (from_pos to_pos : Position)
    → IsPosition from_pos
    → IsPosition to_pos
    → IsNear from_pos to_pos
    → (b : Bool) × (check_sight_line t from_pos to_pos ≡ some b)
unfolding check_sight_line
check_sight_line-ends t from_pos to_pos hf ht near = elim (Bool-cases (equals from_pos to_pos)) [
  | inl y ↦ (true, rw y refl)
  | inr n ↦ elim (Bool-cases (ltb to_pos.z from_pos.z)) [
    | inl y ↦
        let r =
          between-ends t to_pos from_pos ht hf (IsNear-sym from_pos to_pos near)
            (ground (arith, y)) in
        (r.0, rw (n, y) r.1)
    | inr m ↦
        let r = between-ends t from_pos to_pos hf ht near (ground (arith, m)) in
        (r.0, rw (n, m) r.1)
  ]
]

-- For two positions less than 2 ^ 13 tiles apart in both directions and whatever stands on the tiles,
-- `isSightClear` comes to its end.
pub is_sight_clear-ends :
    (t : Tiles) (from_pos to_pos : Position) (floor_check : Bool)
    → IsPosition from_pos
    → IsPosition to_pos
    → IsNear from_pos to_pos
    → (b : Bool) × (is_sight_clear t from_pos to_pos floor_check ≡ some b)
unfolding is_sight_clear
is_sight_clear-ends t from_pos to_pos floor_check hf ht near =
    let (there, e) = check_sight_line-ends t from_pos to_pos hf ht near in
    let (back, e') =
      check_sight_line-ends t to_pos from_pos ht hf (IsNear-sym from_pos to_pos near) in
    elim (Bool-cases (floor_check && not (from_pos.z == to_pos.z))) [
      | inl y ↦ (false, rw y refl)
      | inr n ↦ elim (Bool-cases there) [
        | inl y ↦ (true, rw (n, e, y) refl)
        | inr m ↦ (back, rw (n, e, m) e')
      ]
    ]
