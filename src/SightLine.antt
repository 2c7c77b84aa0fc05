-- ===== src/SightLine.antt =====
-- The line of sight: `checkSightLine` and `isSightClear` of map.cpp. What stands on a tile is an argument. The
-- code's numbers have 32 bits with a sign, and so have these; C++ leaves it undefined where one does not fit, and
-- here it wraps.
pub mod Products
pub mod Moves
pub mod Ends
mod Examples
use odirion_mmoserver.Base.{
  ℕ, zero, suc, ◌+◌, ◌-◌, ◌*◌, ◌%◌, ◌^◌, u16, Bool, true, false, not, ◌&&◌, ◌||◌, Option, none,
  some, ltb, ◌==◌, if◌then◌else◌,
}
use odirion_mmoserver.Base.Int.{ℤ, pos, negsuc, pos_part, neg_part, sub_ℕ, abs, neg, ◌+ℤ◌}
use odirion_mmoserver.Position.{
  Position, equals, offset_x, offset_y, distance_x, distance_y, distance_z,
}

-- Whether a tile blocks projectiles, and whether there is anything on it.
pub record Tiles : Type 0 where
  pub blocks_projectile : Position → Bool
  pub has_things : Position → Bool

infixl 70 ◌*ℤ◌
unfoldable pub ◌*ℤ◌ : ℤ → ℤ → ℤ
a *ℤ b =
    sub_ℕ (pos_part a * pos_part b + neg_part a * neg_part b)
      (pos_part a * neg_part b + neg_part a * pos_part b)

-- The `int32_t` of a number.
unfoldable pub i32 : ℤ → ℤ
i32 z =
    let word = (pos_part z + (2 ^ 32 - neg_part z % 2 ^ 32)) % 2 ^ 32 in
    sub_ℕ word (if ltb word (2 ^ 31) then 0 else 2 ^ 32)

-- `mx` and `my`.
unfoldable pub direction_of : ℕ → ℕ → ℤ
direction_of from to = if ltb from to then pos 1 else if from == to then pos 0 else negsuc 0

-- A coordinate that is moved by `mx` or `my`.
unfoldable pub moved : ℕ → ℤ → ℕ
moved x m = u16 (x + 2 ^ 16 + pos_part m - neg_part m)

-- `A`, `B`, `C`, `mx` and `my`.
pub record Line : Type 0 where
  pub a : ℤ
  pub b : ℤ
  pub c : ℤ
  pub mx : ℤ
  pub my : ℤ

unfoldable pub line_between : Position → Position → Line
line_between start destination =
    let a = offset_y destination start in
    let b = offset_x start destination in
    record {
      a = a;
      b = b;
      c = i32 (neg (i32 (i32 (a *ℤ pos destination.x) +ℤ i32 (b *ℤ pos destination.y))));
      mx = direction_of start.x destination.x;
      my = direction_of start.y destination.y;
    }

-- The distance from the line, but for a factor.
unfoldable pub off_line : Line → ℤ → ℤ → ℕ
off_line l x y = abs (i32 (i32 (i32 (l.a *ℤ x) +ℤ i32 (l.b *ℤ y)) +ℤ l.c))

-- The two moves of a turn.
unfoldable pub move : Line → Position → Position → Position
move l destination p =
    let move_hor = off_line l (pos p.x +ℤ l.mx) (pos p.y) in
    let move_ver = off_line l (pos p.x) (pos p.y +ℤ l.my) in
    let move_cross = off_line l (pos p.x +ℤ l.mx) (pos p.y +ℤ l.my) in
    let y =
      if not (p.y == destination.y)
        && (p.x == destination.x || ltb move_ver move_hor || ltb move_cross move_hor)
      then moved p.y l.my
      else p.y in
    let x =
      if not (p.x == destination.x)
        && (y == destination.y || ltb move_hor move_ver || ltb move_cross move_ver)
      then moved p.x l.mx
      else p.x in
    record { x = x; y = y; z = p.z }

-- The loop over the floors; `none` is fuel that was not enough.
unfoldable pub check_floors : Tiles → ℕ → ℕ → Position → Option Bool
check_floors t zero destination_z p = if p.z == destination_z then some true else none
check_floors t (suc fuel) destination_z p = elim (p.z == destination_z) [
  | true ↦ some true
  | false ↦ elim (t.has_things p) [
    | true ↦ some false
    | false ↦ check_floors t fuel destination_z (record p { z = p.z + 1 })
  ]
]

abbrev pub is_above : Position → Position → Bool
is_above p destination = p.x == destination.x && p.y == destination.y

-- The loop over the tiles of a floor, and the one that follows.
unfoldable pub check_tiles : Tiles → Line → Position → ℕ → ℕ → Position → Option Bool
check_tiles t l destination floors zero p =
    if is_above p destination then check_floors t floors destination.z p else none
check_tiles t l destination floors (suc fuel) p = elim (is_above p destination) [
  | true ↦ check_floors t floors destination.z p
  | false ↦
      let p' = move l destination p in
      elim (t.blocks_projectile p') [
        | true ↦ some false
        | false ↦ check_tiles t l destination floors fuel p'
      ]
]

-- `checkSightLine`. Each turn brings the tile nearer to the destination.
unfoldable pub check_sight_line : Tiles → Position → Position → Option Bool
check_sight_line t from_pos to_pos =
    let start = if ltb to_pos.z from_pos.z then to_pos else from_pos in
    let destination = if ltb to_pos.z from_pos.z then from_pos else to_pos in
    if equals from_pos to_pos
    then some true
    else check_tiles t (line_between start destination) destination (distance_z start destination)
        (distance_x start destination + distance_y start destination) start

-- `isSightClear`.
unfoldable pub is_sight_clear : Tiles → Position → Position → Bool → Option Bool
is_sight_clear t from_pos to_pos floor_check =
    if floor_check && not (from_pos.z == to_pos.z)
    then some false
    else elim (check_sight_line t from_pos to_pos) [
      | none ↦ none
      | some clear ↦ if clear then some true else check_sight_line t to_pos from_pos
    ]
