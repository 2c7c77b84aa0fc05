-- ===== src/PathSearch/Trace.antt =====
-- The way back from the node that is found.
use odirion_mmoserver.Base.{
  ℕ, zero, suc, ◌+◌, ◌^◌, ◌≤◌, ◌<◌, ◌≡◌, ◌⊎◌, refl, sym, ap, subst, ◌∙◌, inl, inr, true, some, List,
  [], ◌∷◌, arith, length, u16, sub16,
}
use odirion_mmoserver.Base.Int.{sub_ℕ}
use odirion_mmoserver.Position.{
  Position, Direction, north, east, south, west, southwest, southeast, northwest, northeast,
  next_position,
}
use odirion_mmoserver.PathSearch.{Ground, eq_ℤ, can_walk_to, AStarNodes, node_at, l, o, r}
use odirion_mmoserver.PathSearch.Search.{push_direction, trace_back}
use odirion_mmoserver.PathSearch.Nodes.{IsNear, place_of, IsSearch}

-- A walk on tiles that the creature can walk to.
abbrev pub IsWalk : Ground → Position → List Direction → Position → Type 0
IsWalk g p [] q = p ≡ q
IsWalk g p (d ∷ ds) q =
    (can_walk_to g (next_position d p) ≡ true) × IsWalk g (next_position d p) ds q

abbrev at : ℕ → ℕ → ℕ → Position
at x y z = record { x = x; y = y; z = z }

-- The direction that is pushed, which leads from the parent to the child.
record IsPushed (px py cx cy z : ℕ) (dirs : List Direction) : Type 0 where
  direction : Direction
  pushed : push_direction (sub_ℕ px cx) (sub_ℕ py cy) dirs ≡ direction ∷ dirs
  leads : next_position direction (at px py z) ≡ at cx cy z

sub_r : (p c : ℕ) → p ≡ c + 1 → sub_ℕ p c ≡ r
sub_r p c e = rw e (ground arith)

sub_o : (p c : ℕ) → p ≡ c → sub_ℕ p c ≡ o
sub_o p c e = rw e (ground arith)

sub_l : (p c : ℕ) → c ≡ p + 1 → sub_ℕ p c ≡ l
sub_l p c e = rw e (ground arith)

back : (p c : ℕ) → p ≡ c + 1 → p < 2 ^ 16 → sub16 p 1 ≡ c
back p c e h = omega (arith, e, h)

forth : (p c : ℕ) → c ≡ p + 1 → c < 2 ^ 16 → u16 (p + 1) ≡ c
forth p c e h = omega (arith, e, h)

same_place : {x x' y y' : ℕ} (z : ℕ) → x ≡ x' → y ≡ y' → at x y z ≡ at x' y' z
same_place z ex ey = λ k. record { x = ex k; y = ey k; z = z }

cases_beside : (p c : ℕ) → p ≤ c + 1 → c ≤ p + 1 → (p ≡ c + 1) ⊎ (p ≡ c) ⊎ (c ≡ p + 1)
cases_beside p c h k = ground arith

module _ (px py cx cy z : ℕ) (n : IsNear px py cx cy) (bx : (px < 2 ^ 16) × (cx < 2 ^ 16))
    (by : (py < 2 ^ 16) × (cy < 2 ^ 16)) (dirs : List Direction) where
  near-IsPushed : IsPushed px py cx cy z dirs
  unfolding next_position push_direction eq_ℤ
  near-IsPushed = elim (cases_beside px cx n.left n.right) [
    | inl ex ↦ elim (cases_beside py cy n.up n.down) [
      | inl ey ↦ record {
        direction = northwest;
        pushed = rw (sub_r px cx ex, sub_r py cy ey, push_direction, eq_ℤ) refl;
        leads = same_place z (back px cx ex bx.0) (back py cy ey by.0);
      }
      | inr (inl ey) ↦ record {
        direction = west;
        pushed = rw (sub_r px cx ex, sub_o py cy ey, push_direction, eq_ℤ) refl;
        leads = same_place z (back px cx ex bx.0) ey;
      }
      | inr (inr ey) ↦ record {
        direction = southwest;
        pushed = rw (sub_r px cx ex, sub_l py cy ey, push_direction, eq_ℤ) refl;
        leads = same_place z (back px cx ex bx.0) (forth py cy ey by.1);
      }
    ]
    | inr (inl ex) ↦ elim (cases_beside py cy n.up n.down) [
      | inl ey ↦ record {
        direction = north;
        pushed = rw (sub_o px cx ex, sub_r py cy ey, push_direction, eq_ℤ) refl;
        leads = same_place z ex (back py cy ey by.0);
      }
      | inr (inl ey) ↦ elim n.apart [ inl k ↦ absurd (k ex) | inr k ↦ absurd (k ey) ]
      | inr (inr ey) ↦ record {
        direction = south;
        pushed = rw (sub_o px cx ex, sub_l py cy ey, push_direction, eq_ℤ) refl;
        leads = same_place z ex (forth py cy ey by.1);
      }
    ]
    | inr (inr ex) ↦ elim (cases_beside py cy n.up n.down) [
      | inl ey ↦ record {
        direction = northeast;
        pushed = rw (sub_l px cx ex, sub_r py cy ey, push_direction, eq_ℤ) refl;
        leads = same_place z (forth px cx ex bx.1) (back py cy ey by.0);
      }
      | inr (inl ey) ↦ record {
        direction = east;
        pushed = rw (sub_l px cx ex, sub_o py cy ey, push_direction, eq_ℤ) refl;
        leads = same_place z (forth px cx ex bx.1) ey;
      }
      | inr (inr ey) ↦ record {
        direction = southeast;
        pushed = rw (sub_l px cx ex, sub_l py cy ey, push_direction, eq_ℤ) refl;
        leads = same_place z (forth px cx ex bx.1) (forth py cy ey by.1);
      }
    ]
  ]

-- From any node, the way back ends at the start, since each parent is cheaper.
module _ (g : Ground) (a : AStarNodes) (s : IsSearch g a) (q : Position) where
  pub trace_back-IsWalk :
      (fuel j : ℕ) (dirs : List Direction)
      → j < length a.nodes
      → (node_at a.nodes j).f < fuel
      → IsWalk g (place_of g (node_at a.nodes j)) dirs q
      → (ds : List Direction) × (trace_back fuel a.nodes
            (node_at a.nodes j).parent
            (node_at a.nodes j).x
            (node_at a.nodes j).y
            dirs
          ≡ some ds)
        × IsWalk g g.position ds q
  unfolding trace_back
  trace_back-IsWalk zero j dirs b less w = absurd (omega (arith, less))
  trace_back-IsWalk (suc fuel) j dirs b less w = elim (s.tree j b).origin [
    | inl root ↦
        (dirs, rw (root.orphan, trace_back) refl, subst (λ p. IsWalk g p dirs q) root.at_start w)
    | inr (i, p) ↦
        let parent = node_at a.nodes i in
        let child = node_at a.nodes j in
        let bi = (s.tree i p.is_node).inner in
        let bj = (s.tree j b).inner in
        let step =
          near-IsPushed parent.x parent.y child.x child.y g.position.z p.near
            (omega (arith, bi), omega (arith, bj)) (omega (arith, bi), omega (arith, bj)) dirs in
        let first : can_walk_to g (next_position step.direction (place_of g parent)) ≡ true =
          ap (can_walk_to g) step.leads ∙ p.walkable in
        let rest : IsWalk g (next_position step.direction (place_of g parent)) dirs q =
          subst (λ v. IsWalk g v dirs q) (sym step.leads) w in
        let (ds, e, walk) =
          trace_back-IsWalk fuel i (step.direction ∷ dirs) p.is_node
            (omega (arith, less, p.cheaper)) (first, rest) in
        (ds, rw (p.points, step.pushed, trace_back) e, walk)
  ]
