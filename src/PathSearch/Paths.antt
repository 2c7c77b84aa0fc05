-- ===== src/PathSearch/Paths.antt =====
-- The whole of `getPathMatching`.
use odirion_mmoserver.Base.{
  ℕ, suc, ◌<◌, ◌≡◌, ◌⊎◌, refl, ap, subst, inl, inr, Bool, true, false, Option, none, some, List, [],
  arith, ◌==◌, Bool-cases, Option-cases,
}
use odirion_mmoserver.Base.Int.{pos}
use odirion_mmoserver.Position.{Position, Direction}
use odirion_mmoserver.Position.Steps.{IsInner}
use odirion_mmoserver.PathSearch.{
  FindPathParams, Ground, matches, AStarNodes, node_at, table_key, new_nodes, find_key,
}
use odirion_mmoserver.PathSearch.Search.{
  Found, Outcome, trace_back, out_of_fuel, fails, stops, search, Answer, path, no_path, unfinished,
  path_back, enough_turns, get_path_matching,
}
use odirion_mmoserver.PathSearch.Nodes.{table_key-injective, place_of, IsNode, IsSearch}
use odirion_mmoserver.PathSearch.Neighbors.{IsInnerGround}
use odirion_mmoserver.PathSearch.Loop.{IsEnd, IsFoundIn, IsDone, search-IsDone}
use odirion_mmoserver.PathSearch.Kept.{HasFound, first_found, search-at_start}
use odirion_mmoserver.PathSearch.Trace.{IsWalk, trace_back-IsWalk}

pub new_nodes-IsSearch :
    (g : Ground) → IsInner g.position → IsSearch g (new_nodes g.position.x g.position.y)
unfolding new_nodes find_key
new_nodes-IsSearch g inner = record {
  tree = λ i b.
      let first : 0 ≡ i = omega (arith, b) in
      subst (IsNode g (new_nodes g.position.x g.position.y).nodes) first (record {
        inner = inner;
        f_bound = omega arith;
        origin = inl (record { is_first = refl; orphan = refl; at_start = refl });
      });
  table = λ x y i h e. elim (Bool-cases (table_key g.position.x g.position.y == table_key x y)) [
    | inl q ↦
        let first : 0 ≡ i = ground arith in
        let same =
          table_key-injective g.position.x g.position.y x y
            (omega (arith, inner), omega (arith, inner)) h (ground arith) in
        subst
          (λ k.
            (k < 1)
            × ((node_at (new_nodes g.position.x g.position.y).nodes k).x ≡ x)
            × ((node_at (new_nodes g.position.x g.position.y).nodes k).y ≡ y))
          first (omega arith, same.0, same.1)
    | inr q ↦ absurd (ground arith)
  ];
  some_node = omega arith;
  at_most = omega arith;
}

module _ (g : Ground) (fpp : FindPathParams) (target : Position) where
  -- A walk from the creature's place to a tile where a path may end.
  pub record IsPath (ds : List Direction) : Type 0 where
    pub end : Position
    pub walk : IsWalk g g.position ds end
    pub ends : IsEnd g fpp target end

  abbrev IsRight : Answer → Type 0
  IsRight unfinished = ⊥
  IsRight no_path = Unit
  IsRight (path ds) = IsPath ds

  path_back-IsRight :
      (a : AStarNodes) (found : Option ℕ)
      → IsSearch g a
      → IsFoundIn g fpp target a found
      → IsRight (path_back a found)
  unfolding path_back
  path_back-IsRight a none s h = tt
  path_back-IsRight a (some i) s (b, ends) =
      let n = node_at a.nodes i in
      let (ds, e, walk) =
        trace_back-IsWalk g a s (place_of g n) (suc n.f) i [] b (omega arith) refl in
      rw (e, path_back) (record { end = place_of g n; walk = walk; ends = ends })

  outcome-IsRight :
      (c : Outcome)
      → IsDone g fpp target c
      → IsRight (elim c [
        | out_of_fuel ↦ unfinished
        | fails ↦ no_path
        | stops a found ↦ path_back a found
      ])
  outcome-IsRight out_of_fuel h = absurd h
  outcome-IsRight fails h = tt
  outcome-IsRight (stops a found) (s, h) = path_back-IsRight a found s h

  get_path_matching-IsRight :
      IsInner g.position → IsInnerGround g → IsRight (get_path_matching g fpp target)
  unfolding get_path_matching new_nodes
  get_path_matching-IsRight inner w =
      let first : Found = record { found = none; best_match = pos 0 } in
      let nodes = new_nodes g.position.x g.position.y in
      outcome-IsRight (search g fpp target enough_turns nodes first) (
        search-IsDone g fpp target enough_turns nodes first w (new_nodes-IsSearch g inner) tt
          (omega arith))

-- For a creature away from the edge of the map, where each tile to walk to is so too, the search comes to its end.
-- It finds no path, or a path each of whose steps leads to a tile that the creature can walk to, and which ends at
-- a tile that is in the range asked for, in sight of the target if that is asked for, and neither too near it nor
-- too far.
pub get_path_matching-found :
    (g : Ground) (fpp : FindPathParams) (target : Position)
    → IsInner g.position
    → IsInnerGround g
    → (get_path_matching g fpp target ≡ no_path)
      ⊎ ((ds : List Direction) × (get_path_matching g fpp target ≡ path ds)
          × IsPath g fpp target ds)
get_path_matching-found g fpp target inner w =
    cases_right (get_path_matching g fpp target) (get_path_matching-IsRight g fpp target inner w)
  where
    cases_right :
        (c : Answer)
        → IsRight g fpp target c
        → (c ≡ no_path) ⊎ ((ds : List Direction) × (c ≡ path ds) × IsPath g fpp target ds)
    cases_right no_path h = inl refl
    cases_right unfinished h = absurd h
    cases_right (path ds) h = inr (ds, refl, h)

is_no_path : Answer → Bool
is_no_path no_path = true
is_no_path _ = false

path_back-some : (a : AStarNodes) (i : ℕ) → is_no_path (path_back a (some i)) ≡ false
unfolding path_back is_no_path
path_back-some a i =
    let n = node_at a.nodes i in
    elim (Option-cases (trace_back (suc n.f) a.nodes n.parent n.x n.y [])) [
      | inl e ↦ rw (e, path_back) refl
      | inr (ds, e) ↦ rw (e, path_back) refl
    ]

outcome-HasFound :
    (c : Outcome)
    → HasFound c
    → is_no_path
        (elim c [ out_of_fuel ↦ unfinished | fails ↦ no_path | stops a found ↦ path_back a found ])
      ≡ false
unfolding is_no_path
outcome-HasFound out_of_fuel h = refl
outcome-HasFound fails h = absurd h
outcome-HasFound (stops a none) h = absurd (ground arith)
outcome-HasFound (stops a (some i)) h = path_back-some a i

-- A creature that stands where a path may end gets a path, away from the edge of the map as above.
pub get_path_matching-at_start :
    (g : Ground) (fpp : FindPathParams) (target : Position)
    → IsInner g.position
    → IsInnerGround g
    → (matches g fpp target g.position g.position (pos 0)).0 ≡ true
    → (ds : List Direction) × (get_path_matching g fpp target ≡ path ds) × IsPath g fpp target ds
unfolding get_path_matching is_no_path
get_path_matching-at_start g fpp target inner w here =
    let some_path =
      outcome-HasFound
        (search g fpp target enough_turns (new_nodes g.position.x g.position.y)
          (first_found g fpp target))
        (search-at_start g fpp target here) in
    elim (get_path_matching-found g fpp target inner w) [
      | inl e ↦
          let none_found : is_no_path (get_path_matching g fpp target) ≡ true = ap is_no_path e in
          absurd (ground arith)
      | inr found ↦ found
    ]
