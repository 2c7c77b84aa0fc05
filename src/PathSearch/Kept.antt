-- ===== src/PathSearch/Kept.antt =====
-- The node that is found is kept.
use odirion_mmoserver.Base.{
  ℕ, zero, suc, ◌≡◌, refl, inl, inr, true, false, not, ◌&&◌, none, arith, Bool-cases, Option-cases,
}
use odirion_mmoserver.Base.Int.{pos, ltb_ℤ}
use odirion_mmoserver.Position.{Position}
use odirion_mmoserver.PathSearch.{
  FindPathParams, Ground, eq_ℤ, matches, AStarNode, AStarNodes, node_at, new_nodes, best_from,
  get_best_node, close_node, neighbors_of,
}
use odirion_mmoserver.PathSearch.Search.{
  is_missing, visit_neighbors, Found, Outcome, out_of_fuel, fails, stops, look_at_best,
  ends_at_best, search, enough_turns,
}
use odirion_mmoserver.PathSearch.Nodes.{place_of}

abbrev pub HasFound : Outcome → Type 0
HasFound out_of_fuel = Unit
HasFound fails = ⊥
HasFound (stops a found) = is_missing found ≡ false

module _ (g : Ground) (fpp : FindPathParams) (target : Position) where
  look_at_best-keeps :
      (i : ℕ) (n : AStarNode) (s : Found)
      → is_missing s.found ≡ false
      → is_missing (look_at_best g fpp target i n s).found ≡ false
  unfolding look_at_best
  look_at_best-keeps i n s h =
      elim (Bool-cases (matches g fpp target g.position (place_of g n) s.best_match).0) [
        | inl y ↦ rw y refl
        | inr no_match ↦ rw no_match h
      ]

  -- A node that was found once is never forgotten.
  search-HasFound :
      (fuel : ℕ) (a : AStarNodes) (s : Found)
      → is_missing s.found ≡ false
      → HasFound (search g fpp target fuel a s)
  unfolding search
  search-HasFound zero a s h = tt
  search-HasFound (suc fuel) a s h =
      elim (Bool-cases (eq_ℤ fpp.max_search_dist (pos 0) && not (ltb_ℤ a.closed_nodes (pos 100)))) [
        | inl y ↦ rw (y, search) h
        | inr go ↦ elim (Option-cases (get_best_node a)) [
          | inl e ↦ rw (go, e, h, search) h
          | inr (i, e) ↦
              let n = node_at a.nodes i in
              let s' = look_at_best g fpp target i n s in
              let h' = look_at_best-keeps i n s h in
              let v = visit_neighbors g fpp target i n (neighbors_of fpp a.nodes n) a in
              elim (Bool-cases (ends_at_best g fpp target i n s)) [
                | inl y ↦ rw (go, e, y, search) h'
                | inr more ↦
                    let on : (v.0 && is_missing s'.found) ≡ false = ground (arith, h') in
                    rw (go, e, more, on, search) (search-HasFound fuel (close_node i v.1) s' h')
              ]
        ]
      ]

  abbrev pub first_found : Found
  first_found = record { found = none; best_match = pos 0 }

  -- The first turn looks at the creature's own place.
  search-first_turn :
      (fuel : ℕ)
      → (matches g fpp target g.position g.position (pos 0)).0 ≡ true
      → HasFound (search g fpp target (suc fuel) (new_nodes g.position.x g.position.y) first_found)
  unfolding search look_at_best get_best_node best_from new_nodes
  search-first_turn fuel here =
      let a = new_nodes g.position.x g.position.y in
      let n = node_at a.nodes 0 in
      let go : (eq_ℤ fpp.max_search_dist (pos 0) && false) ≡ false = ground arith in
      let h' : is_missing (look_at_best g fpp target 0 n first_found).found ≡ false =
        rw (here, look_at_best) refl in
      let v = visit_neighbors g fpp target 0 n (neighbors_of fpp a.nodes n) a in
      elim (Bool-cases (ends_at_best g fpp target 0 n first_found)) [
        | inl y ↦ rw (go, y, search) h'
        | inr more ↦
            let on : (v.0 && is_missing (look_at_best g fpp target 0 n first_found).found) ≡ false =
              ground (arith, h') in
            rw (go, more, on, search)
              (search-HasFound fuel (close_node 0 v.1) (look_at_best g fpp target 0 n first_found)
                h')
      ]

  pub search-at_start :
      (matches g fpp target g.position g.position (pos 0)).0 ≡ true
      → HasFound
          (search g fpp target enough_turns (new_nodes g.position.x g.position.y) first_found)
  search-at_start here = search-first_turn 122999999 here
