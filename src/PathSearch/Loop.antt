-- ===== src/PathSearch/Loop.antt =====
-- The main loop of `getPathMatching`.
use odirion_mmoserver.Base.{
  ℕ, zero, suc, ◌<◌, ◌≡◌, refl, sym, ap, subst, ◌∙◌, inl, inr, true, false, not, ◌&&◌, Option, none,
  some, arith, max, length, Bool-cases, Option-cases,
}
use odirion_mmoserver.Base.Int.{ℤ, pos, ltb_ℤ}
use odirion_mmoserver.Position.{Position, distance_x, distance_y}
use odirion_mmoserver.PathSearch.{
  FindPathParams, Ground, eq_ℤ, is_in_range, matches, AStarNodes, node_at, get_best_node,
  close_node, neighbors_of,
}
use odirion_mmoserver.PathSearch.Search.{
  visit_neighbors, Found, Outcome, is_missing, out_of_fuel, fails, stops, look_at_best,
  ends_at_best, search,
}
use odirion_mmoserver.PathSearch.Nodes.{place_of, IsSearch, IsLater}
use odirion_mmoserver.PathSearch.Visits.{
  left_to_do, close_node-IsSearch, close_node-IsLater, close_node-left_to_do,
}
use odirion_mmoserver.PathSearch.Best.{get_best_node-open}
use odirion_mmoserver.PathSearch.Neighbors.{
  IsInnerGround, neighbors_of-offsets, visit_neighbors-IsVisit,
}

-- Where a path may end.
pub record IsEnd (g : Ground) (fpp : FindPathParams) (target p : Position) : Type 0 where
  pub in_range : is_in_range fpp target g.position p ≡ true
  pub in_sight : (fpp.clear_sight && not (g.is_sight_clear p target)) ≡ false
  pub far_enough :
      ltb_ℤ (pos (max (distance_x target p) (distance_y target p))) fpp.min_target_dist ≡ false
  pub near_enough :
      ltb_ℤ fpp.max_target_dist (pos (max (distance_x target p) (distance_y target p))) ≡ false

matches-IsEnd :
    (g : Ground) (fpp : FindPathParams) (target p : Position) (best : ℤ)
    → (matches g fpp target g.position p best).0 ≡ true
    → IsEnd g fpp target p
unfolding matches
matches-IsEnd g fpp target p best e = record {
  in_range = ground arith;
  in_sight = ground arith;
  far_enough = ground arith;
  near_enough = ground arith;
}

module _ (g : Ground) (fpp : FindPathParams) (target : Position) where
  -- The node that is found, if any, is one where a path may end.
  abbrev pub IsFoundIn : AStarNodes → Option ℕ → Type 0
  IsFoundIn a none = Unit
  IsFoundIn a (some i) = (i < length a.nodes) × IsEnd g fpp target (place_of g (node_at a.nodes i))

  abbrev pub IsDone : Outcome → Type 0
  IsDone out_of_fuel = ⊥
  IsDone fails = Unit
  IsDone (stops a found) = IsSearch g a × IsFoundIn a found

  IsFoundIn-later :
      (a a' : AStarNodes) (found : Option ℕ)
      → IsLater a.nodes a'.nodes
      → IsFoundIn a found
      → IsFoundIn a' found
  IsFoundIn-later a a' none h k = tt
  IsFoundIn-later a a' (some i) h (b, e) =
      let same : place_of g (node_at a'.nodes i) ≡ place_of g (node_at a.nodes i) =
        λ k. record { x = h.same_x i b k; y = h.same_y i b k; z = g.position.z } in
      (omega (arith, b, h.grows), subst (IsEnd g fpp target) (sym same) e)

  look_at_best-IsFoundIn :
      (a : AStarNodes) (i : ℕ) (s : Found)
      → i < length a.nodes
      → IsFoundIn a s.found
      → IsFoundIn a (look_at_best g fpp target i (node_at a.nodes i) s).found
  unfolding look_at_best
  look_at_best-IsFoundIn a i s b h =
      let p = place_of g (node_at a.nodes i) in
      elim (Bool-cases (matches g fpp target g.position p s.best_match).0) [
        | inl y ↦ rw y (b, matches-IsEnd g fpp target p s.best_match y)
        | inr n ↦ rw n h
      ]

  -- A turn closes an open node, so enough fuel brings the loop to its end.
  pub search-IsDone :
      (fuel : ℕ) (a : AStarNodes) (s : Found)
      → IsInnerGround g
      → IsSearch g a
      → IsFoundIn a s.found
      → left_to_do a < fuel
      → IsDone (search g fpp target fuel a s)
  unfolding search
  search-IsDone zero a s w t h less = absurd (omega (arith, less))
  search-IsDone (suc fuel) a s w t h less =
      elim (Bool-cases (eq_ℤ fpp.max_search_dist (pos 0) && not (ltb_ℤ a.closed_nodes (pos 100)))) [
        | inl y ↦ rw (y, search) (t, h)
        | inr go ↦ elim (Option-cases (get_best_node a)) [
          | inl e ↦ elim (Option-cases s.found) [
            | inl q ↦ rw (go, e, q, search) tt
            | inr (j, q) ↦ rw (go, e, q, search) (t, subst (IsFoundIn a) q h)
          ]
          | inr (i, e) ↦
              let best = get_best_node-open a i e in
              let n = node_at a.nodes i in
              let s' = look_at_best g fpp target i n s in
              let h' = look_at_best-IsFoundIn a i s best.0 h in
              elim (Bool-cases (ends_at_best g fpp target i n s)) [
                | inl y ↦ rw (go, e, y, search) (t, h')
                | inr more ↦
                    let v = visit_neighbors g fpp target i n (neighbors_of fpp a.nodes n) a in
                    let visit =
                      visit_neighbors-IsVisit g fpp target w a t i best.0 n refl
                        (neighbors_of fpp a.nodes n) (neighbors_of-offsets fpp a.nodes n) in
                    let b : i < length v.1.nodes = omega (arith, best.0, visit.later.grows) in
                    let opened : (node_at v.1.nodes i).is_open ≡ true =
                      ap (λ m. m.is_open) visit.same_node ∙ best.1 in
                    let closed = close_node i v.1 in
                    elim (Bool-cases (v.0 && is_missing s'.found)) [
                      | inl y ↦ rw (go, e, more, y, search) tt
                      | inr y ↦
                          rw (go, e, more, y, search)
                            (search-IsDone fuel closed s' w
                              (close_node-IsSearch g i v.1 visit.search b)
                              (IsFoundIn-later v.1 closed s'.found (close_node-IsLater g i v.1 b)
                                (IsFoundIn-later a v.1 s'.found visit.later h'))
                              (omega
                                (arith, less, visit.less, close_node-left_to_do g i v.1 b opened)))
                    ]
              ]
        ]
      ]
