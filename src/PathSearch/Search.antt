-- ===== src/PathSearch/Search.antt =====
-- The loops of `getPathMatching`.
use odirion_mmoserver.Base.{
  ℕ, zero, suc, ◌+◌, Bool, true, false, not, ◌&&◌, ◌||◌, Option, none, some, List, [], ◌∷◌, leb,
  if◌then◌else◌,
}
use odirion_mmoserver.Base.Int.{ℤ, pos, sub_ℕ, ltb_ℤ}
use odirion_mmoserver.Position.{
  Position, Direction, north, east, south, west, southwest, southeast, northwest, northeast,
  distance_x, distance_y,
}
use odirion_mmoserver.PathSearch.{
  FindPathParams, Ground, eq_ℤ, can_walk_to, is_in_range, matches, AStarNode, AStarNodes, node_at,
  new_nodes, create_open_node, get_best_node, close_node, open_node, get_node_by_position,
  map_walk_cost, tile_walk_cost, Offset, neighbors_of, shift, l, r,
}

-- The node that is found, and `bestMatch`.
pub record Found : Type 0 where
  pub found : Option ℕ
  pub best_match : ℤ

pub data Outcome : Type 0 where
  out_of_fuel fails : Outcome
  stops : AStarNodes → Option ℕ → Outcome

abbrev pub is_missing : Option ℕ → Bool
is_missing none = true
is_missing (some i) = false

module _ (g : Ground) (fpp : FindPathParams) (target : Position) where
  abbrev pub start : Position
  start = g.position

  -- The position of a node; the floor is that of the creature.
  abbrev pub place : AStarNode → Position
  place n = record { x = n.x; y = n.y; z = start.z }

  abbrev pub neighbor : AStarNode → Offset → Position
  neighbor n d = record { x = shift n.x d.0; y = shift n.y d.1; z = start.z }

  -- The `continue`s before the tile of a neighbour is looked at.
  unfoldable pub is_too_far : Position → Bool
  is_too_far p =
      not (eq_ℤ fpp.max_search_dist (pos 0))
        && (ltb_ℤ fpp.max_search_dist (pos (distance_x start p))
            || ltb_ℤ fpp.max_search_dist (pos (distance_y start p)))
      || fpp.keep_distance && not (is_in_range fpp target start p)

  -- One turn of the loop over the neighbours of the node `i`; `none` where all nodes are taken.
  unfoldable pub visit_neighbor : ℕ → AStarNode → Offset → AStarNodes → Option AStarNodes
  visit_neighbor i n d a =
      let p = neighbor n d in
      let newf = n.f + map_walk_cost n p + tile_walk_cost g p in
      if is_too_far p then some a else elim (get_node_by_position p.x p.y a) [
        | some j ↦ if leb (node_at a.nodes j).f newf then some a else some (open_node j newf i a)
        | none ↦ if can_walk_to g p then create_open_node i p.x p.y newf a else some a
      ]

  -- The loop over the neighbours, and whether it ended because all nodes are taken.
  unfoldable pub visit_neighbors : ℕ → AStarNode → List Offset → AStarNodes → Bool × AStarNodes
  visit_neighbors i n [] a = (false, a)
  visit_neighbors i n (d ∷ ds) a = elim (visit_neighbor i n d a) [
    | none ↦ (true, a)
    | some a' ↦ visit_neighbors i n ds a'
  ]

  -- `found` and `bestMatch` after the test of the best node.
  unfoldable pub look_at_best : ℕ → AStarNode → Found → Found
  look_at_best i n s =
      let m = matches g fpp target start (place n) s.best_match in
      if m.0 then record { found = some i; best_match = m.1 } else s

  unfoldable pub ends_at_best : ℕ → AStarNode → Found → Bool
  ends_at_best i n s =
      let m = matches g fpp target start (place n) s.best_match in m.0 && eq_ℤ m.1 (pos 0)

  -- The main loop.
  unfoldable pub search : ℕ → AStarNodes → Found → Outcome
  search zero a s = out_of_fuel
  search (suc fuel) a s =
      elim (eq_ℤ fpp.max_search_dist (pos 0) && not (ltb_ℤ a.closed_nodes (pos 100))) [
        | true ↦ stops a s.found
        | false ↦ elim (get_best_node a) [
          | none ↦ (if is_missing s.found then fails else stops a s.found)
          | some i ↦
              let n = node_at a.nodes i in
              let s' = look_at_best i n s in
              elim (ends_at_best i n s) [
                | true ↦ stops a s'.found
                | false ↦
                    let v = visit_neighbors i n (neighbors_of fpp a.nodes n) a in
                    elim (v.0 && is_missing s'.found) [
                      | true ↦ fails
                      | false ↦ search fuel (close_node i v.1) s'
                    ]
              ]
        ]
      ]

-- The direction that is pushed for a step back by `dx` and `dy`.
unfoldable pub push_direction : ℤ → ℤ → List Direction → List Direction
push_direction dx dy dirs =
    if eq_ℤ dx r && eq_ℤ dy r
    then northwest ∷ dirs
    else if eq_ℤ dx l && eq_ℤ dy r
    then northeast ∷ dirs
    else if eq_ℤ dx r && eq_ℤ dy l
    then southwest ∷ dirs
    else if eq_ℤ dx l && eq_ℤ dy l
    then southeast ∷ dirs
    else if eq_ℤ dx r
    then west ∷ dirs
    else if eq_ℤ dx l
    then east ∷ dirs
    else if eq_ℤ dy r
    then north ∷ dirs
    else if eq_ℤ dy l
    then south ∷ dirs
    else dirs

-- The loop from a node to its parents, with the node before.
unfoldable pub trace_back :
    ℕ → List AStarNode → Option ℕ → ℕ → ℕ → List Direction → Option (List Direction)
trace_back fuel ns none prev_x prev_y dirs = some dirs
trace_back zero ns (some i) prev_x prev_y dirs = none
trace_back (suc fuel) ns (some i) prev_x prev_y dirs =
    let n = node_at ns i in
    trace_back fuel ns n.parent n.x n.y (push_direction (sub_ℕ n.x prev_x) (sub_ℕ n.y prev_y) dirs)

-- A path, that there is none, or fuel that was not enough.
pub data Answer : Type 0 where
  path : List Direction → Answer
  no_path unfinished : Answer

-- After the main loop. A parent has a smaller `f`, which so bounds the way back.
unfoldable pub path_back : AStarNodes → Option ℕ → Answer
path_back a none = no_path
path_back a (some i) =
    let n = node_at a.nodes i in
    elim (trace_back (suc n.f) a.nodes n.parent n.x n.y []) [
      | none ↦ unfinished
      | some dirs ↦ path dirs
    ]

-- More than the turns that the main loop can take.
abbrev pub enough_turns : ℕ
enough_turns = 123000000

-- `getPathMatching`.
unfoldable pub get_path_matching : Ground → FindPathParams → Position → Answer
get_path_matching g fpp target =
    elim (search g fpp target enough_turns (new_nodes g.position.x g.position.y)
      (record { found = none; best_match = pos 0 })) [
        | out_of_fuel ↦ unfinished
        | fails ↦ no_path
        | stops a found ↦ path_back a found
      ]
