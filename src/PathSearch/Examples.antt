-- ===== src/PathSearch/Examples.antt =====
-- The search for a path on a passage of five tiles.
use odirion_mmoserver.Base.{
  ℕ, ◌<◌, ◌≡◌, ◌⊎◌, refl, true, false, ◌&&◌, none, some, List, [], ◌∷◌, arith, leb, ◌==◌, length,
}
use odirion_mmoserver.Base.Int.{pos, ◌+ℤ◌, ◌-ℤ◌}
use odirion_mmoserver.Position.{
  Position, Direction, east, equals, distance_x, distance_y, offset_x, offset_y,
}
use odirion_mmoserver.Position.Steps.{IsInner}
use odirion_mmoserver.PathSearch.{
  FindPathParams, Ground, walk_cache, can_walk_to, matches, is_in_range, eq_ℤ, AStarNodes, node_at,
  new_nodes, get_best_node, all_neighbors, best_from, Offset, neighbors_of, side_of, dir_neighbors,
  shift, map_walk_cost, tile_walk_cost, close_node, open_node, create_open_node,
  get_node_by_position, find_key, table_key,
}
use odirion_mmoserver.PathSearch.Search.{
  visit_neighbors, visit_neighbor, is_too_far, look_at_best, ends_at_best, search, push_direction,
  trace_back, path_back, path, no_path, get_path_matching,
}
use odirion_mmoserver.PathSearch.Nodes.{IsSearch}
use odirion_mmoserver.PathSearch.Neighbors.{
  IsInnerGround, neighbors_of-offsets, visit_neighbors-IsVisit,
}
use odirion_mmoserver.PathSearch.Best.{IsBelowOpen, get_best_node-cheapest}
use odirion_mmoserver.PathSearch.Paths.{
  IsPath, new_nodes-IsSearch, get_path_matching-found, get_path_matching-at_start,
}

abbrev passage : Ground
passage = record {
  position = record { x = 100; y = 100; z = 7 };
  use_cache_map = false;
  local_map_cache = λ dx dy. false;
  has_tile = λ p. leb 100 p.x && leb p.x 104 && p.y == 100;
  may_add = λ p. true;
  has_creature = λ p. false;
  field_hurts = λ p. false;
  is_sight_clear = λ p q. true;
}

abbrev beside_target : FindPathParams
beside_target = record {
  full_path_search = true;
  clear_sight = true;
  allow_diagonal = true;
  keep_distance = false;
  max_search_dist = pos 0;
  min_target_dist = pos 1;
  max_target_dist = pos 1;
}

abbrev target : Position
target = record { x = 103; y = 100; z = 7 }

abbrev next_to_start : Position
next_to_start = record { x = 101; y = 100; z = 7 }

passage-IsInnerGround : IsInnerGround passage
unfolding can_walk_to walk_cache equals
passage-IsInnerGround p e = ground arith

abbrev start-IsInner : IsInner passage.position
start-IsInner = (omega arith, omega arith, omega arith, omega arith)

-- The search finds the two steps to the tile beside the target.
two_steps : get_path_matching passage beside_target target ≡ path (east ∷ east ∷ [])
unfolding get_path_matching path_back trace_back push_direction search ends_at_best look_at_best
    visit_neighbors visit_neighbor is_too_far matches is_in_range get_best_node best_from close_node
    open_node create_open_node new_nodes get_node_by_position find_key table_key neighbors_of
    side_of all_neighbors dir_neighbors shift map_walk_cost tile_walk_cost can_walk_to walk_cache
    eq_ℤ equals distance_x distance_y offset_x offset_y ◌+ℤ◌ ◌-ℤ◌
two_steps = refl

get_path_matching-found_example :
    (get_path_matching passage beside_target target ≡ no_path)
    ⊎ ((ds : List Direction) × (get_path_matching passage beside_target target ≡ path ds)
        × IsPath passage beside_target target ds)
get_path_matching-found_example =
    get_path_matching-found passage beside_target target start-IsInner passage-IsInnerGround

start_matches :
    (matches passage beside_target next_to_start passage.position passage.position (pos 0)).0 ≡ true
unfolding matches is_in_range eq_ℤ distance_x distance_y offset_x offset_y ◌+ℤ◌ ◌-ℤ◌
start_matches = refl

get_path_matching-at_start_example :
    (ds : List Direction) × (get_path_matching passage beside_target next_to_start ≡ path ds)
    × IsPath passage beside_target next_to_start ds
get_path_matching-at_start_example =
    get_path_matching-at_start passage beside_target next_to_start start-IsInner
      passage-IsInnerGround start_matches

abbrev first_nodes : AStarNodes
first_nodes = new_nodes 100 100

abbrev offsets : List Offset
offsets = neighbors_of beside_target first_nodes.nodes (node_at first_nodes.nodes 0)

-- The nodes after the visit of the first one's neighbours.
abbrev visited : AStarNodes
visited =
    (visit_neighbors passage beside_target target 0 (node_at first_nodes.nodes 0) offsets
      first_nodes).1

visited-IsSearch : IsSearch passage visited
unfolding new_nodes
visited-IsSearch =
    (visit_neighbors-IsVisit passage beside_target target passage-IsInnerGround first_nodes
      (new_nodes-IsSearch passage start-IsInner) 0 (omega arith) (node_at first_nodes.nodes 0) refl
      offsets
      (neighbors_of-offsets beside_target first_nodes.nodes (node_at first_nodes.nodes 0))).search

get_best_node-cheapest_example :
    ((get_best_node visited ≡ none)
      × ((k : ℕ) → k < length visited.nodes → (node_at visited.nodes k).is_open ≡ false))
    ⊎ ((i : ℕ) × (get_best_node visited ≡ some i)
        × (i < length visited.nodes)
        × ((node_at visited.nodes i).is_open ≡ true)
        × IsBelowOpen (node_at visited.nodes i).f visited.nodes)
get_best_node-cheapest_example = get_best_node-cheapest passage visited visited-IsSearch
