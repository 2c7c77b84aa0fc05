-- ===== src/PathSearch.antt =====
-- The search for a path: `AStarNodes`, `canWalkTo` and `getPathMatching` of map.cpp, and `getWalkCache` and the
-- condition on the end of a path of creature.cpp. What they ask of tiles is in `Ground`.
pub mod Search
pub mod Nodes
pub mod Visits
pub mod Neighbors
pub mod Best
pub mod Loop
pub mod Kept
pub mod Trace
pub mod Paths
mod Examples
use odirion_mmoserver.Base.{
  ℕ, zero, suc, ◌+◌, ◌-◌, ◌*◌, ◌^◌, Bool, true, false, not, ◌&&◌, ◌||◌, Option, none, some, List,
  [], ◌∷◌, ◌++◌, ltb, leb, ◌==◌, if◌then◌else◌, max, u16, u32, bit_or, ◌<<<◌, length, get_or, set,
  take,
}
use odirion_mmoserver.Base.Int.{
  ℤ, pos, negsuc, pos_part, neg_part, sub_ℕ, ◌+ℤ◌, ◌-ℤ◌, ltb_ℤ, leb_ℤ, abs,
}
use odirion_mmoserver.Position.{
  Position, Direction, north, east, south, west, southwest, southeast, northwest, northeast,
  offset_x, offset_y, distance_x, distance_y, equals,
}

-- `FindPathParams`.
pub record FindPathParams : Type 0 where
  pub full_path_search : Bool
  pub clear_sight : Bool
  pub allow_diagonal : Bool
  pub keep_distance : Bool
  pub max_search_dist : ℤ
  pub min_target_dist : ℤ
  pub max_target_dist : ℤ

-- What the search meets: the creature's place and its cache, and what tiles answer to it.
pub record Ground : Type 0 where
  pub position : Position
  pub use_cache_map : Bool
  pub local_map_cache : ℤ → ℤ → Bool
  pub has_tile : Position → Bool
  pub may_add : Position → Bool
  pub has_creature : Position → Bool
  pub field_hurts : Position → Bool
  pub is_sight_clear : Position → Position → Bool

unfoldable pub eq_ℤ : ℤ → ℤ → Bool
eq_ℤ (pos a) (pos b) = a == b
eq_ℤ (negsuc a) (negsuc b) = a == b
eq_ℤ _ _ = false

-- `getWalkCache`, with the cache by its offsets from the middle.
unfoldable pub walk_cache : Ground → Position → ℕ
walk_cache g p =
    let dx = offset_x p g.position in
    let dy = offset_y p g.position in
    if not g.use_cache_map
    then 2
    else if not (g.position.z == p.z)
    then 0
    else if equals p g.position
    then 1
    else if leb (abs dx) 11 && leb (abs dy) 11
    then (if g.local_map_cache dx dy then 1 else 0)
    else 2

-- `canWalkTo`: whether there is a tile to walk to.
unfoldable pub can_walk_to : Ground → Position → Bool
can_walk_to g p =
    if walk_cache g p == 0
    then false
    else if walk_cache g p == 1
    then g.has_tile p
    else if equals p g.position
    then true
    else g.has_tile p && g.may_add p

-- `isInRange` of the condition.
unfoldable pub is_in_range : FindPathParams → Position → Position → Position → Bool
is_in_range fpp target start test =
    let dx = offset_x start target in
    let dy = offset_y start target in
    let far = fpp.max_target_dist in
    let dx_max = if leb_ℤ (pos 0) dx then far else pos 0 in
    let dx_min = if leb_ℤ dx (pos 0) then far else pos 0 in
    let dy_max = if leb_ℤ (pos 0) dy then far else pos 0 in
    let dy_min = if leb_ℤ dy (pos 0) then far else pos 0 in
    if fpp.full_path_search
    then not (ltb_ℤ (pos target.x +ℤ far) (pos test.x))
      && not (ltb_ℤ (pos test.x) (pos target.x -ℤ far))
      && not (ltb_ℤ (pos target.y +ℤ far) (pos test.y))
      && not (ltb_ℤ (pos test.y) (pos target.y -ℤ far))
    else not (ltb_ℤ (pos target.x +ℤ dx_max) (pos test.x))
      && not (ltb_ℤ (pos test.x) (pos target.x -ℤ dx_min))
      && not (ltb_ℤ (pos target.y +ℤ dy_max) (pos test.y))
      && not (ltb_ℤ (pos test.y) (pos target.y -ℤ dy_min))

-- `operator()` of the condition: its answer, and `bestMatchDist` afterwards.
unfoldable pub matches : Ground → FindPathParams → Position → Position → Position → ℤ → Bool × ℤ
matches g fpp target start test best =
    let test_dist = pos (max (distance_x target test) (distance_y target test)) in
    if not (is_in_range fpp target start test)
    then (false, best)
    else if fpp.clear_sight && not (g.is_sight_clear test target)
    then (false, best)
    else if eq_ℤ fpp.max_target_dist (pos 1)
    then (if ltb_ℤ test_dist fpp.min_target_dist || ltb_ℤ fpp.max_target_dist test_dist
        then (false, best)
        else (true, best))
    else if leb_ℤ test_dist fpp.max_target_dist
    then (if ltb_ℤ test_dist fpp.min_target_dist
        then (false, best)
        else if eq_ℤ test_dist fpp.max_target_dist
        then (true, pos 0)
        else if ltb_ℤ best test_dist
        then (true, test_dist)
        else (false, best))
    else (false, best)

-- `AStarNode`; a pointer to a node is its index. `is_open` is the entry of `openNodes`.
pub record AStarNode : Type 0 where
  pub parent : Option ℕ
  pub f : ℕ
  pub x : ℕ
  pub y : ℕ
  pub is_open : Bool

-- `AStarNodes`: the `curNode` first nodes, and the table by key, newest first.
pub record AStarNodes : Type 0 where
  pub nodes : List AStarNode
  pub node_table : List (ℕ × ℕ)
  pub closed_nodes : ℤ

abbrev pub max_nodes : ℕ
max_nodes = 512

-- Never seen: each index that is read is that of a node.
abbrev pub blank_node : AStarNode
blank_node = record { parent = none; f = 0; x = 0; y = 0; is_open = false }

abbrev pub node_at : List AStarNode → ℕ → AStarNode
node_at ns i = get_or ns i blank_node

-- `(x << 16) | y`.
unfoldable pub table_key : ℕ → ℕ → ℕ
table_key x y = bit_or (u32 (x <<< 16)) y

-- The constructor.
unfoldable pub new_nodes : ℕ → ℕ → AStarNodes
new_nodes x y = record {
  nodes = record { parent = none; f = 0; x = x; y = y; is_open = true } ∷ [];
  node_table = (table_key x y, 0) ∷ [];
  closed_nodes = pos 0;
}

-- `createOpenNode`; `none` where all nodes are taken.
unfoldable pub create_open_node : ℕ → ℕ → ℕ → ℕ → AStarNodes → Option AStarNodes
create_open_node parent x y f a =
    if leb max_nodes (length a.nodes)
    then none
    else some (record a {
      nodes = a.nodes ++ record { parent = some parent; f = f; x = x; y = y; is_open = true } ∷ [];
      node_table = (table_key x y, length a.nodes) ∷ a.node_table;
    })

-- The loop of `getBestNode` from an index on, with the best so far.
unfoldable pub best_from : List AStarNode → ℕ → ℕ → Option ℕ → Option ℕ
best_from [] i best_f best = best
best_from (n ∷ ns) i best_f best =
    let better = n.is_open && ltb n.f best_f in
    best_from ns (suc i) (if better then n.f else best_f) (if better then some i else best)

unfoldable pub get_best_node : AStarNodes → Option ℕ
get_best_node a = best_from a.nodes 0 2147483647 none

unfoldable pub close_node : ℕ → AStarNodes → AStarNodes
close_node i a = record a {
  nodes = set a.nodes i (record (node_at a.nodes i) { is_open = false });
  closed_nodes = a.closed_nodes +ℤ pos 1;
}

-- The update of a node that gets a cheaper way, then `openNode`.
unfoldable pub open_node : ℕ → ℕ → ℕ → AStarNodes → AStarNodes
open_node i newf parent a = record a {
  nodes =
      set a.nodes i (record (node_at a.nodes i) { f = newf; parent = some parent; is_open = true });
  closed_nodes = if (node_at a.nodes i).is_open then a.closed_nodes else a.closed_nodes -ℤ pos 1;
}

unfoldable pub find_key : ℕ → List (ℕ × ℕ) → Option ℕ
find_key k [] = none
find_key k ((j, i) ∷ t) = if j == k then some i else find_key k t

-- `getNodeByPosition`.
unfoldable pub get_node_by_position : ℕ → ℕ → AStarNodes → Option ℕ
get_node_by_position x y a = find_key (table_key x y) a.node_table

-- `getMapWalkCost` and `getTileWalkCost`.
unfoldable pub map_walk_cost : AStarNode → Position → ℕ
map_walk_cost n p = if abs (sub_ℕ n.x p.x) == abs (sub_ℕ n.y p.y) then 25 else 10

unfoldable pub tile_walk_cost : Ground → Position → ℕ
tile_walk_cost g p = (if g.has_creature p then 30 else 0) + (if g.field_hurts p then 180 else 0)

-- A step to a neighbour.
abbrev pub Offset : Type 0
Offset = ℤ × ℤ

abbrev pub l : ℤ
l = negsuc 0

abbrev pub o : ℤ
o = pos 0

abbrev pub r : ℤ
r = pos 1

-- `dirNeighbors` and `allNeighbors`.
unfoldable pub dir_neighbors : Direction → List Offset
dir_neighbors north = (l, o) ∷ (o, r) ∷ (r, o) ∷ (r, r) ∷ (l, r) ∷ []
dir_neighbors east = (l, o) ∷ (o, r) ∷ (o, l) ∷ (l, l) ∷ (l, r) ∷ []
dir_neighbors south = (l, o) ∷ (r, o) ∷ (o, l) ∷ (l, l) ∷ (r, l) ∷ []
dir_neighbors west = (o, r) ∷ (r, o) ∷ (o, l) ∷ (r, l) ∷ (r, r) ∷ []
dir_neighbors southwest = (r, o) ∷ (o, l) ∷ (l, l) ∷ (r, l) ∷ (r, r) ∷ []
dir_neighbors southeast = (l, o) ∷ (o, l) ∷ (l, l) ∷ (r, l) ∷ (l, r) ∷ []
dir_neighbors northwest = (o, r) ∷ (r, o) ∷ (r, l) ∷ (r, r) ∷ (l, r) ∷ []
dir_neighbors northeast = (l, o) ∷ (o, r) ∷ (l, l) ∷ (r, r) ∷ (l, r) ∷ []
dir_neighbors _ = []

unfoldable pub all_neighbors : List Offset
all_neighbors = (l, o) ∷ (o, r) ∷ (r, o) ∷ (o, l) ∷ (l, l) ∷ (r, l) ∷ (r, r) ∷ (l, r) ∷ []

-- The side that the parent lies on.
unfoldable pub side_of : Bool → ℤ → ℤ → Direction
side_of allow_diagonal offset_x offset_y =
    if eq_ℤ offset_y o
    then (if eq_ℤ offset_x l then west else east)
    else if not allow_diagonal || eq_ℤ offset_x o
    then (if eq_ℤ offset_y l then north else south)
    else if eq_ℤ offset_y l
    then (if eq_ℤ offset_x l then northwest else northeast)
    else if eq_ℤ offset_x l
    then southwest
    else southeast

-- The neighbours that are tried.
unfoldable pub neighbors_of : FindPathParams → List AStarNode → AStarNode → List Offset
neighbors_of fpp ns n = elim n.parent [
  | none ↦ all_neighbors
  | some i ↦
      let p = node_at ns i in
      take (if fpp.allow_diagonal then 5 else 3)
        (dir_neighbors (side_of fpp.allow_diagonal (sub_ℕ p.x n.x) (sub_ℕ p.y n.y)))
]

-- `pos.x = x + *neighbors++`, on the width of a coordinate.
unfoldable pub shift : ℕ → ℤ → ℕ
shift x d = u16 (x + 2 ^ 16 + pos_part d - neg_part d)
