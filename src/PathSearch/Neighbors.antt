-- ===== src/PathSearch/Neighbors.antt =====
-- The visit of the neighbours of a node.
use odirion_mmoserver.Base.{
  ℕ, ◌+◌, ◌^◌, ◌≤◌, ◌<◌, ◌≡◌, ◌≢◌, refl, sym, ap, subst, ◌∙◌, inl, inr, Bool, true, false, not,
  ◌&&◌, Option, none, some, List, [], ◌∷◌, ◌++◌, arith, leb, ◌==◌, if◌then◌else◌, length,
  length-append, Bool-cases, Option-cases, All, All-take,
}
use odirion_mmoserver.Base.Int.{ℤ, pos, negsuc, abs, sub_ℕ, pos_part, neg_part}
use odirion_mmoserver.Position.{
  Position, Direction, north, east, south, west, southwest, southeast, northwest, northeast,
  direction_none,
}
use odirion_mmoserver.Position.Steps.{IsInner}
use odirion_mmoserver.PathSearch.{
  FindPathParams, Ground, eq_ℤ, can_walk_to, AStarNode, AStarNodes, node_at, table_key, find_key,
  create_open_node, open_node, get_node_by_position, map_walk_cost, tile_walk_cost, Offset,
  dir_neighbors, all_neighbors, side_of, neighbors_of, shift,
}
use odirion_mmoserver.PathSearch.Search.{neighbor, is_too_far, visit_neighbor, visit_neighbors}
use odirion_mmoserver.PathSearch.Nodes.{
  node_at-append_new, node_at-append_old, table_key-injective, IsNear, IsNear-moved, place_of,
  IsNode, IsSearch, IsLater, IsNode-later,
}
use odirion_mmoserver.PathSearch.Visits.{
  total-append, IsVisit, IsVisit-refl, IsVisit-trans, open_node-IsVisit,
}

module _ (g : Ground) (a : AStarNodes) (s : IsSearch g a) (i : ℕ) (bi : i < length a.nodes)
    (newf x y : ℕ) (dearer : (node_at a.nodes i).f + 10 ≤ newf)
    (not_too_dear : newf ≤ (node_at a.nodes i).f + 235)
    (near : IsNear (node_at a.nodes i).x (node_at a.nodes i).y x y)
    (inner : IsInner (record { x = x; y = y; z = g.position.z }))
    (walkable : can_walk_to g (record { x = x; y = y; z = g.position.z }) ≡ true) where
  abbrev created : AStarNode
  created = record { parent = some i; f = newf; x = x; y = y; is_open = true }

  abbrev after : AStarNodes
  after = record a {
    nodes = a.nodes ++ created ∷ [];
    node_table = (table_key x y, length a.nodes) ∷ a.node_table;
  }

  size : length after.nodes ≡ length a.nodes + 1
  size = omega (arith, length-append a.nodes (created ∷ []))

  created-IsLater : IsLater a.nodes after.nodes
  created-IsLater = record {
    grows = omega (arith, size);
    same_x = λ j h. ap (λ n. n.x) (node_at-append_old a.nodes j created h);
    same_y = λ j h. ap (λ n. n.y) (node_at-append_old a.nodes j created h);
    not_dearer =
        λ j h. let e = ap (λ n. n.f) (node_at-append_old a.nodes j created h) in omega (arith, e);
  }

  created-IsNode : IsNode g after.nodes (length a.nodes)
  created-IsNode =
      let new = node_at-append_new a.nodes created in
      let cost = ap (λ v. v.f) new in
      let parent_cost = ap (λ v. v.f) (node_at-append_old a.nodes i created bi) in
      record {
        inner = subst (λ v. IsInner (place_of g v)) (sym new) inner;
        f_bound = omega (arith, cost, not_too_dear, (s.tree i bi).f_bound, bi);
        origin = inr (
          i,
          record {
            is_node = omega (arith, bi, size);
            points = ap (λ v. v.parent) new;
            cheaper = omega (arith, cost, parent_cost, dearer);
            near =
                IsNear-moved (created-IsLater.same_x i bi, created-IsLater.same_y i bi)
                  (ap (λ v. v.x) new, ap (λ v. v.y) new) near;
            walkable = subst (λ v. can_walk_to g (place_of g v) ≡ true) (sym new) walkable;
          },
        );
      }

  found_after :
      (x' y' j : ℕ)
      → (x' < 2 ^ 16) × (y' < 2 ^ 16)
      → find_key (table_key x' y') after.node_table ≡ some j
      → (j < length after.nodes)
        × ((node_at after.nodes j).x ≡ x')
        × ((node_at after.nodes j).y ≡ y')
  unfolding find_key
  found_after x' y' j h e = elim (Bool-cases (table_key x y == table_key x' y')) [
    | inl q ↦
        let same_key : table_key x y ≡ table_key x' y' = ground arith in
        let same =
          table_key-injective x y x' y' (omega (arith, inner), omega (arith, inner)) h same_key in
        let is_new : length a.nodes ≡ j = ground arith in
        let new = node_at-append_new a.nodes created in
        subst
          (λ k.
            (k < length after.nodes)
            × ((node_at after.nodes k).x ≡ x')
            × ((node_at after.nodes k).y ≡ y'))
          is_new (omega (arith, size), ap (λ v. v.x) new ∙ same.0, ap (λ v. v.y) new ∙ same.1)
    | inr q ↦
        let old = s.table x' y' j h (ground arith) in
        (
          omega (arith, old.0, size),
          created-IsLater.same_x j old.0 ∙ old.1,
          created-IsLater.same_y j old.0 ∙ old.2,
        )
  ]

  create_open_node-IsVisit : length a.nodes < 512 → IsVisit g a after i
  create_open_node-IsVisit room =
      let t = total-append a.nodes created in
      record {
        search = record {
          tree = λ j h. elim (Bool-cases (j == length a.nodes)) [
            | inl q ↦
                let same : length a.nodes ≡ j = ground arith in
                subst (IsNode g after.nodes) same created-IsNode
            | inr other ↦
                let h' : j < length a.nodes = ground (arith, h, size) in
                let e = node_at-append_old a.nodes j created h' in
                IsNode-later g a.nodes after.nodes j created-IsLater h' (ap (λ v. v.f) e)
                  (ap (λ v. v.parent) e) (s.tree j h')
          ];
          table = found_after;
          some_node = omega (arith, size);
          at_most = omega (arith, size, room);
        };
        later = created-IsLater;
        same_node = node_at-append_old a.nodes i created bi;
        less = omega (arith, t, size, room, not_too_dear, bi, (s.tree i bi).f_bound);
      }

abbrev pub is_offset : Offset → Bool
is_offset (dx, dy) = leb (abs dx) 1 && leb (abs dy) 1 && not (eq_ℤ dx (pos 0) && eq_ℤ dy (pos 0))

-- Away from the edge of the map a step leads to the tile beside.
shift-exact :
    (x : ℕ) (d : ℤ)
    → (1 ≤ x) × (x + 1 < 2 ^ 16)
    → leb (abs d) 1 ≡ true
    → shift x d + neg_part d ≡ x + pos_part d
unfolding shift
shift-exact x (pos a) h e = ground arith
shift-exact x (negsuc a) h e = ground arith

shift-moves :
    (x : ℕ) (d : ℤ)
    → (1 ≤ x) × (x + 1 < 2 ^ 16)
    → leb (abs d) 1 ≡ true
    → eq_ℤ d (pos 0) ≡ false
    → x ≢ shift x d
unfolding eq_ℤ
shift-moves x (pos a) h e k same =
    let s = shift-exact x (pos a) h e in
    let t : (a == 0) ≡ false = k in absurd (ground (arith, s, t, same))
shift-moves x (negsuc a) h e k same = absurd (omega (arith, shift-exact x (negsuc a) h e, same))

shift-close :
    (x : ℕ) (d : ℤ)
    → (1 ≤ x) × (x + 1 < 2 ^ 16)
    → leb (abs d) 1 ≡ true
    → (x ≤ shift x d + 1) × (shift x d ≤ x + 1)
shift-close x (pos a) h e = let s = shift-exact x (pos a) h e in (ground arith, ground arith)
shift-close x (negsuc a) h e = let s = shift-exact x (negsuc a) h e in (ground arith, ground arith)

shift-IsNear :
    (x y : ℕ) (d : Offset)
    → (1 ≤ x) × (x + 1 < 2 ^ 16) × (1 ≤ y) × (y + 1 < 2 ^ 16)
    → is_offset d ≡ true
    → IsNear x y (shift x d.0) (shift y d.1)
shift-IsNear x y (dx, dy) (x1, x2, y1, y2) e =
    let ax : leb (abs dx) 1 ≡ true = ground arith in
    let ay : leb (abs dy) 1 ≡ true = ground arith in
    let cx = shift-close x dx (x1, x2) ax in
    let cy = shift-close y dy (y1, y2) ay in
    record {
      left = cx.0;
      right = cx.1;
      up = cy.0;
      down = cy.1;
      apart = elim (Bool-cases (eq_ℤ dx (pos 0))) [
        | inr n ↦ inl (shift-moves x dx (x1, x2) ax n)
        | inl t ↦
            let n : eq_ℤ dy (pos 0) ≡ false = ground arith in inr (shift-moves y dy (y1, y2) ay n)
      ];
    }

side-offsets : (d : Direction) → All (λ o. is_offset o ≡ true) (dir_neighbors d)
unfolding dir_neighbors eq_ℤ
side-offsets north = (refl, (refl, (refl, (refl, (refl, tt)))))
side-offsets east = (refl, (refl, (refl, (refl, (refl, tt)))))
side-offsets south = (refl, (refl, (refl, (refl, (refl, tt)))))
side-offsets west = (refl, (refl, (refl, (refl, (refl, tt)))))
side-offsets southwest = (refl, (refl, (refl, (refl, (refl, tt)))))
side-offsets southeast = (refl, (refl, (refl, (refl, (refl, tt)))))
side-offsets northwest = (refl, (refl, (refl, (refl, (refl, tt)))))
side-offsets northeast = (refl, (refl, (refl, (refl, (refl, tt)))))
side-offsets direction_none = tt

pub neighbors_of-offsets :
    (fpp : FindPathParams) (ns : List AStarNode) (n : AStarNode)
    → All (λ o. is_offset o ≡ true) (neighbors_of fpp ns n)
unfolding neighbors_of all_neighbors eq_ℤ
neighbors_of-offsets fpp ns n = elim (Option-cases n.parent) [
  | inl e ↦ rw (e, neighbors_of) (refl, (refl, (refl, (refl, (refl, (refl, (refl, (refl, tt))))))))
  | inr (i, e) ↦
      rw (e, neighbors_of)
        (All-take (λ o. is_offset o ≡ true) _ _
          (side-offsets
            (side_of fpp.allow_diagonal (sub_ℕ (node_at ns i).x n.x) (sub_ℕ (node_at ns i).y n.y))))
]

-- Each tile to walk to is away from the edge of the map.
abbrev pub IsInnerGround : Ground → Type 0
IsInnerGround g = (p : Position) → can_walk_to g p ≡ true → IsInner p

cost_bounds :
    (g : Ground) (n : AStarNode) (p : Position)
    → (n.f + 10 ≤ n.f + map_walk_cost n p + tile_walk_cost g p)
      × (n.f + map_walk_cost n p + tile_walk_cost g p ≤ n.f + 235)
unfolding map_walk_cost tile_walk_cost
cost_bounds g n p = (ground arith, ground arith)

module _ (g : Ground) (fpp : FindPathParams) (target : Position) (walkable_inner : IsInnerGround g)
    (a : AStarNodes) (s : IsSearch g a) (i : ℕ) (bi : i < length a.nodes) where
  abbrev Visited : Option AStarNodes → Type 0
  Visited none = Unit
  Visited (some a') = IsVisit g a a' i

  module _ (n : AStarNode) (d : Offset) (en : n ≡ node_at a.nodes i) (hd : is_offset d ≡ true) where
    abbrev p : Position
    p = neighbor g fpp target n d

    abbrev newf : ℕ
    newf = n.f + map_walk_cost n p + tile_walk_cost g p

    n_inner : IsInner (place_of g n)
    n_inner = subst (λ v. IsInner (place_of g v)) (sym en) (s.tree i bi).inner

    beside : IsNear n.x n.y p.x p.y
    beside = shift-IsNear n.x n.y d n_inner hd

    beside_node : IsNear (node_at a.nodes i).x (node_at a.nodes i).y p.x p.y
    beside_node = subst (λ v. IsNear v.x v.y p.x p.y) en beside

    dearer : (node_at a.nodes i).f + 10 ≤ newf
    dearer = let e = ap (λ v. v.f) en in omega (arith, e, cost_bounds g n p)

    not_too_dear : newf ≤ (node_at a.nodes i).f + 235
    not_too_dear = let e = ap (λ v. v.f) en in omega (arith, e, cost_bounds g n p)

    known-Visited :
        (j : ℕ)
        → get_node_by_position p.x p.y a ≡ some j
        → Visited (if leb (node_at a.nodes j).f newf then some a else some (open_node j newf i a))
    unfolding get_node_by_position
    known-Visited j e = elim (Bool-cases (leb (node_at a.nodes j).f newf)) [
      | inl y ↦ rw y (IsVisit-refl g a i s)
      | inr cheap ↦
          let t =
            s.table p.x p.y j
              (omega (arith, n_inner, beside.right), omega (arith, n_inner, beside.down)) e in
          rw cheap (
            open_node-IsVisit g a s i bi newf dearer j t.0 (ground arith)
              (IsNear-moved (refl, refl) (t.1, t.2) beside_node))
    ]

    new-Visited : Visited (if can_walk_to g p then create_open_node i p.x p.y newf a else some a)
    unfolding create_open_node
    new-Visited = elim (Bool-cases (can_walk_to g p)) [
      | inr n ↦ rw n (IsVisit-refl g a i s)
      | inl walkable ↦ elim (Bool-cases (leb 512 (length a.nodes))) [
        | inl full ↦ rw (walkable, full) tt
        | inr room ↦
            rw (walkable, room)
              (create_open_node-IsVisit g a s i bi newf p.x p.y dearer not_too_dear beside_node
                (walkable_inner p walkable) walkable (ground arith))
      ]
    ]

    visit_neighbor-Visited : Visited (visit_neighbor g fpp target i n d a)
    unfolding visit_neighbor
    visit_neighbor-Visited = elim (Bool-cases (is_too_far g fpp target p)) [
      | inl y ↦ rw y (IsVisit-refl g a i s)
      | inr near ↦ elim (Option-cases (get_node_by_position p.x p.y a)) [
        | inl e ↦ rw (near, e) new-Visited
        | inr (j, e) ↦ rw (near, e) (known-Visited j e)
      ]
    ]

-- So do all the neighbours that are visited from the node.
pub visit_neighbors-IsVisit :
    (g : Ground) (fpp : FindPathParams) (target : Position)
    → IsInnerGround g
    → (a : AStarNodes) → IsSearch g a
    → (i : ℕ) → i < length a.nodes
    → (n : AStarNode) → n ≡ node_at a.nodes i
    → (ds : List Offset) → All (λ o. is_offset o ≡ true) ds
    → IsVisit g a (visit_neighbors g fpp target i n ds a).1 i
unfolding visit_neighbors
visit_neighbors-IsVisit g fpp target w a s i b n e [] h = IsVisit-refl g a i s
visit_neighbors-IsVisit g fpp target w a s i b n e (d ∷ ds) (hd, h) =
    let v = visit_neighbor-Visited g fpp target w a s i b n d e hd in
    elim (Option-cases (visit_neighbor g fpp target i n d a)) [
      | inl q ↦ rw (q, visit_neighbors) (IsVisit-refl g a i s)
      | inr (a', q) ↦
          let first : IsVisit g a a' i = subst (Visited g fpp target w a s i b) q v in
          rw (q, visit_neighbors)
            (IsVisit-trans g a a' (visit_neighbors g fpp target i n ds a').1 i first (
              visit_neighbors-IsVisit g fpp target w a' first.search i
                (omega (arith, b, first.later.grows)) n (e ∙ sym first.same_node) ds h))
    ]
