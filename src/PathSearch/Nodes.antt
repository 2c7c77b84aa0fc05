-- ===== src/PathSearch/Nodes.antt =====
-- The nodes as a tree of parents: what the search keeps of them.
use odirion_mmoserver.Base.{
  ℕ, zero, suc, ◌+◌, ◌*◌, ◌^◌, ◌≤◌, ◌<◌, ◌≡◌, ◌≢◌, ◌⊎◌, refl, sym, ap, subst, ◌∙◌, inl, inr, true,
  false, none, some, List, [], ◌∷◌, ◌++◌, arith, ◌==◌, if◌then◌else◌, u32, ◌<<<◌, length, set,
  Bool-cases, ==_refl,
}
use odirion_mmoserver.Base.Bits.{shifted-bit_or}
use odirion_mmoserver.Position.{Position}
use odirion_mmoserver.Position.Steps.{IsInner}
use odirion_mmoserver.PathSearch.{
  Ground, can_walk_to, AStarNode, AStarNodes, node_at, table_key, find_key, max_nodes,
}

pub node_at-set :
    (ns : List AStarNode) (i j : ℕ) (v : AStarNode)
    → i < length ns
    → node_at (set ns i v) j ≡ (if j == i then v else node_at ns j)
node_at-set [] i j v h = absurd (omega (arith, h))
node_at-set (n ∷ ns) zero zero v h = ground arith
node_at-set (n ∷ ns) zero (suc j) v h = ground arith
node_at-set (n ∷ ns) (suc i) zero v h = ground arith
node_at-set (n ∷ ns) (suc i) (suc j) v h = node_at-set ns i j v (omega (arith, h)) ∙ ground arith

pub node_at-append :
    (ns : List AStarNode) (j : ℕ) (v : AStarNode)
    → node_at (ns ++ v ∷ []) j ≡ (if j == length ns then v else node_at ns j)
node_at-append [] zero v = ground arith
node_at-append [] (suc j) v = ground arith
node_at-append (n ∷ ns) zero v = ground arith
node_at-append (n ∷ ns) (suc j) v = node_at-append ns j v ∙ ground arith

pub node_at-set_same :
    (ns : List AStarNode) (i : ℕ) (v : AStarNode) → i < length ns → node_at (set ns i v) i ≡ v
node_at-set_same ns i v h = node_at-set ns i i v h ∙ rw (==_refl i) refl

pub node_at-set_other :
    (ns : List AStarNode) (i j : ℕ) (v : AStarNode)
    → i < length ns
    → (j == i) ≡ false
    → node_at (set ns i v) j ≡ node_at ns j
node_at-set_other ns i j v h other = node_at-set ns i j v h ∙ rw other refl

-- What holds of the new node and of the old ones holds of all after a change.
pub node_at-set-elim {κ} :
    (P : ℕ → AStarNode → Type κ) (ns : List AStarNode) (i : ℕ) (v : AStarNode)
    → i < length ns
    → P i v
    → ((j : ℕ) → (j == i) ≡ false → P j (node_at ns j))
    → (j : ℕ) → P j (node_at (set ns i v) j)
node_at-set-elim P ns i v h new old j = elim (Bool-cases (j == i)) [
  | inl y ↦
      let same : i ≡ j = ground arith in
      subst (λ k. P k (node_at (set ns i v) k)) same
        (subst (P i) (sym (node_at-set_same ns i v h)) new)
  | inr other ↦ subst (P j) (sym (node_at-set_other ns i j v h other)) (old j other)
]

pub node_at-append_new :
    (ns : List AStarNode) (v : AStarNode) → node_at (ns ++ v ∷ []) (length ns) ≡ v
node_at-append_new ns v = node_at-append ns (length ns) v ∙ rw (==_refl (length ns)) refl

pub node_at-append_old :
    (ns : List AStarNode) (j : ℕ) (v : AStarNode)
    → j < length ns
    → node_at (ns ++ v ∷ []) j ≡ node_at ns j
node_at-append_old ns j v h =
    let old : (j == length ns) ≡ false = ground (arith, h) in node_at-append ns j v ∙ rw old refl

pub table_key-injective :
    (x y x' y' : ℕ)
    → (x < 2 ^ 16) × (y < 2 ^ 16)
    → (x' < 2 ^ 16) × (y' < 2 ^ 16)
    → table_key x y ≡ table_key x' y'
    → (x ≡ x') × (y ≡ y')
unfolding table_key
table_key-injective x y x' y' (hx, hy) (hx', hy') e =
    let u : u32 (x <<< 16) ≡ x * 2 ^ 16 = omega arith in
    let u' : u32 (x' <<< 16) ≡ x' * 2 ^ 16 = omega arith in
    let a : table_key x y ≡ y + x * 2 ^ 16 = rw u (shifted-bit_or 16 x y hy) in
    let a' : table_key x' y' ≡ y' + x' * 2 ^ 16 = rw u' (shifted-bit_or 16 x' y' hy') in
    let same : y + x * 2 ^ 16 ≡ y' + x' * 2 ^ 16 = sym a ∙ e ∙ a' in
    (omega (arith, same), omega (arith, same))

-- A tile beside another one.
pub record IsNear (px py cx cy : ℕ) : Type 0 where
  pub left : px ≤ cx + 1
  pub right : cx ≤ px + 1
  pub up : py ≤ cy + 1
  pub down : cy ≤ py + 1
  pub apart : (px ≢ cx) ⊎ (py ≢ cy)

module _ (g : Ground) where
  abbrev pub place_of : AStarNode → Position
  place_of n = record { x = n.x; y = n.y; z = g.position.z }

  -- The first node stands at the start; any other one has a cheaper parent on a tile beside its own.
  pub record HasParent (ns : List AStarNode) (i j : ℕ) : Type 0 where
    pub is_node : j < length ns
    pub points : (node_at ns i).parent ≡ some j
    pub cheaper : (node_at ns j).f + 10 ≤ (node_at ns i).f
    pub near : IsNear (node_at ns j).x (node_at ns j).y (node_at ns i).x (node_at ns i).y
    pub walkable : can_walk_to g (place_of (node_at ns i)) ≡ true

  pub record IsRoot (ns : List AStarNode) (i : ℕ) : Type 0 where
    pub is_first : i ≡ 0
    pub orphan : (node_at ns i).parent ≡ none
    pub at_start : place_of (node_at ns i) ≡ g.position

  pub record IsNode (ns : List AStarNode) (i : ℕ) : Type 0 where
    pub inner : IsInner (place_of (node_at ns i))
    pub f_bound : (node_at ns i).f ≤ 235 * i
    pub origin : IsRoot ns i ⊎ ((j : ℕ) × HasParent ns i j)

  -- The state between two steps of the search.
  pub record IsSearch (a : AStarNodes) : Type 0 where
    pub tree : (i : ℕ) → i < length a.nodes → IsNode a.nodes i
    pub table :
        (x y i : ℕ)
        → (x < 2 ^ 16) × (y < 2 ^ 16)
        → find_key (table_key x y) a.node_table ≡ some i
        → (i < length a.nodes) × ((node_at a.nodes i).x ≡ x) × ((node_at a.nodes i).y ≡ y)
    pub some_node : 0 < length a.nodes
    pub at_most : length a.nodes ≤ max_nodes

-- Later nodes: those of before are where they were, and cost at most what they did.
pub record IsLater (ns ns' : List AStarNode) : Type 0 where
  pub grows : length ns ≤ length ns'
  pub same_x : (i : ℕ) → i < length ns → (node_at ns' i).x ≡ (node_at ns i).x
  pub same_y : (i : ℕ) → i < length ns → (node_at ns' i).y ≡ (node_at ns i).y
  pub not_dearer : (i : ℕ) → i < length ns → (node_at ns' i).f ≤ (node_at ns i).f

pub IsLater-refl : (ns : List AStarNode) → IsLater ns ns
IsLater-refl ns = record {
  grows = omega arith;
  same_x = λ i h. refl;
  same_y = λ i h. refl;
  not_dearer = λ i h. omega arith;
}

pub IsLater-trans :
    (ns ns' ns'' : List AStarNode) → IsLater ns ns' → IsLater ns' ns'' → IsLater ns ns''
IsLater-trans ns ns' ns'' h k = record {
  grows = omega (arith, h.grows, k.grows);
  same_x = λ i b. k.same_x i (omega (arith, b, h.grows)) ∙ h.same_x i b;
  same_y = λ i b. k.same_y i (omega (arith, b, h.grows)) ∙ h.same_y i b;
  not_dearer = λ i b. omega (arith, k.not_dearer i (omega (arith, b, h.grows)), h.not_dearer i b);
}

pub IsNear-moved :
    {px py cx cy px' py' cx' cy' : ℕ}
    → (px' ≡ px) × (py' ≡ py)
    → (cx' ≡ cx) × (cy' ≡ cy)
    → IsNear px py cx cy
    → IsNear px' py' cx' cy'
IsNear-moved {px} {py} {cx} {cy} (ex, ey) (fx, fy) n = rw (ex, ey, fx, fy) n

-- A node whose own cost and parent stay is a node of the later ones too.
pub IsNode-later :
    (g : Ground) (ns ns' : List AStarNode) (i : ℕ)
    → IsLater ns ns'
    → i < length ns
    → (node_at ns' i).f ≡ (node_at ns i).f
    → (node_at ns' i).parent ≡ (node_at ns i).parent
    → IsNode g ns i
    → IsNode g ns' i
IsNode-later g ns ns' i h b ef ep n = record {
  inner = subst IsInner (sym same_place) n.inner;
  f_bound = omega (arith, n.f_bound, ef);
  origin = elim n.origin [
    | inl root ↦ inl (record {
      is_first = root.is_first;
      orphan = ep ∙ root.orphan;
      at_start = same_place ∙ root.at_start;
    })
    | inr (j, p) ↦ inr (
      j,
      record {
        is_node = omega (arith, p.is_node, h.grows);
        points = ep ∙ p.points;
        cheaper = omega (arith, p.cheaper, ef, h.not_dearer j p.is_node);
        near =
            IsNear-moved (h.same_x j p.is_node, h.same_y j p.is_node) (h.same_x i b, h.same_y i b)
              p.near;
        walkable = ap (can_walk_to g) same_place ∙ p.walkable;
      },
    )
  ];
}
  where
    same_place : place_of g (node_at ns' i) ≡ place_of g (node_at ns i)
    same_place = λ k. record { x = h.same_x i b k; y = h.same_y i b k; z = g.position.z }
