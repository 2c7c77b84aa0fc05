-- ===== src/PathSearch/Visits.antt =====
-- Each change of the nodes keeps the tree of parents, and brings the search nearer to its end.
use odirion_mmoserver.Base.{
  ℕ, zero, suc, ◌+◌, ◌-◌, ◌*◌, ◌≤◌, ◌<◌, ◌≡◌, refl, sym, ap, subst, ◌∙◌, inl, inr, true, false,
  some, List, [], ◌∷◌, ◌++◌, arith, ◌==◌, if◌then◌else◌, length, set, length-set, Bool-cases,
}
use odirion_mmoserver.Position.Steps.{IsInner}
use odirion_mmoserver.PathSearch.{
  Ground, can_walk_to, AStarNode, AStarNodes, node_at, open_node, close_node,
}
use odirion_mmoserver.PathSearch.Nodes.{
  node_at-set_same, node_at-set_other, node_at-set-elim, IsNear, IsNear-moved, place_of, IsNode,
  IsSearch, IsLater, IsLater-refl, IsLater-trans, IsNode-later,
}

-- What the search has left to do: each open node weighs one and each unit of cost two; an unused node weighs as
-- much as the dearest one could.
abbrev pub weight : AStarNode → ℕ
weight n = 2 * n.f + (if n.is_open then 1 else 0)

abbrev pub total : List AStarNode → ℕ
total [] = 0
total (n ∷ ns) = weight n + total ns

abbrev pub left_to_do : AStarNodes → ℕ
left_to_do a = total a.nodes + (512 - length a.nodes) * 240172

pub total-append :
    (ns : List AStarNode) (v : AStarNode) → total (ns ++ v ∷ []) ≡ total ns + weight v
total-append [] v = omega arith
total-append (n ∷ ns) v = omega (arith, total-append ns v)

total-set :
    (ns : List AStarNode) (i : ℕ) (v : AStarNode)
    → i < length ns
    → total (set ns i v) + weight (node_at ns i) ≡ total ns + weight v
total-set [] i v h = absurd (omega (arith, h))
total-set (n ∷ ns) zero v h = omega arith
total-set (n ∷ ns) (suc i) v h = omega (arith, total-set ns i v (omega (arith, h)))

-- A change of the node `i` that leaves it where it is and does not make it dearer.
IsLater-set :
    (ns : List AStarNode) (i : ℕ) (v : AStarNode)
    → i < length ns
    → v.x ≡ (node_at ns i).x
    → v.y ≡ (node_at ns i).y
    → v.f ≤ (node_at ns i).f
    → IsLater ns (set ns i v)
IsLater-set ns i v b ex ey ef = record {
  grows = omega (arith, length-set ns i v);
  same_x = λ j h. (changed j).0;
  same_y = λ j h. (changed j).1;
  not_dearer = λ j h. (changed j).2;
}
  where
    changed :
        (j : ℕ)
        → ((node_at (set ns i v) j).x ≡ (node_at ns j).x)
          × ((node_at (set ns i v) j).y ≡ (node_at ns j).y)
          × ((node_at (set ns i v) j).f ≤ (node_at ns j).f)
    changed =
        node_at-set-elim
          (λ j n. (n.x ≡ (node_at ns j).x) × (n.y ≡ (node_at ns j).y) × (n.f ≤ (node_at ns j).f)) ns
          i v b (ex, ey, ef) (λ j other. (refl, refl, omega arith))

module _ (g : Ground) where
  -- Closing an open node changes nothing of the tree, and leaves less to do.
  pub close_node-IsSearch :
      (i : ℕ) (a : AStarNodes) → IsSearch g a → i < length a.nodes → IsSearch g (close_node i a)
  unfolding close_node
  close_node-IsSearch i a s b =
      let v = record (node_at a.nodes i) { is_open = false } in
      let later = IsLater-set a.nodes i v b refl refl (omega arith) in
      let size = length-set a.nodes i v in
      record {
        tree = λ j h.
            let h' : j < length a.nodes = omega (arith, h, size) in
            let same = kept j in
            IsNode-later g a.nodes (set a.nodes i v) j later h' same.0 same.1 (s.tree j h');
        table = λ x y j h e.
            let t = s.table x y j h e in
            (omega (arith, t.0, size), later.same_x j t.0 ∙ t.1, later.same_y j t.0 ∙ t.2);
        some_node = omega (arith, s.some_node, size);
        at_most = omega (arith, s.at_most, size);
      }
    where
      w : AStarNode
      w = record (node_at a.nodes i) { is_open = false }

      kept :
          (j : ℕ)
          → ((node_at (set a.nodes i w) j).f ≡ (node_at a.nodes j).f)
            × ((node_at (set a.nodes i w) j).parent ≡ (node_at a.nodes j).parent)
      kept =
          node_at-set-elim
            (λ j n. (n.f ≡ (node_at a.nodes j).f) × (n.parent ≡ (node_at a.nodes j).parent)) a.nodes
            i w b (refl, refl) (λ j other. (refl, refl))

  pub close_node-IsLater :
      (i : ℕ) (a : AStarNodes) → i < length a.nodes → IsLater a.nodes (close_node i a).nodes
  unfolding close_node
  close_node-IsLater i a b =
      IsLater-set a.nodes i (record (node_at a.nodes i) { is_open = false }) b refl refl
        (omega arith)

  pub close_node-left_to_do :
      (i : ℕ) (a : AStarNodes)
      → i < length a.nodes
      → (node_at a.nodes i).is_open ≡ true
      → left_to_do (close_node i a) < left_to_do a
  unfolding close_node
  close_node-left_to_do i a b opened =
      let v = record (node_at a.nodes i) { is_open = false } in
      let t = total-set a.nodes i v b in
      let one : weight (node_at a.nodes i) ≡ 2 * (node_at a.nodes i).f + 1 = rw opened refl in
      omega (arith, t, one, length-set a.nodes i v)

  -- What a change of the nodes at a visit keeps, for the node `i` that is visited from.
  pub record IsVisit (a a' : AStarNodes) (i : ℕ) : Type 0 where
    pub search : IsSearch g a'
    pub later : IsLater a.nodes a'.nodes
    pub same_node : node_at a'.nodes i ≡ node_at a.nodes i
    pub less : left_to_do a' ≤ left_to_do a

  pub IsVisit-refl : (a : AStarNodes) (i : ℕ) → IsSearch g a → IsVisit a a i
  IsVisit-refl a i s = record {
    search = s;
    later = IsLater-refl a.nodes;
    same_node = refl;
    less = omega arith;
  }

  pub IsVisit-trans :
      (a a' a'' : AStarNodes) (i : ℕ) → IsVisit a a' i → IsVisit a' a'' i → IsVisit a a'' i
  IsVisit-trans a a' a'' i h k = record {
    search = k.search;
    later = IsLater-trans a.nodes a'.nodes a''.nodes h.later k.later;
    same_node = k.same_node ∙ h.same_node;
    less = omega (arith, h.less, k.less);
  }

  -- A node that gets a cheaper way was not the first, and its old way had been walked.
  was_walkable :
      (ns : List AStarNode) (k newf : ℕ)
      → IsNode g ns k
      → newf < (node_at ns k).f
      → can_walk_to g (place_of g (node_at ns k)) ≡ true
  was_walkable ns k newf n less = elim n.origin [
    | inl root ↦ absurd (omega (arith, n.f_bound, root.is_first, less))
    | inr (j, p) ↦ p.walkable
  ]

  module _ (a : AStarNodes) (s : IsSearch g a) (i : ℕ) (bi : i < length a.nodes) (newf : ℕ)
      (dearer : (node_at a.nodes i).f + 10 ≤ newf) where
    module _ (k : ℕ) (bk : k < length a.nodes) (cheaper : newf < (node_at a.nodes k).f)
        (near : IsNear
          (node_at a.nodes i).x
          (node_at a.nodes i).y
          (node_at a.nodes k).x
          (node_at a.nodes k).y) where
      abbrev reached : AStarNode
      reached = record (node_at a.nodes k) { f = newf; parent = some i; is_open = true }

      reached-IsLater : IsLater a.nodes (set a.nodes k reached)
      reached-IsLater = IsLater-set a.nodes k reached bk refl refl (omega (arith, cheaper))

      other_node : (i == k) ≡ false
      other_node = elim (Bool-cases (i == k)) [
        | inr n ↦ n
        | inl y ↦
            let same : i ≡ k = ground arith in
            let e = ap (λ j. (node_at a.nodes j).f) same in
            absurd (omega (arith, e, dearer, cheaper))
      ]

      reached-IsNode : IsNode g (set a.nodes k reached) k
      reached-IsNode =
          let at_k = node_at-set_same a.nodes k reached bk in
          let n = s.tree k bk in
          record {
            inner = subst (λ v. IsInner (place_of g v)) (sym at_k) n.inner;
            f_bound = let e = ap (λ v. v.f) at_k in omega (arith, e, cheaper, n.f_bound);
            origin = inr (
              i,
              record {
                is_node = omega (arith, bi, length-set a.nodes k reached);
                points = ap (λ v. v.parent) at_k;
                cheaper =
                    let e = ap (λ v. v.f) at_k in
                    omega (arith, e, dearer, reached-IsLater.not_dearer i bi);
                near =
                    IsNear-moved (reached-IsLater.same_x i bi, reached-IsLater.same_y i bi)
                      (reached-IsLater.same_x k bk, reached-IsLater.same_y k bk) near;
                walkable =
                    subst (λ v. can_walk_to g (place_of g v) ≡ true) (sym at_k)
                      (was_walkable a.nodes k newf n cheaper);
              },
            );
          }

      pub open_node-IsVisit : IsVisit a (open_node k newf i a) i
      unfolding open_node
      open_node-IsVisit =
          let size = length-set a.nodes k reached in
          let t = total-set a.nodes k reached bk in
          let w : 2 * (node_at a.nodes k).f ≤ weight (node_at a.nodes k) = ground arith in
          record {
            search = record {
              tree = λ j h. elim (Bool-cases (j == k)) [
                | inl y ↦
                    let same : k ≡ j = ground arith in
                    subst (IsNode g (set a.nodes k reached)) same reached-IsNode
                | inr other ↦
                    let e = node_at-set_other a.nodes k j reached bk other in
                    let h' : j < length a.nodes = omega (arith, h, size) in
                    IsNode-later g a.nodes (set a.nodes k reached) j reached-IsLater h'
                      (ap (λ v. v.f) e) (ap (λ v. v.parent) e) (s.tree j h')
              ];
              table = λ x y j h e.
                  let q = s.table x y j h e in
                  (
                    omega (arith, q.0, size),
                    reached-IsLater.same_x j q.0 ∙ q.1,
                    reached-IsLater.same_y j q.0 ∙ q.2,
                  );
              some_node = omega (arith, s.some_node, size);
              at_most = omega (arith, s.at_most, size);
            };
            later = reached-IsLater;
            same_node = node_at-set_other a.nodes k i reached bk other_node;
            less = omega (arith, t, w, cheaper, size);
          }
