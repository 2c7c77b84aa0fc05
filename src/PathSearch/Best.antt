-- ===== src/PathSearch/Best.antt =====
-- The best node, `getBestNode`.
use odirion_mmoserver.Base.{
  ℕ, zero, suc, ◌+◌, ◌≤◌, ◌<◌, ◌≡◌, ◌⊎◌, refl, sym, ap, subst, ◌∙◌, inl, inr, true, false, ◌&&◌,
  Option, none, some, List, [], ◌∷◌, arith, ltb, length, Bool-cases,
}
use odirion_mmoserver.PathSearch.{Ground, AStarNode, AStarNodes, node_at, best_from, get_best_node}
use odirion_mmoserver.PathSearch.Nodes.{IsSearch}

-- No open node costs less than a bound.
abbrev pub IsBelowOpen : ℕ → List AStarNode → Type 0
IsBelowOpen v ns = (k : ℕ) → k < length ns → (node_at ns k).is_open ≡ true → v ≤ (node_at ns k).f

record IsCheapest (ns : List AStarNode) (best_f k : ℕ) : Type 0 where
  is_node : k < length ns
  opened : (node_at ns k).is_open ≡ true
  improves : (node_at ns k).f < best_f
  below : IsBelowOpen (node_at ns k).f ns

IsBelowOpen-cons :
    (v : ℕ) (n : AStarNode) (ns : List AStarNode)
    → (n.is_open ≡ true → v ≤ n.f)
    → IsBelowOpen v ns
    → IsBelowOpen v (n ∷ ns)
IsBelowOpen-cons v n ns h hs zero b o = h o
IsBelowOpen-cons v n ns h hs (suc k) b o = hs k (omega (arith, b)) o

-- The answer of the loop: the best so far, if nothing is better, or else the index of a cheapest open node.
abbrev IsAnswer : List AStarNode → ℕ → ℕ → Option ℕ → Option ℕ → Type 0
IsAnswer ns i best_f best answer =
    ((answer ≡ best) × IsBelowOpen best_f ns)
    ⊎ ((k : ℕ) × (answer ≡ some (i + k)) × IsCheapest ns best_f k)

best_from-IsAnswer :
    (ns : List AStarNode) (i best_f : ℕ) (best : Option ℕ)
    → IsAnswer ns i best_f best (best_from ns i best_f best)
unfolding best_from
best_from-IsAnswer [] i best_f best = inl (refl, λ k b o. absurd (omega (arith, b)))
best_from-IsAnswer (n ∷ ns) i best_f best = elim (Bool-cases (n.is_open && ltb n.f best_f)) [
  | inl y ↦
      let less : n.f < best_f = ground arith in
      let opened : n.is_open ≡ true = ground arith in
      rw (y, best_from)
        (elim (best_from-IsAnswer ns (suc i) n.f (some i)) [
          | inl (e, below) ↦ inr (
            0,
            e ∙ ap some (omega arith),
            record {
              is_node = omega arith;
              opened = opened;
              improves = less;
              below = IsBelowOpen-cons n.f n ns (λ o. omega arith) below;
            },
          )
          | inr (k, e, c) ↦ inr (
            suc k,
            e ∙ ap some (omega arith),
            record {
              is_node = omega (arith, c.is_node);
              opened = c.opened;
              improves = omega (arith, c.improves, less);
              below =
                  IsBelowOpen-cons (node_at ns k).f n ns (λ o. omega (arith, c.improves)) c.below;
            },
          )
        ])
  | inr y ↦
      let dear : n.is_open ≡ true → best_f ≤ n.f = λ o. ground arith in
      rw (y, best_from)
        (elim (best_from-IsAnswer ns (suc i) best_f best) [
          | inl (e, below) ↦ inl (e, IsBelowOpen-cons best_f n ns dear below)
          | inr (k, e, c) ↦ inr (
            suc k,
            e ∙ ap some (omega arith),
            record {
              is_node = omega (arith, c.is_node);
              opened = c.opened;
              improves = c.improves;
              below =
                  IsBelowOpen-cons (node_at ns k).f n ns
                    (λ o. let d = dear o in omega (arith, c.improves, d)) c.below;
            },
          )
        ])
]

-- In a search, `getBestNode` gives a cheapest open node, and nothing only when no node is open.
pub get_best_node-cheapest :
    (g : Ground) (a : AStarNodes)
    → IsSearch g a
    → ((get_best_node a ≡ none)
        × ((k : ℕ) → k < length a.nodes → (node_at a.nodes k).is_open ≡ false))
      ⊎ ((i : ℕ) × (get_best_node a ≡ some i)
          × (i < length a.nodes)
          × ((node_at a.nodes i).is_open ≡ true)
          × IsBelowOpen (node_at a.nodes i).f a.nodes)
unfolding get_best_node
get_best_node-cheapest g a s = elim (best_from-IsAnswer a.nodes 0 2147483647 none) [
  | inl (e, below) ↦ inl (
    e,
    λ k b. elim (Bool-cases (node_at a.nodes k).is_open) [
      | inr n ↦ n
      | inl y ↦ absurd (omega (arith, below k b y, (s.tree k b).f_bound, b, s.at_most))
    ],
  )
  | inr (k, e, c) ↦ inr (k, e ∙ ap some (omega arith), c.is_node, c.opened, c.below)
]

some_injective : {i j : ℕ} → some i ≡ some j → i ≡ j
some_injective e = ground arith

pub get_best_node-open :
    (a : AStarNodes) (i : ℕ)
    → get_best_node a ≡ some i
    → (i < length a.nodes) × ((node_at a.nodes i).is_open ≡ true)
unfolding get_best_node
get_best_node-open a i e = elim (best_from-IsAnswer a.nodes 0 2147483647 none) [
  | inl (q, below) ↦ absurd (ground arith)
  | inr (k, q, c) ↦
      let same : k ≡ i = some_injective (ap some (omega arith) ∙ sym q ∙ e) in
      subst (λ j. (j < length a.nodes) × ((node_at a.nodes j).is_open ≡ true)) same
        (c.is_node, c.opened)
]
