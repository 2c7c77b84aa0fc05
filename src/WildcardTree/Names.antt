-- ===== src/WildcardTree/Names.antt =====
-- The tree as a set of names: what `insert` and `remove` do to it.
use odirion_mmoserver.Base.{
  ℕ, ◌≡◌, ◌⊎◌, inl, inr, refl, sym, ap, subst, ◌∙◌, Bool, true, false, not, ◌&&◌, ◌||◌, none, some,
  List, [], ◌∷◌, arith, ◌==◌, if◌then◌else◌, Bool-cases, Option-cases,
}
use odirion_mmoserver.WildcardTree.{
  Node, node, Children, no_children, child, breakpoint, children, find_child, set_child,
  erase_child, is_childless, get_child, put_child, add_child, insert_name, is_bare, remove_below,
  remove_string, same_string,
}

-- Whether a name is in the tree.
unfoldable pub has : List ℕ → Node → Bool
has [] n = breakpoint n
has (c ∷ cs) n = elim (get_child c n) [ none ↦ false | some m ↦ has cs m ]

pub find_child-set_child :
    (c ch : ℕ) (m : Node) (cs : Children)
    → find_child c (set_child ch m cs) ≡ (if c == ch then some m else find_child c cs)
unfolding find_child set_child
find_child-set_child c ch m no_children = ground arith
find_child-set_child c ch m (child d n cs) = ground (arith, find_child-set_child c ch m cs)

pub find_child-erase_child :
    (c ch : ℕ) (cs : Children)
    → find_child c (erase_child ch cs) ≡ (if c == ch then none else find_child c cs)
unfolding find_child erase_child
find_child-erase_child c ch no_children = ground arith
find_child-erase_child c ch (child d n cs) = ground (arith, find_child-erase_child c ch cs)

pub is_childless-set_child :
    (ch : ℕ) (m : Node) (cs : Children) → is_childless (set_child ch m cs) ≡ false
unfolding is_childless set_child
is_childless-set_child ch m no_children = refl
is_childless-set_child ch m (child c n cs) = ground arith

pub same_string-eq : (s t : List ℕ) → same_string s t ≡ true → s ≡ t
unfolding same_string
same_string-eq [] [] h = refl
same_string-eq [] (b ∷ bs) h = cc
same_string-eq (a ∷ cs) [] h = cc
same_string-eq (a ∷ cs) (b ∷ bs) h = ground (arith, same_string-eq cs bs)

pub has-missing : (c : ℕ) (cs : List ℕ) (n : Node) → get_child c n ≡ none → has (c ∷ cs) n ≡ false
unfolding has
has-missing c cs n e = rw (e, has) refl

pub has-present :
    (c : ℕ) (cs : List ℕ) (n m : Node) → get_child c n ≡ some m → has (c ∷ cs) n ≡ has cs m
unfolding has
has-present c cs n m e = rw (e, has) refl

add_child-missing :
    (c : ℕ) (b : Bool) (n : Node) → get_child c n ≡ none → add_child c b n ≡ node b no_children
unfolding add_child
add_child-missing c b n e = rw (e, add_child) refl

add_child-present :
    (c : ℕ) (b : Bool) (n m : Node)
    → get_child c n ≡ some m
    → add_child c b n ≡ node (breakpoint m || b) (children m)
unfolding add_child
add_child-present c b n m e = rw (e, add_child) refl

-- Two nodes with the same child, or with none.
has-same :
    (c : ℕ) (cs : List ℕ) (n n' : Node)
    → get_child c n ≡ get_child c n'
    → has (c ∷ cs) n ≡ has (c ∷ cs) n'
unfolding has
has-same c cs n n' e = rw (e, has) refl

get_child-put_child :
    (d ch : ℕ) (m n : Node)
    → get_child d (put_child ch m n) ≡ (if d == ch then some m else get_child d n)
unfolding get_child put_child children
get_child-put_child d ch m n = find_child-set_child d ch m (children n)

has-put_child :
    (d ch : ℕ) (ds : List ℕ) (m n : Node)
    → has (d ∷ ds) (put_child ch m n) ≡ (if d == ch then has ds m else has (d ∷ ds) n)
has-put_child d ch ds m n = elim (Bool-cases (d == ch)) [
  | inl y ↦ rw y (has-present d ds (put_child ch m n) m (get_child-put_child d ch m n ∙ rw y refl))
  | inr e ↦ rw e (has-same d ds (put_child ch m n) n (get_child-put_child d ch m n ∙ rw e refl))
]

childless : (d : ℕ) (b : Bool) → get_child d (node b no_children) ≡ none
unfolding get_child children find_child
childless d b = refl

-- The breakpoint of a node matters for the empty name only.
same_children :
    (d : ℕ) (ds : List ℕ) (b : Bool) (n : Node)
    → has (d ∷ ds) (node b (children n)) ≡ has (d ∷ ds) n
unfolding has get_child children
same_children d ds b n = refl

-- The child that `addChild` returns holds what it held, and the empty rest if it is a breakpoint.
has-add_child :
    (ch : ℕ) (b : Bool) (x : List ℕ) (n : Node)
    → has x (add_child ch b n) ≡ ((b && same_string x []) || has (ch ∷ x) n)
unfolding has same_string breakpoint
has-add_child ch b [] n = elim (Option-cases (get_child ch n)) [
  | inl e ↦ rw (add_child-missing ch b n e, has-missing ch [] n e) (ground arith)
  | inr (m, e) ↦ rw (add_child-present ch b n m e, has-present ch [] n m e) (ground arith)
]
has-add_child ch b (d ∷ ds) n = elim (Option-cases (get_child ch n)) [
  | inl e ↦
      rw (add_child-missing ch b n e, has-missing ch (d ∷ ds) n e)
        (has-missing d ds (node b no_children) (childless d b) ∙ ground arith)
  | inr (m, e) ↦
      rw (add_child-present ch b n m e, has-present ch (d ∷ ds) n m e)
        (same_children d ds (breakpoint m || b) m ∙ ground arith)
]

put_child-keeps : (ch : ℕ) (m n : Node) → has [] (put_child ch m n) ≡ has [] n
unfolding has put_child breakpoint
put_child-keeps ch m n = refl

-- A child that has one rest more makes the node have one name more.
has-put_name :
    (ch : ℕ) (t : List ℕ) (m n : Node)
    → ((ds : List ℕ) → has ds m ≡ (same_string ds t || has (ch ∷ ds) n))
    → (x : List ℕ) → has x (put_child ch m n) ≡ (same_string x (ch ∷ t) || has x n)
unfolding same_string
has-put_name ch t m n h [] = put_child-keeps ch m n
has-put_name ch t m n h (d ∷ ds) = elim (Bool-cases (d == ch)) [
  | inl y ↦ let same : d ≡ ch = ground arith in rw (has-put_child d ch ds m n, y, h ds, same) refl
  | inr e ↦ rw (has-put_child d ch ds m n, e) refl
]

-- After an insertion the tree has the name, and the names that it had.
pub has-insert_name :
    (ch : ℕ) (cs x : List ℕ) (n : Node)
    → has x (insert_name ch cs n) ≡ (same_string x (ch ∷ cs) || has x n)
unfolding insert_name
has-insert_name ch [] x n =
    has-put_name ch [] (add_child ch true n) n (λ ds. has-add_child ch true ds n) x
has-insert_name ch (c ∷ cs) x n =
    has-put_name ch (c ∷ cs) (insert_name c cs (add_child ch false n)) n
      (λ ds.
        has-insert_name c cs ds (add_child ch false n)
        ∙ ap (λ b. same_string ds (c ∷ cs) || b) (has-add_child ch false ds n))
      x

-- What a removal leaves of a node, where the walk reached the end.
IsRemoved : List ℕ → Node → Node → Type 0
IsRemoved s n n' = (x : List ℕ) → has x n' ≡ (not (same_string x s) && has x n)

pub bare_has : (n : Node) → is_bare n ≡ true → (x : List ℕ) → has x n ≡ false
unfolding is_bare is_childless has breakpoint children get_child find_child
bare_has (node b no_children) h [] = ground arith
bare_has (node b no_children) h (c ∷ cs) = refl
bare_has (node b (child c n cs)) h x = ground arith

-- The node after the child was put back or erased.
child-IsRemoved :
    (c : ℕ) (cs : List ℕ) (n m m' n' : Node)
    → get_child c n ≡ some m
    → IsRemoved cs m m'
    → (has [] n' ≡ has [] n)
    → ((d : ℕ) (ds : List ℕ) → has (d ∷ ds) n' ≡ (if d == c then has ds m' else has (d ∷ ds) n))
    → IsRemoved (c ∷ cs) n n'
unfolding IsRemoved same_string has
child-IsRemoved c cs n m m' n' e r h k [] = h
child-IsRemoved c cs n m m' n' e r h k (d ∷ ds) = elim (Bool-cases (d == c)) [
  | inl y ↦
      let same : d ≡ c = ground arith in
      let at_child : has (d ∷ ds) n ≡ has ds m = rw same (has-present c ds n m e) in
      k d ds ∙ rw y (r ds ∙ ap (λ b. not (same_string ds cs) && b) (sym at_child))
  | inr no_match ↦ k d ds ∙ rw no_match refl
]

unfoldable pub erased : Node → ℕ → Node
erased n c = node (breakpoint n) (erase_child c (children n))

get_child-erased :
    (d c : ℕ) (n : Node) → get_child d (erased n c) ≡ (if d == c then none else get_child d n)
unfolding get_child children erased
get_child-erased d c n = find_child-erase_child d c (children n)

has-erased :
    (d c : ℕ) (ds : List ℕ) (m n : Node)
    → is_bare m ≡ true
    → has (d ∷ ds) (erased n c) ≡ (if d == c then has ds m else has (d ∷ ds) n)
has-erased d c ds m n bare = elim (Bool-cases (d == c)) [
  | inl y ↦ rw y (
      has-missing d ds (erased n c) (get_child-erased d c n ∙ rw y refl) ∙ sym (bare_has m bare ds))
  | inr e ↦ rw e (has-same d ds (erased n c) n (get_child-erased d c n ∙ rw e refl))
]

erased-keeps : (n : Node) (c : ℕ) → has [] (erased n c) ≡ has [] n
unfolding has erased breakpoint
erased-keeps n c = refl

IsRemoved-here : (n : Node) → IsRemoved [] n (node false (children n))
unfolding IsRemoved has same_string breakpoint
IsRemoved-here n [] = refl
IsRemoved-here n (d ∷ ds) = same_children d ds false n

-- The four ways of `remove_below` at a child.
pub remove_below-none :
    (c : ℕ) (cs : List ℕ) (n : Node) → get_child c n ≡ none → remove_below (c ∷ cs) n ≡ none
unfolding remove_below
remove_below-none c cs n e = rw (e, remove_below) refl

pub remove_below-none_below :
    (c : ℕ) (cs : List ℕ) (n m : Node)
    → get_child c n ≡ some m
    → remove_below cs m ≡ none
    → remove_below (c ∷ cs) n ≡ none
unfolding remove_below
remove_below-none_below c cs n m e e' = rw (e, remove_below) (rw e' refl)

pub remove_below-erases :
    (c : ℕ) (cs : List ℕ) (n m : Node) (r : Node × Bool)
    → get_child c n ≡ some m
    → remove_below cs m ≡ some r
    → (r.1 && is_bare r.0) ≡ true
    → remove_below (c ∷ cs) n ≡ some (erased n c, true)
unfolding remove_below erased
remove_below-erases c cs n m r e e' y = rw (e, remove_below) (rw (e', y) refl)

pub remove_below-keeps :
    (c : ℕ) (cs : List ℕ) (n m : Node) (r : Node × Bool)
    → get_child c n ≡ some m
    → remove_below cs m ≡ some r
    → (r.1 && is_bare r.0) ≡ false
    → remove_below (c ∷ cs) n ≡ some (put_child c r.0 n, false)
unfolding remove_below
remove_below-keeps c cs n m r e e' y = rw (e, remove_below) (rw (e', y) refl)

-- The two ways that the first loop of `remove` ends.
IsRemoval : List ℕ → Node → Type 0
IsRemoval s n =
    ((remove_below s n ≡ none) × (has s n ≡ false))
    ⊎ ((r : Node × Bool) × (remove_below s n ≡ some r) × IsRemoved s n r.0)

remove_below-IsRemoval : (s : List ℕ) (n : Node) → IsRemoval s n
unfolding remove_below IsRemoval
remove_below-IsRemoval [] n = inr ((node false (children n), true), refl, IsRemoved-here n)
remove_below-IsRemoval (c ∷ cs) n = elim (Option-cases (get_child c n)) [
  | inl e ↦ inl (remove_below-none c cs n e, has-missing c cs n e)
  | inr (m, e) ↦ elim (remove_below-IsRemoval cs m) [
    | inl (e', h) ↦ inl (remove_below-none_below c cs n m e e', has-present c cs n m e ∙ h)
    | inr (r, e', h) ↦ elim (Bool-cases (r.1 && is_bare r.0)) [
      | inl y ↦
          let bare : is_bare r.0 ≡ true = ground arith in
          inr (
            (erased n c, true),
            remove_below-erases c cs n m r e e' y,
            child-IsRemoved c cs n m r.0 (erased n c) e h (erased-keeps n c)
                (λ d ds. has-erased d c ds r.0 n bare),
          )
      | inr k ↦ inr (
        (put_child c r.0 n, false),
        remove_below-keeps c cs n m r e e' k,
        child-IsRemoved c cs n m r.0 (put_child c r.0 n) e h (put_child-keeps c r.0 n)
            (λ d ds. has-put_child d c ds r.0 n),
      )
    ]
  ]
]

not_same :
    (x s : List ℕ) (n : Node) → has s n ≡ false → has x n ≡ (not (same_string x s) && has x n)
not_same x s n h = elim (Bool-cases (same_string x s)) [
  | inl y ↦ rw y (subst (λ z. has z n ≡ false) (sym (same_string-eq x s y)) h)
  | inr k ↦ rw k refl
]

-- After a removal the tree has the names that it had but the one removed, whether it had that or not.
pub has-remove_string :
    (s x : List ℕ) (n : Node) → has x (remove_string s n) ≡ (not (same_string x s) && has x n)
unfolding remove_string IsRemoval IsRemoved
has-remove_string s x n = elim (remove_below-IsRemoval s n) [
  | inl (e, h) ↦ rw (e, remove_string) (not_same x s n h)
  | inr (r, e, h) ↦ rw (e, remove_string) (h x)
]
