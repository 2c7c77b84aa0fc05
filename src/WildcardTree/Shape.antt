-- ===== src/WildcardTree/Shape.antt =====
-- The shape of the tree: a character has at most one child, and below every child there is a name.
use odirion_mmoserver.Base.{
  ℕ, ◌≡◌, ◌⊎◌, inl, inr, refl, subst, ◌∙◌, Bool, true, false, ◌&&◌, none, some, List, [], ◌∷◌,
  arith, ◌==◌, Bool-cases, Option-cases,
}
use odirion_mmoserver.WildcardTree.{
  Node, node, Children, no_children, child, breakpoint, children, find_child, set_child,
  erase_child, get_child, put_child, add_child, insert_name, insert_string, is_bare, remove_below,
  remove_string,
}
use odirion_mmoserver.WildcardTree.Names.{
  find_child-set_child, find_child-erase_child, is_childless-set_child, erased, remove_below-none,
  remove_below-none_below, remove_below-erases, remove_below-keeps,
}

unfoldable mutual
  pub IsShape : Node → Type 0
  IsShape (node b cs) = AreShapes cs

  pub AreShapes : Children → Type 0
  AreShapes no_children = Unit
  AreShapes (child c n cs) =
      (find_child c cs ≡ none) × (is_bare n ≡ false) × IsShape n × AreShapes cs

IsShape-children : (n : Node) → IsShape n → AreShapes (children n)
unfolding IsShape children
IsShape-children (node b cs) h = h

pub AreShapes-find_child :
    (ch : ℕ) (m : Node) (cs : Children)
    → AreShapes cs
    → find_child ch cs ≡ some m
    → (is_bare m ≡ false) × IsShape m
unfolding AreShapes find_child
AreShapes-find_child ch m no_children h e = cc
AreShapes-find_child ch m (child c n cs) h e = elim (Bool-cases (c == ch)) [
  | inl y ↦
      let same : n ≡ m = ground arith in
      subst (λ k. (is_bare k ≡ false) × IsShape k) same (h.1, h.2)
  | inr k ↦ AreShapes-find_child ch m cs h.3 (ground arith)
]

pub get_child-IsShape : (c : ℕ) (n m : Node) → IsShape n → get_child c n ≡ some m → IsShape m
unfolding get_child
get_child-IsShape c n m h e = (AreShapes-find_child c m (children n) (IsShape-children n h) e).1

pub get_child-not_bare :
    (c : ℕ) (n m : Node) → IsShape n → get_child c n ≡ some m → is_bare m ≡ false
unfolding get_child
get_child-not_bare c n m h e = (AreShapes-find_child c m (children n) (IsShape-children n h) e).0

AreShapes-set_child :
    (ch : ℕ) (m : Node) (cs : Children)
    → AreShapes cs
    → is_bare m ≡ false
    → IsShape m
    → AreShapes (set_child ch m cs)
unfolding AreShapes set_child find_child
AreShapes-set_child ch m no_children h b s = (refl, b, s, tt)
AreShapes-set_child ch m (child c n cs) h b s = elim (Bool-cases (c == ch)) [
  | inl y ↦ rw y (h.0, b, s, h.3)
  | inr k ↦
      rw k
        (find_child-set_child c ch m cs ∙ rw k h.0, h.1, h.2, AreShapes-set_child ch m cs h.3 b s)
]

AreShapes-erase_child : (ch : ℕ) (cs : Children) → AreShapes cs → AreShapes (erase_child ch cs)
unfolding AreShapes erase_child
AreShapes-erase_child ch no_children h = tt
AreShapes-erase_child ch (child c n cs) h = elim (Bool-cases (c == ch)) [
  | inl y ↦ rw y (AreShapes-erase_child ch cs h.3)
  | inr k ↦
      rw k (find_child-erase_child c ch cs ∙ rw k h.0, h.1, h.2, AreShapes-erase_child ch cs h.3)
]

put_child-IsShape :
    (ch : ℕ) (m n : Node)
    → IsShape n
    → is_bare m ≡ false
    → IsShape m
    → IsShape (put_child ch m n) × (is_bare (put_child ch m n) ≡ false)
unfolding IsShape put_child is_bare children
put_child-IsShape ch m n h b s = (
  AreShapes-set_child ch m (children n) (IsShape-children n h) b s,
  rw (is_childless-set_child ch m (children n)) refl,
)

add_child-IsShape : (ch : ℕ) (b : Bool) (n : Node) → IsShape n → IsShape (add_child ch b n)
unfolding IsShape add_child get_child
add_child-IsShape ch b n h = elim (Option-cases (find_child ch (children n))) [
  | inl e ↦ rw (e, add_child) tt
  | inr (m, e) ↦
      rw (e, add_child)
        (IsShape-children m (AreShapes-find_child ch m (children n) (IsShape-children n h) e).1)
]

add_child-not_bare : (ch : ℕ) (n : Node) → is_bare (add_child ch true n) ≡ false
unfolding is_bare add_child breakpoint
add_child-not_bare ch n = elim (Option-cases (get_child ch n)) [
  | inl e ↦ rw (e, add_child) (ground arith)
  | inr (m, e) ↦ rw (e, add_child) (ground arith)
]

insert_name-IsShape :
    (ch : ℕ) (cs : List ℕ) (n : Node)
    → IsShape n
    → IsShape (insert_name ch cs n) × (is_bare (insert_name ch cs n) ≡ false)
unfolding insert_name
insert_name-IsShape ch [] n h =
    put_child-IsShape ch (add_child ch true n) n h (add_child-not_bare ch n)
      (add_child-IsShape ch true n h)
insert_name-IsShape ch (c ∷ cs) n h =
    let r = insert_name-IsShape c cs (add_child ch false n) (add_child-IsShape ch false n h) in
    put_child-IsShape ch (insert_name c cs (add_child ch false n)) n h r.1 r.0

erased-IsShape : (c : ℕ) (n : Node) → IsShape n → IsShape (erased n c)
unfolding IsShape erased
erased-IsShape c n h = AreShapes-erase_child c (children n) (IsShape-children n h)

-- What the walk back of `remove` leaves: a node that it stopped at is not bare.
IsLeft : Node × Bool → Type 0
IsLeft r = IsShape r.0 × (r.1 ≡ true ⊎ is_bare r.0 ≡ false)

IsLeft-not_bare : (r : Node × Bool) → IsLeft r → (r.1 && is_bare r.0) ≡ false → is_bare r.0 ≡ false
unfolding IsLeft
IsLeft-not_bare r (s, inl y) k = ground arith
IsLeft-not_bare r (s, inr y) k = y

cleared-IsShape : (n : Node) → IsShape n → IsShape (node false (children n))
unfolding IsShape
cleared-IsShape n h = IsShape-children n h

remove_below-IsLeft :
    (s : List ℕ) (n : Node) (r : Node × Bool) → IsShape n → remove_below s n ≡ some r → IsLeft r
unfolding IsLeft remove_below
remove_below-IsLeft [] n r h e =
    let same : (node false (children n), true) ≡ r = cc in
    subst IsLeft same (cleared-IsShape n h, inl refl)
remove_below-IsLeft (c ∷ cs) n r h e = elim (Option-cases (get_child c n)) [
  | inl a ↦ let missing = remove_below-none c cs n a in cc
  | inr (m, a) ↦ elim (Option-cases (remove_below cs m)) [
    | inl b ↦ let missing = remove_below-none_below c cs n m a b in cc
    | inr (q, b) ↦
        let left = remove_below-IsLeft cs m q (get_child-IsShape c n m h a) b in
        elim (Bool-cases (q.1 && is_bare q.0)) [
          | inl y ↦
              let step = remove_below-erases c cs n m q a b y in
              let same : (erased n c, true) ≡ r = cc in
              subst IsLeft same (erased-IsShape c n h, inl refl)
          | inr k ↦
              let step = remove_below-keeps c cs n m q a b k in
              let same : (put_child c q.0 n, false) ≡ r = cc in
              let p = put_child-IsShape c q.0 n h (IsLeft-not_bare q left k) left.0 in
              subst IsLeft same (p.0, inr p.1)
        ]
  ]
]

remove_below-IsShape :
    (s : List ℕ) (n : Node) (r : Node × Bool) → IsShape n → remove_below s n ≡ some r → IsShape r.0
unfolding IsLeft
remove_below-IsShape s n r h e = (remove_below-IsLeft s n r h e).0

pub remove_string-IsShape : (s : List ℕ) (n : Node) → IsShape n → IsShape (remove_string s n)
unfolding remove_string
remove_string-IsShape s n h = elim (Option-cases (remove_below s n)) [
  | inl e ↦ rw (e, remove_string) h
  | inr (r, e) ↦ rw (e, remove_string) (remove_below-IsShape s n r h e)
]

pub insert_string-IsShape :
    (s : List ℕ) (n n' : Node) → IsShape n → insert_string s n ≡ some n' → IsShape n'
unfolding insert_string
insert_string-IsShape [] n n' h e = cc
insert_string-IsShape (c ∷ cs) n n' h e =
    let same : insert_name c cs n ≡ n' = cc in subst IsShape same (insert_name-IsShape c cs n h).0
