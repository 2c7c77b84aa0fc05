-- ===== src/WildcardTree/Search.antt =====
-- What `findOne` finds: the only name that starts so, or that there are more.
use odirion_mmoserver.Base.{
  ℕ, ◌≡◌, ◌≢◌, ◌⊎◌, inl, inr, refl, sym, ap, ◌∙◌, Bool, true, false, none, some, List, [], ◌∷◌,
  ◌++◌, arith, ◌==◌, Bool-cases, Option-cases, ==_refl,
}
use odirion_mmoserver.WildcardTree.{
  Node, node, Children, no_children, child, breakpoint, children, find_child, get_child, is_bare,
  is_childless, ReturnValue, no_error, player_not_online, name_too_ambiguous, walk, descend,
  find_one,
}
use odirion_mmoserver.WildcardTree.Names.{has, has-present, has-missing}
use odirion_mmoserver.WildcardTree.Shape.{IsShape, AreShapes, get_child-IsShape, get_child-not_bare}

-- A name below a node, the only one there, and two different ones.
pub record IsOnly (n : Node) (s : List ℕ) : Type 0 where
  pub is_there : has s n ≡ true
  pub is_alone : (x : List ℕ) → has x n ≡ true → x ≡ s

pub record IsAmbiguous (n : Node) : Type 0 where
  pub first : List ℕ
  pub second : List ℕ
  pub has_first : has first n ≡ true
  pub has_second : has second n ≡ true
  pub different : first ≢ second

unfoldable pub IsDescent : Node → ReturnValue × List ℕ → Type 0
IsDescent n r = (r.0 ≡ no_error × IsOnly n r.1) ⊎ (r.0 ≡ name_too_ambiguous × IsAmbiguous n)

first_child :
    (b : Bool) (c : ℕ) (m : Node) (cs : Children) → get_child c (node b (child c m cs)) ≡ some m
unfolding get_child children find_child
first_child b c m cs = rw (==_refl c) refl

second_child :
    (b : Bool) (c c' : ℕ) (m m' : Node) (cs : Children)
    → find_child c (child c' m' cs) ≡ none
    → (get_child c' (node b (child c m (child c' m' cs))) ≡ some m') × (c ≢ c')
unfolding get_child children find_child
second_child b c c' m m' cs h = elim (Bool-cases (c == c')) [
  | inl y ↦
      let other : (c' == c) ≡ true = ground arith in
      let none_there : some m' ≡ none = sym (rw other refl) ∙ h in cc
  | inr k ↦ (rw (k, ==_refl c') refl, ground arith)
]

-- The only child that a name can go on in.
only_child :
    (b : Bool) (c d : ℕ) (ds : List ℕ) (m : Node)
    → has (d ∷ ds) (node b (child c m no_children)) ≡ true
    → (d ≡ c) × (has ds m ≡ true)
unfolding has get_child children find_child
only_child b c d ds m h = elim (Bool-cases (c == d)) [
  | inl y ↦
      let same : d ≡ c = ground arith in
      let there = has-present d ds (node b (child c m no_children)) m (rw y refl) in
      (same, sym there ∙ h)
  | inr k ↦ let missing = has-missing d ds (node b (child c m no_children)) (rw k refl) in cc
]

pub live : (n : Node) → IsShape n → is_bare n ≡ false → (s : List ℕ) × (has s n ≡ true)
unfolding IsShape AreShapes is_bare is_childless has breakpoint children
live (node true cs) h b = ([], refl)
live (node false no_children) h b = cc
live (node false (child c m cs)) h b =
    let r = live m h.2 h.1 in
    (c ∷ r.0, has-present c r.0 (node false (child c m cs)) m (first_child false c m cs) ∙ r.1)

childless_has : (b : Bool) (x : List ℕ) → has x (node b no_children) ≡ true → x ≡ []
unfolding has get_child children find_child
childless_has b [] h = refl
childless_has b (c ∷ cs) h = cc

-- The answers of `descend` at a node without a child, with one, and with more.
descend-none :
    (b : Bool)
    → is_bare (node b no_children) ≡ false
    → IsDescent (node b no_children) (no_error, [])
unfolding IsDescent is_bare is_childless breakpoint children has
descend-none true h = inl (refl, record { is_there = refl; is_alone = childless_has true })
descend-none false h = cc

one_more :
    (c : ℕ) (m : Node) (cs : Children)
    → (s : List ℕ) → has s m ≡ true
    → IsAmbiguous (node true (child c m cs))
unfolding has breakpoint
one_more c m cs s h = record {
  first = [];
  second = c ∷ s;
  has_first = refl;
  has_second = has-present c s (node true (child c m cs)) m (first_child true c m cs) ∙ h;
  different = λ e. cc;
}

two_children :
    (b : Bool) (c c' : ℕ) (m m' : Node) (cs : Children)
    → IsShape (node b (child c m (child c' m' cs)))
    → IsAmbiguous (node b (child c m (child c' m' cs)))
unfolding IsShape AreShapes
two_children b c c' m m' cs h =
    let n = node b (child c m (child c' m' cs)) in
    let l = live m h.2 h.1 in
    let l' = live m' h.3.2 h.3.1 in
    let other = second_child b c c' m m' cs h.0 in
    record {
      first = c ∷ l.0;
      second = c' ∷ l'.0;
      has_first = has-present c l.0 n m (first_child b c m (child c' m' cs)) ∙ l.1;
      has_second = has-present c' l'.0 n m' other.0 ∙ l'.1;
      different = λ e. other.1 cc;
    }

through_child :
    (c : ℕ) (m : Node) (r : ReturnValue × List ℕ)
    → IsDescent m r
    → IsDescent (node false (child c m no_children)) (r.0, c ∷ r.1)
unfolding IsDescent has breakpoint
through_child c m r (inl (e, o)) =
    let n = node false (child c m no_children) in
    inl (
      e,
      record {
        is_there = has-present c r.1 n m (first_child false c m no_children) ∙ o.is_there;
        is_alone = alone;
      },
    )
  where
    alone : (x : List ℕ) → has x (node false (child c m no_children)) ≡ true → x ≡ c ∷ r.1
    alone [] h = cc
    alone (d ∷ ds) h =
        let k = only_child false c d ds m h in let head = k.0 in let tail = o.is_alone ds k.1 in cc
through_child c m r (inr (e, a)) =
    let n = node false (child c m no_children) in
    let there = first_child false c m no_children in
    inr (
      e,
      record {
        first = c ∷ a.first;
        second = c ∷ a.second;
        has_first = has-present c a.first n m there ∙ a.has_first;
        has_second = has-present c a.second n m there ∙ a.has_second;
        different = λ k. a.different cc;
      },
    )

descend-IsDescent : (n : Node) → IsShape n → is_bare n ≡ false → IsDescent n (descend n)
unfolding descend IsShape AreShapes IsDescent
descend-IsDescent (node b no_children) h l = descend-none b l
descend-IsDescent (node true (child c m no_children)) h l =
    let s = live m h.2 h.1 in inr (refl, one_more c m no_children s.0 s.1)
descend-IsDescent (node false (child c m no_children)) h l =
    through_child c m (descend m) (descend-IsDescent m h.2 h.1)
descend-IsDescent (node b (child c m (child c' m' cs))) h l =
    inr (refl, two_children b c c' m m' cs h)

walk-missing : (c : ℕ) (cs : List ℕ) (n : Node) → get_child c n ≡ none → walk (c ∷ cs) n ≡ none
unfolding walk
walk-missing c cs n e = rw (e, walk) refl

walk-present :
    (c : ℕ) (cs : List ℕ) (n m : Node) → get_child c n ≡ some m → walk (c ∷ cs) n ≡ walk cs m
unfolding walk
walk-present c cs n m e = rw (e, walk) refl

-- Where a walk ends: nowhere, or at a node below which are the names that start so.
IsWalked : List ℕ → Node → Type 0
IsWalked q t =
    ((walk q t ≡ none) × ((s : List ℕ) → has (q ++ s) t ≡ false))
    ⊎ ((n : Node) × (walk q t ≡ some n)
        × ((s : List ℕ) → has (q ++ s) t ≡ has s n)
        × IsShape n
        × (is_bare n ≡ false))

walk-IsWalked : (q : List ℕ) (t : Node) → IsShape t → is_bare t ≡ false → IsWalked q t
unfolding IsWalked walk
walk-IsWalked [] t h l = inr (t, refl, (λ s. refl), h, l)
walk-IsWalked (c ∷ cs) t h l = elim (Option-cases (get_child c t)) [
  | inl e ↦ inl (walk-missing c cs t e, λ s. has-missing c (cs ++ s) t e)
  | inr (m, e) ↦
      let step = walk-present c cs t m e in
      elim (walk-IsWalked cs m (get_child-IsShape c t m h e) (get_child-not_bare c t m h e)) [
        | inl (w, k) ↦ inl (step ∙ w, λ s. has-present c (cs ++ s) t m e ∙ k s)
        | inr (n, w, k, h', l') ↦
            inr (n, step ∙ w, (λ s. has-present c (cs ++ s) t m e ∙ k s), h', l')
      ]
]

-- What `findOne` may answer, for the names of a tree that start with the query.
unfoldable pub IsAnswer : Node → List ℕ → ReturnValue × List ℕ → Type 0
IsAnswer t q r =
    (r.0 ≡ player_not_online × ((s : List ℕ) → has (q ++ s) t ≡ false))
    ⊎ ((s : List ℕ) × (r ≡ (no_error, q ++ s))
        × (has (q ++ s) t ≡ true)
        × ((x : List ℕ) → has (q ++ x) t ≡ true → x ≡ s))
    ⊎ (r.0 ≡ name_too_ambiguous
        × (x : List ℕ) × (y : List ℕ) × (has (q ++ x) t ≡ true)
        × (has (q ++ y) t ≡ true)
        × (x ≢ y))

find_one-missing :
    (t : Node) (q result : List ℕ)
    → walk q t ≡ none
    → find_one t q result ≡ (player_not_online, result)
unfolding find_one
find_one-missing t q result e = rw (e, find_one) refl

find_one-present :
    (t n : Node) (q result : List ℕ)
    → walk q t ≡ some n
    → find_one t q result ≡ ((descend n).0, q ++ (descend n).1)
unfolding find_one
find_one-present t n q result e = rw (e, find_one) refl

-- In a tree of this shape with a name, `findOne` answers with the only name that starts with the query, or that there
-- is none, or that there are several.
pub find_one-IsAnswer :
    (t : Node) (q result : List ℕ)
    → IsShape t
    → is_bare t ≡ false
    → IsAnswer t q (find_one t q result)
unfolding IsAnswer IsWalked IsDescent
find_one-IsAnswer t q result h l = elim (walk-IsWalked q t h l) [
  | inl (w, k) ↦ inl (ap (λ r. r.0) (find_one-missing t q result w), k)
  | inr (n, w, k, h', l') ↦
      let e = find_one-present t n q result w in
      elim (descend-IsDescent n h' l') [
        | inl (a, o) ↦ inr (
            inl (
              (descend n).1,
              e ∙ rw a refl,
              k (descend n).1 ∙ o.is_there,
              λ x y. o.is_alone x (sym (k x) ∙ y),
            ))
        | inr (a, o) ↦ inr (
            inr (
              ap (λ r. r.0) e ∙ a,
              o.first,
              o.second,
              k o.first ∙ o.has_first,
              k o.second ∙ o.has_second,
              o.different,
            ))
      ]
]
