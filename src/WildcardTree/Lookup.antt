-- ===== src/WildcardTree/Lookup.antt =====
-- The search by the start of a name, for the players online: `getPlayerByNameWildcard` of game.cpp.
use odirion_mmoserver.Base.{
  ℕ, suc, ◌+◌, ◌<◌, ◌≡◌, ◌≢◌, inl, inr, refl, sym, subst, ◌∙◌, true, false, Option, none, some,
  List, [], ◌∷◌, ◌++◌, arith, ltb, if◌then◌else◌, length, Bool-cases,
}
use odirion_mmoserver.WildcardTree.{
  Node, node, no_children, child, breakpoint, children, find_child, get_child, is_bare,
  is_childless, ReturnValue, no_error, player_not_online, name_too_ambiguous, walk, descend,
  find_one, lower_case_string, Player, Online, get_player_by_name, split_last, found, is_no_error,
  get_player_by_name_wildcard,
}
use odirion_mmoserver.WildcardTree.Names.{has, bare_has}
use odirion_mmoserver.WildcardTree.Search.{IsAnswer, find_one-IsAnswer}
use odirion_mmoserver.WildcardTree.Players.{is_some, IsOnline}

-- The answers for a query in lower case.
pub data Outcome (g : Online) (q : List ℕ) (r : ReturnValue × Option Player) : Type 0 where
  nobody :
      r ≡ (player_not_online, none)
      → ((s : List ℕ) → g.mapped_player_names (q ++ s) ≡ none)
      → Outcome g q r
  only_one :
      (p : Player) (s : List ℕ)
      → r ≡ (no_error, some p)
      → g.mapped_player_names (q ++ s) ≡ some p
      → ((x : List ℕ) → g.mapped_player_names (q ++ x) ≢ none → x ≡ s)
      → Outcome g q r
  several :
      (x y : List ℕ)
      → r ≡ (name_too_ambiguous, none)
      → g.mapped_player_names (q ++ x) ≢ none
      → g.mapped_player_names (q ++ y) ≢ none
      → x ≢ y
      → Outcome g q r

split_last-append : (c : ℕ) (cs : List ℕ) (d : ℕ) → split_last c (cs ++ d ∷ []) ≡ (c ∷ cs, d)
unfolding split_last
split_last-append c [] d = refl
split_last-append c (e ∷ es) d = rw (split_last-append e es d) refl

-- What `getPlayerByNameWildcard` makes of the answer of `findOne`.
answer : Online → ReturnValue × List ℕ → ReturnValue × Option Player
answer g r = if is_no_error r.0 then found (get_player_by_name g r.1) else (r.0, none)

length-append_one : (cs : List ℕ) (d : ℕ) → length (cs ++ d ∷ []) ≡ length cs + 1
length-append_one [] d = refl
length-append_one (c ∷ cs) d = omega (arith, length-append_one cs d)

wildcard-answer :
    (g : Online) (q : List ℕ)
    → length q < 20
    → get_player_by_name_wildcard g (q ++ 126 ∷ [])
      ≡ answer g (find_one g.wildcard_tree (lower_case_string q) [])
unfolding get_player_by_name_wildcard answer split_last
wildcard-answer g [] small = refl
wildcard-answer g (c ∷ cs) small =
    let short : ltb 20 (suc (length (cs ++ 126 ∷ []))) ≡ false =
      rw (length-append_one cs 126) (ground arith) in
    rw (short, split_last-append c cs 126) refl

is_some-none : (o : Option Player) → is_some o ≡ false → o ≡ none
is_some-none none h = refl
is_some-none (some p) h = cc

is_some-some : (o : Option Player) → is_some o ≡ true → (p : Player) × (o ≡ some p)
is_some-some none h = cc
is_some-some (some p) h = (p, refl)

not_none : (o : Option Player) → o ≢ none → is_some o ≡ true
not_none none h = absurd (h refl)
not_none (some p) h = refl

get_player_by_name-there :
    (g : Online) (s : List ℕ) (p : Player)
    → IsOnline g
    → has s g.wildcard_tree ≡ true
    → g.mapped_player_names s ≡ some p
    → get_player_by_name g s ≡ some p
unfolding get_player_by_name
get_player_by_name-there g [] p h there e = let unnamed = h.named in cc
get_player_by_name-there g (c ∷ cs) p h there e = rw (h.lowered (c ∷ cs) there) (ground (arith, e))

absent :
    (g : Online) (s : List ℕ)
    → IsOnline g
    → has s g.wildcard_tree ≡ false
    → g.mapped_player_names s ≡ none
absent g s h e = is_some-none (g.mapped_player_names s) (sym (h.agree s) ∙ e)

present :
    (g : Online) (s : List ℕ)
    → IsOnline g
    → has s g.wildcard_tree ≡ true
    → g.mapped_player_names s ≢ none
present g s h e k =
    let there : is_some (g.mapped_player_names s) ≡ true = sym (h.agree s) ∙ e in
    let gone : is_some (g.mapped_player_names s) ≡ false = rw k refl in cc

known :
    (g : Online) (s : List ℕ)
    → IsOnline g
    → g.mapped_player_names s ≢ none
    → has s g.wildcard_tree ≡ true
known g s h k = h.agree s ∙ not_none (g.mapped_player_names s) k

-- Without a name in the tree, nobody is found.
bare_answer :
    (g : Online) (t : Node) (q : List ℕ)
    → is_bare t ≡ true
    → answer g (find_one t q []) ≡ (player_not_online, none)
unfolding answer find_one walk descend get_child find_child children is_bare is_childless breakpoint
    is_no_error found get_player_by_name
bare_answer g (node true cs) q bare = ground arith
bare_answer g (node false no_children) [] bare = refl
bare_answer g (node false no_children) (c ∷ cs) bare = refl
bare_answer g (node false (child c m cs)) q bare = cc

answer-Outcome :
    (g : Online) (q : List ℕ) → IsOnline g → Outcome g q (answer g (find_one g.wildcard_tree q []))
unfolding answer IsAnswer is_no_error found
answer-Outcome g q h = elim (Bool-cases (is_bare g.wildcard_tree)) [
  | inl bare ↦
      nobody (bare_answer g g.wildcard_tree q bare)
        (λ s. absent g (q ++ s) h (bare_has g.wildcard_tree bare (q ++ s)))
  | inr live ↦ elim (find_one-IsAnswer g.wildcard_tree q [] h.shape live) [
    | inl (e, k) ↦ nobody (rw e refl) (λ s. absent g (q ++ s) h (k s))
    | inr (inl (s, e, there, alone)) ↦
        let (p, e') =
          is_some-some (g.mapped_player_names (q ++ s)) (sym (h.agree (q ++ s)) ∙ there) in
        only_one p s (rw (e, get_player_by_name-there g (q ++ s) p h there e') refl) e'
          (λ x k. alone x (known g (q ++ x) h k))
    | inr (inr (e, x, y, a, b, different)) ↦
        several x y (rw e refl) (present g (q ++ x) h a) (present g (q ++ y) h b) different
  ]
]

-- If the tree and the map agree on the names online, then a query of less than 20 characters and a ~ finds
-- the player whose name alone starts with it in lower case, and else answers that there is none or that there are several.
pub get_player_by_name_wildcard-Outcome :
    (g : Online) (q : List ℕ)
    → IsOnline g
    → length q < 20
    → Outcome g (lower_case_string q) (get_player_by_name_wildcard g (q ++ 126 ∷ []))
get_player_by_name_wildcard-Outcome g q h small =
    subst (Outcome g (lower_case_string q)) (sym (wildcard-answer g q small))
      (answer-Outcome g (lower_case_string q) h)
