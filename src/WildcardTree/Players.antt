-- ===== src/WildcardTree/Players.antt =====
-- The players online: the tree holds the names of `mappedPlayerNames`.
use odirion_mmoserver.Base.{
  ℕ, ◌≡◌, ◌≢◌, inl, inr, refl, subst, ◌∙◌, Bool, true, false, ◌||◌, Option, none, some, List, [],
  ◌∷◌, All, arith, if◌then◌else◌, Bool-cases,
}
use odirion_mmoserver.WildcardTree.{
  Node, insert_name, insert_string, to_lower, lower_case_string, same_string, Player, Online,
  set_player, set_name, add_player, remove_player,
}
use odirion_mmoserver.WildcardTree.Names.{has, has-insert_name, has-remove_string, same_string-eq}
use odirion_mmoserver.WildcardTree.Shape.{IsShape, insert_string-IsShape, remove_string-IsShape}

abbrev pub is_some : Option Player → Bool
is_some none = false
is_some (some p) = true

-- The tree and the map agree; a name in the map is in lower case and is not empty.
pub record IsOnline (g : Online) : Type 0 where
  pub shape : IsShape g.wildcard_tree
  pub agree : (s : List ℕ) → has s g.wildcard_tree ≡ is_some (g.mapped_player_names s)
  pub lowered : (s : List ℕ) → has s g.wildcard_tree ≡ true → lower_case_string s ≡ s
  pub named : g.mapped_player_names [] ≡ none

to_lower-idempotent : (c : ℕ) → to_lower (to_lower c) ≡ to_lower c
unfolding to_lower
to_lower-idempotent c = ground arith

lower_case_string-idempotent :
    (s : List ℕ) → lower_case_string (lower_case_string s) ≡ lower_case_string s
unfolding lower_case_string
lower_case_string-idempotent [] = refl
lower_case_string-idempotent (c ∷ cs) =
    let head = to_lower-idempotent c in let tail = lower_case_string-idempotent cs in cc

insert_string-has :
    (s x : List ℕ) (t t' : Node)
    → insert_string s t ≡ some t'
    → (has x t' ≡ (same_string x s || has x t)) × (s ≢ [])
unfolding insert_string
insert_string-has [] x t t' e = cc
insert_string-has (c ∷ cs) x t t' e =
    let same : insert_name c cs t ≡ t' = cc in
    (
      subst (λ n. has x n ≡ (same_string x (c ∷ cs) || has x t)) same (has-insert_name c cs x t),
      λ k. cc,
    )

add_player-refused :
    (p : Player) (g : Online)
    → insert_string (lower_case_string p.name) g.wildcard_tree ≡ none
    → add_player p g ≡ none
unfolding add_player
add_player-refused p g e = rw (e, add_player) refl

added : Player → Online → Node → Online
added p g t = record {
  players = set_player p.id (some p) g.players;
  mapped_player_names = set_name (lower_case_string p.name) (some p) g.mapped_player_names;
  wildcard_tree = t;
}

add_player-added :
    (p : Player) (g : Online) (t : Node)
    → insert_string (lower_case_string p.name) g.wildcard_tree ≡ some t
    → add_player p g ≡ some (added p g t)
unfolding added add_player
add_player-added p g t e = rw (e, add_player) refl

is_some-set_name :
    (s x : List ℕ) (p : Option Player) (f : List ℕ → Option Player)
    → is_some (set_name s p f x) ≡ (if same_string x s then is_some p else is_some (f x))
unfolding set_name
is_some-set_name s x p f = elim (Bool-cases (same_string x s)) [
  | inl y ↦ rw y refl
  | inr k ↦ rw k refl
]

other_name :
    (s : List ℕ) (p : Option Player) (f : List ℕ → Option Player)
    → s ≢ []
    → set_name s p f [] ≡ f []
unfolding set_name same_string
other_name [] p f h = absurd (h refl)
other_name (c ∷ cs) p f h = refl

no_name : (s : List ℕ) (f : List ℕ → Option Player) → f [] ≡ none → set_name s none f [] ≡ none
unfolding set_name
no_name s f h = elim (Bool-cases (same_string [] s)) [ inl y ↦ rw y refl | inr k ↦ rw k h ]

added-IsOnline :
    (p : Player) (g : Online) (t : Node)
    → IsOnline g
    → insert_string (lower_case_string p.name) g.wildcard_tree ≡ some t
    → IsOnline (added p g t)
unfolding added
added-IsOnline p g t h e =
    let low = lower_case_string p.name in
    record {
      shape = insert_string-IsShape low g.wildcard_tree t h.shape e;
      agree = λ s. agree' s;
      lowered = λ s k. lowered' s k;
      named =
          other_name low (some p) g.mapped_player_names
            (insert_string-has low [] g.wildcard_tree t e).1
          ∙ h.named;
    }
  where
    agree' :
        (s : List ℕ)
        → has s t ≡ is_some (set_name (lower_case_string p.name) (some p) g.mapped_player_names s)
    agree' s =
        let a = (insert_string-has (lower_case_string p.name) s g.wildcard_tree t e).0 in
        let b = is_some-set_name (lower_case_string p.name) s (some p) g.mapped_player_names in
        let c = h.agree s in ground arith

    lowered' : (s : List ℕ) → has s t ≡ true → lower_case_string s ≡ s
    lowered' s k = elim (Bool-cases (same_string s (lower_case_string p.name))) [
      | inl y ↦
          let same = same_string-eq s (lower_case_string p.name) y in
          let lower = lower_case_string-idempotent p.name in cc
      | inr n ↦
          let a = (insert_string-has (lower_case_string p.name) s g.wildcard_tree t e).0 in
          h.lowered s (ground arith)
    ]

remove_player-IsOnline : (p : Player) (g : Online) → IsOnline g → IsOnline (remove_player p g)
unfolding remove_player
remove_player-IsOnline p g h = record {
  shape = remove_string-IsShape (lower_case_string p.name) g.wildcard_tree h.shape;
  agree = λ s.
      let a = has-remove_string (lower_case_string p.name) s g.wildcard_tree in
      let b = is_some-set_name (lower_case_string p.name) s none g.mapped_player_names in
      let c = h.agree s in ground arith;
  lowered = λ s k.
      let a = has-remove_string (lower_case_string p.name) s g.wildcard_tree in
      h.lowered s (ground arith);
  named = no_name (lower_case_string p.name) g.mapped_player_names h.named;
}

-- Players that come and go, one after the other.
pub data Visit : Type 0 where
  arrives departs : Player → Visit

unfoldable pub visits : List Visit → Online → Option Online
visits [] g = some g
visits (arrives p ∷ vs) g = elim (add_player p g) [ none ↦ none | some g' ↦ visits vs g' ]
visits (departs p ∷ vs) g = visits vs (remove_player p g)

abbrev pub IsNamed : Visit → Type 0
IsNamed (arrives p) = p.name ≢ []
IsNamed (departs p) = Unit

insert_string-named :
    (s : List ℕ) (t : Node)
    → s ≢ []
    → (t' : Node) × (insert_string (lower_case_string s) t ≡ some t')
unfolding insert_string lower_case_string
insert_string-named [] t h = absurd (h refl)
insert_string-named (c ∷ cs) t h = (insert_name (to_lower c) (lower_case_string cs) t, refl)

visits-arrives :
    (p : Player) (vs : List Visit) (g g' : Online)
    → add_player p g ≡ some g'
    → visits (arrives p ∷ vs) g ≡ visits vs g'
unfolding visits
visits-arrives p vs g g' e = rw (e, visits) refl

-- If no player who arrives has an empty name, then from players whose names the tree and the map agree on, any arrivals
-- and departures end with such players.
pub visits-IsOnline :
    (vs : List Visit) (g : Online)
    → IsOnline g
    → All IsNamed vs
    → (g' : Online) × (visits vs g ≡ some g') × IsOnline g'
unfolding visits
visits-IsOnline [] g h named = (g, refl, h)
visits-IsOnline (arrives p ∷ vs) g h named =
    let (t, e) = insert_string-named p.name g.wildcard_tree named.0 in
    let (g', e', h') = visits-IsOnline vs (added p g t) (added-IsOnline p g t h e) named.1 in
    (g', visits-arrives p vs g (added p g t) (add_player-added p g t e) ∙ e', h')
visits-IsOnline (departs p ∷ vs) g h named =
    visits-IsOnline vs (remove_player p g) (remove_player-IsOnline p g h) named.1
