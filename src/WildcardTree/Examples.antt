-- ===== src/WildcardTree/Examples.antt =====
-- Ann, Anna and Bob come online, and Ann leaves: witnesses and tests.
use odirion_mmoserver.Base.{
  ℕ, ◌≡◌, refl, sym, subst, arith, false, not, ◌&&◌, Option, none, some, List, [], ◌∷◌, All,
}
use odirion_mmoserver.WildcardTree.{
  node, no_children, breakpoint, children, find_child, set_child, erase_child, get_child, put_child,
  add_child, insert_name, insert_string, is_bare, is_childless, remove_below, remove_string, walk,
  descend, descend_into, find_one, no_error, to_lower, lower_case_string, same_string, Player,
  Online, set_name, add_player, remove_player, get_player_by_name, split_last, found, is_no_error,
  get_player_by_name_wildcard,
}
use odirion_mmoserver.WildcardTree.Shape.{IsShape, AreShapes}
use odirion_mmoserver.WildcardTree.Names.{has, has-remove_string}
use odirion_mmoserver.WildcardTree.Players.{
  IsOnline, Visit, arrives, departs, visits, IsNamed, visits-IsOnline,
}
use odirion_mmoserver.WildcardTree.Lookup.{Outcome, get_player_by_name_wildcard-Outcome}

abbrev ann : Player
ann = record { id = 1; name = 65 ∷ 110 ∷ 110 ∷ [] }

abbrev anna : Player
anna = record { id = 2; name = 65 ∷ 110 ∷ 110 ∷ 97 ∷ [] }

abbrev bob : Player
bob = record { id = 3; name = 66 ∷ 111 ∷ 98 ∷ [] }

abbrev nobody_online : Online
nobody_online = record {
  players = λ i. none;
  mapped_player_names = λ s. none;
  wildcard_tree = node false no_children;
}

nothing : (s : List ℕ) → has s (node false no_children) ≡ false
unfolding has breakpoint get_child find_child children
nothing [] = refl
nothing (c ∷ cs) = refl

nobody_online-IsOnline : IsOnline nobody_online
unfolding IsShape AreShapes
nobody_online-IsOnline = record {
  shape = tt;
  agree = nothing;
  lowered = λ s e. let none_there = nothing s in cc;
  named = refl;
}

abbrev day : List Visit
day = arrives ann ∷ arrives anna ∷ arrives bob ∷ departs ann ∷ []

day-IsNamed : All IsNamed day
day-IsNamed = ((λ e. cc), ((λ e. cc), ((λ e. cc), (tt, tt))))

visits-IsOnline_example : (g : Online) × (visits day nobody_online ≡ some g) × IsOnline g
visits-IsOnline_example = visits-IsOnline day nobody_online nobody_online-IsOnline day-IsNamed

abbrev in_the_end : Option Online → Online
in_the_end none = nobody_online
in_the_end (some g) = g

abbrev evening : Online
evening = in_the_end (visits day nobody_online)

evening-IsOnline : IsOnline evening
evening-IsOnline =
    let (g, e, h) = visits-IsOnline day nobody_online nobody_online-IsOnline day-IsNamed in
    subst (λ o. IsOnline (in_the_end o)) (sym e) h

has-remove_string_example :
    has (97 ∷ []) (remove_string (97 ∷ 110 ∷ 110 ∷ 97 ∷ []) evening.wildcard_tree) ≡ (
      not (same_string (97 ∷ []) (97 ∷ 110 ∷ 110 ∷ 97 ∷ [])) && has (97 ∷ []) evening.wildcard_tree)
has-remove_string_example =
    has-remove_string (97 ∷ 110 ∷ 110 ∷ 97 ∷ []) (97 ∷ []) evening.wildcard_tree

get_player_by_name_wildcard-Outcome_example :
    Outcome evening
      (lower_case_string (65 ∷ []))
      (get_player_by_name_wildcard evening (65 ∷ 126 ∷ []))
get_player_by_name_wildcard-Outcome_example =
    get_player_by_name_wildcard-Outcome evening (65 ∷ []) evening-IsOnline (omega arith)

finds_anna : get_player_by_name_wildcard evening (65 ∷ 126 ∷ []) ≡ (no_error, some anna)
unfolding visits add_player remove_player insert_string insert_name add_child put_child get_child
    find_child set_child remove_string remove_below is_bare is_childless children breakpoint
    lower_case_string to_lower erase_child get_player_by_name_wildcard split_last find_one walk
    descend descend_into is_no_error found get_player_by_name set_name same_string
finds_anna = refl
