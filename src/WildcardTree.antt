-- ===== src/WildcardTree.antt =====
-- The tree of names and the search by the start of a name: wildcardtree.cpp, and the functions of game.cpp that
-- keep and use it. A name is a list of characters; a name that is not there is `none`.
pub mod Names
pub mod Shape
pub mod Search
pub mod Players
pub mod Lookup
mod Examples
use odirion_mmoserver.Base.{
  ℕ, ◌+◌, Bool, true, false, not, ◌&&◌, ◌||◌, Option, none, some, List, [], ◌∷◌, ◌++◌, map, ltb,
  leb, ◌==◌, if◌then◌else◌, length,
}

-- `WildcardTreeNode`: the breakpoint and the map of children. Their order matters nowhere.
mutual
  pub data Node : Type 0 where
    node : Bool → Children → Node

  pub data Children : Type 0 where
    no_children : Children
    child : ℕ → Node → Children → Children

unfoldable pub breakpoint : Node → Bool
breakpoint (node b cs) = b

unfoldable pub children : Node → Children
children (node b cs) = cs

-- `find`, `operator[]` and `erase` of the map.
unfoldable pub find_child : ℕ → Children → Option Node
find_child ch no_children = none
find_child ch (child c n cs) = if c == ch then some n else find_child ch cs

unfoldable pub set_child : ℕ → Node → Children → Children
set_child ch m no_children = child ch m no_children
set_child ch m (child c n cs) =
    let rest = set_child ch m cs in if c == ch then child c m cs else child c n rest

unfoldable pub erase_child : ℕ → Children → Children
erase_child ch no_children = no_children
erase_child ch (child c n cs) =
    let rest = erase_child ch cs in if c == ch then rest else child c n rest

unfoldable pub is_childless : Children → Bool
is_childless no_children = true
is_childless (child c n cs) = false

unfoldable pub get_child : ℕ → Node → Option Node
get_child ch n = find_child ch (children n)

-- What a walk that goes on in a child leaves of the node.
unfoldable pub put_child : ℕ → Node → Node → Node
put_child ch m n = node (breakpoint n) (set_child ch m (children n))

-- `addChild`: the child that it returns; `put_child` puts it, or what becomes of it, into the node.
unfoldable pub add_child : ℕ → Bool → Node → Node
add_child ch b n = elim (get_child ch n) [
  | none ↦ node b no_children
  | some m ↦ node (breakpoint m || b) (children m)
]

-- `insert`, for the first character and the others.
unfoldable pub insert_name : ℕ → List ℕ → Node → Node
insert_name ch [] n = put_child ch (add_child ch true n) n
insert_name ch (c ∷ cs) n = put_child ch (insert_name c cs (add_child ch false n)) n

-- `insert`. For an empty name the length wraps, and the loop reads outside the string.
unfoldable pub insert_string : List ℕ → Node → Option Node
insert_string [] n = none
insert_string (c ∷ cs) n = some (insert_name c cs n)

-- A node that the loop of `remove` erases from its parent.
unfoldable pub is_bare : Node → Bool
is_bare n = is_childless (children n) && not (breakpoint n)

-- `remove` from a node on: the node afterwards and whether the second loop still runs, or `none` where a child
-- is missing.
unfoldable pub remove_below : List ℕ → Node → Option (Node × Bool)
remove_below [] n = some (node false (children n), true)
remove_below (c ∷ cs) n = elim (get_child c n) [
  | none ↦ none
  | some m ↦ elim (remove_below cs m) [
    | none ↦ none
    | some r ↦
        if r.1 && is_bare r.0
        then some (node (breakpoint n) (erase_child c (children n)), true)
        else some (put_child c r.0 n, false)
  ]
]

-- `remove`.
unfoldable pub remove_string : List ℕ → Node → Node
remove_string s n = elim (remove_below s n) [ none ↦ n | some r ↦ r.0 ]

pub data ReturnValue : Type 0 where
  no_error player_not_online name_too_ambiguous : ReturnValue

-- The first loop of `findOne`.
unfoldable pub walk : List ℕ → Node → Option Node
walk [] n = some n
walk (c ∷ cs) n = elim (get_child c n) [ none ↦ none | some m ↦ walk cs m ]

-- The second loop of `findOne`: what it answers and appends.
unfoldable mutual
  pub descend : Node → ReturnValue × List ℕ
  descend (node b cs) = descend_into b cs

  pub descend_into : Bool → Children → ReturnValue × List ℕ
  descend_into b no_children = (no_error, [])
  descend_into b (child c n no_children) =
      let rest = descend n in if b then (name_too_ambiguous, []) else (rest.0, c ∷ rest.1)
  descend_into b (child c n (child c' n' cs)) = (name_too_ambiguous, [])

-- `findOne`, with the string that `result` holds before.
unfoldable pub find_one : Node → List ℕ → List ℕ → ReturnValue × List ℕ
find_one t query result = elim (walk query t) [
  | none ↦ (player_not_online, result)
  | some n ↦ ((descend n).0, query ++ (descend n).1)
]

-- `asLowerCaseString`, with `tolower` of the "C" locale.
unfoldable pub to_lower : ℕ → ℕ
to_lower c = if leb 65 c && leb c 90 then c + 32 else c

unfoldable pub lower_case_string : List ℕ → List ℕ
lower_case_string s = map to_lower s

unfoldable pub same_string : List ℕ → List ℕ → Bool
same_string [] [] = true
same_string [] (b ∷ bs) = false
same_string (a ∷ as') [] = false
same_string (a ∷ as') (b ∷ bs) = a == b && same_string as' bs

pub record Player : Type 0 where
  pub id : ℕ
  pub name : List ℕ

-- The players of `Game`, by identifier, by name, and by the start of the name.
pub record Online : Type 0 where
  pub players : ℕ → Option Player
  pub mapped_player_names : List ℕ → Option Player
  pub wildcard_tree : Node

-- Maps as functions.
unfoldable pub set_player : ℕ → Option Player → (ℕ → Option Player) → ℕ → Option Player
set_player i p f j = if j == i then p else f j

unfoldable pub set_name : List ℕ → Option Player → (List ℕ → Option Player) → List ℕ → Option Player
set_name s p f t = if same_string t s then p else f t

-- `addPlayer` and `removePlayer`.
unfoldable pub add_player : Player → Online → Option Online
add_player p g = elim (insert_string (lower_case_string p.name) g.wildcard_tree) [
  | none ↦ none
  | some t ↦ some (record {
    players = set_player p.id (some p) g.players;
    mapped_player_names = set_name (lower_case_string p.name) (some p) g.mapped_player_names;
    wildcard_tree = t;
  })
]

unfoldable pub remove_player : Player → Online → Online
remove_player p g = record {
  players = set_player p.id none g.players;
  mapped_player_names = set_name (lower_case_string p.name) none g.mapped_player_names;
  wildcard_tree = remove_string (lower_case_string p.name) g.wildcard_tree;
}

-- `getPlayerByName`.
unfoldable pub get_player_by_name : Online → List ℕ → Option Player
get_player_by_name g s = if length s == 0 then none else g.mapped_player_names (lower_case_string s)

-- The string without its last character, and that character.
unfoldable pub split_last : ℕ → List ℕ → List ℕ × ℕ
split_last c [] = ([], c)
split_last c (d ∷ ds) = let rest = split_last d ds in (c ∷ rest.0, rest.1)

-- `getPlayerByNameWildcard`, from the test that the player was found on.
unfoldable pub found : Option Player → ReturnValue × Option Player
found none = (player_not_online, none)
found (some p) = (no_error, some p)

unfoldable pub is_no_error : ReturnValue → Bool
is_no_error no_error = true
is_no_error _ = false

-- `getPlayerByNameWildcard`; 126 is the character ~.
unfoldable pub get_player_by_name_wildcard : Online → List ℕ → ReturnValue × Option Player
get_player_by_name_wildcard g [] = (player_not_online, none)
get_player_by_name_wildcard g (c ∷ cs) =
    let s = split_last c cs in
    let r = find_one g.wildcard_tree (lower_case_string s.0) [] in
    if ltb 20 (length (c ∷ cs))
    then (player_not_online, none)
    else if s.1 == 126
    then (if is_no_error r.0 then found (get_player_by_name g r.1) else (r.0, none))
    else found (get_player_by_name g (c ∷ cs))
