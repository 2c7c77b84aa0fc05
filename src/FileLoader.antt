-- ===== src/FileLoader.antt =====
-- Binary files of nodes: fileloader.cpp, and the streams of properties of fileloader.h. A file is a list of bytes,
-- an iterator its index, and `none` the exception InvalidOTBFormat.
pub mod Streams
pub mod Values
pub mod Encoding
pub mod Parsing
pub mod Reading
pub mod RoundTrip
pub mod Ranges
pub mod Safety
mod Examples
use odirion_mmoserver.Base.{
  ℕ, ◌+◌, ◌-◌, Bool, true, false, not, ◌&&◌, ◌||◌, Option, none, some, List, [], ◌∷◌, ltb, leb,
  ◌==◌, if◌then◌else◌, length, take, drop,
}
use odirion_mmoserver.Base.Bytes.{read_at}

abbrev pub escape : ℕ
escape = 253

abbrev pub start : ℕ
start = 254

abbrev pub end : ℕ
end = 255

-- `Node`: its type, `propsBegin`, `propsEnd` and children; `propsEnd` is `none` until it is set.
mutual
  pub data OtbNode : Type 0 where
    node : ℕ → ℕ → Option ℕ → OtbNodes → OtbNode

  pub data OtbNodes : Type 0 where
    no_nodes : OtbNodes
    more : OtbNode → OtbNodes → OtbNodes

unfoldable pub has_no_children : OtbNodes → Bool
has_no_children no_nodes = true
has_no_children (more n ns) = false

-- `children.emplace_back()`, with what becomes of the child.
unfoldable pub emplace_back : OtbNodes → OtbNode → OtbNodes
emplace_back no_nodes n = more n no_nodes
emplace_back (more m ns) n = more m (emplace_back ns n)

-- A node on the stack, whose children are those that are complete: the one above it is its last child. The stack
-- holds no other nodes, so that none moves in memory while a pointer to it is there.
pub record OpenNode : Type 0 where
  pub type : ℕ
  pub props_begin : ℕ
  pub props_end : Option ℕ
  pub children : OtbNodes

-- `parseStack`, top first, and the root once it has left the stack.
pub record ParseState : Type 0 where
  pub parse_stack : List OpenNode
  pub root : Option OtbNode

abbrev pub new_node : ℕ → ℕ → OpenNode
new_node type it = record { type = type; props_begin = it; props_end = none; children = no_nodes }

abbrev pub node_of : OpenNode → OtbNode
node_of n = node n.type n.props_begin n.props_end n.children

-- The properties end at the first child, or else at the end of the node.
unfoldable pub mark_end : ℕ → OpenNode → OpenNode
mark_end it n = record n { props_end = if has_no_children n.children then some it else n.props_end }

-- The case `START`, for the type that follows it.
unfoldable pub open_child : ℕ → ℕ → ParseState → Option ParseState
open_child it type s = elim s.parse_stack [
  | [] ↦ none
  | current ∷ stack ↦
      some (record s { parse_stack = new_node type (it + 2) ∷ mark_end it current ∷ stack })
]

-- `pop`: the node is complete in its parent.
unfoldable pub pop_node : OtbNode → List OpenNode → ParseState
pop_node n [] = record { parse_stack = []; root = some n }
pop_node n (parent ∷ stack) = record {
  parse_stack = record parent { children = emplace_back parent.children n } ∷ stack;
  root = none;
}

-- The case `END`.
unfoldable pub close_current : ℕ → ParseState → Option ParseState
close_current it s = elim s.parse_stack [
  | [] ↦ none
  | current ∷ stack ↦ some (pop_node (node_of (mark_end it current)) stack)
]

-- After the loop.
unfoldable pub finish : ParseState → Option OtbNode
finish s = elim s.parse_stack [ [] ↦ s.root | current ∷ stack ↦ none ]

-- The loop from `it` on; the byte after a start or an escape is taken with it, and has to be there.
unfoldable pub parse_from : List ℕ → ℕ → ParseState → Option OtbNode
parse_from [] it s = finish s
parse_from (b ∷ []) it s =
    if b == end
    then elim (close_current it s) [ none ↦ none | some s' ↦ finish s' ]
    else if b == start || b == escape
    then none
    else finish s
parse_from (b ∷ c ∷ bs) it s = elim (b == start) [
  | true ↦ elim (open_child it c s) [ none ↦ none | some s' ↦ parse_from bs (it + 2) s' ]
  | false ↦ elim (b == end) [
    | true ↦ elim (close_current it s) [ none ↦ none | some s' ↦ parse_from (c ∷ bs) (it + 1) s' ]
    | false ↦ elim (b == escape) [
      | true ↦ parse_from bs (it + 2) s
      | false ↦ parse_from (c ∷ bs) (it + 1) s
    ]
  ]
]

-- The bytes from the first start on.
parse_root : List ℕ → Option OtbNode
parse_root (b ∷ type ∷ bs) =
    if b == start
    then parse_from bs 6 (record { parse_stack = new_node type 6 ∷ []; root = none })
    else none
parse_root _ = none

-- `parseTree`, on a file that the constructor took.
unfoldable pub parse_tree : List ℕ → Option OtbNode
unfolding parse_root
parse_tree file = parse_root (drop 4 file)

unfoldable pub same_bytes : List ℕ → List ℕ → Bool
same_bytes [] [] = true
same_bytes (a ∷ as') (b ∷ bs) = a == b && same_bytes as' bs
same_bytes _ _ = false

abbrev pub wildcard : List ℕ
wildcard = 0 ∷ 0 ∷ 0 ∷ 0 ∷ []

-- Whether the constructor of `Loader` takes the file.
unfoldable pub is_accepted : List ℕ → List ℕ → Bool
is_accepted accepted_identifier file =
    let file_identifier = take 4 file in
    if leb (length file) 7
    then false
    else if not (same_bytes file_identifier accepted_identifier)
        && not (same_bytes file_identifier wildcard)
    then false
    else true

-- The constructor and `parseTree`.
unfoldable pub load : List ℕ → List ℕ → Option OtbNode
load accepted_identifier file =
    if is_accepted accepted_identifier file then parse_tree file else none

-- The predicate of `copy_if`, with `lastEscaped`.
unfoldable pub unescape : Bool → List ℕ → List ℕ
unescape last_escaped [] = []
unescape last_escaped (b ∷ bs) =
    let escaped = b == escape && not last_escaped in
    let rest = unescape escaped bs in if escaped then rest else b ∷ rest

-- What `getProps` gives; `unreadable` stands for a range that is not one in the file.
pub data Props : Type 0 where
  unreadable no_props : Props
  props : List ℕ → Props

unfoldable pub props_of : List ℕ → Props
props_of [] = no_props
props_of (b ∷ bs) = props (unescape false (b ∷ bs))

-- `getProps`.
unfoldable pub get_props : List ℕ → OtbNode → Props
get_props file (node type props_begin none children) = unreadable
get_props file (node type props_begin (some props_end) children) =
    if ltb props_end props_begin
    then unreadable
    else elim (read_at file props_begin (props_end - props_begin)) [
      | none ↦ unreadable
      | some bs ↦ props_of bs
    ]
