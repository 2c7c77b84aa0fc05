-- ===== src/FileLoader/Examples.antt =====
-- A small file and a small stream.
use odirion_mmoserver.Base.{
  ℕ, ◌≡◌, ◌<◌, refl, inl, none, some, List, [], ◌∷◌, ◌++◌, map, arith, length, true, false,
}
use odirion_mmoserver.FileLoader.{
  OtbNode, node, no_nodes, more, has_no_children, emplace_back, mark_end, open_child, pop_node,
  close_current, finish, parse_from, parse_tree, same_bytes, is_accepted, load,
}
use odirion_mmoserver.FileLoader.Streams.{number, text, write_values, answers}
use odirion_mmoserver.FileLoader.Encoding.{Tree, tree, leaf, branch, escaped, encode}
use odirion_mmoserver.FileLoader.Reading.{Reads}
use odirion_mmoserver.FileLoader.RoundTrip.{load-encode}
use odirion_mmoserver.FileLoader.Ranges.{IsReadable}
use odirion_mmoserver.FileLoader.Safety.{load-IsReadable}
use odirion_mmoserver.FileLoader.Values.{Item, ask_of, got, answers-write_values}

abbrev otbm : List ℕ
otbm = 79 ∷ 84 ∷ 66 ∷ 77 ∷ []

-- The root has a mark among its properties, and two children.
abbrev small_tree : Tree
small_tree = tree 1 (7 ∷ 254 ∷ []) (branch (tree 2 [] leaf) (branch (tree 3 (9 ∷ []) leaf) leaf))

long_enough : 7 < length (otbm ++ encode small_tree)
unfolding encode escaped
long_enough = omega arith

load-encode_example :
    (root : OtbNode) × (load otbm (otbm ++ encode small_tree) ≡ some root)
    × Reads (otbm ++ encode small_tree) root small_tree
load-encode_example = load-encode otbm otbm small_tree refl (inl refl) long_enough

-- Bytes behind a child and behind the root are passed over.
abbrev odd_file : List ℕ
odd_file = otbm ++ 254 ∷ 1 ∷ 7 ∷ 254 ∷ 2 ∷ 255 ∷ 33 ∷ 255 ∷ 44 ∷ []

abbrev odd_root : OtbNode
odd_root = node 1 6 (some 7) (more (node 2 9 (some 9) no_nodes) no_nodes)

odd_loaded : load otbm odd_file ≡ some odd_root
unfolding load is_accepted same_bytes parse_tree parse_from open_child close_current mark_end
    pop_node emplace_back has_no_children finish
odd_loaded = refl

load-IsReadable_example : IsReadable odd_file odd_root
load-IsReadable_example = load-IsReadable otbm odd_file odd_root odd_loaded

-- A file of an identifier and a bare root is refused.
bare_root_refused : load otbm (otbm ++ encode (tree 1 [] leaf)) ≡ none
unfolding load is_accepted encode escaped
bare_root_refused = refl

abbrev small_stream : List Item
small_stream =
    record { value = number 2 500; is_skipped = false }
    ∷ record { value = text (104 ∷ 105 ∷ []); is_skipped = false }
    ∷ record { value = number 4 70000; is_skipped = true }
    ∷ record { value = number 1 3; is_skipped = false }
    ∷ []

answers-write_values_example :
    answers (map ask_of small_stream) (write_values (map (λ t. t.value) small_stream) [])
    ≡ (some (got small_stream), [])
answers-write_values_example =
    answers-write_values small_stream (omega arith, (tt, (omega arith, (omega arith, tt))))
