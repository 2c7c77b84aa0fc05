-- ===== src/FileLoader/Parsing.antt =====
-- Parsing the bytes of a tree: the nodes that come out, with their places in the file.
use mathlib.Core.List.{append_assoc}
use odirion_mmoserver.Base.{
  ℕ, ◌+◌, ◌≡◌, refl, sym, ap, ◌∙◌, inl, inr, false, ◌||◌, none, some, List, [], ◌∷◌, ◌++◌, arith,
  leb, ◌==◌, length, length-append, Bool-cases,
}
use odirion_mmoserver.FileLoader.{
  escape, start, end, OtbNode, OtbNodes, node, no_nodes, more, has_no_children, emplace_back,
  OpenNode, ParseState, new_node, node_of, mark_end, open_child, pop_node, close_current,
  parse_from,
}
use odirion_mmoserver.FileLoader.Encoding.{
  Tree, Trees, tree, leaf, branch, escaped, encode, encode_all,
}

-- The node of a tree whose bytes begin at `it`.
unfoldable mutual
  pub laid_out : ℕ → Tree → OtbNode
  laid_out it (tree type ps ts) =
      let e = it + 2 + length (escaped ps) in node type (it + 2) (some e) (laid_out_all e ts)

  pub laid_out_all : ℕ → Trees → OtbNodes
  laid_out_all it leaf = no_nodes
  laid_out_all it (branch t ts) = more (laid_out it t) (laid_out_all (it + length (encode t)) ts)

-- A byte that is no mark.
parse_plain :
    (b : ℕ) (rest : List ℕ) (it : ℕ) (s : ParseState)
    → leb escape b ≡ false
    → parse_from (b ∷ rest) it s ≡ parse_from rest (it + 1) s
unfolding parse_from
parse_plain b [] it s h =
    let e1 : (b == end) ≡ false = ground arith in
    let e2 : (b == start || b == escape) ≡ false = ground arith in rw (e1, e2) refl
parse_plain b (c ∷ rest) it s h =
    let e1 : (b == end) ≡ false = ground arith in
    let e2 : (b == start) ≡ false = ground arith in
    let e3 : (b == escape) ≡ false = ground arith in rw (e2, e1, e3, parse_from) refl

pub parse_end :
    (rest : List ℕ) (it : ℕ) (s s' : ParseState)
    → close_current it s ≡ some s'
    → parse_from (end ∷ rest) it s ≡ parse_from rest (it + 1) s'
unfolding parse_from
parse_end [] it s s' e = rw e refl
parse_end (c ∷ rest) it s s' e = rw (e, parse_from) refl

pub parse_escaped :
    (ps rest : List ℕ) (it : ℕ) (s : ParseState)
    → parse_from (escaped ps ++ rest) it s ≡ parse_from rest (it + length (escaped ps)) s
unfolding parse_from escaped
parse_escaped [] rest it s = ap (λ i. parse_from rest i s) (omega arith)
parse_escaped (b ∷ ps) rest it s = elim (Bool-cases (leb escape b)) [
  | inl y ↦
      rw (y, escaped)
        (parse_escaped ps rest (it + 2) s ∙ ap (λ i. parse_from rest i s) (omega arith))
  | inr n ↦
      rw (n, escaped)
        (parse_plain b (escaped ps ++ rest) it s n
          ∙ parse_escaped ps rest (it + 1) s
          ∙ ap (λ i. parse_from rest i s) (omega arith))
]

-- A complete node that comes back to its parent.
unfoldable pub with_child : ℕ → OtbNode → OpenNode → OpenNode
with_child it n parent =
    let marked = mark_end it parent in record marked { children = emplace_back marked.children n }

-- The parent of trees that were parsed one after the other from `it` on.
unfoldable pub with_children : ℕ → Trees → OpenNode → OpenNode
with_children it leaf parent = parent
with_children it (branch t ts) parent =
    with_children (it + length (encode t)) ts (with_child it (laid_out it t) parent)

append_nodes : OtbNodes → OtbNodes → OtbNodes
append_nodes no_nodes ms = ms
append_nodes (more n ns) ms = more n (append_nodes ns ms)

append_nodes-emplace_back :
    (ns ms : OtbNodes) (n : OtbNode)
    → append_nodes (emplace_back ns n) ms ≡ append_nodes ns (more n ms)
unfolding append_nodes emplace_back
append_nodes-emplace_back no_nodes ms n = refl
append_nodes-emplace_back (more m ns) ms n = ap (more m) (append_nodes-emplace_back ns ms n)

has_no_children-emplace_back :
    (ns : OtbNodes) (n : OtbNode) → has_no_children (emplace_back ns n) ≡ false
unfolding has_no_children emplace_back
has_no_children-emplace_back no_nodes n = refl
has_no_children-emplace_back (more m ns) n = refl

append_nodes-nil : (ns : OtbNodes) → append_nodes ns no_nodes ≡ ns
unfolding append_nodes
append_nodes-nil no_nodes = refl
append_nodes-nil (more n ns) = ap (more n) (append_nodes-nil ns)

-- Once a node has a child, further ones are put behind it.
with_children-more :
    (ts : Trees) (it : ℕ) (n : OpenNode)
    → has_no_children n.children ≡ false
    → with_children it ts n ≡ record n { children = append_nodes n.children (laid_out_all it ts) }
unfolding with_children laid_out_all with_child mark_end
with_children-more leaf it n h = λ k. record n { children = sym (append_nodes-nil n.children) k }
with_children-more (branch t ts) it n h =
    rw (h, with_children)
      (with_children-more ts (it + length (encode t)) _
          (has_no_children-emplace_back n.children (laid_out it t))
        ∙ λ k. record n {
          children =
              append_nodes-emplace_back n.children (laid_out_all (it + length (encode t)) ts)
                (laid_out it t) k;
        })

-- A new node that gets these children and ends right after them is the node that is laid out.
pub closed_lem :
    (type it e last : ℕ) (ts : Trees)
    → last ≡ e + length (encode_all ts)
    → node_of (mark_end last (with_children e ts (new_node type it)))
      ≡ node type it (some e) (laid_out_all e ts)
unfolding mark_end with_children laid_out_all has_no_children encode_all with_child emplace_back
    append_nodes
closed_lem type it e last leaf h = ap (λ x. node type it (some x) no_nodes) (omega (arith, h))
closed_lem type it e last (branch t ts) h =
    ap (λ n. node_of (mark_end last n))
      (with_children-more ts (e + length (encode t))
        (with_child e (laid_out e t) (new_node type it)) refl)

abbrev pub at_top : OpenNode → List OpenNode → ParseState
at_top n stack = record { parse_stack = n ∷ stack; root = none }

-- Where the bytes of a node go on after its properties.
pub encode-append :
    (type : ℕ) (ps : List ℕ) (ts : Trees) (rest : List ℕ)
    → encode (tree type ps ts) ++ rest
      ≡ start ∷ type ∷ (escaped ps ++ (encode_all ts ++ end ∷ rest))
unfolding encode
encode-append type ps ts rest =
    ap (λ x. start ∷ type ∷ x)
      (append_assoc (escaped ps) (encode_all ts ++ end ∷ []) rest
        ∙ ap (◌++◌ (escaped ps)) (append_assoc (encode_all ts) (end ∷ []) rest))

pub length-encode :
    (type : ℕ) (ps : List ℕ) (ts : Trees)
    → length (encode (tree type ps ts)) ≡ 2 + length (escaped ps) + length (encode_all ts) + 1
unfolding encode
length-encode type ps ts = omega (
  arith,
  length-append (escaped ps) (encode_all ts ++ end ∷ []),
  length-append (encode_all ts) (end ∷ []),
)

closes :
    (type it : ℕ) (ps : List ℕ) (ts : Trees) (rest : List ℕ) (top : OpenNode)
    (stack : List OpenNode)
    → let e = it + 2 + length (escaped ps) in
      let last = e + length (encode_all ts) in
      parse_from
        (end ∷ rest)
        last
        (at_top (with_children e ts (new_node type (it + 2))) (mark_end it top ∷ stack))
      ≡ parse_from rest
          (it + length (encode (tree type ps ts)))
          (at_top (with_child it (laid_out it (tree type ps ts)) top) stack)
unfolding close_current pop_node with_child laid_out
closes type it ps ts rest top stack =
    let e = it + 2 + length (escaped ps) in
    let last = e + length (encode_all ts) in
    let parent : OtbNode → ParseState = λ n.
      at_top (record (mark_end it top) { children = emplace_back (mark_end it top).children n })
        stack in
    parse_end rest last _
      (parent (node_of (mark_end last (with_children e ts (new_node type (it + 2)))))) refl
    ∙ ap (λ n. parse_from rest (last + 1) (parent n)) (closed_lem type (it + 2) e last ts refl)
    ∙ ap (λ i. parse_from rest i (parent (laid_out it (tree type ps ts))))
        (omega (arith, length-encode type ps ts))

mutual
  unfolding parse_from open_child encode_all with_children

  pub parse_node :
      (t : Tree) (rest : List ℕ) (it : ℕ) (top : OpenNode) (stack : List OpenNode)
      → parse_from (encode t ++ rest) it (at_top top stack)
        ≡ parse_from rest
            (it + length (encode t))
            (at_top (with_child it (laid_out it t) top) stack)
  parse_node (tree type ps ts) rest it top stack =
      let e = it + 2 + length (escaped ps) in
      let after = at_top (new_node type (it + 2)) (mark_end it top ∷ stack) in
      ap (λ bs. parse_from bs it (at_top top stack)) (encode-append type ps ts rest)
      ∙ parse_escaped ps (encode_all ts ++ end ∷ rest) (it + 2) after
      ∙ parse_nodes ts (end ∷ rest) e (new_node type (it + 2)) (mark_end it top ∷ stack)
      ∙ closes type it ps ts rest top stack

  pub parse_nodes :
      (ts : Trees) (rest : List ℕ) (it : ℕ) (top : OpenNode) (stack : List OpenNode)
      → parse_from (encode_all ts ++ rest) it (at_top top stack)
        ≡ parse_from rest (it + length (encode_all ts)) (at_top (with_children it ts top) stack)
  parse_nodes leaf rest it top stack = ap (λ i. parse_from rest i (at_top top stack)) (omega arith)
  parse_nodes (branch t ts) rest it top stack =
      let next = it + length (encode t) in
      let top' = with_child it (laid_out it t) top in
      ap (λ bs. parse_from bs it (at_top top stack)) (append_assoc (encode t) (encode_all ts) rest)
      ∙ parse_node t (encode_all ts ++ rest) it top stack
      ∙ parse_nodes ts rest next top' stack
      ∙ ap (λ i. parse_from rest i (at_top (with_children next ts top') stack))
          (omega (arith, length-append (encode t) (encode_all ts)))
