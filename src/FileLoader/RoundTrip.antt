-- ===== src/FileLoader/RoundTrip.antt =====
-- The whole of a file that holds a tree.
use mathlib.Core.List.{append-nil}
use odirion_mmoserver.Base.{
  ℕ, ◌+◌, ◌≡◌, ◌<◌, ◌⊎◌, refl, sym, ap, subst, ◌∙◌, inl, inr, true, false, some, List, [], ◌∷◌,
  ◌++◌, arith, leb, length, drop, take-append_eq, drop-append_eq, ==_refl,
}
use odirion_mmoserver.FileLoader.{
  end, OtbNode, new_node, node_of, mark_end, ParseState, pop_node, close_current, finish,
  parse_from, parse_root, parse_tree, same_bytes, wildcard, is_accepted, load,
}
use odirion_mmoserver.FileLoader.Encoding.{Tree, tree, escaped, encode, encode_all}
use odirion_mmoserver.FileLoader.Parsing.{
  laid_out, with_children, at_top, parse_escaped, parse_nodes, parse_end, closed_lem,
}
use odirion_mmoserver.FileLoader.Reading.{Reads, laid_out-Reads}

parse_root-encode : (t : Tree) → parse_root (encode t) ≡ some (laid_out 4 t)
unfolding parse_root parse_from close_current pop_node finish laid_out encode
parse_root-encode (tree type ps ts) =
    let e = 6 + length (escaped ps) in
    let last = e + length (encode_all ts) in
    let s = at_top (new_node type 6) [] in
    let closed : OtbNode → ParseState = λ n. record { parse_stack = []; root = some n } in
    parse_escaped ps (encode_all ts ++ end ∷ []) 6 s
    ∙ parse_nodes ts (end ∷ []) e (new_node type 6) []
    ∙ parse_end [] last (at_top (with_children e ts (new_node type 6)) [])
        (closed (node_of (mark_end last (with_children e ts (new_node type 6))))) refl
    ∙ ap some (closed_lem type 6 e last ts refl)

same_bytes_refl : (bs : List ℕ) → same_bytes bs bs ≡ true
unfolding same_bytes
same_bytes_refl [] = refl
same_bytes_refl (b ∷ bs) = rw (==_refl b, same_bytes_refl bs) refl

accepts :
    (accepted id bytes : List ℕ)
    → length id ≡ 4
    → (id ≡ accepted) ⊎ (id ≡ wildcard)
    → 7 < length (id ++ bytes)
    → is_accepted accepted (id ++ bytes) ≡ true
unfolding is_accepted
accepts accepted id bytes four same long =
    let big : leb (length (id ++ bytes)) 7 ≡ false = ground (arith, long) in
    let own = take-append_eq 4 id bytes four in
    elim same [
      | inl e ↦
          let known : same_bytes id accepted ≡ true =
            subst (λ a. same_bytes id a ≡ true) e (same_bytes_refl id) in
          rw (big, own, known) refl
      | inr e ↦
          let known : same_bytes id wildcard ≡ true =
            subst (λ a. same_bytes id a ≡ true) e (same_bytes_refl id) in
          rw (big, own, known) (ground arith)
    ]

-- A file of an identifier that is accepted, or of the wildcard, and the bytes of a tree, more than 7 bytes in all, is
-- loaded; what `parseTree` and `getProps` then give are the types, the properties and the children of that tree.
pub load-encode :
    (accepted id : List ℕ) (t : Tree)
    → length id ≡ 4
    → (id ≡ accepted) ⊎ (id ≡ wildcard)
    → 7 < length (id ++ encode t)
    → (root : OtbNode) × (load accepted (id ++ encode t) ≡ some root)
      × Reads (id ++ encode t) root t
unfolding load parse_tree
load-encode accepted id t four same long =
    let file = id ++ encode t in
    let body : drop 4 file ≡ encode t = drop-append_eq 4 id (encode t) four in
    let parsed = ap parse_root body ∙ parse_root-encode t in
    let whole : file ≡ id ++ (encode t ++ []) = ap (◌++◌ id) (sym (append-nil (encode t))) in
    (
      laid_out 4 t,
      rw (accepts accepted id (encode t) four same long) parsed,
      subst (λ i. Reads file (laid_out i t) t) four (laid_out-Reads t file id [] whole),
    )
