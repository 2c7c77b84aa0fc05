-- ===== src/FileLoader/Reading.antt =====
-- The properties of a node that was laid out are those of its tree.
use mathlib.Core.List.{append_assoc}
use odirion_mmoserver.Base.{
  ℕ, ◌+◌, ◌-◌, ◌≡◌, refl, sym, ap, subst, ◌∙◌, inl, inr, true, false, ◌&&◌, some, List, [], ◌∷◌,
  ◌++◌, arith, leb, ltb, ◌==◌, length, length-append, Bool-cases,
}
use odirion_mmoserver.Base.Bytes.{read_at, read_at_parts}
use odirion_mmoserver.FileLoader.{
  escape, start, end, OtbNode, OtbNodes, node, no_nodes, more, unescape, Props, no_props, props,
  props_of, get_props,
}
use odirion_mmoserver.FileLoader.Encoding.{
  Tree, Trees, tree, leaf, branch, escaped, encode, encode_all,
}
use odirion_mmoserver.FileLoader.Parsing.{laid_out, laid_out_all, encode-append}

unescape-escaped : (ps : List ℕ) → unescape false (escaped ps) ≡ ps
unfolding unescape escaped
unescape-escaped [] = refl
unescape-escaped (b ∷ ps) = elim (Bool-cases (leb escape b)) [
  | inl y ↦
      let kept : (b == escape && false) ≡ false = ground arith in
      rw (y, escaped, kept, unescape-escaped ps) refl
  | inr n ↦
      let kept : (b == escape && true) ≡ false = ground arith in
      rw (n, escaped, kept, unescape-escaped ps) refl
]

-- What `getProps` has to give for the properties of a node.
abbrev pub given : List ℕ → Props
given [] = no_props
given (b ∷ bs) = props (b ∷ bs)

props_of-cons :
    (bs cs out : List ℕ) (c : ℕ) → bs ≡ c ∷ cs → unescape false bs ≡ out → props_of bs ≡ props out
unfolding props_of
props_of-cons bs cs out c e k = ap props_of e ∙ ap props (ap (unescape false) (sym e) ∙ k)

props_of-escaped : (ps : List ℕ) → props_of (escaped ps) ≡ given ps
unfolding escaped props_of
props_of-escaped [] = refl
props_of-escaped (b ∷ ps) =
    let e = unescape-escaped (b ∷ ps) in
    elim (Bool-cases (leb escape b)) [
      | inl y ↦ props_of-cons _ (b ∷ escaped ps) (b ∷ ps) escape (rw (y, escaped) refl) e
      | inr n ↦ props_of-cons _ (escaped ps) (b ∷ ps) b (rw (n, escaped) refl) e
    ]

-- A node that was read stands for a tree: it has its type, its properties and its children in order.
unfoldable mutual
  pub Reads : List ℕ → OtbNode → Tree → Type 0
  Reads file (node type b e ns) (tree type' ps ts) =
      (type ≡ type') × (get_props file (node type b e ns) ≡ given ps) × ReadsAll file ns ts

  pub ReadsAll : List ℕ → OtbNodes → Trees → Type 0
  ReadsAll file no_nodes leaf = Unit
  ReadsAll file (more n ns) (branch t ts) = Reads file n t × ReadsAll file ns ts
  ReadsAll file _ _ = ⊥

-- The place of a node's properties in its file.
record IsPlaced (file pre post : List ℕ) (type : ℕ) (ps : List ℕ) (ts : Trees) : Type 0 where
  before_props : file ≡ (pre ++ start ∷ type ∷ []) ++ (escaped ps ++ (encode_all ts ++ end ∷ post))
  before_children : file ≡ (pre ++ start ∷ type ∷ escaped ps) ++ (encode_all ts ++ end ∷ post)

placed :
    (file pre post : List ℕ) (type : ℕ) (ps : List ℕ) (ts : Trees)
    → file ≡ pre ++ (encode (tree type ps ts) ++ post)
    → IsPlaced file pre post type ps ts
placed file pre post type ps ts e =
    let whole : file ≡ pre ++ start ∷ type ∷ (escaped ps ++ (encode_all ts ++ end ∷ post)) =
      e ∙ ap (◌++◌ pre) (encode-append type ps ts post) in
    record {
      before_props =
          whole
          ∙ sym
              (append_assoc pre (start ∷ type ∷ []) (escaped ps ++ (encode_all ts ++ end ∷ post)));
      before_children =
          whole ∙ sym (append_assoc pre (start ∷ type ∷ escaped ps) (encode_all ts ++ end ∷ post));
    }

reads_props :
    (file pre post : List ℕ) (type : ℕ) (ps : List ℕ) (ts : Trees) (ns : OtbNodes)
    → IsPlaced file pre post type ps ts
    → get_props file (node type (length pre + 2) (some (length pre + 2 + length (escaped ps))) ns)
      ≡ given ps
unfolding get_props
reads_props file pre post type ps ts ns p =
    let b = length pre + 2 in
    let in_order : ltb (b + length (escaped ps)) b ≡ false = ground arith in
    let found : read_at file b (b + length (escaped ps) - b) ≡ some (escaped ps) =
      ap (λ f. read_at f b (b + length (escaped ps) - b)) p.before_props
      ∙ read_at_parts (pre ++ start ∷ type ∷ []) (escaped ps) (encode_all ts ++ end ∷ post) b
          (b + length (escaped ps) - b) (omega (arith, length-append pre (start ∷ type ∷ [])))
          (omega arith) in
    rw (in_order, found) (props_of-escaped ps)

mutual
  unfolding laid_out laid_out_all Reads encode_all

  pub laid_out-Reads :
      (t : Tree) (file pre post : List ℕ)
      → file ≡ pre ++ (encode t ++ post)
      → Reads file (laid_out (length pre) t) t
  laid_out-Reads (tree type ps ts) file pre post e =
      let p = placed file pre post type ps ts e in
      let pre' = pre ++ start ∷ type ∷ escaped ps in
      (
        refl,
        reads_props file pre post type ps ts
            (laid_out_all (length pre + 2 + length (escaped ps)) ts) p,
        subst (λ i. ReadsAll file (laid_out_all i ts) ts)
            (omega (arith, length-append pre (start ∷ type ∷ escaped ps)))
            (laid_out_all-Reads ts file pre' (end ∷ post) p.before_children),
      )

  pub laid_out_all-Reads :
      (ts : Trees) (file pre post : List ℕ)
      → file ≡ pre ++ (encode_all ts ++ post)
      → ReadsAll file (laid_out_all (length pre) ts) ts
  laid_out_all-Reads leaf file pre post e = tt
  laid_out_all-Reads (branch t ts) file pre post e =
      let split = e ∙ ap (◌++◌ pre) (append_assoc (encode t) (encode_all ts) post) in
      let pre' = pre ++ encode t in
      (
        laid_out-Reads t file pre (encode_all ts ++ post) split,
        subst (λ i. ReadsAll file (laid_out_all i ts) ts) (length-append pre (encode t))
            (laid_out_all-Reads ts file pre' post
              (split ∙ sym (append_assoc pre (encode t) (encode_all ts ++ post)))),
      )
