-- ===== src/FileLoader/Ranges.antt =====
-- The ranges of properties that come out of any file, whatever its bytes are.
use odirion_mmoserver.Base.{
  ℕ, ◌-◌, ◌≡◌, ◌≢◌, ◌≤◌, ◌⊎◌, refl, sym, ap, ◌∙◌, inl, inr, Bool, true, false, Option, none, some,
  List, [], ◌∷◌, arith, ltb, length, take, drop, Bool-cases, All, All-map,
}
use odirion_mmoserver.Base.Bytes.{read_at_inside}
use odirion_mmoserver.FileLoader.{
  OtbNode, OtbNodes, node, no_nodes, more, has_no_children, emplace_back, OpenNode, node_of,
  mark_end, ParseState, Props, unreadable, props_of, get_props,
}

-- `getProps` reads inside the file, for a node and for all below it.
unfoldable mutual
  pub IsReadable : List ℕ → OtbNode → Type 0
  IsReadable file (node type b e ns) =
      (get_props file (node type b e ns) ≢ unreadable) × AllReadable file ns

  pub AllReadable : List ℕ → OtbNodes → Type 0
  AllReadable file no_nodes = Unit
  AllReadable file (more n ns) = IsReadable file n × AllReadable file ns

module _ (file : List ℕ) where
  is_unreadable : Props → Bool
  is_unreadable unreadable = true
  is_unreadable _ = false

  props_of-readable : (bs : List ℕ) → is_unreadable (props_of bs) ≡ false
  unfolding is_unreadable props_of
  props_of-readable [] = refl
  props_of-readable (c ∷ bs) = refl

  range_read :
      (type b e : ℕ) (ns : OtbNodes)
      → b ≤ e
      → e ≤ length file
      → get_props file (node type b (some e) ns) ≢ unreadable
  unfolding get_props is_unreadable
  range_read type b e ns h k same =
      let ordered : ltb e b ≡ false = ground arith in
      let inside = read_at_inside file b (e - b) (omega arith) in
      let given : get_props file (node type b (some e) ns) ≡ props_of (take (e - b) (drop b file)) =
        rw (ordered, inside) refl in
      let bad : is_unreadable (props_of (take (e - b) (drop b file))) ≡ true =
        ap is_unreadable (sym given ∙ same) in
      let good = props_of-readable (take (e - b) (drop b file)) in absurd (ground arith)

  pub AllReadable-emplace_back :
      (ns : OtbNodes) (n : OtbNode)
      → AllReadable file ns
      → IsReadable file n
      → AllReadable file (emplace_back ns n)
  unfolding AllReadable emplace_back
  AllReadable-emplace_back no_nodes n h k = (k, tt)
  AllReadable-emplace_back (more m ns) n (hm, h) k = (hm, AllReadable-emplace_back ns n h k)

  -- Where a node's properties end, once they do.
  abbrev pub HasEnd : OpenNode → Type 0
  HasEnd n = (e : ℕ) × (n.props_end ≡ some e) × (n.props_begin ≤ e) × (e ≤ length file)

  -- A node on the stack, with the loop at `it`; those below the top have a child, and so an end.
  pub record IsOpen (it : ℕ) (n : OpenNode) : Type 0 where
    pub begins : n.props_begin ≤ it
    pub ends : (has_no_children n.children ≡ true) ⊎ HasEnd n
    pub below : AllReadable file n.children

  abbrev pub IsMarked : ℕ → OpenNode → Type 0
  IsMarked it n = IsOpen it n × HasEnd n

  abbrev pub IsStack : ℕ → List OpenNode → Type 0
  IsStack it [] = Unit
  IsStack it (n ∷ ns) = IsOpen it n × All (IsMarked it) ns

  abbrev pub IsRoot : Option OtbNode → Type 0
  IsRoot none = Unit
  IsRoot (some n) = IsReadable file n

  pub record IsParse (it : ℕ) (s : ParseState) : Type 0 where
    pub opened : IsStack it s.parse_stack
    pub done : IsRoot s.root

  pub IsOpen-later : (it it' : ℕ) (n : OpenNode) → it ≤ it' → IsOpen it n → IsOpen it' n
  IsOpen-later it it' n h o = record {
    begins = omega (arith, o.begins, h);
    ends = o.ends;
    below = o.below;
  }

  -- A node that is marked at `it` has its end.
  marked_end : (it : ℕ) (n : OpenNode) → it ≤ length file → IsOpen it n → HasEnd (mark_end it n)
  unfolding mark_end
  marked_end it n h o = elim (Bool-cases (has_no_children n.children)) [
    | inl y ↦ (it, rw y refl, o.begins, h)
    | inr no_more ↦ elim o.ends [
      | inl y ↦ absurd (ground arith)
      | inr (e, is, be, el) ↦ (e, rw no_more is, be, el)
    ]
  ]

  pub closed-IsReadable :
      (it : ℕ) (n : OpenNode)
      → it ≤ length file
      → IsOpen it n
      → IsReadable file (node_of (mark_end it n))
  unfolding IsReadable mark_end
  closed-IsReadable it n h o =
      let (e, is, be, el) = marked_end it n h o in
      (rw is (range_read n.type n.props_begin e n.children be el), o.below)

  pub mark_end-IsMarked :
      (it it' : ℕ) (n : OpenNode)
      → it ≤ length file
      → it ≤ it'
      → IsOpen it n
      → IsMarked it' (mark_end it n)
  unfolding mark_end
  mark_end-IsMarked it it' n h later o =
      let e = marked_end it n h o in
      (record { begins = omega (arith, o.begins, later); ends = inr e; below = o.below }, e)

  pub IsMarked-later :
      (it it' : ℕ) → it ≤ it' → (ns : List OpenNode) → All (IsMarked it) ns → All (IsMarked it') ns
  IsMarked-later it it' h = All-map (λ n m. (IsOpen-later it it' n h m.0, m.1))
