-- ===== src/FileLoader/Safety.antt =====
-- The loop over the bytes of any file keeps the nodes on the stack and those that are complete readable.
use odirion_mmoserver.Base.{
  ℕ, ◌+◌, ◌≡◌, ◌<◌, ◌≤◌, refl, sym, subst, inl, inr, true, ◌||◌, Option, none, some, List, [], ◌∷◌,
  arith, ◌==◌, length, length-drop, drop, Bool-cases, Option-cases, All,
}
use odirion_mmoserver.FileLoader.{
  escape, start, end, OtbNode, has_no_children, OpenNode, new_node, node_of, mark_end, ParseState,
  open_child, pop_node, close_current, finish, parse_from, parse_root, parse_tree, is_accepted,
  load,
}
use odirion_mmoserver.FileLoader.Ranges.{
  IsReadable, AllReadable, AllReadable-emplace_back, IsMarked, IsRoot, IsParse, IsOpen-later,
  closed-IsReadable, mark_end-IsMarked, IsMarked-later,
}

module _ (file : List ℕ) where
  abbrev Keeps : ℕ → Option ParseState → Type 0
  Keeps it none = Unit
  Keeps it (some s) = IsParse file it s

  abbrev at : List OpenNode → Option OtbNode → ParseState
  at stack root = record { parse_stack = stack; root = root }

  open_child-Keeps :
      (it type : ℕ) (stack : List OpenNode) (root : Option OtbNode)
      → it ≤ length file
      → IsParse file it (at stack root)
      → Keeps (it + 2) (open_child it type (at stack root))
  unfolding open_child AllReadable has_no_children
  open_child-Keeps it type [] root h p = tt
  open_child-Keeps it type (n ∷ ns) root h p = record {
    opened = (
      record { begins = omega arith; ends = inl refl; below = tt },
      (
        mark_end-IsMarked file it (it + 2) n h (omega arith) p.opened.0,
        IsMarked-later file it (it + 2) (omega arith) ns p.opened.1,
      ),
    );
    done = p.done;
  }

  pop_node-IsParse :
      (it : ℕ) (n : OtbNode) (ns : List OpenNode)
      → IsReadable file n
      → All (IsMarked file it) ns
      → IsParse file (it + 1) (pop_node n ns)
  unfolding pop_node
  pop_node-IsParse it n [] r h = record { opened = tt; done = r }
  pop_node-IsParse it n (m ∷ ns) r ((o, e), h) = record {
    opened = (
      record {
        begins = omega (arith, o.begins);
        ends = inr e;
        below = AllReadable-emplace_back file m.children n o.below r;
      },
      IsMarked-later file it (it + 1) (omega arith) ns h,
    );
    done = tt;
  }

  close_current-Keeps :
      (it : ℕ) (stack : List OpenNode) (root : Option OtbNode)
      → it ≤ length file
      → IsParse file it (at stack root)
      → Keeps (it + 1) (close_current it (at stack root))
  unfolding close_current
  close_current-Keeps it [] root h p = tt
  close_current-Keeps it (n ∷ ns) root h p =
      pop_node-IsParse it (node_of (mark_end it n)) ns (closed-IsReadable file it n h p.opened.0)
        p.opened.1

  IsParse-later :
      (it it' : ℕ) (stack : List OpenNode) (root : Option OtbNode)
      → it ≤ it'
      → IsParse file it (at stack root)
      → IsParse file it' (at stack root)
  IsParse-later it it' [] root h p = record { opened = tt; done = p.done }
  IsParse-later it it' (n ∷ ns) root h p = record {
    opened = (IsOpen-later file it it' n h p.opened.0, IsMarked-later file it it' h ns p.opened.1);
    done = p.done;
  }

  finish-readable :
      (it : ℕ) (stack : List OpenNode) (root : Option OtbNode)
      → IsParse file it (at stack root)
      → IsRoot file (finish (at stack root))
  unfolding finish
  finish-readable it [] root p = p.done
  finish-readable it (n ∷ ns) root p = tt

  parse_from-readable :
      (bs : List ℕ) (it : ℕ) (s : ParseState)
      → it + length bs ≡ length file
      → IsParse file it s
      → IsRoot file (parse_from bs it s)
  unfolding parse_from
  parse_from-readable [] it s h p = finish-readable it s.parse_stack s.root p
  parse_from-readable (b ∷ []) it s h p = elim (Bool-cases (b == end)) [
    | inl y ↦ elim (Option-cases (close_current it s)) [
      | inl e ↦ rw (y, e, parse_from) tt
      | inr (s', e) ↦
          rw (y, e, parse_from)
            (finish-readable (it + 1) s'.parse_stack s'.root (
              subst (Keeps (it + 1)) e
                (close_current-Keeps it s.parse_stack s.root (omega (arith, h)) p)))
    ]
    | inr n ↦ elim (Bool-cases (b == start || b == escape)) [
      | inl y ↦ rw (n, y, parse_from) tt
      | inr m ↦ rw (n, m, parse_from) (finish-readable it s.parse_stack s.root p)
    ]
  ]
  parse_from-readable (b ∷ c ∷ bs) it s h p =
      let next = IsParse-later it (it + 1) s.parse_stack s.root (omega arith) p in
      elim (Bool-cases (b == start)) [
        | inl y ↦ elim (Option-cases (open_child it c s)) [
          | inl e ↦ rw (y, e, parse_from) tt
          | inr (s', e) ↦
              rw (y, e, parse_from)
                (parse_from-readable bs (it + 2) s' (omega (arith, h)) (
                  subst (Keeps (it + 2)) e
                    (open_child-Keeps it c s.parse_stack s.root (omega (arith, h)) p)))
        ]
        | inr n ↦ elim (Bool-cases (b == end)) [
          | inl y ↦ elim (Option-cases (close_current it s)) [
            | inl e ↦ rw (n, y, e, parse_from) tt
            | inr (s', e) ↦
                rw (n, y, e, parse_from)
                  (parse_from-readable (c ∷ bs) (it + 1) s' (omega (arith, h)) (
                    subst (Keeps (it + 1)) e
                      (close_current-Keeps it s.parse_stack s.root (omega (arith, h)) p)))
          ]
          | inr m ↦ elim (Bool-cases (b == escape)) [
            | inl y ↦
                rw (n, m, y, parse_from)
                  (parse_from-readable bs (it + 2) s (omega (arith, h))
                    (IsParse-later it (it + 2) s.parse_stack s.root (omega arith) p))
            | inr k ↦
                rw (n, m, k, parse_from)
                  (parse_from-readable (c ∷ bs) (it + 1) s (omega (arith, h)) next)
          ]
        ]
      ]

  -- The root that the loop begins with.
  first-IsParse : (type : ℕ) → IsParse file 6 (at (new_node type 6 ∷ []) none)
  unfolding has_no_children AllReadable
  first-IsParse type = record {
    opened = (record { begins = omega arith; ends = inl refl; below = tt }, tt);
    done = tt;
  }

  parse_root-readable : (bs : List ℕ) → 4 + length bs ≡ length file → IsRoot file (parse_root bs)
  unfolding parse_root
  parse_root-readable [] h = tt
  parse_root-readable (b ∷ []) h = tt
  parse_root-readable (b ∷ type ∷ bs) h = elim (Bool-cases (b == start)) [
    | inl y ↦ rw y (
        parse_from-readable bs 6 (at (new_node type 6 ∷ []) none) (omega (arith, h))
          (first-IsParse type))
    | inr n ↦ rw n tt
  ]

accepted_long : (accepted file : List ℕ) → is_accepted accepted file ≡ true → 7 < length file
unfolding is_accepted
accepted_long accepted file e = ground arith

-- Whatever the bytes of a file are, once it is loaded, `getProps` reads inside the file for each of its nodes.
pub load-IsReadable :
    (accepted file : List ℕ) (root : OtbNode)
    → load accepted file ≡ some root
    → IsReadable file root
unfolding load parse_tree
load-IsReadable accepted file root e = elim (Bool-cases (is_accepted accepted file)) [
  | inr n ↦ let refused : load accepted file ≡ none = rw n refl in absurd (ground arith)
  | inl y ↦
      let parsed : parse_root (drop 4 file) ≡ some root = rw (sym e, y, load) refl in
      subst (IsRoot file) parsed (
        parse_root-readable file (drop 4 file)
          (omega (arith, length-drop 4 file, accepted_long accepted file y)))
]
