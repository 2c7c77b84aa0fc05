-- ===== src/FileLoader/Values.antt =====
-- Values that are written to a stream are read back from it.
use mathlib.Core.List.{append_assoc, append-nil}
use odirion_mmoserver.Base.{
  ℕ, ◌^◌, ◌≡◌, ◌<◌, refl, sym, ap, ◌∙◌, inl, inr, Bool, false, none, some, List, [], ◌∷◌, ◌++◌, map,
  arith, ltb, if◌then◌else◌, length, take, drop, length-append, take-append_eq, drop-append_eq,
  Bool-cases, All, u16,
}
use odirion_mmoserver.Base.Bytes.{to_le, from_le, length-to_le, from_le-to_le}
use odirion_mmoserver.FileLoader.Streams.{
  read, read_string, skip, write, write_string, Value, number, text, write_value, write_values, Ask,
  ask_number, ask_text, ask_skip, answer, answers,
}

-- A number fits in its bytes.
abbrev pub IsValue : Value → Type 0
IsValue (number width v) = v < 256 ^ width
IsValue (text str) = Unit

-- The bytes of a value.
encoding : Value → List ℕ
encoding (number width v) = to_le width v
encoding (text str) = if ltb 65535 (length str) then to_le 2 0 else to_le 2 (length str) ++ str

-- What is kept of a value: a text of more than 65535 bytes is written as an empty one.
abbrev pub kept : Value → Value
kept (number width v) = number width v
kept (text str) = if ltb 65535 (length str) then text [] else text str

-- A value, and whether its reader skips it.
pub record Item : Type 0 where
  pub value : Value
  pub is_skipped : Bool

pub ask_of : Item → Ask
unfolding encoding
ask_of t =
    if t.is_skipped
    then ask_skip (length (encoding t.value))
    else elim t.value [ number width v ↦ ask_number width | text str ↦ ask_text ]

abbrev pub got : List Item → List Value
got [] = []
got (t ∷ ts) = (if t.is_skipped then [] else kept t.value ∷ []) ++ got ts

read-append :
    (bs rest : List ℕ) (width : ℕ)
    → length bs ≡ width
    → read width (bs ++ rest) ≡ (some (from_le bs), rest)
unfolding read
read-append bs rest width h =
    let enough : ltb (length (bs ++ rest)) width ≡ false =
      ground (arith, length-append bs rest, h) in
    rw (enough, take-append_eq width bs rest h, drop-append_eq width bs rest h) refl

read_string-append :
    (bs str rest : List ℕ)
    → length bs ≡ 2
    → from_le bs ≡ length str
    → read_string (bs ++ (str ++ rest)) ≡ (some str, rest)
unfolding read_string
read_string-append bs str rest two len =
    let first = read-append bs (str ++ rest) 2 two ∙ ap (λ n. (some n, str ++ rest)) len in
    let enough : ltb (length (str ++ rest)) (length str) ≡ false =
      ground (arith, length-append str rest) in
    ap
      (λ r. elim r.0 [
        | none ↦ (none, r.1)
        | some n ↦ if ltb (length r.1) n then (none, r.1) else (some (take n r.1), drop n r.1)
      ])
      first
    ∙ rw
        (
          enough,
          take-append_eq (length str) str rest refl,
          drop-append_eq (length str) str rest refl,
        )
        refl

write_value-encoding : (v : Value) (buffer : List ℕ) → write_value v buffer ≡ buffer ++ encoding v
unfolding write_value encoding write write_string
write_value-encoding (number width v) buffer = refl
write_value-encoding (text str) buffer = elim (Bool-cases (ltb 65535 (length str))) [
  | inl y ↦ rw y refl
  | inr n ↦
      let short : u16 (length str) ≡ length str = ground arith in
      rw (n, short) (append_assoc buffer (to_le 2 (length str)) str)
]

number-answer :
    (width v : ℕ) (rest : List ℕ)
    → v < 256 ^ width
    → answer (ask_number width) (to_le width v ++ rest) ≡ (some (number width v ∷ []), rest)
unfolding answer
number-answer width v rest h =
    ap (λ r. (elim r.0 [ none ↦ none | some w ↦ some (number width w ∷ []) ], r.1))
      (read-append (to_le width v) rest width (length-to_le width v)
        ∙ ap (λ n. (some n, rest)) (from_le-to_le width v h))

text-answer :
    (bs str rest : List ℕ)
    → length bs ≡ 2
    → from_le bs ≡ length str
    → answer ask_text (bs ++ (str ++ rest)) ≡ (some (text str ∷ []), rest)
unfolding answer
text-answer bs str rest two len =
    ap (λ r. (elim r.0 [ none ↦ none | some s ↦ some (text s ∷ []) ], r.1))
      (read_string-append bs str rest two len)

unskipped-answer :
    (v : Value) (rest : List ℕ)
    → IsValue v
    → answer
        (elim v [ number width w ↦ ask_number width | text str ↦ ask_text ])
        (encoding v ++ rest)
      ≡ (some (kept v ∷ []), rest)
unfolding encoding
unskipped-answer (number width w) rest h = number-answer width w rest h
unskipped-answer (text str) rest h = elim (Bool-cases (ltb 65535 (length str))) [
  | inl y ↦
      rw y (text-answer (to_le 2 0) [] rest (length-to_le 2 0) (from_le-to_le 2 0 (omega arith)))
  | inr n ↦
      let prefix = to_le 2 (length str) in
      rw (n, append_assoc prefix str rest)
        (text-answer prefix str rest (length-to_le 2 (length str))
          (from_le-to_le 2 (length str) (ground arith)))
]

skipped-answer : (bs rest : List ℕ) → answer (ask_skip (length bs)) (bs ++ rest) ≡ (some [], rest)
unfolding answer skip
skipped-answer bs rest =
    let enough : ltb (length (bs ++ rest)) (length bs) ≡ false =
      ground (arith, length-append bs rest) in
    rw (enough, drop-append_eq (length bs) bs rest refl) refl

answer-encoding :
    (t : Item) (rest : List ℕ)
    → IsValue t.value
    → answer (ask_of t) (encoding t.value ++ rest)
      ≡ (some (if t.is_skipped then [] else kept t.value ∷ []), rest)
unfolding ask_of
answer-encoding t rest h = elim (Bool-cases t.is_skipped) [
  | inl y ↦ rw (y, ask_of) (skipped-answer (encoding t.value) rest)
  | inr n ↦ rw (n, ask_of) (unskipped-answer t.value rest h)
]

encodings : List Item → List ℕ
encodings [] = []
encodings (t ∷ ts) = encoding t.value ++ encodings ts

write_values-encodings :
    (ts : List Item) (buffer : List ℕ)
    → write_values (map (λ t. t.value) ts) buffer ≡ buffer ++ encodings ts
unfolding write_values encodings
write_values-encodings [] buffer = sym (append-nil buffer)
write_values-encodings (t ∷ ts) buffer =
    ap (write_values (map (λ t. t.value) ts)) (write_value-encoding t.value buffer)
    ∙ write_values-encodings ts (buffer ++ encoding t.value)
    ∙ append_assoc buffer (encoding t.value) (encodings ts)

answers-encodings :
    (ts : List Item) (rest : List ℕ)
    → All (λ t. IsValue t.value) ts
    → answers (map ask_of ts) (encodings ts ++ rest) ≡ (some (got ts), rest)
unfolding answers encodings
answers-encodings [] rest h = refl
answers-encodings (t ∷ ts) rest (h, hs) =
    let first =
      ap (answer (ask_of t)) (append_assoc (encoding t.value) (encodings ts) rest)
      ∙ answer-encoding t (encodings ts ++ rest) h in
    let own = if t.is_skipped then [] else kept t.value ∷ [] in
    ap
      (λ q. elim q.0 [
        | none ↦ (none, q.1)
        | some vs ↦
            let others = answers (map ask_of ts) q.1 in
            (elim others.0 [ none ↦ none | some ws ↦ some (vs ++ ws) ], others.1)
      ])
      first
    ∙ ap (λ q. (elim q.0 [ none ↦ none | some ws ↦ some (own ++ ws) ], q.1))
        (answers-encodings ts rest hs)

-- What is written to a PropWriteStream, numbers that fit in their bytes and texts, is read back from a PropStream in
-- order, each value or nothing where the reader skips it, and nothing is left. A text of more than 65535 bytes is
-- read as an empty one.
pub answers-write_values :
    (ts : List Item)
    → All (λ t. IsValue t.value) ts
    → answers (map ask_of ts) (write_values (map (λ t. t.value) ts) []) ≡ (some (got ts), [])
answers-write_values ts h =
    ap (answers (map ask_of ts)) (write_values-encodings ts [] ∙ sym (append-nil (encodings ts)))
    ∙ answers-encodings ts [] h
