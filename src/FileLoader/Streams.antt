-- ===== src/FileLoader/Streams.antt =====
-- `PropStream` and `PropWriteStream` of fileloader.h. A stream that is read is the list of the bytes from `p` to
-- `end`; one that is written is its buffer. Numbers are little-endian, as in memory.
use odirion_mmoserver.Base.{
  ℕ, Bool, true, false, Option, none, some, List, [], ◌∷◌, ◌++◌, ltb, if◌then◌else◌, length, take,
  drop, u16,
}
use odirion_mmoserver.Base.Bytes.{to_le, from_le}

-- `read<T>` for a `T` of some bytes: the value, if there is one, and what is left.
unfoldable pub read : ℕ → List ℕ → Option ℕ × List ℕ
read width s =
    if ltb (length s) width then (none, s) else (some (from_le (take width s)), drop width s)

-- `readString`; where the string is cut short, its length has been read all the same.
unfoldable pub read_string : List ℕ → Option (List ℕ) × List ℕ
read_string s =
    let r = read 2 s in
    elim r.0 [
      | none ↦ (none, r.1)
      | some str_len ↦
          if ltb (length r.1) str_len
          then (none, r.1)
          else (some (take str_len r.1), drop str_len r.1)
    ]

-- `skip`.
unfoldable pub skip : ℕ → List ℕ → Bool × List ℕ
skip n s = if ltb (length s) n then (false, s) else (true, drop n s)

-- `write<T>`.
unfoldable pub write : ℕ → ℕ → List ℕ → List ℕ
write width add buffer = buffer ++ to_le width add

-- `writeString`.
unfoldable pub write_string : List ℕ → List ℕ → List ℕ
write_string str buffer =
    if ltb 65535 (length str) then write 2 0 buffer else write 2 (u16 (length str)) buffer ++ str

-- A value that is written.
pub data Value : Type 0 where
  number : ℕ → ℕ → Value
  text : List ℕ → Value

unfoldable pub write_value : Value → List ℕ → List ℕ
write_value (number width v) buffer = write width v buffer
write_value (text str) buffer = write_string str buffer

unfoldable pub write_values : List Value → List ℕ → List ℕ
write_values [] buffer = buffer
write_values (v ∷ vs) buffer = write_values vs (write_value v buffer)

-- What a reader asks of a stream.
pub data Ask : Type 0 where
  ask_number : ℕ → Ask
  ask_text : Ask
  ask_skip : ℕ → Ask

-- The answer to a reader: the values that it gets, or `none` where the stream is too short.
unfoldable pub answer : Ask → List ℕ → Option (List Value) × List ℕ
answer (ask_number width) s =
    let r = read width s in (elim r.0 [ none ↦ none | some v ↦ some (number width v ∷ []) ], r.1)
answer ask_text s =
    let r = read_string s in (elim r.0 [ none ↦ none | some str ↦ some (text str ∷ []) ], r.1)
answer (ask_skip n) s = let r = skip n s in (if r.0 then some [] else none, r.1)

unfoldable pub answers : List Ask → List ℕ → Option (List Value) × List ℕ
answers [] s = (some [], s)
answers (a ∷ as') s =
    let first = answer a s in
    elim first.0 [
      | none ↦ (none, first.1)
      | some vs ↦
          let rest = answers as' first.1 in
          (elim rest.0 [ none ↦ none | some ws ↦ some (vs ++ ws) ], rest.1)
    ]
