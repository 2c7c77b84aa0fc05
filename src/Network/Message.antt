-- ===== src/Network/Message.antt =====
-- networkmessage.h and networkmessage.cpp. An operation is a function of the message; `none` is a
-- memory access outside `buffer`, which C++ leaves undefined. `addDouble` needs floats and the item
-- table's `addItem` a loaded table: both are left out.
pub mod Buffer
pub mod Safety
pub mod Fields
pub mod Reading
pub mod RoundTrip
use odirion_mmoserver.Base.{
  ℕ, suc, ◌+◌, ◌-◌, ◌*◌, ◌%◌, ◌^◌, ◌≤◌, ◌<◌, ◌≡◌, Bool, true, false, not, ◌&&◌, ◌||◌, Option, none,
  some, List, [], ◌∷◌, ltb, leb, ◌==◌, if◌then◌else◌, u8, u16, u64, sub16, replicate, bit_or, ◌<<<◌,
  length,
}
use odirion_mmoserver.Base.Int.{ℤ, pos_part, neg_part}
use odirion_mmoserver.Base.Bytes.{to_le, from_le, read_at, write_at}
use odirion_mmoserver.Position.{Position}

abbrev pub max_size : ℕ
max_size = 24590

abbrev pub max_body_length : ℕ
max_body_length = max_size - 2 - 4 - 8

abbrev pub initial_buffer_position : ℕ
initial_buffer_position = 8

pub record NetworkMessage : Type 0 where
  pub len : ℕ
  pub position : ℕ
  pub overrun : Bool
  pub buffer : List ℕ

abbrev pub M : Type 0 → Type 0
M A = NetworkMessage → Option (A × NetworkMessage)

infixl 5 ◌>>=◌ ◌>>◌
abbrev pub ◌>>=◌ : {A B : Type 0} → M A → (A → M B) → M B
◌>>=◌ m f s = elim (m s) [ none ↦ none | some (a, s') ↦ f a s' ]

abbrev pub ◌>>◌ : {B : Type 0} → M (Unit {0}) → M B → M B
m >> k = m >>= λ _. k

abbrev pub pure : {A : Type 0} → A → M A
pure a s = some (a, s)

pub reset : NetworkMessage → NetworkMessage
reset m = record m { len = 0; position = initial_buffer_position; overrun = false }

unfoldable pub can_add : NetworkMessage → ℕ → Bool
can_add m size = ltb (u64 (size + m.position)) max_body_length

-- The test of `canRead`; where it fails the caller sets `overrun`.
unfoldable pub can_read : NetworkMessage → ℕ → Bool
can_read m size = not (ltb (m.len + 8) (m.position + size) || leb (max_size - m.position) size)

-- `memcpy` of `bs` to the position, which moves on with the length.
pub put : List ℕ → M (Unit {0})
put bs m = elim (write_at m.buffer m.position bs) [
  | none ↦ none
  | some b ↦ some (
    tt,
    record m { buffer = b; position = u16 (m.position + length bs); len = u16 (m.len + length bs) },
  )
]

-- `memcpy` of `n` bytes from the position.
unfoldable pub fetch : ℕ → M (List ℕ)
fetch n m = elim (read_at m.buffer m.position n) [
  | none ↦ none
  | some bs ↦ some (bs, record m { position = u16 (m.position + n) })
]

-- `add<T>` and `get<T>`, where `n` is the size of `T`.
pub add : ℕ → ℕ → M (Unit {0})
add n v m = if can_add m n then put (to_le n v) m else some (tt, m)

unfoldable pub get : ℕ → M ℕ
get n m =
    if can_read m n
    then (do bs ← fetch n; pure (from_le bs)) m
    else some (0, record m { overrun = true })

abbrev pub add_byte : ℕ → M (Unit {0})
add_byte v = add 1 v

abbrev pub get_byte : M ℕ
get_byte = get 1

peek : ℕ → M (List ℕ)
peek n m = elim (read_at m.buffer m.position n) [ none ↦ none | some bs ↦ some (bs, m) ]

-- `buffer[--info.position]`.
pub get_previous_byte : M ℕ
unfolding peek
get_previous_byte m =
    (do bs ← peek 1; pure (from_le bs)) (record m { position = sub16 m.position 1 })

pub skip_bytes : ℤ → M (Unit {0})
skip_bytes count m =
    some (tt, record m { position = u16 (m.position + pos_part count + 2 ^ 16 - neg_part count) })

pub add_bytes : List ℕ → M (Unit {0})
add_bytes bs m =
    if not (can_add m (length bs)) || ltb 8192 (length bs) then some (tt, m) else put bs m

pub add_string : List ℕ → M (Unit {0})
add_string value m =
    if not (can_add m (length value + 2)) || ltb 8192 (length value)
    then some (tt, m)
    else (do add 2 (length value); put value) m

unfoldable pub add_padding_bytes : ℕ → M (Unit {0})
add_padding_bytes n m =
    if not (can_add m n)
    then some (tt, m)
    else elim (write_at m.buffer m.position (replicate n 0x33)) [
      | none ↦ none
      | some b ↦ some (tt, record m { buffer = b; len = u16 (m.len + n) })
    ]

read_string : ℕ → M (List ℕ)
read_string string_len m =
    if can_read m string_len then fetch string_len m else some ([], record m { overrun = true })

pub get_string : ℕ → M (List ℕ)
unfolding read_string
get_string string_len =
    if string_len == 0 then (do n ← get 2; read_string n) else read_string string_len

pub add_position : Position → M (Unit {0})
add_position p = do add 2 p.x; add 2 p.y; add_byte p.z

pub get_position : M Position
get_position = do x ← get 2; y ← get 2; z ← get_byte; pure (record { x = x; y = y; z = z })

unfoldable pub set_length : ℕ → NetworkMessage → NetworkMessage
set_length n m = record m { len = u16 n }

pub set_buffer_position : ℕ → NetworkMessage → NetworkMessage
set_buffer_position n m = record m { position = u16 n }

-- `decodeHeader`: the two bytes of the length.
unfoldable pub decode_header : M ℕ
decode_header m = elim (read_at m.buffer 0 2) [
  | some (low ∷ high ∷ []) ↦
      let new_size = bit_or low (high <<< 8) in some (new_size, record m { len = u16 new_size })
  | _ ↦ none
]
