-- ===== src/Network/Message/Buffer.antt =====
-- A `put` into a message's buffer, and what the guards of the operations give.
use odirion_mmoserver.Base.{
  ℕ, ◌+◌, ◌^◌, ◌≤◌, ◌<◌, ◌≡◌, ◌∙◌, true, some, List, arith, ◌++◌, take, drop, u16, u64, length,
  lt→ltb,
}
use odirion_mmoserver.Base.Bytes.{to_le, length-to_le, write_at-IsWritten}
use odirion_mmoserver.Network.Message.{
  NetworkMessage, M, ◌>>=◌, ◌>>◌, max_size, max_body_length, can_add, add_string, can_read, put,
  add,
}

-- The buffer is the array of `NETWORKMESSAGE_MAXSIZE` bytes.
abbrev pub IsBuffer : NetworkMessage → Type 0
IsBuffer m = length m.buffer ≡ max_size

-- Such a buffer, and a position of 16 bits.
abbrev pub IsMessage : NetworkMessage → Type 0
IsMessage m = IsBuffer m × (m.position < 2 ^ 16)

-- The message after a `put` that fits.
abbrev pub after_put : List ℕ → NetworkMessage → NetworkMessage
after_put bs m = record m {
  buffer = take m.position m.buffer ++ (bs ++ drop (m.position + length bs) m.buffer);
  position = u16 (m.position + length bs);
  len = u16 (m.len + length bs);
}

pub put_fits :
    (bs : List ℕ) (m : NetworkMessage)
    → IsBuffer m
    → m.position + length bs ≤ max_size
    → (put bs m ≡ some (tt, after_put bs m)) × IsBuffer (after_put bs m)
unfolding put
put_fits bs m h fits =
    let w = write_at-IsWritten m.buffer m.position bs (omega arith) in
    (rw (w.writes, put), w.same_length ∙ h)

-- A first part that returns hands its value and message on.
pub >>=-eq-some :
    {A B : Type 0} (f : M A) (g : A → M B) (m : NetworkMessage) {m' : NetworkMessage} {a : A}
    → f m ≡ some (a, m')
    → (f >>= g) m ≡ g a m'
>>=-eq-some f g m e = rw (e, ◌>>=◌)

pub add_fits :
    (n v : ℕ) (m : NetworkMessage)
    → n + m.position < max_body_length
    → add n v m ≡ put (to_le n v) m
unfolding add can_add
add_fits n v m h =
    let exact : u64 (n + m.position) ≡ n + m.position = omega (arith, h) in rw (exact, lt→ltb _ _ h)

pub can_add-lt :
    (m : NetworkMessage) (n : ℕ)
    → n + m.position < 2 ^ 64
    → can_add m n ≡ true
    → n + m.position < max_body_length
unfolding can_add
can_add-lt m n exact h = ground arith

pub can_read-lt : (m : NetworkMessage) (n : ℕ) → can_read m n ≡ true → m.position + n < max_size
unfolding can_read
can_read-lt m n h = ground arith

-- The length and the characters of a string that fits.
pub add_string_fits :
    (value : List ℕ) (m : NetworkMessage)
    → IsBuffer m
    → length value + 2 + m.position < max_body_length
    → let m' = after_put (to_le 2 (length value)) m in
      ((do add 2 (length value); put value) m ≡ some (tt, after_put value m'))
      × IsBuffer m'
      × IsBuffer (after_put value m')
      × (m'.position ≡ m.position + 2)
add_string_fits value m h fits =
    let w = put_fits (to_le 2 (length value)) m h (omega (arith, length-to_le 2 (length value))) in
    let at_end : u16 (m.position + length (to_le 2 (length value))) ≡ m.position + 2 =
      omega (arith, length-to_le 2 (length value)) in
    let v = put_fits value (after_put (to_le 2 (length value)) m) w.1 (omega (arith, at_end)) in
    let first = add_fits 2 (length value) m (omega arith) ∙ w.0 in
    (>>=-eq-some (add 2 (length value)) (λ _. put value) m first ∙ v.0, w.1, v.1, at_end)

-- A string that fits and is not too long is written: its length, then its characters.
pub add_string_lem :
    (value : List ℕ) (m : NetworkMessage)
    → length value ≤ 8192
    → length value + 2 + m.position < max_body_length
    → add_string value m ≡ (do add 2 (length value); put value) m
unfolding add_string can_add
add_string_lem value m short fits = ground arith
