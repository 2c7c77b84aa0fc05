-- ===== src/Network/Message/Safety.antt =====
-- The operations of a message against the bounds of its buffer.
use odirion_mmoserver.Base.{
  ℕ, ◌+◌, ◌^◌, ◌≤◌, ◌<◌, ◌≡◌, All, refl, ◌∙◌, inl, inr, some, List, [], ◌∷◌, arith, take, drop, u16,
  length, replicate, length-replicate, Bool-cases, not, ◌||◌, ltb, ◌==◌,
}
use odirion_mmoserver.Base.Int.{ℤ}
use odirion_mmoserver.Base.Bytes.{to_le, from_le, read_at_inside, length-to_le, write_at-IsWritten}
use odirion_mmoserver.Position.{Position}
use odirion_mmoserver.Network.Message.{
  NetworkMessage, M, ◌>>=◌, ◌>>◌, pure, max_size, can_add, can_read, put, fetch, add, get,
  add_bytes, add_string, add_padding_bytes, add_position, read_string, get_string, get_position,
  skip_bytes, set_length, set_buffer_position, reset,
}
use odirion_mmoserver.Network.Message.Buffer.{
  IsMessage, after_put, put_fits, can_add-lt, can_read-lt, add_string_fits,
}

-- From a message with such a buffer the operation returns, and leaves such a buffer.
abbrev pub ReturnsAt : {A : Type 0} → M A → NetworkMessage → Type 0
ReturnsAt {A} f m = (a : A) × (m' : NetworkMessage) × (f m ≡ some (a, m')) × IsMessage m'

pub record IsSafe {A : Type 0} (f : M A) : Type 0 where
  pub at : (m : NetworkMessage) → IsMessage m → ReturnsAt f m

pub pure-IsSafe : {A : Type 0} (a : A) → IsSafe (pure a)
pure-IsSafe a = record { at = λ m h. (a, m, refl, h) }

pub >>=-IsSafe :
    {A B : Type 0} {f : M A} {g : A → M B} → IsSafe f → ((a : A) → IsSafe (g a)) → IsSafe (f >>= g)
>>=-IsSafe {f = f} {g = g} sf sg = record {
  at = λ m h.
      let r = sf.at m h in let s = (sg r.0).at r.1 r.3 in (s.0, s.1, rw (r.2, ◌>>=◌) (s.2), s.3);
}

put-ReturnsAt :
    (bs : List ℕ) (m : NetworkMessage)
    → IsMessage m
    → m.position + length bs ≤ max_size
    → ReturnsAt (put bs) m
put-ReturnsAt bs m h fits =
    let w = put_fits bs m h.0 fits in (tt, after_put bs m, w.0, (w.1, omega arith))

fetch-ReturnsAt :
    (n : ℕ) (m : NetworkMessage) → IsMessage m → m.position + n ≤ max_size → ReturnsAt (fetch n) m
unfolding fetch
fetch-ReturnsAt n m h fits = (
  take n (drop m.position m.buffer),
  record m { position = u16 (m.position + n) },
  rw (read_at_inside m.buffer m.position n (omega (arith, h.0)), fetch),
  (h.0, omega arith),
)

pub add-IsSafe : (n v : ℕ) → n + 2 ^ 16 ≤ 2 ^ 64 → IsSafe (add n v)
unfolding add
add-IsSafe n v sized = record {
  at = λ m h. elim (Bool-cases (can_add m n)) [
    | inl y ↦ rw y (
        put-ReturnsAt (to_le n v) m h
          (omega (arith, can_add-lt m n (omega (arith, h.1, sized)) y, length-to_le n v)))
    | inr x ↦ rw x (tt, m, refl, h)
  ];
}

get-IsSafe : (n : ℕ) → IsSafe (get n)
unfolding get
get-IsSafe n = record {
  at = λ m h. elim (Bool-cases (can_read m n)) [
    | inl y ↦
        let r = fetch-ReturnsAt n m h (omega (arith, can_read-lt m n y)) in
        rw y (from_le r.0, r.1, rw (r.2, ◌>>=◌), r.3)
    | inr x ↦ rw x (0, _, refl, h)
  ];
}

read_string-IsSafe : (n : ℕ) → IsSafe (read_string n)
unfolding read_string
read_string-IsSafe n = record {
  at = λ m h. elim (Bool-cases (can_read m n)) [
    | inl y ↦ rw y (fetch-ReturnsAt n m h (omega (arith, can_read-lt m n y)))
    | inr x ↦ rw x ([], _, refl, h)
  ];
}

add_bytes-IsSafe : (bs : List ℕ) → IsSafe (add_bytes bs)
unfolding add_bytes
add_bytes-IsSafe bs = record {
  at = λ m h. elim (Bool-cases (not (can_add m (length bs)) || ltb 8192 (length bs))) [
    | inl y ↦ rw y (tt, m, refl, h)
    | inr x ↦ rw x (
        put-ReturnsAt bs m h
          (omega (arith, can_add-lt m (length bs) (ground (arith, h.1)) (ground arith))))
  ];
}

add_string-IsSafe : (value : List ℕ) → IsSafe (add_string value)
unfolding add_string
add_string-IsSafe value = record {
  at = λ m h. elim (Bool-cases (not (can_add m (length value + 2)) || ltb 8192 (length value))) [
    | inl y ↦ rw y (tt, m, refl, h)
    | inr x ↦
        let r =
          add_string_fits value m h.0
            (omega (arith, can_add-lt m (length value + 2) (ground (arith, h.1)) (ground arith))) in
        rw x (tt, _, r.0, (r.2, omega arith))
  ];
}

add_padding_bytes-IsSafe : (n : ℕ) → n + 2 ^ 16 ≤ 2 ^ 64 → IsSafe (add_padding_bytes n)
unfolding add_padding_bytes
add_padding_bytes-IsSafe n sized = record {
  at = λ m h. elim (Bool-cases (can_add m n)) [
    | inl y ↦
        let w = write_at-IsWritten m.buffer m.position (replicate n 0x33) (
          omega (
            arith,
            can_add-lt m n (omega (arith, h.1, sized)) y,
            length-replicate {A = ℕ} n 0x33,
          )) in
        rw (y, w.writes, add_padding_bytes) (tt, _, refl, (w.same_length ∙ h.0, h.1))
    | inr x ↦ rw x (tt, m, refl, h)
  ];
}

add_position-IsSafe : (p : Position) → IsSafe (add_position p)
unfolding add_position
add_position-IsSafe p =
    >>=-IsSafe (add-IsSafe 2 p.x (omega arith))
      λ _. >>=-IsSafe (add-IsSafe 2 p.y (omega arith)) λ _. add-IsSafe 1 p.z (omega arith)

get_position-IsSafe : IsSafe get_position
unfolding get_position
get_position-IsSafe =
    >>=-IsSafe (get-IsSafe 2)
      λ _. >>=-IsSafe (get-IsSafe 2) λ _. >>=-IsSafe (get-IsSafe 1) λ _. pure-IsSafe _

get_string-IsSafe : (n : ℕ) → IsSafe (get_string n)
unfolding get_string
get_string-IsSafe n = elim (Bool-cases (n == 0)) [
  | inl y ↦ rw y (>>=-IsSafe (get-IsSafe 2) read_string-IsSafe)
  | inr x ↦ rw x (read_string-IsSafe n)
]

skip_bytes-IsSafe : (count : ℤ) → IsSafe (skip_bytes count)
unfolding skip_bytes
skip_bytes-IsSafe count = record { at = λ m h. (tt, _, refl, (h.0, omega arith)) }

-- The calls that a client makes, in any order. `getPreviousByte` is not one of them: at
-- position 0 it reads far outside the buffer.
pub data Call : Type 0 where
  adds : ℕ → ℕ → Call
  adds_bytes adds_string : List ℕ → Call
  adds_padding : ℕ → Call
  adds_position : Position → Call
  gets gets_string : ℕ → Call
  gets_position resets : Call
  skips : ℤ → Call
  sets_length sets_position : ℕ → Call

-- Sizes of the types that are written and read have 16 bits, and a padding does not wrap in `canAdd`.
abbrev pub IsSized : Call → Type 0
IsSized (adds n v) = n < 2 ^ 16
IsSized (gets n) = n < 2 ^ 16
IsSized (gets_string n) = n < 2 ^ 16
IsSized (adds_padding n) = n + 2 ^ 16 ≤ 2 ^ 64
IsSized _ = Unit

sized_16 : (n : ℕ) → n < 2 ^ 16 → n + 2 ^ 16 ≤ 2 ^ 64
sized_16 n h = omega (arith, h)

discard : {A : Type 0} → M A → M (Unit {0})
discard f = f >>= λ _. pure tt

pub call : Call → M (Unit {0})
unfolding discard
call (adds n v) = add n v
call (adds_bytes bs) = add_bytes bs
call (adds_string value) = add_string value
call (adds_padding n) = add_padding_bytes n
call (adds_position p) = add_position p
call (gets n) = discard (get n)
call (gets_string n) = discard (get_string n)
call gets_position = discard get_position
call resets = λ m. some (tt, reset m)
call (skips count) = skip_bytes count
call (sets_length n) = λ m. some (tt, set_length n m)
call (sets_position n) = λ m. some (tt, set_buffer_position n m)

pub calls : List Call → M (Unit {0})
calls [] = pure tt
calls (c ∷ cs) = do call c; calls cs

discard-IsSafe : {A : Type 0} {f : M A} → IsSafe f → IsSafe (discard f)
unfolding discard
discard-IsSafe s = >>=-IsSafe s λ _. pure-IsSafe tt

call-IsSafe : (c : Call) → IsSized c → IsSafe (call c)
unfolding call reset set_length set_buffer_position
call-IsSafe (adds n v) sized = add-IsSafe n v (sized_16 n sized)
call-IsSafe (adds_bytes bs) sized = add_bytes-IsSafe bs
call-IsSafe (adds_string value) sized = add_string-IsSafe value
call-IsSafe (adds_padding n) sized = add_padding_bytes-IsSafe n sized
call-IsSafe (adds_position p) sized = add_position-IsSafe p
call-IsSafe (gets n) sized = discard-IsSafe (get-IsSafe n)
call-IsSafe (gets_string n) sized = discard-IsSafe (get_string-IsSafe n)
call-IsSafe gets_position sized = discard-IsSafe get_position-IsSafe
call-IsSafe resets sized = record { at = λ m h. (tt, _, refl, (h.0, omega arith)) }
call-IsSafe (skips count) sized = skip_bytes-IsSafe count
call-IsSafe (sets_length n) sized = record { at = λ m h. (tt, _, refl, h) }
call-IsSafe (sets_position n) sized = record { at = λ m h. (tt, _, refl, (h.0, omega arith)) }

calls-IsSafe : (cs : List Call) → All IsSized cs → IsSafe (calls cs)
unfolding calls
calls-IsSafe [] sized = pure-IsSafe tt
calls-IsSafe (c ∷ cs) sized = >>=-IsSafe (call-IsSafe c sized.0) λ _. calls-IsSafe cs sized.1

-- From any message whose buffer has its full size and whose position has 16 bits, any sequence of these calls, of
-- sizes below 2 ^ 16 and paddings that the sum of `canAdd` does not wrap for, returns. So none of them reads or writes
-- outside the buffer, and both hold afterwards. `getPreviousByte` is left out.
pub calls-ReturnsAt :
    (cs : List Call) (m : NetworkMessage) → All IsSized cs → IsMessage m → ReturnsAt (calls cs) m
calls-ReturnsAt cs m sized h = (calls-IsSafe cs sized).at m h
