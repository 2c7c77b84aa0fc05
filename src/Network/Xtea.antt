-- ===== src/Network/Xtea.antt =====
-- `XTEA_encrypt` and `XTEA_decrypt` of protocol.cpp, over the bytes of a buffer.
pub mod Inverse
pub mod Buffers
use odirion_mmoserver.Base.{
  ℕ, zero, suc, ◌+◌, ◌-◌, ◌/◌, ◌%◌, ◌^◌, ◌≡◌, Bool, true, false, not, Option, none, some, List, [],
  ◌∷◌, u16, u32, sub32, bit_xor, bit_and, ◌<<<◌, ◌>>>◌, ltb, ◌==◌, if◌then◌else◌, get_or, length,
}
use odirion_mmoserver.Base.Bytes.{to_le, from_le, read_at, write_at}
use odirion_mmoserver.Network.Message.{
  NetworkMessage, M, can_add, can_read, add_padding_bytes, get, set_length,
}

abbrev pub delta : ℕ
delta = 0x61C88647

-- `v0`, `v1` and `sum` of the loops.
pub record Block : Type 0 where
  pub v0 : ℕ
  pub v1 : ℕ
  pub sum : ℕ

-- `((v << 4 ^ v >> 5) + v) ^ (sum + k[i])`, on `uint32_t`.
pub mix : ℕ → ℕ → ℕ → ℕ
mix v sum ki = u32 (bit_xor (u32 (bit_xor (u32 (v <<< 4)) (v >>> 5) + v)) (u32 (sum + ki)))

-- The key is the array of four words.
module _ (k : List ℕ) where
  pub key_word : ℕ → ℕ
  key_word i = get_or k i 0

  pub encrypt_round : Block → Block
  encrypt_round b =
      let v0 = u32 (b.v0 + mix b.v1 b.sum (key_word (bit_and b.sum 3))) in
      let sum = sub32 b.sum delta in
      let v1 = u32 (b.v1 + mix v0 sum (key_word (bit_and (sum >>> 11) 3))) in
      record { v0 = v0; v1 = v1; sum = sum }

  pub decrypt_round : Block → Block
  decrypt_round b =
      let v1 = sub32 b.v1 (mix b.v0 b.sum (key_word (bit_and (b.sum >>> 11) 3))) in
      let sum = u32 (b.sum + delta) in
      let v0 = sub32 b.v0 (mix v1 sum (key_word (bit_and sum 3))) in
      record { v0 = v0; v1 = v1; sum = sum }

abbrev pub iterate {ℓ} : {A : Type ℓ} → ℕ → (A → A) → A → A
iterate zero f a = a
iterate (suc n) f a = iterate n f (f a)

-- The inner loop: 32 rounds from the given sum.
pub crypt : (Block → Block) → ℕ → ℕ → ℕ → Block
crypt round sum v0 v1 = iterate 32 round (record { v0 = v0; v1 = v1; sum = sum })

-- One turn of the outer loops: eight bytes at `pos` are two words, which 32 rounds replace.
pub crypt_block : (Block → Block) → ℕ → ℕ → List ℕ → Option (List ℕ)
crypt_block round sum pos buf = elim (read_at buf pos 4) [
  | none ↦ none
  | some low ↦ elim (read_at buf (pos + 4) 4) [
    | none ↦ none
    | some high ↦
        let b = crypt round sum (from_le low) (from_le high) in
        elim (write_at buf pos (to_le 4 b.v0)) [
          | none ↦ none
          | some buf' ↦ write_at buf' (pos + 4) (to_le 4 b.v1)
        ]
  ]
]

-- The outer loop with the number of its turns.
pub crypt_blocks : (Block → Block) → ℕ → ℕ → ℕ → List ℕ → Option (List ℕ)
crypt_blocks round sum zero pos buf = some buf
crypt_blocks round sum (suc n) pos buf = elim (crypt_block round sum pos buf) [
  | none ↦ none
  | some buf' ↦ crypt_blocks round sum n (pos + 8) buf'
]

-- `while (readPos < messageLength)`, where a turn adds 8 to `readPos`.
unfoldable pub turns : ℕ → ℕ
turns message_length = (message_length + 7) / 8

-- Padding to a multiple of 8, then the loop from the start of the body, `outputBufferStart`.
unfoldable pub xtea_encrypt : List ℕ → ℕ → M (Unit {0})
unfolding turns
xtea_encrypt k start m =
    let padding_bytes = m.len % 8 in
    elim (if padding_bytes == 0 then some (tt, m) else add_padding_bytes (8 - padding_bytes) m) [
      | none ↦ none
      | some (_, m') ↦ elim (crypt_blocks (encrypt_round k) 0 (turns m'.len) start m'.buffer) [
        | none ↦ none
        | some buf ↦ some (tt, record m' { buffer = buf })
      ]
    ]

-- The length of the body; where the real difference is negative, its low bits are not zero.
unfoldable pub xtea_decrypt : List ℕ → M Bool
unfolding turns
xtea_decrypt k m =
    if not (bit_and (sub32 m.len 6) 7 == 0)
    then some (false, m)
    else elim (crypt_blocks (decrypt_round k) 0xC6EF3720 (turns (m.len - 6)) m.position m.buffer) [
      | none ↦ none
      | some buf ↦ elim (get 2 (record m { buffer = buf })) [
        | none ↦ none
        | some (inner_length, m') ↦
            if ltb m'.len (inner_length + 8)
            then some (false, m')
            else some (true, set_length inner_length m')
      ]
    ]
