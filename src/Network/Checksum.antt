-- ===== src/Network/Checksum.antt =====
-- `adlerChecksum` of tools.cpp.
pub mod Reference
use odirion_mmoserver.Base.{
  ℕ, zero, suc, ◌+◌, ◌%◌, ◌^◌, List, [], ◌∷◌, u32, bit_or, ◌<<<◌, ltb, ◌==◌, if◌then◌else◌, length,
  take, drop,
}
use odirion_mmoserver.Network.Message.{max_size}

abbrev pub adler : ℕ
adler = 65521

-- The two `uint32_t` sums.
pub record Sums : Type 0 where
  pub a : ℕ
  pub b : ℕ

-- The inner loop, over the bytes of one chunk.
pub chunk : Sums → List ℕ → Sums
chunk s [] = s
chunk s (byte ∷ bytes) =
    let a = u32 (s.a + byte) in chunk (record { a = a; b = u32 (s.b + a) }) bytes

-- The outer loop: a chunk is at most 5552 bytes. The fuel is the number of its turns.
pub chunks : ℕ → Sums → List ℕ → Sums
chunks zero s bytes = s
chunks (suc fuel) s [] = s
chunks (suc fuel) s (byte ∷ bytes) =
    let after = chunk s (take 5552 (byte ∷ bytes)) in
    chunks fuel (record { a = after.a % adler; b = after.b % adler }) (drop 5552 (byte ∷ bytes))

-- No turn is without a byte, so there are at most as many turns as bytes.
pub adler_checksum : List ℕ → ℕ
adler_checksum bytes =
    if ltb max_size (length bytes)
    then 0
    else let s = chunks (length bytes) (record { a = 1; b = 0 }) bytes in
      bit_or (u32 (s.b <<< 16)) s.a
