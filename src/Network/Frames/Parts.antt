-- ===== src/Network/Frames/Parts.antt =====
-- Headers, padding and encryption of a message that is given in parts.
use mathlib.Core.List.{append_assoc, append-nil}
use odirion_mmoserver.Base.{
  ℕ, zero, suc, ◌+◌, ◌-◌, ◌*◌, ◌%◌, ◌<◌, ◌≡◌, refl, sym, ap, ◌∙◌, inl, inr, Bool, true, false, some,
  List, ◌++◌, arith, ltb, ◌==◌, if◌then◌else◌, u16, u64, length, take, drop, replicate,
  length-append, length-replicate, take-append-drop, Bool-cases, All-append,
}
use odirion_mmoserver.Base.Bytes.{
  IsBytes, to_le, length-to_le, read_at_parts, write_at_parts, length-take_le,
}
use odirion_mmoserver.Network.Message.{
  NetworkMessage, max_size, max_body_length, add_padding_bytes, can_add,
}
use odirion_mmoserver.Network.Xtea.{turns, xtea_encrypt}
use odirion_mmoserver.Network.Xtea.Buffers.{Restores, restores}
use odirion_mmoserver.Network.Frames.{OutputMessage, add_header, output, encrypt_output}

-- A message by its parts.
abbrev pub message_of : ℕ → ℕ → Bool → List ℕ → NetworkMessage
message_of len position overrun buffer = record {
  len = len;
  position = position;
  overrun = overrun;
  buffer = buffer;
}

abbrev pub output_of : ℕ → NetworkMessage → OutputMessage
output_of start m = record { message = m; output_buffer_start = start }

pub same_output :
    {start start' len len' position position' : ℕ} {overrun : Bool} {buffer buffer' : List ℕ}
    → start ≡ start'
    → len ≡ len'
    → position ≡ position'
    → buffer ≡ buffer'
    → output_of start (message_of len position overrun buffer)
      ≡ output_of start' (message_of len' position' overrun buffer')
same_output {overrun = o} e f g h = λ i. output_of (e i) (message_of (f i) (g i) o (h i))

module _ (position : ℕ) (overrun : Bool) where
  pub add_header-parts :
      (n v start len : ℕ) (pre mid post : List ℕ)
      → length pre + n ≡ start
      → length mid ≡ n
      → add_header n v (output_of start (message_of len position overrun (pre ++ (mid ++ post))))
        ≡ some (
            output_of
              (length pre)
              (message_of (u16 (len + n)) position overrun (pre ++ (to_le n v ++ post))))
  unfolding add_header
  add_header-parts n v start len pre mid post hs hm =
      let room : ltb start n ≡ false = ground arith in
      let at : start - n ≡ length pre = omega arith in
      let w =
        write_at_parts pre mid post (to_le n v) (length pre) refl (hm ∙ sym (length-to_le n v)) in
      rw (room, at, w) (rw at refl)

  pub output-parts :
      (len : ℕ) (pre bytes post : List ℕ)
      → length bytes ≡ len
      → output (output_of (length pre) (message_of len position overrun (pre ++ (bytes ++ post))))
        ≡ some bytes
  unfolding output
  output-parts len pre bytes post h = read_at_parts pre bytes post (length pre) len refl h

abbrev pub padding : ℕ → ℕ
padding n = if n % 8 == 0 then 0 else 8 - n % 8

abbrev pub pad : List ℕ → List ℕ
pad ws = ws ++ replicate (padding (length ws)) 0x33

pub length-pad : (ws : List ℕ) → length (pad ws) ≡ length ws + padding (length ws)
length-pad ws = omega (
  arith,
  length-append ws (replicate (padding (length ws)) 0x33),
  length-replicate {A = ℕ} (padding (length ws)) 0x33,
)

pub padding-lt : (n : ℕ) → padding n < 8
padding-lt n = ground arith

pub padding-mod : (n : ℕ) → (n + padding n) % 8 ≡ 0
padding-mod n = ground arith

pad-turns : (ws : List ℕ) → length (pad ws) ≡ turns (length (pad ws)) * 8
unfolding turns
pad-turns ws = omega (arith, length-pad ws, padding-mod (length ws))

pub replicate-IsBytes : (n v : ℕ) → v < 256 → IsBytes (replicate n v)
replicate-IsBytes zero v h = tt
replicate-IsBytes (suc n) v h = (h, replicate-IsBytes n v h)

pub pad-Restores : (k ws : List ℕ) → IsBytes ws → Restores k (turns (length (pad ws))) (pad ws)
pad-Restores k ws h =
    restores k (turns (length (pad ws))) (pad ws)
      (All-append (λ b. b < 256) ws (replicate (padding (length ws)) 0x33) h
        (replicate-IsBytes (padding (length ws)) 0x33 (omega arith)))
      (pad-turns ws)

-- A body of bytes that are padded and encrypted where they stand; `pre` is the part in front of `start`.
module _ (k : List ℕ) (overrun : Bool) (pre ws rest : List ℕ) where
  abbrev pub whole : List ℕ
  whole = pre ++ (ws ++ rest)

  -- The message with the padding.
  abbrev padded : NetworkMessage
  padded =
      message_of (length (pad ws)) (length pre + length ws) overrun
        (pre ++ (pad ws ++ drop (padding (length ws)) rest))

  padding-adds :
      length whole ≡ max_size
      → length pre + length ws + 8 < max_body_length
      → (if length ws % 8 == 0
          then some (tt, message_of (length ws) (length pre + length ws) overrun whole)
          else add_padding_bytes
              (8 - length ws % 8)
              (message_of (length ws) (length pre + length ws) overrun whole))
        ≡ some (tt, padded)
  unfolding add_padding_bytes can_add
  padding-adds size small = elim (Bool-cases (length ws % 8 == 0)) [
    | inl y ↦ rw y (rw (append-nil ws) refl)
    | inr n ↦
        let p : ℕ = 8 - length ws % 8 in
        let whole_length = length-append pre (ws ++ rest) in
        let rest_length = length-append ws rest in
        let room : ltb (u64 (p + (length pre + length ws))) max_body_length ≡ true =
          ground (arith, small) in
        let parts : whole ≡ (pre ++ ws) ++ (take p rest ++ drop p rest) =
          rw (take-append-drop p rest) (sym (append_assoc pre ws rest)) in
        let w =
          write_at_parts (pre ++ ws) (take p rest) (drop p rest) (replicate p 0x33)
            (length pre + length ws) (length-append pre ws)
            (length-take_le p rest (omega (arith, size, small, whole_length, rest_length))
              ∙ sym (length-replicate {A = ℕ} p 0x33)) in
        let r : List ℕ = replicate p 0x33 in
        let same_length : u16 (length ws + p) ≡ length (ws ++ r) = omega (
          arith,
          size,
          small,
          whole_length,
          rest_length,
          length-append ws r,
          length-replicate {A = ℕ} p 0x33,
        ) in
        let same_buffer : (pre ++ ws) ++ (r ++ drop p rest) ≡ pre ++ ((ws ++ r) ++ drop p rest) =
          append_assoc pre ws (r ++ drop p rest)
          ∙ ap (◌++◌ pre) (sym (append_assoc ws r (drop p rest))) in
        rw (n, room) (rw parts (rw w (rw (same_length, same_buffer) refl)))
  ]

  module _ (bytes : IsBytes ws) where
    -- What stands there instead of the bytes and their padding.
    abbrev pub encrypted : Restores k (turns (length (pad ws))) (pad ws)
    encrypted = pad-Restores k ws bytes

    xtea_encrypt-parts :
        length whole ≡ max_size
        → length pre + length ws + 8 < max_body_length
        → xtea_encrypt k
            (length pre)
            (message_of (length ws) (length pre + length ws) overrun whole)
          ≡ some (
            tt,
            message_of
                (length (pad ws))
                (length pre + length ws)
                overrun
                (pre ++ (encrypted.cs ++ drop (padding (length ws)) rest)),
          )
    unfolding xtea_encrypt
    xtea_encrypt-parts size small =
        let e = encrypted.encrypts pre (drop (padding (length ws)) rest) (length pre) refl in
        rw (padding-adds size small, xtea_encrypt) (rw e refl)

    pub encrypt_output-parts :
        length whole ≡ max_size
        → length pre + length ws + 8 < max_body_length
        → encrypt_output k
            (output_of (length pre) (message_of (length ws) (length pre + length ws) overrun whole))
          ≡ some (
              output_of (length pre) (
                message_of
                  (length (pad ws))
                  (length pre + length ws)
                  overrun
                  (pre ++ (encrypted.cs ++ drop (padding (length ws)) rest))))
    unfolding encrypt_output
    encrypt_output-parts size small = rw (xtea_encrypt-parts size small, encrypt_output) refl
