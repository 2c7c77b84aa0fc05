-- ===== src/Network/Xtea/Buffers.antt =====
-- The loops of `XTEA_encrypt` and `XTEA_decrypt` over a buffer.
use mathlib.Core.List.{append_assoc}
use odirion_mmoserver.Base.{
  ℕ, zero, suc, ◌+◌, ◌*◌, ◌<◌, ◌≡◌, refl, sym, ap, subst, ◌∙◌, some, List, ◌++◌, arith, length,
  take, drop, length-append, length-take, length-drop, take-append-drop, All-take, All-drop,
}
use odirion_mmoserver.Base.Bytes.{
  IsBytes, to_le, from_le, length-to_le, to_le-from_le, from_le-lt_four, from_le_four, read_at,
  write_at, read_at_parts, write_at_parts,
}
use odirion_mmoserver.Network.Xtea.{
  Block, encrypt_round, decrypt_round, crypt, crypt_block, crypt_blocks,
}
use odirion_mmoserver.Network.Xtea.Inverse.{crypt-IsBlock, decrypt-encrypt}

-- One turn of the outer loop on a buffer whose eight bytes at the position are two words.
crypt_block-parts :
    (round : Block → Block) (sum : ℕ) (pre low high post : List ℕ) (pos : ℕ)
    → length pre ≡ pos
    → length low ≡ 4
    → length high ≡ 4
    → let e = crypt round sum (from_le low) (from_le high) in
      crypt_block round sum pos (pre ++ (low ++ (high ++ post)))
      ≡ some (pre ++ (to_le 4 e.v0 ++ (to_le 4 e.v1 ++ post)))
unfolding crypt_block
crypt_block-parts round sum pre low high post pos hp hl hh =
    rw (read_low, read_high, write_low, write_high, crypt_block)
  where
    e : Block
    e = crypt round sum (from_le low) (from_le high)

    read_low : read_at (pre ++ (low ++ (high ++ post))) pos 4 ≡ some low
    read_low = read_at_parts pre low (high ++ post) pos 4 hp hl

    at_high : length (pre ++ low) ≡ pos + 4
    at_high = omega (arith, length-append pre low)

    read_high : read_at (pre ++ (low ++ (high ++ post))) (pos + 4) 4 ≡ some high
    read_high =
        rw (sym (append_assoc pre low (high ++ post)))
          (read_at_parts (pre ++ low) high post (pos + 4) 4 at_high hh)

    write_low :
        write_at (pre ++ (low ++ (high ++ post))) pos (to_le 4 e.v0)
        ≡ some (pre ++ (to_le 4 e.v0 ++ (high ++ post)))
    write_low =
        write_at_parts pre low (high ++ post) (to_le 4 e.v0) pos hp (hl ∙ sym (length-to_le 4 e.v0))

    at_high' : length (pre ++ to_le 4 e.v0) ≡ pos + 4
    at_high' = omega (arith, length-append pre (to_le 4 e.v0), length-to_le 4 e.v0)

    write_high :
        write_at (pre ++ (to_le 4 e.v0 ++ (high ++ post))) (pos + 4) (to_le 4 e.v1)
        ≡ some (pre ++ (to_le 4 e.v0 ++ (to_le 4 e.v1 ++ post)))
    write_high =
        rw
          (
            sym (append_assoc pre (to_le 4 e.v0) (high ++ post)),
            sym (append_assoc pre (to_le 4 e.v0) (to_le 4 e.v1 ++ post)),
          )
          (write_at_parts (pre ++ to_le 4 e.v0) high post (to_le 4 e.v1) (pos + 4) at_high'
            (hh ∙ sym (length-to_le 4 e.v1)))

abbrev pub sum_start : ℕ
sum_start = 0xC6EF3720

-- Eight bytes are two words; encrypted and decrypted they are the same bytes again.
words_back :
    (k : List ℕ) (low high : List ℕ)
    → IsBytes low
    → IsBytes high
    → length low ≡ 4
    → length high ≡ 4
    → let e = crypt (encrypt_round k) 0 (from_le low) (from_le high) in
      let d = crypt (decrypt_round k) sum_start (from_le (to_le 4 e.v0)) (from_le (to_le 4 e.v1)) in
      (to_le 4 d.v0 ≡ low) × (to_le 4 d.v1 ≡ high)
words_back k low high bl bh hl hh =
    let v0 = from_le low in
    let v1 = from_le high in
    let h0 = from_le-lt_four low bl hl in
    let h1 = from_le-lt_four high bh hh in
    let e = crypt (encrypt_round k) 0 v0 v1 in
    let small = crypt-IsBlock k v0 v1 h0 h1 in
    let low_back : to_le 4 v0 ≡ low = subst (λ n. to_le n v0 ≡ low) hl (to_le-from_le low bl) in
    let high_back : to_le 4 v1 ≡ high = subst (λ n. to_le n v1 ≡ high) hh (to_le-from_le high bh) in
    rw (from_le_four e.v0 (small.0), from_le_four e.v1 (small.1), decrypt-encrypt k v0 v1 h0 h1)
      (low_back, high_back)

-- `ws` of `8 * n` bytes become `cs`, as many, which decryption turns into `ws` wherever they stand.
pub record Restores (k : List ℕ) (n : ℕ) (ws : List ℕ) : Type 0 where
  pub cs : List ℕ
  pub same_length : length cs ≡ length ws
  pub encrypts :
      (pre post : List ℕ) (pos : ℕ)
      → length pre ≡ pos
      → crypt_blocks (encrypt_round k) 0 n pos (pre ++ (ws ++ post)) ≡ some (pre ++ (cs ++ post))
  pub decrypts :
      (pre post : List ℕ) (pos : ℕ)
      → length pre ≡ pos
      → crypt_blocks (decrypt_round k) sum_start n pos (pre ++ (cs ++ post))
        ≡ some (pre ++ (ws ++ post))

append_three : (a b c d : List ℕ) → (a ++ (b ++ c)) ++ d ≡ a ++ (b ++ (c ++ d))
append_three a b c d = append_assoc a (b ++ c) d ∙ ap (◌++◌ a) (append_assoc b c d)

-- One more block before the others.
crypt_blocks-parts :
    (round : Block → Block) (sum n : ℕ) (low high ws cs : List ℕ)
    → length low ≡ 4
    → length high ≡ 4
    → ((pre post : List ℕ) (pos : ℕ)
        → length pre ≡ pos
        → crypt_blocks round sum n pos (pre ++ (ws ++ post)) ≡ some (pre ++ (cs ++ post)))
    → (pre post : List ℕ) (pos : ℕ) → length pre ≡ pos
    → let e = crypt round sum (from_le low) (from_le high) in
      crypt_blocks round sum (suc n) pos (pre ++ ((low ++ (high ++ ws)) ++ post))
      ≡ some (pre ++ ((to_le 4 e.v0 ++ (to_le 4 e.v1 ++ cs)) ++ post))
unfolding crypt_blocks
crypt_blocks-parts round sum n low high ws cs hl hh rest pre post pos hp =
    rw (append_three low high ws post, append_three el eh cs post)
      (rw (first, crypt_blocks)
        (rw (sym (append_three pre el eh (ws ++ post)), sym (append_three pre el eh (cs ++ post)))
          (rest (pre ++ (el ++ eh)) post (pos + 8) at_rest)))
  where
    el : List ℕ
    el = to_le 4 (crypt round sum (from_le low) (from_le high)).v0

    eh : List ℕ
    eh = to_le 4 (crypt round sum (from_le low) (from_le high)).v1

    first :
        crypt_block round sum pos (pre ++ (low ++ (high ++ (ws ++ post))))
        ≡ some (pre ++ (el ++ (eh ++ (ws ++ post))))
    first = crypt_block-parts round sum pre low high (ws ++ post) pos hp hl hh

    at_rest : length (pre ++ (el ++ eh)) ≡ pos + 8
    at_rest = omega (
      arith,
      length-append pre (el ++ eh),
      length-append el eh,
      length-to_le 4 (crypt round sum (from_le low) (from_le high)).v0,
      length-to_le 4 (crypt round sum (from_le low) (from_le high)).v1,
    )

-- The list in pieces of 4, 4 and the rest.
eight_and_rest : (ws : List ℕ) → ws ≡ take 4 ws ++ (take 4 (drop 4 ws) ++ drop 4 (drop 4 ws))
eight_and_rest ws = rw (take-append-drop 4 (drop 4 ws), take-append-drop 4 ws)

Restores-block :
    (k : List ℕ) (n : ℕ) (low high rest : List ℕ)
    → IsBytes low
    → IsBytes high
    → length low ≡ 4
    → length high ≡ 4
    → Restores k n rest
    → Restores k (suc n) (low ++ (high ++ rest))
Restores-block k n low high rest bl bh hl hh r = record {
  cs = el ++ (eh ++ r.cs);
  same_length = omega (
    arith,
    length-append el (eh ++ r.cs),
    length-append eh r.cs,
    length-append low (high ++ rest),
    length-append high rest,
    length-to_le 4 e.v0,
    length-to_le 4 e.v1,
    r.same_length,
  );
  encrypts = crypt_blocks-parts (encrypt_round k) 0 n low high rest r.cs hl hh (r.encrypts);
  decrypts = λ pre post pos hp.
      crypt_blocks-parts (decrypt_round k) sum_start n el eh r.cs rest (length-to_le 4 e.v0)
        (length-to_le 4 e.v1) (r.decrypts) pre post pos hp
      ∙ ap (λ t. some (pre ++ (t ++ post))) (λ i. back.0 i ++ (back.1 i ++ rest));
}
  where
    e : Block
    e = crypt (encrypt_round k) 0 (from_le low) (from_le high)

    el : List ℕ
    el = to_le 4 e.v0

    eh : List ℕ
    eh = to_le 4 e.v1

    back :
        let d = crypt (decrypt_round k) sum_start (from_le el) (from_le eh) in
        (to_le 4 d.v0 ≡ low) × (to_le 4 d.v1 ≡ high)
    back = words_back k low high bl bh hl hh

pub restores : (k : List ℕ) (n : ℕ) (ws : List ℕ) → IsBytes ws → length ws ≡ n * 8 → Restores k n ws
unfolding crypt_blocks
restores k zero ws b h = record {
  cs = ws;
  same_length = refl;
  encrypts = λ pre post pos hp. refl;
  decrypts = λ pre post pos hp. refl;
}
restores k (suc n) ws b h =
    let b' = All-drop (λ v. v < 256) 4 ws b in
    subst (Restores k (suc n)) (sym (eight_and_rest ws)) (
      Restores-block k n (take 4 ws) (take 4 (drop 4 ws)) (drop 4 (drop 4 ws))
        (All-take (λ v. v < 256) 4 ws b) (All-take (λ v. v < 256) 4 (drop 4 ws) b')
        (omega (arith, length-take 4 ws))
        (omega (arith, length-take 4 (drop 4 ws), length-drop 4 ws))
        (restores k n (drop 4 (drop 4 ws)) (All-drop (λ v. v < 256) 4 (drop 4 ws) b')
          (omega (arith, length-drop 4 (drop 4 ws), length-drop 4 ws))))

-- In any buffer, the loop of the encryption over `n` blocks of bytes from their start replaces them
-- by as many others, and the loop of the decryption from the same place puts the first ones back;
-- what stands before and behind the blocks is kept.
pub crypt_blocks-restores :
    (k : List ℕ) (n : ℕ) (pre ws post : List ℕ)
    → IsBytes ws
    → length ws ≡ n * 8
    → (cs : List ℕ) × (length cs ≡ length ws)
      × (crypt_blocks (encrypt_round k) 0 n (length pre) (pre ++ (ws ++ post))
          ≡ some (pre ++ (cs ++ post)))
      × (crypt_blocks (decrypt_round k) 0xC6EF3720 n (length pre) (pre ++ (cs ++ post))
          ≡ some (pre ++ (ws ++ post)))
crypt_blocks-restores k n pre ws post b h =
    let r = restores k n ws b h in
    (
      r.cs,
      r.same_length,
      r.encrypts pre post (length pre) refl,
      r.decrypts pre post (length pre) refl,
    )
