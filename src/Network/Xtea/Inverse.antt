-- ===== src/Network/Xtea/Inverse.antt =====
-- Decryption undoes encryption on one block.
use odirion_mmoserver.Base.{
  ℕ, zero, suc, ◌+◌, ◌^◌, ◌<◌, ◌≡◌, refl, sym, ap, ◌∙◌, List, arith, u32, sub32, bit_and, ◌>>>◌,
}
use odirion_mmoserver.Network.Xtea.{
  Block, delta, mix, key_word, encrypt_round, decrypt_round, iterate, crypt,
}

abbrev pub IsBlock : Block → Type 0
IsBlock b = (b.v0 < 2 ^ 32) × (b.v1 < 2 ^ 32) × (b.sum < 2 ^ 32)

mix-lt : (v sum ki : ℕ) → mix v sum ki < 2 ^ 32
unfolding mix
mix-lt v sum ki = omega arith

sub32-add : (a b : ℕ) → a < 2 ^ 32 → b < 2 ^ 32 → sub32 (u32 (a + b)) b ≡ a
sub32-add a b ha hb = omega arith

add-sub32 : (a : ℕ) → a < 2 ^ 32 → u32 (sub32 a delta + delta) ≡ a
add-sub32 a h = omega arith

module _ (k : List ℕ) where
  decrypt_round-encrypt_round : (b : Block) → IsBlock b → decrypt_round k (encrypt_round k b) ≡ b
  unfolding decrypt_round encrypt_round
  decrypt_round-encrypt_round b h =
      let f0 = mix b.v1 b.sum (key_word k (bit_and b.sum 3)) in
      let w0 = u32 (b.v0 + f0) in
      let sum' = sub32 b.sum delta in
      let f1 = mix w0 sum' (key_word k (bit_and (sum' >>> 11) 3)) in
      let back1 : sub32 (u32 (b.v1 + f1)) f1 ≡ b.v1 =
        sub32-add b.v1 f1 (h.1) (mix-lt w0 sum' (key_word k (bit_and (sum' >>> 11) 3))) in
      let back_sum : u32 (sum' + delta) ≡ b.sum = add-sub32 b.sum (h.2) in
      let back0 : sub32 w0 f0 ≡ b.v0 =
        sub32-add b.v0 f0 (h.0) (mix-lt b.v1 b.sum (key_word k (bit_and b.sum 3))) in
      rw (back1, back_sum, back0)

  encrypt_round-IsBlock : (b : Block) → IsBlock b → IsBlock (encrypt_round k b)
  unfolding encrypt_round
  encrypt_round-IsBlock b h = omega arith

-- Rounds of one function after as many rounds of its inverse.
module _ {A : Type 0} (P : A → Type 0) (f g : A → A) (keep : (a : A) → P a → P (f a))
    (undo : (a : A) → P a → g (f a) ≡ a) where
  iterate_keep : (n : ℕ) (a : A) → P a → P (iterate n f a)
  iterate_keep zero a h = h
  iterate_keep (suc n) a h = iterate_keep n (f a) (keep a h)

  iterate_undo : (n : ℕ) (a : A) → P a → iterate n g (iterate n f a) ≡ a
  iterate_undo zero a h = refl
  iterate_undo (suc n) a h =
      iterate_last n (iterate n f (f a)) ∙ ap g (iterate_undo n (f a) (keep a h)) ∙ undo a h
    where
      iterate_last : (n : ℕ) (a : A) → iterate n g (g a) ≡ g (iterate n g a)
      iterate_last zero a = refl
      iterate_last (suc n) a = iterate_last n (g a)

-- The sum does not depend on the words: from 0 it reaches the constant that decryption starts at.
abbrev sums : ℕ → ℕ → ℕ
sums zero s = s
sums (suc n) s = sums n (sub32 s delta)

sum-iterate : (k : List ℕ) (n : ℕ) (b : Block) → (iterate n (encrypt_round k) b).sum ≡ sums n b.sum
sum-iterate k zero b = refl
sum-iterate k (suc n) b =
    sum-iterate k n (encrypt_round k b) ∙ ap (sums n) (unfold encrypt_round in refl)

pub crypt-IsBlock :
    (k : List ℕ) (v0 v1 : ℕ) → v0 < 2 ^ 32 → v1 < 2 ^ 32 → IsBlock (crypt (encrypt_round k) 0 v0 v1)
unfolding crypt
crypt-IsBlock k v0 v1 h0 h1 =
    iterate_keep IsBlock (encrypt_round k) (decrypt_round k) (encrypt_round-IsBlock k)
      (decrypt_round-encrypt_round k) 32 (record { v0 = v0; v1 = v1; sum = 0 }) (omega arith)

-- 32 rounds of decryption, from the sum 0xC6EF3720, take the words that 32 rounds of encryption
-- gave back to the ones that they started from.
pub decrypt-encrypt :
    (k : List ℕ) (v0 v1 : ℕ)
    → v0 < 2 ^ 32
    → v1 < 2 ^ 32
    → let e = crypt (encrypt_round k) 0 v0 v1 in
      crypt (decrypt_round k) 0xC6EF3720 e.v0 e.v1 ≡ record { v0 = v0; v1 = v1; sum = 0 }
unfolding crypt
decrypt-encrypt k v0 v1 h0 h1 =
    ap (λ s. iterate 32 (decrypt_round k) (record { v0 = e.v0; v1 = e.v1; sum = s }))
      (sym (sum-iterate k 32 b))
    ∙ iterate_undo IsBlock (encrypt_round k) (decrypt_round k) (encrypt_round-IsBlock k)
        (decrypt_round-encrypt_round k) 32 b (omega arith)
  where
    b : Block
    b = record { v0 = v0; v1 = v1; sum = 0 }

    e : Block
    e = iterate 32 (encrypt_round k) b
