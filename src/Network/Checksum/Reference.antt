-- ===== src/Network/Checksum/Reference.antt =====
-- The chunked loop computes Adler-32, which reduces both sums after each byte.
use odirion_mmoserver.Base.{
  ℕ, zero, suc, ◌+◌, ◌*◌, ◌%◌, ◌^◌, ◌≤◌, ◌<◌, ◌≡◌, refl, ap, ◌∙◌, List, [], ◌∷◌, arith, u32, ◌<<<◌,
  false, ltb, length, take, drop, All-take, All-drop, length-take, length-drop, take-append-drop,
  sym, ◌++◌, inl, inr, Bool-cases,
}
use odirion_mmoserver.Base.Bytes.{IsBytes}
use odirion_mmoserver.Base.Bits.{shifted-bit_or}
use odirion_mmoserver.Network.Message.{max_size}
use odirion_mmoserver.Network.Checksum.{Sums, adler, chunk, chunks, adler_checksum}

-- One byte, with both sums reduced at once.
pub adler_step : Sums → ℕ → Sums
adler_step s byte = let a = (s.a + byte) % adler in record { a = a; b = (s.b + a) % adler }

pub adler_sums : Sums → List ℕ → Sums
adler_sums s [] = s
adler_sums s (byte ∷ bytes) = adler_sums (adler_step s byte) bytes

-- What the second sum can reach in `n` more bytes.
reach : ℕ → Sums → ℕ
reach zero s = s.b
reach (suc n) s = reach n (record { a = s.a + 255; b = s.b + s.a + 255 })

abbrev reduced : Sums → Sums
reduced s = record { a = s.a % adler; b = s.b % adler }

reach_mono : (n : ℕ) (s t : Sums) → s.a ≤ t.a → s.b ≤ t.b → reach n s ≤ reach n t
unfolding reach
reach_mono zero s t p q = q
reach_mono (suc n) s t p q = reach_mono n _ _ (omega arith) (omega arith)

reach-ge : (n : ℕ) (s : Sums) → s.b ≤ reach n s
unfolding reach
reach-ge zero s = omega arith
reach-ge (suc n) s = omega (arith, reach-ge n (record { a = s.a + 255; b = s.b + s.a + 255 }))

reduced-step :
    (s : Sums) (byte : ℕ)
    → reduced (record { a = s.a + byte; b = s.b + (s.a + byte) }) ≡ adler_step (reduced s) byte
unfolding adler_step
reduced-step s byte = ground arith

reduced_id : (s : Sums) → (s.a < adler) × (s.b < adler) → reduced s ≡ s
reduced_id s r = ground arith

-- Without a wrap, the chunk's sums are the reference's, up to the reduction.
adler_sums-chunk :
    (bytes : List ℕ) (s : Sums)
    → IsBytes bytes
    → s.a + 255 * length bytes < 2 ^ 32
    → reach (length bytes) s < 2 ^ 32
    → reduced (chunk s bytes) ≡ adler_sums (reduced s) bytes
unfolding chunk adler_sums adler_step reach
adler_sums-chunk [] s h ha hb = refl
adler_sums-chunk (byte ∷ bytes) s h ha hb =
    let next : Sums = record { a = s.a + byte; b = s.b + (s.a + byte) } in
    let most : Sums = record { a = s.a + 255; b = s.b + s.a + 255 } in
    let within = reach_mono (length bytes) next most (omega arith) (omega arith) in
    let room : reach (length bytes) most < 2 ^ 32 = hb in
    let small_a : u32 (s.a + byte) ≡ s.a + byte = omega arith in
    let small_b : u32 (s.b + u32 (s.a + byte)) ≡ s.b + (s.a + byte) =
      omega (arith, reach-ge (length bytes) most, room) in
    ap (λ t. reduced (chunk t bytes)) (λ i. record { a = small_a i; b = small_b i })
    ∙ adler_sums-chunk bytes next (h.1) (omega arith) (omega (arith, within, room))
    ∙ ap (λ t. adler_sums t bytes) (reduced-step s byte)

-- A chunk of at most 5552 bytes cannot wrap: this is why the source takes that length.
reach-suc : (n : ℕ) (s : Sums) → reach n s ≤ reach (suc n) s
unfolding reach
reach-suc n s = reach_mono n _ _ (omega arith) (omega arith)

abbrev largest : Sums
largest = record { a = 65520; b = 65520 }

reach-largest : reach 5552 largest ≡ 4294690200
unfolding reach
reach-largest = refl

reach_mono_left : (n m : ℕ) (s : Sums) → n ≤ m → reach n s ≤ reach m s
unfolding reach
reach_mono_left zero m s h = reach-ge m s
reach_mono_left (suc n) zero s h = absurd (omega arith)
reach_mono_left (suc n) (suc m) s h = reach_mono_left n m _ (omega arith)

-- Between two turns of the outer loop both sums are reduced.
abbrev IsReduced : Sums → Type 0
IsReduced s = (s.a < adler) × (s.b < adler)

chunk-eq :
    (bytes : List ℕ) (s : Sums)
    → IsBytes bytes
    → IsReduced s
    → length bytes ≤ 5552
    → reduced (chunk s bytes) ≡ adler_sums s bytes
chunk-eq bytes s h r short =
    adler_sums-chunk bytes s h (omega arith) (
      omega (
        arith,
        reach-largest,
        reach_mono (length bytes) s largest (omega arith) (omega arith),
        reach_mono_left (length bytes) 5552 largest short,
      ))
    ∙ ap (λ t. adler_sums t bytes) (reduced_id s r)

adler_sums-append :
    (xs ys : List ℕ) (s : Sums) → adler_sums s (xs ++ ys) ≡ adler_sums (adler_sums s xs) ys
unfolding adler_sums
adler_sums-append [] ys s = refl
adler_sums-append (x ∷ xs) ys s = adler_sums-append xs ys (adler_step s x)

chunks-eq :
    (fuel : ℕ) (bytes : List ℕ) (s : Sums)
    → IsBytes bytes
    → IsReduced s
    → length bytes ≤ fuel
    → chunks fuel s bytes ≡ adler_sums s bytes
unfolding chunks adler_sums
chunks-eq zero [] s h r enough = refl
chunks-eq zero (x ∷ xs) s h r enough = absurd (omega arith)
chunks-eq (suc fuel) [] s h r enough = refl
chunks-eq (suc fuel) (x ∷ xs) s h r enough =
    chunks-eq fuel (drop 5552 (x ∷ xs)) (reduced (chunk s (take 5552 (x ∷ xs))))
      (All-drop (λ v. v < 256) 5552 (x ∷ xs) h) (omega arith)
      (omega (arith, length-drop 5552 (x ∷ xs)))
    ∙ ap (λ t. adler_sums t (drop 5552 (x ∷ xs)))
        (chunk-eq (take 5552 (x ∷ xs)) s (All-take (λ v. v < 256) 5552 (x ∷ xs) h) r
          (omega (arith, length-take 5552 (x ∷ xs))))
    ∙ sym (adler_sums-append (take 5552 (x ∷ xs)) (drop 5552 (x ∷ xs)) s)
    ∙ ap (adler_sums s) (take-append-drop 5552 (x ∷ xs))

adler_sums-IsReduced : (bytes : List ℕ) (s : Sums) → IsReduced s → IsReduced (adler_sums s bytes)
unfolding adler_sums adler_step
adler_sums-IsReduced [] s r = r
adler_sums-IsReduced (x ∷ xs) s r = adler_sums-IsReduced xs (adler_step s x) (omega arith)

-- For every message that fits a buffer the checksum is that of Adler-32, which reduces both sums
-- after each byte: no sum wraps within a chunk, and the high half is the second sum.
pub adler_checksum_lem :
    (bytes : List ℕ)
    → IsBytes bytes
    → length bytes ≤ max_size
    → let s = adler_sums (record { a = 1; b = 0 }) bytes in
      adler_checksum bytes ≡ s.a + s.b * 2 ^ 16
unfolding adler_checksum
adler_checksum_lem bytes h short =
    let start : Sums = record { a = 1; b = 0 } in
    let s = adler_sums start bytes in
    let same = chunks-eq (length bytes) bytes start h (omega arith) (omega arith) in
    let small = adler_sums-IsReduced bytes start (omega arith) in
    let high : u32 (s.b <<< 16) ≡ s.b * 2 ^ 16 = omega (arith, small) in
    let long : ltb max_size (length bytes) ≡ false = ground arith in
    rw (long, same, high, shifted-bit_or 16 s.b s.a (omega (arith, small))) (omega arith)

chunks-lt : (fuel : ℕ) (s : Sums) (bytes : List ℕ) → s.a < adler → (chunks fuel s bytes).a < adler
unfolding chunks
chunks-lt zero s bytes h = h
chunks-lt (suc fuel) s [] h = h
chunks-lt (suc fuel) s (x ∷ xs) h =
    let after = chunk s (take 5552 (x ∷ xs)) in
    chunks-lt fuel (record { a = after.a % adler; b = after.b % adler }) (drop 5552 (x ∷ xs))
      (omega arith)

-- The checksum has 32 bits.
pub adler_checksum-lt : (bytes : List ℕ) → adler_checksum bytes < 2 ^ 32
unfolding adler_checksum
adler_checksum-lt bytes = elim (Bool-cases (ltb max_size (length bytes))) [
  | inl y ↦ rw y (omega arith)
  | inr n ↦
      let start : Sums = record { a = 1; b = 0 } in
      let s = chunks (length bytes) start bytes in
      let small = chunks-lt (length bytes) start bytes (omega arith) in
      let high : u32 (s.b <<< 16) ≡ s.b % 65536 * 2 ^ 16 = omega arith in
      rw (n, high, shifted-bit_or 16 (s.b % 65536) s.a (omega (arith, small)))
        (omega (arith, small))
]
