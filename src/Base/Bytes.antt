-- ===== src/Base/Bytes.antt =====
-- Memory as a list of bytes: `memcpy` from and to it, and the little-endian layout of a number.
-- `none` is an access out of range, which C++ leaves undefined.
use mathlib.Core.List.{append_assoc}
use odirion_mmoserver.Base.{
  ℕ, zero, suc, ◌+◌, ◌*◌, ◌/◌, ◌%◌, ◌^◌, ◌≤◌, ◌<◌, ◌≡◌, refl, sym, ap, Option, none, some, List, [],
  ◌∷◌, ◌++◌, arith, leb, if◌then◌else◌, length, take, drop, length-append, length-take, length-drop,
  take-append_eq, drop-append_eq, take-append-drop, All,
}

abbrev pub IsBytes : List ℕ → Type 0
IsBytes = All (λ b. b < 256)

unfoldable pub to_le : ℕ → ℕ → List ℕ
to_le zero v = []
to_le (suc n) v = v % 256 ∷ to_le n (v / 256)

pub from_le : List ℕ → ℕ
from_le [] = 0
from_le (b ∷ bs) = b + 256 * from_le bs

pub read_at : List ℕ → ℕ → ℕ → Option (List ℕ)
read_at buf pos n = if leb (pos + n) (length buf) then some (take n (drop pos buf)) else none

pub write_at : List ℕ → ℕ → List ℕ → Option (List ℕ)
write_at buf pos bs =
    if leb (pos + length bs) (length buf)
    then some (take pos buf ++ (bs ++ drop (pos + length bs) buf))
    else none

pub length-to_le : (n v : ℕ) → length (to_le n v) ≡ n
unfolding to_le
length-to_le zero v = refl
length-to_le (suc n) v = ap suc (length-to_le n (v / 256))

pub to_le-IsBytes : (n v : ℕ) → IsBytes (to_le n v)
unfolding to_le
to_le-IsBytes zero v = tt
to_le-IsBytes (suc n) v = (omega arith, to_le-IsBytes n (v / 256))

pub to_le-from_le : (bs : List ℕ) → IsBytes bs → to_le (length bs) (from_le bs) ≡ bs
unfolding to_le from_le
to_le-from_le [] h = refl
to_le-from_le (b ∷ bs) h =
    let low : (b + 256 * from_le bs) % 256 ≡ b = omega arith in
    let high : (b + 256 * from_le bs) / 256 ≡ from_le bs = omega arith in
    rw (low, high, to_le-from_le bs h.1)

pub from_le-to_le : (n v : ℕ) → v < 256 ^ n → from_le (to_le n v) ≡ v
unfolding from_le to_le
from_le-to_le zero v h = omega (arith, h)
from_le-to_le (suc n) v h =
    let rest = from_le-to_le n (v / 256) (omega (arith, h)) in omega (arith, rest)

pub from_le_one : (v : ℕ) → v < 2 ^ 8 → from_le (to_le 1 v) ≡ v
unfolding from_le to_le
from_le_one v h = omega arith

pub from_le_two : (v : ℕ) → v < 2 ^ 16 → from_le (to_le 2 v) ≡ v
unfolding from_le to_le
from_le_two v h = omega arith

pub from_le_four : (v : ℕ) → v < 2 ^ 32 → from_le (to_le 4 v) ≡ v
unfolding from_le to_le
from_le_four v h = omega arith

-- Reading a part of a memory that is given in three parts.
pub read_at_parts :
    (pre mid post : List ℕ) (pos n : ℕ)
    → length pre ≡ pos
    → length mid ≡ n
    → read_at (pre ++ (mid ++ post)) pos n ≡ some mid
unfolding read_at
read_at_parts pre mid post pos n hp hn =
    rw (drop-append_eq pos pre (mid ++ post) hp, take-append_eq n mid post hn)
      (ground (arith, length-append pre (mid ++ post), length-append mid post))

-- Writing over a part of the same length.
pub write_at_parts :
    (pre mid post bs : List ℕ) (pos : ℕ)
    → length pre ≡ pos
    → length mid ≡ length bs
    → write_at (pre ++ (mid ++ post)) pos bs ≡ some (pre ++ (bs ++ post))
unfolding write_at
write_at_parts pre mid post bs pos hp hn =
    rw
      (
        take-append_eq pos pre (mid ++ post) hp,
        sym (append_assoc pre mid post),
        drop-append_eq (pos + length bs) (pre ++ mid) post (omega (arith, length-append pre mid)),
      )
      (ground (arith, length-append (pre ++ mid) post, length-append pre mid))

-- Any memory has these three parts at a range inside it.
pub three_parts :
    (buf : List ℕ) (pos n : ℕ)
    → buf ≡ take pos buf ++ (take n (drop pos buf) ++ drop n (drop pos buf))
three_parts buf pos n = rw (take-append-drop n (drop pos buf)) (sym (take-append-drop pos buf))

pub length-take_le {ℓ} : {A : Type ℓ} (n : ℕ) (xs : List A) → n ≤ length xs → length (take n xs) ≡ n
length-take_le n xs h = omega (arith, length-take n xs)

pub length_mid :
    (buf : List ℕ) (pos n : ℕ) → pos + n ≤ length buf → length (take n (drop pos buf)) ≡ n
length_mid buf pos n h = omega (arith, length-take n (drop pos buf), length-drop pos buf)

-- A write inside the memory returns; the bytes written are read back, and the length stays.
pub record IsWritten (buf : List ℕ) (pos : ℕ) (bs : List ℕ) (out : List ℕ) : Type 0 where
  pub writes : write_at buf pos bs ≡ some out
  pub same_length : length out ≡ length buf
  pub reads : read_at out pos (length bs) ≡ some bs
  pub before : take pos out ≡ take pos buf

pub write_at-IsWritten :
    (buf : List ℕ) (pos : ℕ) (bs : List ℕ)
    → pos + length bs ≤ length buf
    → IsWritten buf pos bs (take pos buf ++ (bs ++ drop (pos + length bs) buf))
write_at-IsWritten buf pos bs h =
    let hp : length (take pos buf) ≡ pos = length-take_le pos buf (omega arith) in
    record {
      writes = unfold write_at in ground arith;
      same_length = omega (
        arith,
        length-append (take pos buf) (bs ++ drop (pos + length bs) buf),
        length-append bs (drop (pos + length bs) buf),
        length-drop (pos + length bs) buf,
        hp,
      );
      reads = read_at_parts (take pos buf) bs (drop (pos + length bs) buf) pos (length bs) hp refl;
      before = take-append_eq pos (take pos buf) (bs ++ drop (pos + length bs) buf) hp;
    }

pub read_at_inside :
    (buf : List ℕ) (pos n : ℕ)
    → pos + n ≤ length buf
    → read_at buf pos n ≡ some (take n (drop pos buf))
unfolding read_at
read_at_inside buf pos n h = ground arith

pub from_le-lt_four : (bs : List ℕ) → IsBytes bs → length bs ≡ 4 → from_le bs < 2 ^ 32
unfolding from_le
from_le-lt_four [] h e = omega arith
from_le-lt_four (a ∷ []) h e = absurd (omega arith)
from_le-lt_four (a ∷ b ∷ []) h e = absurd (omega arith)
from_le-lt_four (a ∷ b ∷ c ∷ []) h e = absurd (omega arith)
from_le-lt_four (a ∷ b ∷ c ∷ d ∷ []) h e = omega arith
from_le-lt_four (a ∷ b ∷ c ∷ d ∷ f ∷ bs) h e = absurd (omega arith)
