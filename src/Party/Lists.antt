-- ===== src/Party/Lists.antt =====
-- Membership in the lists of a party, before and after the changes.
use odirion_mmoserver.Base.{
  ℕ, ◌≡◌, refl, false, not, ◌&&◌, ◌||◌, Option, none, List, [], ◌∷◌, ◌++◌, arith, ◌==◌,
  if◌then◌else◌,
}
use odirion_mmoserver.Party.Store.{update, contains, erase, remove}
use odirion_mmoserver.Party.Operations.{clear_parties, remove_invitations}

abbrev pub IsDistinct : List ℕ → Type 0
IsDistinct [] = Unit {0}
IsDistinct (x ∷ xs) = (contains x xs ≡ false) × IsDistinct xs

pub contains-append :
    (q : ℕ) (xs ys : List ℕ) → contains q (xs ++ ys) ≡ (contains q xs || contains q ys)
unfolding contains
contains-append q [] ys = refl
contains-append q (x ∷ xs) ys = ground (arith, contains-append q xs ys)

pub contains-remove :
    (q a : ℕ) (xs : List ℕ) → contains q (remove a xs) ≡ (contains q xs && not (q == a))
unfolding contains remove
contains-remove q a [] = refl
contains-remove q a (x ∷ xs) = ground (arith, contains-remove q a xs)

pub contains-erase :
    (q a : ℕ) (xs : List ℕ)
    → IsDistinct xs
    → contains q (erase a xs) ≡ (contains q xs && not (q == a))
unfolding contains erase
contains-erase q a [] d = refl
contains-erase q a (x ∷ xs) d = ground (arith, contains-erase q a xs (d.1), d.0)

pub erase-absent : (q a : ℕ) (xs : List ℕ) → contains q xs ≡ false → contains q (erase a xs) ≡ false
unfolding contains erase
erase-absent q a [] h = refl
erase-absent q a (x ∷ xs) h = ground (arith, erase-absent q a xs)

pub IsDistinct-erase : (a : ℕ) (xs : List ℕ) → IsDistinct xs → IsDistinct (erase a xs)
unfolding erase contains
IsDistinct-erase a [] d = tt
IsDistinct-erase a (x ∷ xs) d =
    ground (arith, IsDistinct-erase a xs (d.1), erase-absent x a xs (d.0), d.1)

pub IsDistinct-snoc :
    (a : ℕ) (xs : List ℕ) → contains a xs ≡ false → IsDistinct xs → IsDistinct (xs ++ a ∷ [])
unfolding contains
IsDistinct-snoc a [] h d = (refl, tt)
IsDistinct-snoc a (x ∷ xs) h d =
    (ground (arith, contains-append x xs (a ∷ []), d.0), IsDistinct-snoc a xs (ground arith) (d.1))

pub clear_parties_lem :
    (ms : List ℕ) (f : ℕ → Option ℕ) (j : ℕ)
    → clear_parties ms f j ≡ (if contains j ms then none else f j)
unfolding clear_parties contains
clear_parties_lem [] f j = refl
clear_parties_lem (m ∷ ms) f j = ground (arith, clear_parties_lem ms (update f m none) j)

pub remove_invitations_lem :
    (p p' : ℕ) (is : List ℕ) (f : ℕ → List ℕ) (j : ℕ)
    → contains p' (remove_invitations p is f j)
      ≡ (contains p' (f j) && not (p' == p && contains j is))
unfolding remove_invitations contains
remove_invitations_lem p p' [] f j = ground arith
remove_invitations_lem p p' (i ∷ is) f j = ground (
  arith,
  remove_invitations_lem p p' is (update f i (remove p (f i))) j,
  contains-remove p' p (f i),
)
