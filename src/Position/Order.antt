-- ===== src/Position/Order.antt =====
-- The comparison operators of `Position`.
use odirion_mmoserver.Base.{◌≡◌, ◌≢◌, not, ◌↔◌, ◌⊎◌, true, false, arith}
use odirion_mmoserver.Position.{Position, less, greater, equals}

-- `operator<` is transitive, and does not hold the other way round as well.
pub less_trans :
    (p q r : Position) → less p q ≡ true → less q r ≡ true → (less p r ≡ true) × (less r p ≡ false)
unfolding less
less_trans p q r h k = ground arith

-- Of two different positions exactly one is less than the other.
pub less_total : (p q : Position) → p ≢ q → less p q ≡ not (less q p)
unfolding less
less_total p q ne = ground arith

-- `operator>` holds exactly when the right side is less than the left or the two are equal.
pub greater_iff : (p q : Position) → (greater p q ≡ true) ↔ ((less q p ≡ true) ⊎ (p ≡ q))
unfolding greater less
greater_iff p q = ground arith

pub equals_iff : (p q : Position) → (equals p q ≡ true) ↔ (p ≡ q)
unfolding equals
equals_iff p q = ground arith
