-- ===== src/Base/Maps.antt =====
-- A map as a function, and its update at one key.
use Prim.Native.Nat.{ℕ}
use odirion_mmoserver.Base.Tests.{◌==◌, if◌then◌else◌}

abbrev pub update {ℓ} : {A : Type ℓ} → (ℕ → A) → ℕ → A → ℕ → A
update f k v j = if k == j then v else f j
