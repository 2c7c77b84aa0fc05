-- ===== src/Vitals.antt =====
-- Health, mana and soul: `changeHealth` and `changeMana` of creature.cpp, `changeSoul` of player.cpp.
-- The values are not negative, as the functions keep them; the maximum is an argument, and may be
-- below the value.
pub mod Bounds
mod Examples
use odirion_mmoserver.Base.{ℕ, suc, ◌+◌, ◌-◌, List, [], ◌∷◌, ltb, leb, ◌==◌, if◌then◌else◌}
use odirion_mmoserver.Base.Int.{ℤ, pos, negsuc}

-- `value + std::min(n, max - value)`, where the difference may be negative.
unfoldable pub gain : ℕ → ℕ → ℕ → ℕ
gain max n value = if ltb max value then max else if leb n (max - value) then value + n else max

pub record Vitals : Type 0 where
  pub health : ℕ
  pub mana : ℕ
  pub soul : ℕ

unfoldable pub change_health : ℕ → ℤ → Vitals → Vitals
change_health max (pos n) v = if ltb 0 n then record v { health = gain max n v.health } else v
change_health max (negsuc n) v = record v { health = v.health - suc n }

unfoldable pub change_mana : ℕ → ℤ → Vitals → Vitals
change_mana max (pos n) v = if ltb 0 n then record v { mana = gain max n v.mana } else v
change_mana max (negsuc n) v = record v { mana = v.mana - suc n }

unfoldable pub change_soul : ℕ → ℤ → Vitals → Vitals
change_soul max (pos n) v = if ltb 0 n then record v { soul = gain max n v.soul } else v
change_soul max (negsuc n) v = record v { soul = v.soul - suc n }

pub data Change : Type 0 where
  health_by mana_by soul_by : ℤ → Change

-- A sequence of changes under the three maxima.
unfoldable pub change_all : Vitals → List Change → Vitals → Vitals
change_all most [] v = v
change_all most (health_by n ∷ cs) v = change_all most cs (change_health most.health n v)
change_all most (mana_by n ∷ cs) v = change_all most cs (change_mana most.mana n v)
change_all most (soul_by n ∷ cs) v = change_all most cs (change_soul most.soul n v)
