-- ===== src/Character/Levels.antt =====
-- The level of a player against the experience.
use odirion_mmoserver.Base.{ℕ, ◌+◌, ◌≤◌, ◌<◌, ◌≡◌, refl, inl, inr, ◌==◌, Bool-cases}
use odirion_mmoserver.Character.{Character, exp_for_level, settle}
use odirion_mmoserver.Character.Table.{top_level}

-- The experience lies between those of the level and of the next one.
pub record IsLevelled (c : Character) : Type 0 where
  pub lowest : 1 ≤ c.level
  pub highest : c.level ≤ top_level
  pub reached : exp_for_level c.level ≤ c.experience
  pub next : c.experience < exp_for_level (c.level + 1)

pub settle-kept :
    (old curr next : ℕ) (c : Character)
    → let c' = settle old curr next c in
      (c'.level ≡ c.level) × (c'.experience ≡ c.experience) × (c'.health_max ≡ c.health_max)
unfolding settle
settle-kept old curr next c = elim (Bool-cases (c.level == old)) [
  | inl y ↦ rw y (refl, refl, refl)
  | inr n ↦ rw n (refl, refl, refl)
]

pub settle-IsLevelled :
    (old curr next : ℕ) (c : Character) → IsLevelled c → IsLevelled (settle old curr next c)
settle-IsLevelled old curr next c h =
    let k = settle-kept old curr next c in
    record {
      lowest = rw (k.0) (h.lowest);
      highest = rw (k.0) (h.highest);
      reached = rw (k.0, k.1) (h.reached);
      next = rw (k.0, k.1) (h.next);
    }
