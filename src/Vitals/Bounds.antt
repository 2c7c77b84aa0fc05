-- ===== src/Vitals/Bounds.antt =====
-- The maxima bound health, mana and soul.
use odirion_mmoserver.Base.{◌≤◌, List, [], ◌∷◌, arith}
use odirion_mmoserver.Base.Int.{ℤ, pos, negsuc}
use odirion_mmoserver.Vitals.{
  Vitals, gain, change_health, change_mana, change_soul, Change, health_by, mana_by, soul_by,
  change_all,
}

abbrev pub IsWithin : Vitals → Vitals → Type 0
IsWithin most v = (v.health ≤ most.health) × (v.mana ≤ most.mana) × (v.soul ≤ most.soul)

change_health-IsWithin :
    (most v : Vitals) (n : ℤ) → IsWithin most v → IsWithin most (change_health most.health n v)
unfolding change_health gain
change_health-IsWithin most v (pos n) h = ground arith
change_health-IsWithin most v (negsuc n) h = omega arith

change_mana-IsWithin :
    (most v : Vitals) (n : ℤ) → IsWithin most v → IsWithin most (change_mana most.mana n v)
unfolding change_mana gain
change_mana-IsWithin most v (pos n) h = ground arith
change_mana-IsWithin most v (negsuc n) h = omega arith

change_soul-IsWithin :
    (most v : Vitals) (n : ℤ) → IsWithin most v → IsWithin most (change_soul most.soul n v)
unfolding change_soul gain
change_soul-IsWithin most v (pos n) h = ground arith
change_soul-IsWithin most v (negsuc n) h = omega arith

-- Any sequence of gains and losses of health, mana and soul keeps each within its maximum.
pub change_all-IsWithin :
    (most : Vitals) (cs : List Change) (v : Vitals)
    → IsWithin most v
    → IsWithin most (change_all most cs v)
unfolding change_all
change_all-IsWithin most [] v h = h
change_all-IsWithin most (health_by n ∷ cs) v h =
    change_all-IsWithin most cs _ (change_health-IsWithin most v n h)
change_all-IsWithin most (mana_by n ∷ cs) v h =
    change_all-IsWithin most cs _ (change_mana-IsWithin most v n h)
change_all-IsWithin most (soul_by n ∷ cs) v h =
    change_all-IsWithin most cs _ (change_soul-IsWithin most v n h)
