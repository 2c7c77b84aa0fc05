-- ===== src/Vitals/Examples.antt =====
-- Tests of health, mana and soul.
use odirion_mmoserver.Base.{◌≡◌, refl, List, [], ◌∷◌, arith}
use odirion_mmoserver.Base.Int.{pos, negsuc}
use odirion_mmoserver.Vitals.{
  Vitals, gain, change_health, change_mana, change_soul, Change, health_by, mana_by, soul_by,
  change_all,
}
use odirion_mmoserver.Vitals.Bounds.{IsWithin, change_all-IsWithin}

abbrev most : Vitals
most = record { health = 185; mana = 35; soul = 100 }

abbrev wounded : Vitals
wounded = record { health = 20; mana = 30; soul = 99 }

abbrev fight : List Change
fight = health_by (negsuc 49) ∷ health_by (pos 300) ∷ mana_by (pos 4) ∷ soul_by (pos 2) ∷ []

fought : change_all most fight wounded ≡ record { health = 185; mana = 34; soul = 100 }
unfolding change_all change_health change_mana change_soul gain
fought = refl

change_all-IsWithin_example : IsWithin most (change_all most fight wounded)
change_all-IsWithin_example = change_all-IsWithin most fight wounded (omega arith)
