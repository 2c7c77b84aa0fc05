-- ===== src/Character/Examples.antt =====
-- Tests of levels and experience.
use odirion_mmoserver.Base.{◌+◌, ◌*◌, ◌≡◌, refl, some, arith}
use odirion_mmoserver.Character.{
  Character, Vocation, exp_for_level, add_experience, remove_experience,
}
use odirion_mmoserver.Character.Levels.{IsLevelled}
use odirion_mmoserver.Character.Gains.{add_experience-IsLevelled}
use odirion_mmoserver.Character.Losses.{remove_experience-IsLevelled}

abbrev knight_vocation : Vocation
knight_vocation = record { hp_gain = 15; mana_gain = 5; cap_gain = 2500 }

abbrev hero : Character
hero = record {
  level = 8;
  experience = 4200;
  level_percent = 0;
  health_max = 185;
  health = 100;
  mana_max = 35;
  mana = 0;
  capacity = 47000;
}

levels : (exp_for_level 8 ≡ 4200) × (exp_for_level 9 ≡ 6400) × (exp_for_level 100 ≡ 15694800)
unfolding exp_for_level
levels = (refl, refl, refl)

hero-IsLevelled : IsLevelled hero
unfolding exp_for_level
hero-IsLevelled = record {
  lowest = omega arith;
  highest = omega arith;
  reached = omega arith;
  next = omega arith;
}

add_experience-IsLevelled_example :
    (c : Character) × (add_experience knight_vocation (λ e. e * 2) 2000 hero ≡ some c)
    × IsLevelled c
    × (c.experience ≡ 8200)
    × (c.health_max + 8 * 15 ≡ 185 + c.level * 15)
unfolding exp_for_level
add_experience-IsLevelled_example =
    add_experience-IsLevelled knight_vocation (λ e. e * 2) 2000 hero hero-IsLevelled (omega arith)
      (omega arith)

remove_experience-IsLevelled_example :
    IsLevelled (remove_experience knight_vocation (λ e. e) 3000 hero)
    × ((remove_experience knight_vocation (λ e. e) 3000 hero).experience ≡ 1200)
remove_experience-IsLevelled_example =
    remove_experience-IsLevelled knight_vocation (λ e. e) 3000 hero hero-IsLevelled (omega arith)
      (omega arith) (omega arith)
