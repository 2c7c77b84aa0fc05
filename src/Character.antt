-- ===== src/Character.antt =====
-- Level and experience of a player: player.h and player.cpp. The events' answers are arguments;
-- what the client, the party and the scripts are told is left out. Health, which is signed, is given by its
-- 32 bits.
pub mod Table
pub mod Levels
pub mod Gains
pub mod Losses
mod Examples
use odirion_mmoserver.Base.{
  ℕ, zero, suc, ◌+◌, ◌-◌, ◌*◌, ◌/◌, ◌^◌, Bool, true, false, not, ◌&&◌, ◌||◌, Option, none, some,
  ltb, leb, ◌==◌, if◌then◌else◌, u8, u32, u64, sub32, sub64,
}

-- `getExpForLevel`: the level is taken to `int32_t`, and `lv--` of it to `unsigned long long`. At -2 ^ 31 the
-- code's `lv--` is not defined.
unfoldable pub exp_for_level : ℕ → ℕ
exp_for_level level =
    let lv = u32 level in
    let l = sub64 (if ltb lv (2 ^ 31) then lv else lv + 2 ^ 64 - 2 ^ 32) 1 in
    u64 (sub64 (u64 (50 * l * l * l)) (u64 (150 * l * l)) + 400 * l) / 3

pub percent_level : ℕ → ℕ → ℕ
percent_level count next_level_count =
    if next_level_count == 0
    then 0
    else let result = u8 (u64 (count * 100) / next_level_count) in
      if ltb 100 result then 0 else result

-- What a vocation gives with a level.
pub record Vocation : Type 0 where
  pub hp_gain : ℕ
  pub mana_gain : ℕ
  pub cap_gain : ℕ

pub record Character : Type 0 where
  pub level : ℕ
  pub experience : ℕ
  pub level_percent : ℕ
  pub health_max : ℕ
  pub health : ℕ
  pub mana_max : ℕ
  pub mana : ℕ
  pub capacity : ℕ

-- A turn of the loop in `addExperience`.
pub level_up : Vocation → Character → Character
level_up v c = record c {
  level = u32 (c.level + 1);
  health_max = u32 (c.health_max + v.hp_gain);
  health = u32 (c.health + v.hp_gain);
  mana_max = u32 (c.mana_max + v.mana_gain);
  mana = u32 (c.mana + v.mana_gain);
  capacity = u32 (c.capacity + v.cap_gain);
}

-- The loop, with `currLevelExp` and `nextLevelExp`; the fuel bounds its turns.
pub climb : Vocation → ℕ → ℕ → ℕ → Character → Option (Character × ℕ × ℕ)
climb v zero curr_level_exp next_level_exp c = none
climb v (suc fuel) curr_level_exp next_level_exp c = elim (leb next_level_exp c.experience) [
  | false ↦ some (c, curr_level_exp, next_level_exp)
  | true ↦
      let c' = level_up v c in
      let after = exp_for_level (c'.level + 1) in
      elim (leb after next_level_exp) [
        | true ↦ some (c', next_level_exp, after)
        | false ↦ climb v fuel next_level_exp after c'
      ]
]

-- What follows either loop: a new level restores health and mana, and the percentage is set.
pub settle : ℕ → ℕ → ℕ → Character → Character
settle old_level curr_level_exp next_level_exp c =
    let restored =
      if c.level == old_level then c else record c { health = c.health_max; mana = c.mana_max } in
    record restored {
      level_percent =
          if ltb curr_level_exp next_level_exp
          then percent_level (sub64 c.experience curr_level_exp)
              (sub64 next_level_exp curr_level_exp)
          else 0;
    }

-- `addExperience`; each turn but the last raises `nextLevelExp`, which stays within the experience,
-- so that the experience bounds their number.
pub add_experience : Vocation → (ℕ → ℕ) → ℕ → Character → Option Character
add_experience v on_gain exp c =
    let curr_level_exp = exp_for_level c.level in
    let next_level_exp = exp_for_level (c.level + 1) in
    if leb next_level_exp curr_level_exp
    then some (record c { level_percent = 0 })
    else let granted = on_gain exp in
      if granted == 0
      then some c
      else let c1 = record c { experience = u64 (c.experience + granted) } in
        elim (climb v (suc c1.experience) curr_level_exp next_level_exp c1) [
          | none ↦ none
          | some (c2, curr, next) ↦ some (settle c.level curr next c2)
        ]

-- `std::max<int32_t>(0, a - b)` and `std::max<int64_t>(0, a - b)`, for unsigned `a` and `b`.
pub floor_sub32 : ℕ → ℕ → ℕ
floor_sub32 a b = let d = sub32 a b in if ltb d (2 ^ 31) then d else 0

pub floor_sub64 : ℕ → ℕ → ℕ
floor_sub64 a b = let d = sub64 a b in if ltb d (2 ^ 63) then d else 0

-- A turn of the loop in `removeExperience`.
pub level_down : Vocation → Character → Character
unfolding floor_sub32
level_down v c = record c {
  level = c.level - 1;
  health_max = floor_sub32 c.health_max v.hp_gain;
  mana_max = floor_sub32 c.mana_max v.mana_gain;
  capacity = floor_sub32 c.capacity v.cap_gain;
}

-- The loop; its first argument is the level, which each turn lowers.
pub fall : Vocation → ℕ → Character → Character
fall v zero c = c
fall v (suc n) c = elim (ltb 1 (suc n) && ltb c.experience (exp_for_level c.level)) [
  | false ↦ c
  | true ↦ fall v n (level_down v c)
]

pub remove_experience : Vocation → (ℕ → ℕ) → ℕ → Character → Character
unfolding floor_sub64
remove_experience v on_lose exp c =
    if c.experience == 0 || exp == 0
    then c
    else let lost = on_lose exp in
      if lost == 0
      then c
      else let c1 = fall v c.level (record c { experience = floor_sub64 c.experience lost }) in
        settle c.level (exp_for_level c1.level) (exp_for_level (c1.level + 1)) c1
