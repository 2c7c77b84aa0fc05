-- ===== src/Party/Experience.antt =====
-- The shared experience of a party.
use odirion_mmoserver.Base.{
  ℕ, ◌+◌, ◌*◌, ◌/◌, Bool, true, false, not, ◌&&◌, ◌||◌, Option, none, some, List, [], ◌∷◌, ltb, leb,
  ◌==◌, if◌then◌else◌, sub64,
}
use odirion_mmoserver.Position.{are_in_range}
use odirion_mmoserver.Party.Store.{Party, Env, is_empty}

unfoldable pub find_ticks : ℕ → List (ℕ × ℕ) → Option ℕ
find_ticks q [] = none
find_ticks q ((j, t) ∷ m) = if j == q then some t else find_ticks q m

unfoldable pub set_ticks : ℕ → ℕ → List (ℕ × ℕ) → List (ℕ × ℕ)
set_ticks q t [] = (q, t) ∷ []
set_ticks q t ((j, u) ∷ m) = if j == q then (q, t) ∷ m else (j, u) ∷ set_ticks q t m

unfoldable pub erase_ticks : ℕ → List (ℕ × ℕ) → List (ℕ × ℕ)
erase_ticks q [] = []
erase_ticks q ((j, t) ∷ m) = if j == q then m else (j, t) ∷ erase_ticks q m

-- The highest level of the leader and the members.
unfoldable pub highest_level : (ℕ → ℕ) → ℕ → List ℕ → ℕ
highest_level level highest [] = highest
highest_level level highest (m ∷ ms) =
    highest_level level (if ltb highest (level m) then level m else highest) ms

-- `std::ceil((static_cast<float>(highestLevel) * 2) / 3)`, exact while the float is.
unfoldable pub min_level : ℕ → ℕ
min_level highest = (highest * 2 + 2) / 3

-- The player has healed or attacked recently; `none` is an entry that is missing.
unfoldable pub is_active : Env → Option ℕ → Bool
is_active env none = false
is_active env (some t) = leb (sub64 env.time t) env.pz_locked

unfoldable pub can_use_shared_experience : Env → Party → ℕ → Bool
can_use_shared_experience env p player =
    not (is_empty p.member_list)
    && leb (min_level (highest_level env.level (env.level p.leader) p.member_list))
        (env.level player)
    && are_in_range 30 30 1 (env.position p.leader) (env.position player)
    && (env.not_gain_in_fight player || is_active env (find_ticks player p.ticks_map))

unfoldable pub all_can_use : Env → Party → List ℕ → Bool
all_can_use env p [] = true
all_can_use env p (m ∷ ms) = can_use_shared_experience env p m && all_can_use env p ms

unfoldable pub can_enable_shared_experience : Env → Party → Bool
can_enable_shared_experience env p =
    can_use_shared_experience env p p.leader && all_can_use env p p.member_list

unfoldable pub update_shared_experience : Env → Party → Party
update_shared_experience env p =
    if p.shared_exp_active
    then record p { shared_exp_enabled = can_enable_shared_experience env p }
    else p

-- `setSharedExperience` for a player; the result is its return value.
unfoldable pub set_shared_experience : Env → ℕ → Bool → Party → Bool × Party
set_shared_experience env player active p =
    if not (p.leader == player)
    then (false, p)
    else if (p.shared_exp_active && active) || (not p.shared_exp_active && not active)
    then (true, p)
    else let q = record p { shared_exp_active = active } in
      (
        true,
        if active then record q { shared_exp_enabled = can_enable_shared_experience env q } else q,
      )

unfoldable pub update_player_ticks : Env → ℕ → ℕ → Party → Party
update_player_ticks env player points p =
    if not (points == 0) && not (env.not_gain_in_fight player)
    then update_shared_experience env
        (record p { ticks_map = set_ticks player env.time p.ticks_map })
    else p

unfoldable pub clear_player_points : Env → ℕ → Party → Party
clear_player_points env player p = elim (find_ticks player p.ticks_map) [
  | none ↦ p
  | some t ↦ update_shared_experience env (record p { ticks_map = erase_ticks player p.ticks_map })
]
