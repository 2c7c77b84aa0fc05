-- ===== src/Character/Gains.antt =====
-- `addExperience` keeps the level and the experience together.
use odirion_mmoserver.Base.{
  ℕ, zero, suc, ◌+◌, ◌*◌, ◌^◌, ◌≤◌, ◌<◌, ◌≡◌, ◌≢◌, refl, sym, ap, subst, ◌∙◌, inl, inr, true, false,
  some, arith, leb, ◌==◌, u32, u64, Bool-cases,
}
use odirion_mmoserver.Character.{
  Character, Vocation, exp_for_level, level_up, climb, settle, add_experience,
}
use odirion_mmoserver.Character.Table.{top_level, exp_for_level-increases, exp_for_level-small}
use odirion_mmoserver.Character.Levels.{IsLevelled, settle-kept, settle-IsLevelled}

climb-turn :
    (v : Vocation) (fuel curr next : ℕ) (c : Character)
    → next ≤ c.experience
    → next < exp_for_level ((level_up v c).level + 1)
    → climb v (suc fuel) curr next c
      ≡ climb v fuel next (exp_for_level ((level_up v c).level + 1)) (level_up v c)
unfolding climb
climb-turn v fuel curr next c reached rises =
    let y : leb next c.experience ≡ true = ground arith in
    let n : leb (exp_for_level ((level_up v c).level + 1)) next ≡ false = ground arith in
    rw (y, climb) (rw n refl)

gain_of_turn :
    (a z x y y' w gain : ℕ)
    → z ≡ a + 1
    → y' ≡ y + gain
    → x + z * gain ≡ y' + w * gain
    → x + a * gain ≡ y + w * gain
gain_of_turn a z x y y' w gain e e' h =
    let h' = subst (λ k. x + k * gain ≡ y' + w * gain) e h in omega (arith, e', h')

-- Below the top there is room in 32 bits for the gain of one more level, and then for those that follow.
room_of_turn :
    (a z y gain : ℕ)
    → z ≡ a + 1
    → a + 1 ≤ top_level
    → y + top_level * gain < 2 ^ 31 + a * gain
    → (u32 (y + gain) ≡ y + gain) × (y + gain + top_level * gain < 2 ^ 31 + z * gain)
room_of_turn a z y gain e h room =
    let more : (a + 1) * gain ≤ top_level * gain = grind arith in
    let after : y + gain + top_level * gain < 2 ^ 31 + (a + 1) * gain = omega (arith, room) in
    (
      omega (arith, room, more),
      subst (λ k. y + gain + top_level * gain < 2 ^ 31 + k * gain) (sym e) after,
    )

-- From a level that is reached the loop ends on the level that the experience is worth.
climb-IsLevelled :
    (v : Vocation) (fuel : ℕ) (c : Character)
    → 1 ≤ c.level
    → c.level ≤ top_level
    → exp_for_level c.level ≤ c.experience
    → c.experience < exp_for_level (top_level + 1)
    → 1 ≤ fuel
    → c.experience + 1 < fuel + exp_for_level (c.level + 1)
    → c.health_max + top_level * v.hp_gain < 2 ^ 31 + c.level * v.hp_gain
    → (c' : Character) × (climb v fuel (exp_for_level c.level) (exp_for_level (c.level + 1)) c
        ≡ some (c', exp_for_level c'.level, exp_for_level (c'.level + 1)))
      × IsLevelled c'
      × (c'.experience ≡ c.experience)
      × (c'.health_max + c.level * v.hp_gain ≡ c.health_max + c'.level * v.hp_gain)
unfolding climb level_up
climb-IsLevelled v zero c low high at top some_fuel enough room = absurd (omega arith)
climb-IsLevelled v (suc fuel) c low high at top some_fuel enough room =
    elim (Bool-cases (leb (exp_for_level (c.level + 1)) c.experience)) [
      | inr n ↦ (
        c,
        rw (n, climb) refl,
        record { lowest = low; highest = high; reached = at; next = ground arith },
        refl,
        refl,
      )
      | inl y ↦
          let below : exp_for_level (c.level + 1) ≤ c.experience = ground arith in
          let not_top : c.level ≢ top_level = λ e.
            let b : exp_for_level (top_level + 1) ≤ c.experience =
              subst (λ k. exp_for_level (k + 1) ≤ c.experience) e below in
            omega arith in
          let one : u32 (c.level + 1) ≡ c.level + 1 = omega arith in
          let hp =
            room_of_turn c.level (u32 (c.level + 1)) c.health_max v.hp_gain one
              (omega (arith, high, not_top)) room in
          let room' : u32 (c.health_max + v.hp_gain) + top_level * v.hp_gain
              < 2 ^ 31 + u32 (c.level + 1) * v.hp_gain =
            rw (hp.0) (hp.1) in
          let rises =
            exp_for_level-increases (c.level + 1) (omega arith) (omega (arith, not_top)) in
          let rises' : exp_for_level (c.level + 1) < exp_for_level (u32 (c.level + 1) + 1) =
            rw one rises in
          let r =
            climb-IsLevelled v fuel (level_up v c) (omega arith) (omega (arith, not_top))
              (rw one below) top (ground arith) (omega (arith, rises', enough)) room' in
          (
            r.0,
            climb-turn v fuel (exp_for_level c.level) (exp_for_level (c.level + 1)) c below rises'
                ∙ ap
                    (λ k.
                      climb v fuel (exp_for_level k) (exp_for_level (u32 (c.level + 1) + 1))
                        (level_up v c))
                    (sym one)
                ∙ r.1,
            r.2,
            r.3,
            gain_of_turn _ _ _ _ _ _ v.hp_gain one (hp.0) (r.4),
          )
    ]

-- A player whose level fits the experience, whose experience with what the event grants stays below the table's
-- end, and whose health has room in 31 bits for the gain of each level of the table, gains what the event grants and has a level that
-- fits afterwards; each new level has raised the maximum of health by the vocation's gain.
pub add_experience-IsLevelled :
    (v : Vocation) (on_gain : ℕ → ℕ) (exp : ℕ) (c : Character)
    → IsLevelled c
    → c.experience + on_gain exp < exp_for_level (top_level + 1)
    → c.health_max + top_level * v.hp_gain < 2 ^ 31
    → (c' : Character) × (add_experience v on_gain exp c ≡ some c')
      × IsLevelled c'
      × (c'.experience ≡ c.experience + on_gain exp)
      × (c'.health_max + c.level * v.hp_gain ≡ c.health_max + c'.level * v.hp_gain)
unfolding add_experience
add_experience-IsLevelled v on_gain exp c h top room =
    let rises = exp_for_level-increases c.level (h.lowest) (h.highest) in
    let more : leb (exp_for_level (c.level + 1)) (exp_for_level c.level) ≡ false = ground arith in
    elim (Bool-cases (on_gain exp == 0)) [
      | inl y ↦
          let nothing : on_gain exp ≡ 0 = ground arith in
          (c, rw (more, add_experience) (rw y refl), h, omega arith, refl)
      | inr n ↦
          let small : u64 (c.experience + on_gain exp) ≡ c.experience + on_gain exp =
            omega (arith, exp_for_level-small) in
          let c1 : Character = record c { experience = u64 (c.experience + on_gain exp) } in
          let r =
            climb-IsLevelled v (suc c1.experience) c1 (h.lowest) (h.highest)
              (omega (arith, h.reached, small)) (omega (arith, top, small)) (omega arith)
              (omega (arith, rises)) (omega (arith, room)) in
          let kept =
            settle-kept c.level (exp_for_level r.0.level) (exp_for_level (r.0.level + 1)) r.0 in
          (
            settle c.level (exp_for_level r.0.level) (exp_for_level (r.0.level + 1)) r.0,
            rw (more, add_experience) (rw n (rw (r.1) refl)),
            settle-IsLevelled c.level _ _ r.0 (r.2),
            kept.1 ∙ r.3 ∙ small,
            rw (kept.0, kept.2) (r.4),
          )
    ]
