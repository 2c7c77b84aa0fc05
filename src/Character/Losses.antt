-- ===== src/Character/Losses.antt =====
-- `removeExperience` keeps the level and the experience together.
use odirion_mmoserver.Base.{
  ℕ, zero, suc, ◌+◌, ◌-◌, ◌^◌, ◌≤◌, ◌<◌, ◌≡◌, ◌≢◌, refl, subst, ◌∙◌, inl, inr, true, ◌||◌, arith,
  ltb, ◌==◌, if◌then◌else◌, sub64, Bool-cases,
}
use odirion_mmoserver.Character.{
  Character, Vocation, exp_for_level, level_down, fall, remove_experience, floor_sub64,
}
use odirion_mmoserver.Character.Table.{top_level, exp_for_level_one}
use odirion_mmoserver.Character.Levels.{IsLevelled, settle-kept, settle-IsLevelled}

-- The loop of a loss ends on the level that the experience is worth.
fall-IsLevelled :
    (v : Vocation) (n : ℕ) (c : Character)
    → c.level ≡ n
    → 1 ≤ n
    → n ≤ top_level
    → c.experience < exp_for_level (n + 1)
    → IsLevelled (fall v n c) × ((fall v n c).experience ≡ c.experience)
unfolding fall level_down
fall-IsLevelled v zero c e low high below = absurd (omega arith)
fall-IsLevelled v (suc zero) c e low high below = (
  record {
    lowest = omega (arith, e);
    highest = omega (arith, e);
    reached = rw e (omega (arith, exp_for_level_one));
    next = rw e below;
  },
  refl,
)
fall-IsLevelled v (suc (suc n)) c e low high below =
    let big : ltb 1 (suc (suc n)) ≡ true = ground arith in
    elim (Bool-cases (ltb c.experience (exp_for_level c.level))) [
      | inl y ↦
          let less : c.experience < exp_for_level c.level = ground arith in
          let less' : c.experience < exp_for_level (suc n + 1) =
            subst (λ k. c.experience < exp_for_level k) (e ∙ omega arith) less in
          rw (big, y, fall)
            (fall-IsLevelled v (suc n) (level_down v c) (omega (arith, e)) (omega arith)
              (omega arith) less')
      | inr m ↦
          rw (big, m, fall)
            (
              record {
                lowest = omega (arith, e);
                highest = omega (arith, e);
                reached = ground arith;
                next = rw e below;
              },
              refl,
            )
    ]

-- A player whose level fits the experience has a level that fits after a loss that was asked for,
-- if the experience and the loss that the event says are below 2 ^ 63; the experience is less by that
-- loss, or 0 if the loss is more.
pub remove_experience-IsLevelled :
    (v : Vocation) (on_lose : ℕ → ℕ) (exp : ℕ) (c : Character)
    → IsLevelled c
    → c.experience < 2 ^ 63
    → on_lose exp < 2 ^ 63
    → exp ≢ 0
    → IsLevelled (remove_experience v on_lose exp c)
      × ((remove_experience v on_lose exp c).experience ≡ c.experience - on_lose exp)
unfolding remove_experience floor_sub64
remove_experience-IsLevelled v on_lose exp c h small small' some_exp =
    elim (Bool-cases (c.experience == 0 || exp == 0)) [
      | inl y ↦ let nothing : c.experience ≡ 0 = ground arith in rw y (h, omega arith)
      | inr n ↦ rw n (elim (Bool-cases (on_lose exp == 0)) [
        | inl y ↦ let nothing : on_lose exp ≡ 0 = ground arith in rw y (h, omega arith)
        | inr n' ↦
            let left_over =
              if ltb (sub64 c.experience (on_lose exp)) (2 ^ 63)
              then sub64 c.experience (on_lose exp)
              else 0 in
            let rest : left_over ≡ c.experience - on_lose exp = ground arith in
            let c1 : Character = record c { experience = left_over } in
            let f =
              fall-IsLevelled v c.level c1 refl (h.lowest) (h.highest)
                (omega (arith, rest, h.next)) in
            let c2 = fall v c.level c1 in
            rw n' (
              settle-IsLevelled c.level (exp_for_level c2.level) (exp_for_level (c2.level + 1)) c2
                  (f.0),
              (settle-kept c.level (exp_for_level c2.level) (exp_for_level (c2.level + 1)) c2).1
                  ∙ f.1
                  ∙ rest,
            )
      ])
    ]
