-- ===== src/Skill/Examples.antt =====
-- Tests of skills.
use odirion_mmoserver.Base.{
  ℕ, zero, suc, subst, ◌-◌, ◌+◌, ◌*◌, ◌/◌, ◌^◌, ◌≡◌, ◌≤◌, ◌<◌, some, arith,
}
use odirion_mmoserver.Skill.{Skill, add_skill_advance}
use odirion_mmoserver.Skill.Gains.{sum_to, add_skill_advance-conserves}

-- Sword fighting with the base 50 and the factor 2 of the source, from level 10 on.
abbrev sword : ℕ → ℕ
sword k = 50 * 2 ^ k / 2 ^ 11

abbrev novice : Skill
novice = record { level = 10; tries = 15; percent = 30 }

double : (k : ℕ) → 2 ^ (k + 1) ≡ 2 * 2 ^ k
double k = let next : k + 1 ≡ suc k = omega arith in rw next (omega arith)

power-ge : (n : ℕ) → 1024 ≤ 2 ^ (n + 10)
power-ge zero = omega arith
power-ge (suc n) =
    let next : suc n + 10 ≡ n + 10 + 1 = omega arith in
    rw (next, double (n + 10)) (omega (arith, power-ge n))

sword-increases : (k : ℕ) → 10 ≤ k → k < 60 → sword k < sword (k + 1)
sword-increases k low high =
    let same : k - 10 + 10 ≡ k = omega (arith, low) in
    let large = subst (λ j. 1024 ≤ 2 ^ j) same (power-ge (k - 10)) in
    rw (double k) (omega (arith, large))

add_skill_advance-conserves_example :
    (s : Skill) × (add_skill_advance sword (λ n. n * 3) 100 novice ≡ some s)
    × (sum_to sword s.level + s.tries ≡ sum_to sword 10 + 15 + 300)
    × (s.tries < sword (s.level + 1))
add_skill_advance-conserves_example =
    add_skill_advance-conserves sword 10 60 (omega arith) sword-increases (λ n. n * 3) 100 novice
      (omega arith) (omega arith) (omega arith) (omega arith) (omega arith)
