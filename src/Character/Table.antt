-- ===== src/Character/Table.antt =====
-- The table of experience: no entry that a player can reach wraps, and it increases.
use odirion_mmoserver.Base.{
  ℕ, zero, suc, ◌+◌, ◌-◌, ◌*◌, ◌/◌, ◌^◌, ◌≤◌, ◌<◌, ◌≡◌, refl, true, arith, ltb, u32, sub64,
}
use odirion_mmoserver.Character.{exp_for_level}

-- The highest level of the theorems: up to it, and at the next one, nothing wraps.
abbrev pub top_level : ℕ
top_level = 700000

square-le : (l : ℕ) → l ≤ 700000 → l * l ≤ 700000 * l
square-le l h = grind arith

cube-le : (l : ℕ) → l ≤ 700000 → l * l * l ≤ 700000 * 700000 * 700000
cube-le l h = grind (arith, square-le l h)

-- 50 (l ^ 3 - 3 l ^ 2 + 8 l) is not negative.
square-below-cube : (l : ℕ) → 150 * l * l ≤ 50 * l * l * l + 400 * l
square-below-cube zero = omega arith
square-below-cube (suc zero) = omega arith
square-below-cube (suc (suc zero)) = omega arith
square-below-cube (suc (suc (suc l))) = omega arith

pub exp_for_level-suc :
    (l : ℕ) → l ≤ top_level → exp_for_level (suc l) ≡ (50 * l * l * l + 400 * l - 150 * l * l) / 3
unfolding exp_for_level
exp_for_level-suc l h =
    let cube = cube-le l h in
    let square = square-le l h in
    let same : u32 (suc l) ≡ suc l = omega arith in
    let small : ltb (suc l) (2 ^ 31) ≡ true = ground (arith, h) in
    let pred : sub64 (suc l) 1 ≡ l = omega arith in
    rw (same, small, pred) (omega (arith, cube, square, square-below-cube l))

square-ge : (l : ℕ) → 150 * l ≤ 150 * l * l
square-ge zero = omega arith
square-ge (suc l) = omega arith

square-next : (l : ℕ) → 150 * (l + 1) * (l + 1) ≡ 150 * l * l + 300 * l + 150
square-next l = omega arith

cube-next : (l : ℕ) → 50 * (l + 1) * (l + 1) * (l + 1) ≡ 50 * l * l * l + 150 * l * l + 150 * l + 50
cube-next l = omega arith

pub exp_for_level-increases :
    (lv : ℕ) → 1 ≤ lv → lv ≤ top_level → exp_for_level lv < exp_for_level (lv + 1)
exp_for_level-increases zero h k = absurd (omega arith)
exp_for_level-increases (suc l) h k =
    let after : suc l + 1 ≡ suc (l + 1) = omega arith in
    rw (after, exp_for_level-suc l (omega arith), exp_for_level-suc (l + 1) (omega arith))
      (omega (arith, square-below-cube l, square-ge l, square-next l, cube-next l))

pub exp_for_level_one : exp_for_level 1 ≡ 0
unfolding exp_for_level
exp_for_level_one = refl

pub exp_for_level-small : exp_for_level (top_level + 1) < 2 ^ 64
unfolding exp_for_level
exp_for_level-small = omega arith
