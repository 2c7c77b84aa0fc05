-- ===== src/Money/Paying.antt =====
-- What is removed is what was asked for and the change.
use native.Mathlib.Nat.{mul-div_cancel_left}
use odirion_mmoserver.Base.{
  ℕ, zero, suc, ◌+◌, ◌-◌, ◌*◌, ◌/◌, ◌^◌, ◌≤◌, ◌%◌, ◌<◌, ◌≡◌, ◌⊎◌, refl, subst, inl, inr, true,
  false, some, List, [], ◌∷◌, ◌++◌, arith, ltb, ◌==◌, min, u16, u32, u64, Bool-cases, All,
}
use odirion_mmoserver.Money.{
  Stack, Items, gold_coin, platinum_coin, unit_worth, worth, ceil_div, pay, Coins, crystal_stacks,
  coins_of, add_money, remove_money,
}
use odirion_mmoserver.Money.Gathering.{worth_all, worth_in, gather_lem}

-- What the coins that are created are worth, and what was taken from the stacks.
unfoldable pub coins_worth : List Coins → ℕ
coins_worth [] = 0
coins_worth ((i, count) ∷ cs) = count * unit_worth i + coins_worth cs

pub taken : List (Stack × ℕ) → ℕ
taken [] = 0
taken ((s, n) ∷ rest) = n * unit_worth s.id + taken rest

-- No more is taken of a stack than there is.
abbrev pub IsWithin : Stack × ℕ → Type 0
IsWithin (s, n) = n ≤ s.count

unit_worth-cases :
    (i : ℕ)
    → (unit_worth i ≡ 0) ⊎ (unit_worth i ≡ 1) ⊎ (unit_worth i ≡ 100) ⊎ (unit_worth i ≡ 10000)
unfolding unit_worth
unit_worth-cases i = ground arith

-- The part of a stack of one kind that covers the rest, and the change.
Splits : ℕ → Stack → ℕ → Type 0
Splits money s u =
    let one = s.count * u / s.count in
    let n = ceil_div money one in (n * u ≡ money + (u32 (one * n) - money)) × (n ≤ s.count)

split_one : (money : ℕ) (s : Stack) → money < s.count * 1 → s.count * 1 < 2 ^ 32 → Splits money s 1
unfolding Splits ceil_div
split_one money s less small = rw (mul-div_cancel_left 1 {n = s.count} (omega arith)) (omega arith)

split_hundred :
    (money : ℕ) (s : Stack) → money < s.count * 100 → s.count * 100 < 2 ^ 32 → Splits money s 100
unfolding Splits ceil_div
split_hundred money s less small =
    rw (mul-div_cancel_left 100 {n = s.count} (omega arith)) (omega arith)

split_ten_thousand :
    (money : ℕ) (s : Stack)
    → money < s.count * 10000
    → s.count * 10000 < 2 ^ 32
    → Splits money s 10000
unfolding Splits ceil_div
split_ten_thousand money s less small =
    rw (mul-div_cancel_left 10000 {n = s.count} (omega arith)) (omega arith)

split_stack :
    (money : ℕ) (s : Stack) → money < worth s → worth s < 2 ^ 32 → Splits money s (unit_worth s.id)
unfolding worth
split_stack money s less small = elim (unit_worth-cases s.id) [
  | inl a ↦
      let less' : money < s.count * 0 = subst (λ k. money < s.count * k) a less in
      absurd (omega arith)
  | inr (inl a) ↦ rw a (
      split_one money s (subst (λ k. money < s.count * k) a less)
        (subst (λ k. s.count * k < 2 ^ 32) a small))
  | inr (inr (inl a)) ↦ rw a (
      split_hundred money s (subst (λ k. money < s.count * k) a less)
        (subst (λ k. s.count * k < 2 ^ 32) a small))
  | inr (inr (inr a)) ↦ rw a (
      split_ten_thousand money s (subst (λ k. money < s.count * k) a less)
        (subst (λ k. s.count * k < 2 ^ 32) a small))
]

-- What is taken is worth what was asked for and the change, and no stack gives more than it has.
record IsPaid (money : ℕ) (paid : List (Stack × ℕ) × ℕ) : Type 0 where
  exact : taken paid.0 ≡ money + paid.1
  within : All IsWithin paid.0
  less_than_all : paid.1 < 2 ^ 32

pay_lem :
    (ss : List Stack) (money : ℕ)
    → 0 < money
    → money ≤ worth_all ss
    → worth_all ss < 2 ^ 32
    → IsPaid money (pay money ss)
unfolding pay taken worth_all worth Splits
pay_lem [] money asked enough small = absurd (omega arith)
pay_lem (s ∷ ss) money asked enough small = elim (Bool-cases (ltb (worth s) money)) [
  | inl y ↦
      let rest =
        pay_lem ss (money - worth s) (ground arith) (omega (arith, enough))
          (omega (arith, small)) in
      let less : worth s < money = ground arith in
      rw y (record {
        exact = omega (arith, rest.exact, less);
        within = (omega arith, rest.within);
        less_than_all = rest.less_than_all;
      })
  | inr n ↦ rw n (elim (Bool-cases (ltb money (worth s))) [
    | inl y ↦
        let split = split_stack money s (ground arith) (omega (arith, small)) in
        rw y (record {
          exact = omega (arith, split.0);
          within = (split.1, tt);
          less_than_all = omega arith;
        })
    | inr n' ↦
        let same : worth s ≡ money = ground arith in
        rw n' (record {
          exact = omega (arith, same);
          within = (omega arith, tt);
          less_than_all = omega arith;
        })
  ])
]

coins_worth-append : (cs ds : List Coins) → coins_worth (cs ++ ds) ≡ coins_worth cs + coins_worth ds
unfolding coins_worth
coins_worth-append [] ds = omega arith
coins_worth-append ((i, count) ∷ cs) ds = omega (arith, coins_worth-append cs ds)

coins_worth-crystal_stacks :
    (fuel n : ℕ) → n ≤ fuel → coins_worth (crystal_stacks fuel n) ≡ n * 10000
unfolding coins_worth crystal_stacks unit_worth
coins_worth-crystal_stacks zero n enough = omega (arith, enough)
coins_worth-crystal_stacks (suc fuel) n enough = elim (Bool-cases (n == 0)) [
  | inl y ↦ rw y (ground arith)
  | inr more ↦
      let positive : 0 < n = ground arith in
      rw more (
        omega (
          arith,
          positive,
          coins_worth-crystal_stacks fuel (n - min 100 n) (omega (arith, positive, enough)),
        ))
]

coins_worth-coins_of : (i n : ℕ) → n < 65536 → coins_worth (coins_of i n) ≡ n * unit_worth i
unfolding coins_worth coins_of
coins_worth-coins_of i n small = elim (Bool-cases (n == 0)) [
  | inl y ↦ let none_left : n ≡ 0 = ground arith in rw none_left (omega arith)
  | inr more ↦ let same : u16 n ≡ n = omega (arith, small) in rw more (rw same (omega arith))
]

-- If an amount is below 2 ^ 32, the coins that are created for it are worth it.
pub coins_worth-add_money : (money : ℕ) → money < 2 ^ 32 → coins_worth (add_money money) ≡ money
unfolding add_money coins_worth unit_worth
coins_worth-add_money money small = elim (Bool-cases (money == 0)) [
  | inl y ↦ rw y (ground arith)
  | inr more ↦
      let crystal_coins = u32 (money / 10000) in
      let rest = u64 (money + 2 ^ 64 - u32 (crystal_coins * 10000)) in
      let rest' : rest ≡ money % 10000 = omega (arith, small) in
      let platinum_coins = u16 (rest / 100) in
      let smallest = u64 (rest + 2 ^ 64 - platinum_coins * 100) in
      let platinum_coins' : platinum_coins ≡ money % 10000 / 100 = omega (arith, rest') in
      let smallest' : smallest ≡ money % 10000 % 100 = omega (arith, rest', platinum_coins') in
      let a = coins_worth-crystal_stacks crystal_coins crystal_coins (omega arith) in
      let b = coins_worth-coins_of platinum_coin platinum_coins (omega (arith, platinum_coins')) in
      let c = coins_worth-coins_of gold_coin smallest (omega (arith, smallest')) in
      let bc =
        coins_worth-append (coins_of platinum_coin platinum_coins) (coins_of gold_coin smallest) in
      let abc =
        coins_worth-append (crystal_stacks crystal_coins crystal_coins)
          (coins_of platinum_coin platinum_coins ++ coins_of gold_coin smallest) in
      rw more (omega (arith, a, b, c, bc, abc, rest', platinum_coins', smallest', small))
]

-- What `remove_money` returns where the slots hold enough: `paid` of the stacks, and `change` in coins.
pub record IsPayment (money : ℕ) (slots : Items) : Type 0 where
  paid : List (Stack × ℕ)
  change : List Coins
  runs : remove_money money slots ≡ some (true, paid, change)
  exact : taken paid ≡ money + coins_worth change
  within : All IsWithin paid

-- If all the money of the slots and of the containers in them is worth less than 2 ^ 32, an amount that is not
-- 0 is paid when it is at most that worth: what is taken of the stacks is worth the amount and the coins that are
-- given back, and no stack gives more than it has; otherwise nothing is taken and the answer is no.
pub remove_money-IsPayment :
    (money : ℕ) (slots : Items)
    → 0 < money
    → worth_in slots < 2 ^ 32
    → (money ≤ worth_in slots × IsPayment money slots)
      ⊎ (worth_in slots < money × (remove_money money slots ≡ some (false, [], [])))
unfolding remove_money
remove_money-IsPayment money slots asked small =
    let (p, gathered, counted, whole) = gather_lem slots (omega (arith, small)) in
    let some_money : (money == 0) ≡ false = ground arith in
    elim (Bool-cases (ltb p.money_count money)) [
      | inl y ↦
          let less : p.money_count < money = ground arith in
          inr (omega (arith, less, counted, whole), rw (some_money, gathered, y) refl)
      | inr n ↦
          let enough : money ≤ p.money_count = ground arith in
          let paid =
            pay_lem p.money_map money asked (omega (arith, enough, counted))
              (omega (arith, whole, small)) in
          inl (
            omega (arith, enough, counted, whole),
            record {
              paid = (pay money p.money_map).0;
              change = add_money (pay money p.money_map).1;
              runs = rw (some_money, gathered, n) refl;
              exact = omega (
                arith,
                paid.exact,
                coins_worth-add_money (pay money p.money_map).1 paid.less_than_all,
              );
              within = paid.within;
            },
          )
    ]
