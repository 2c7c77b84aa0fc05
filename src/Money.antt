-- ===== src/Money.antt =====
-- Paying and giving money: `getWorth` of item.cpp, `removeMoney` and `addMoney` of game.cpp. An item is
-- a stack of a kind or a container; the coins that are created go where `internalAddItem` puts them.
pub mod Gathering
pub mod Paying
mod Examples
use odirion_mmoserver.Base.{
  ℕ, zero, suc, ◌+◌, ◌-◌, ◌*◌, ◌/◌, ◌%◌, ◌^◌, Bool, true, false, Option, none, some, List, [], ◌∷◌,
  ◌++◌, ltb, leb, ◌==◌, if◌then◌else◌, min, u16, u32, u64,
}

abbrev pub gold_coin : ℕ
gold_coin = 2148

abbrev pub platinum_coin : ℕ
platinum_coin = 2152

abbrev pub crystal_coin : ℕ
crystal_coin = 2160

-- A stack of `count` items, which a pointer names.
pub record Stack : Type 0 where
  pub pointer : ℕ
  pub id : ℕ
  pub count : ℕ

mutual
  pub data Item : Type 0 where
    stack : Stack → Item
    container : Items → Item

  pub data Items : Type 0 where
    no_items : Items
    item : Item → Items → Items

-- What one item of a kind is worth.
unfoldable pub unit_worth : ℕ → ℕ
unit_worth i =
    if i == gold_coin
    then 1
    else if i == platinum_coin
    then 100
    else if i == crystal_coin
    then 10000
    else 0

-- `Item::getWorth`; the count is a byte.
unfoldable pub worth : Stack → ℕ
worth s = s.count * unit_worth s.id

-- `moneyMap.emplace`: a multimap keeps its entries in the order of their keys, equal ones as they came.
unfoldable pub emplace : Stack → List Stack → List Stack
emplace s [] = s ∷ []
emplace s (t ∷ ts) =
    let rest = emplace s ts in if ltb (worth s) (worth t) then s ∷ (t ∷ ts) else t ∷ rest

-- The `containers` that are still to be opened, `moneyMap` and `moneyCount`.
pub record Purse : Type 0 where
  pub containers : List Items
  pub money_map : List Stack
  pub money_count : ℕ

unfoldable pub look_at : Item → Purse → Purse
look_at (container items) p = record p { containers = p.containers ++ items ∷ [] }
look_at (stack s) p =
    if worth s == 0
    then p
    else record p { money_map = emplace s p.money_map; money_count = u64 (p.money_count + worth s) }

-- A loop over the items of a container, or over the slots with something in them.
unfoldable pub look_through : Items → Purse → Purse
look_through no_items p = p
look_through (item i is) p = look_through is (look_at i p)

-- The loop over the containers; the fuel bounds their number.
unfoldable pub open_all : ℕ → Purse → Option Purse
open_all zero p = elim p.containers [ [] ↦ some p | c ∷ cs ↦ none ]
open_all (suc fuel) p = elim p.containers [
  | [] ↦ some p
  | c ∷ cs ↦ open_all fuel (look_through c (record p { containers = cs }))
]

-- How many containers there are at any depth.
unfoldable mutual
  pub containers_of : Item → ℕ
  containers_of (stack s) = 0
  containers_of (container items) = suc (containers_in items)

  pub containers_in : Items → ℕ
  containers_in no_items = 0
  containers_in (item i is) = containers_of i + containers_in is

-- The first half of `removeMoney`: the slots of the cylinder, then what the containers hold.
unfoldable pub gather : Items → Option Purse
gather slots =
    open_all (containers_in slots)
      (look_through slots (record { containers = []; money_map = []; money_count = 0 }))

-- `std::ceil(money / static_cast<double>(worth))`, exact where the numbers are below 2 ^ 53.
unfoldable pub ceil_div : ℕ → ℕ → ℕ
ceil_div a b = (a + b - 1) / b

-- The loop over `moneyMap`: the stacks with the counts that are removed, and the change.
unfoldable pub pay : ℕ → List Stack → List (Stack × ℕ) × ℕ
pay money [] = ([], 0)
pay money (s ∷ ss) =
    let rest = pay (money - worth s) ss in
    if ltb (worth s) money
    then ((s, s.count) ∷ rest.0, rest.1)
    else if ltb money (worth s)
    then (let one = worth s / s.count in
        let remove_count = ceil_div money one in
        ((s, remove_count) ∷ [], u32 (one * remove_count) - money))
    else ((s, s.count) ∷ [], 0)

-- A coin that is created: its kind and count.
abbrev pub Coins : Type 0
Coins = ℕ × ℕ

-- The loop of `addMoney` over the crystal coins.
unfoldable pub crystal_stacks : ℕ → ℕ → List Coins
crystal_stacks zero crystal_coins = []
crystal_stacks (suc fuel) crystal_coins =
    let count = min 100 crystal_coins in
    let rest = crystal_stacks fuel (crystal_coins - count) in
    if crystal_coins == 0 then [] else (crystal_coin, count) ∷ rest

-- The item of a kind that is created when there is some of it; a count is 16 bits.
unfoldable pub coins_of : ℕ → ℕ → List Coins
coins_of i n = if n == 0 then [] else (i, u16 n) ∷ []

-- `addMoney`: each turn of the loop takes a coin at least, so their number bounds the turns.
unfoldable pub add_money : ℕ → List Coins
add_money money =
    let crystal_coins = u32 (money / 10000) in
    let small = u64 (money + 2 ^ 64 - u32 (crystal_coins * 10000)) in
    let platinum_coins = u16 (small / 100) in
    let smallest = u64 (small + 2 ^ 64 - platinum_coins * 100) in
    if money == 0
    then []
    else crystal_stacks crystal_coins crystal_coins
      ++ (coins_of platinum_coin platinum_coins ++ coins_of gold_coin smallest)

-- `removeMoney`: whether it could pay, what it removed, and the coins that it gave back.
unfoldable pub remove_money : ℕ → Items → Option (Bool × List (Stack × ℕ) × List Coins)
remove_money money slots = if money == 0 then some (true, [], []) else elim (gather slots) [
  | none ↦ none
  | some p ↦
      if ltb p.money_count money
      then some (false, [], [])
      else let paid = pay money p.money_map in some (true, paid.0, add_money paid.1)
]
