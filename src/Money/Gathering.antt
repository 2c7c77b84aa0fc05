-- ===== src/Money/Gathering.antt =====
-- All the money of the slots and the containers in them is found.
use odirion_mmoserver.Base.{
  ℕ, zero, suc, ◌+◌, ◌^◌, ◌≤◌, ◌<◌, ◌≡◌, ◌⊎◌, refl, ap, inl, inr, some, List, [], ◌∷◌, ◌++◌, arith,
  ◌==◌, Bool-cases,
}
use odirion_mmoserver.Money.{
  Stack, Item, Items, stack, container, no_items, item, worth, emplace, Purse, look_at,
  look_through, open_all, containers_of, containers_in, gather,
}

unfoldable pub worth_all : List Stack → ℕ
worth_all [] = 0
worth_all (s ∷ ss) = worth s + worth_all ss

unfoldable mutual
  pub worth_of : Item → ℕ
  worth_of (stack s) = worth s
  worth_of (container items) = worth_in items

  pub worth_in : Items → ℕ
  worth_in no_items = 0
  worth_in (item i is) = worth_of i + worth_in is

-- What the containers that are not open yet hold, and how many there are.
abbrev worth_of_closed : List Items → ℕ
worth_of_closed [] = 0
worth_of_closed (c ∷ cs) = worth_in c + worth_of_closed cs

abbrev closed : List Items → ℕ
closed [] = 0
closed (c ∷ cs) = suc (containers_in c + closed cs)

worth_of_closed-append :
    (cs ds : List Items) → worth_of_closed (cs ++ ds) ≡ worth_of_closed cs + worth_of_closed ds
worth_of_closed-append [] ds = omega arith
worth_of_closed-append (c ∷ cs) ds = omega (arith, worth_of_closed-append cs ds)

closed-append : (cs ds : List Items) → closed (cs ++ ds) ≡ closed cs + closed ds
closed-append [] ds = omega arith
closed-append (c ∷ cs) ds = omega (arith, closed-append cs ds)

worth_all-emplace :
    (s : Stack) (ts : List Stack) → worth_all (emplace s ts) ≡ worth s + worth_all ts
unfolding worth_all emplace
worth_all-emplace s [] = refl
worth_all-emplace s (t ∷ ts) = ground (arith, worth_all-emplace s ts)

-- Between two items: the count is the worth of the map, and the whole stays the same.
record Holds (total left : ℕ) (p : Purse) : Type 0 where
  counted : p.money_count ≡ worth_all p.money_map
  whole : worth_all p.money_map + worth_of_closed p.containers + left ≡ total

look_at-Holds :
    (total left : ℕ) (i : Item) (p : Purse)
    → total < 2 ^ 64
    → Holds total (worth_of i + left) p
    → Holds total left (look_at i p)
      × (closed (look_at i p).containers ≡ containers_of i + closed p.containers)
unfolding look_at worth_of containers_of
look_at-Holds total left (container items) p small h = (
  record {
    counted = h.counted;
    whole = omega (arith, h.whole, worth_of_closed-append p.containers (items ∷ []));
  },
  omega (arith, closed-append p.containers (items ∷ [])),
)
look_at-Holds total left (stack s) p small h = elim (Bool-cases (worth s == 0)) [
  | inl y ↦
      let nothing : worth s ≡ 0 = ground arith in
      rw y (record { counted = h.counted; whole = omega (arith, h.whole, nothing) }, omega arith)
  | inr n ↦ rw n (
    record {
      counted = omega (arith, h.counted, h.whole, worth_all-emplace s p.money_map, small);
      whole = omega (arith, h.whole, worth_all-emplace s p.money_map);
    },
    omega arith,
  )
]

look_through-Holds :
    (total left : ℕ) (is : Items) (p : Purse)
    → total < 2 ^ 64
    → Holds total (worth_in is + left) p
    → Holds total left (look_through is p)
      × (closed (look_through is p).containers ≡ containers_in is + closed p.containers)
unfolding look_through worth_in containers_in
look_through-Holds total left no_items p small h =
    (record { counted = h.counted; whole = omega (arith, h.whole) }, omega arith)
look_through-Holds total left (item i is) p small h =
    let a =
      look_at-Holds total (worth_in is + left) i p small
        (record { counted = h.counted; whole = omega (arith, h.whole) }) in
    let b = look_through-Holds total left is (look_at i p) small (a.0) in
    (b.0, omega (arith, a.1, b.1))

List-cases : {A : Type 0} (xs : List A) → (xs ≡ []) ⊎ ((x : A) × (ys : List A) × (xs ≡ x ∷ ys))
List-cases [] = inl refl
List-cases (x ∷ xs) = inr (x, xs, refl)

empty_purse :
    (total : ℕ) (p : Purse) → Holds total 0 p → p.containers ≡ [] → worth_all p.money_map ≡ total
empty_purse total p h e = let none_left = ap worth_of_closed e in omega (arith, h.whole, none_left)

open_all-Holds :
    (total fuel : ℕ) (p : Purse)
    → total < 2 ^ 64
    → Holds total 0 p
    → closed p.containers ≤ fuel
    → (p' : Purse) × (open_all fuel p ≡ some p')
      × (p'.money_count ≡ worth_all p'.money_map)
      × (worth_all p'.money_map ≡ total)
unfolding open_all
open_all-Holds total zero p small h enough = elim (List-cases p.containers) [
  | inl e ↦ (p, rw e refl, h.counted, empty_purse total p h e)
  | inr (c, cs, e) ↦ let more = ap closed e in absurd (omega (arith, more, enough))
]
open_all-Holds total (suc fuel) p small h enough = elim (List-cases p.containers) [
  | inl e ↦ (p, rw e refl, h.counted, empty_purse total p h e)
  | inr (c, cs, e) ↦
      let all = ap worth_of_closed e in
      let more = ap closed e in
      let a =
        look_through-Holds total 0 c (record p { containers = cs }) small
          (record { counted = h.counted; whole = omega (arith, h.whole, all) }) in
      let r =
        open_all-Holds total fuel (look_through c (record p { containers = cs })) small (a.0)
          (omega (arith, a.1, more, enough)) in
      (r.0, rw e (r.1), r.2, r.3)
]

-- The fuel is enough, and if the whole is below 2 ^ 64 it is all counted.
pub gather_lem :
    (slots : Items)
    → worth_in slots < 2 ^ 64
    → (p : Purse) × (gather slots ≡ some p)
      × (p.money_count ≡ worth_all p.money_map)
      × (worth_all p.money_map ≡ worth_in slots)
unfolding gather worth_all
gather_lem slots small =
    let empty : Purse = record { containers = []; money_map = []; money_count = 0 } in
    let a =
      look_through-Holds (worth_in slots) 0 slots empty small
        (record { counted = refl; whole = omega arith }) in
    open_all-Holds (worth_in slots) (containers_in slots) (look_through slots empty) small (a.0)
      (omega (arith, a.1))
