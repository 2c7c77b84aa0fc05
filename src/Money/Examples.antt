-- ===== src/Money/Examples.antt =====
-- A purse with gold, and a bag with more and a bag in it: witnesses and tests.
use odirion_mmoserver.Base.{◌^◌, ◌≤◌, ◌<◌, ◌≡◌, ◌⊎◌, refl, arith, true, false, some, [], ◌∷◌}
use odirion_mmoserver.Money.{
  Items, stack, container, no_items, item, gold_coin, platinum_coin, crystal_coin, unit_worth,
  worth, emplace, look_at, look_through, open_all, containers_of, containers_in, gather, ceil_div,
  pay, crystal_stacks, coins_of, add_money, remove_money,
}
use odirion_mmoserver.Money.Gathering.{worth_in}
use odirion_mmoserver.Money.Paying.{coins_worth, IsPayment, remove_money-IsPayment}

abbrev purse : Items
purse = item (stack (record { pointer = 1; id = gold_coin; count = 40 })) (
    item
      (container (
        item
          (container (item (stack (record { pointer = 2; id = crystal_coin; count = 3 })) no_items))
          (item (stack (record { pointer = 3; id = platinum_coin; count = 7 })) no_items)))
      no_items)

worth_of_purse : worth_in purse < 2 ^ 32
unfolding worth_in worth unit_worth
worth_of_purse = omega arith

remove_money-IsPayment_example :
    (12345 ≤ worth_in purse × IsPayment 12345 purse)
    ⊎ (worth_in purse < 12345 × (remove_money 12345 purse ≡ some (false, [], [])))
remove_money-IsPayment_example = remove_money-IsPayment 12345 purse (omega arith) worth_of_purse

pays_and_gives_back :
    remove_money 12345 purse
    ≡ some (
      true,
      (record { pointer = 1; id = gold_coin; count = 40 }, 40)
          ∷ (record { pointer = 3; id = platinum_coin; count = 7 }, 7)
          ∷ (record { pointer = 2; id = crystal_coin; count = 3 }, 2)
          ∷ [],
      (platinum_coin, 83) ∷ (gold_coin, 95) ∷ [],
    )
unfolding remove_money gather look_at look_through open_all containers_of containers_in emplace
    worth unit_worth pay ceil_div add_money crystal_stacks coins_of
pays_and_gives_back = refl

-- From 4294970000 on, the product of `addMoney` wraps, and coins are created for more than the amount.
money_wraps : coins_worth (add_money 4294970000) ≡ 4297329296
unfolding add_money crystal_stacks coins_of coins_worth unit_worth
money_wraps = refl
