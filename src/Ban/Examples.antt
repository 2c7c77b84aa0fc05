-- ===== src/Ban/Examples.antt =====
-- Tests of the blocking of addresses.
use odirion_mmoserver.Base.{ℕ, ◌≡◌, refl, true, false, Option, none, some, [], ◌∷◌, arith}
use odirion_mmoserver.Ban.{ConnectBlock, accept_connection, accept_known, attempts}
use odirion_mmoserver.Ban.Blocking.{attempts-block, attempts-blocked}

abbrev nobody : ℕ → Option ConnectBlock
nobody ip = none

abbrev blocked : ConnectBlock
blocked = record { last_attempt = 9000; block_time = 12000; count = 0 }

abbrev one_blocked : ℕ → Option ConnectBlock
one_blocked ip = some blocked

slow_client :
    (attempts (100 ∷ 4000 ∷ 8000 ∷ 12000 ∷ 16000 ∷ 20000 ∷ 24000 ∷ []) 7 nobody).0
    ≡ true ∷ true ∷ true ∷ true ∷ true ∷ true ∷ true ∷ []
unfolding attempts accept_connection accept_known
slow_client = refl

attempts-block_example :
    let r = attempts (10 ∷ 200 ∷ 300 ∷ 400 ∷ 500 ∷ 1000 ∷ []) 7 nobody in
    (r.0 ≡ true ∷ true ∷ true ∷ true ∷ true ∷ false ∷ [])
    × (r.1 7 ≡ some (record { last_attempt = 1000; block_time = 4000; count = 0 }))
attempts-block_example =
    attempts-block 10 200 300 400 500 1000 7 nobody refl (omega arith) (omega arith) (omega arith)
      (omega arith) (omega arith) (omega arith)

attempts-blocked_example :
    let r = attempts (10000 ∷ 11000 ∷ []) 7 one_blocked in
    (r.0 ≡ false ∷ false ∷ [])
    × (r.1 7 ≡ some (record { last_attempt = 9000; block_time = 12500; count = 0 }))
attempts-blocked_example =
    attempts-blocked (10000 ∷ 11000 ∷ []) 7 blocked one_blocked refl
      (omega arith, (omega arith, tt)) (omega arith)
