-- ===== src/Ban.antt =====
-- `Ban::acceptConnection` of ban.cpp. The map from addresses is a function, the clock an argument.
pub mod Blocking
mod Examples
use odirion_mmoserver.Base.{
  ℕ, ◌+◌, Bool, true, false, Option, none, some, List, [], ◌∷◌, ltb, leb, ◌==◌, if◌then◌else◌, u32,
  u64,
}

pub record ConnectBlock : Type 0 where
  pub last_attempt : ℕ
  pub block_time : ℕ
  pub count : ℕ

-- The branches for an address that is known. `timeDiff <= n` is `currentTime <= lastAttempt + n`,
-- also where the signed difference is negative.
unfoldable pub accept_known : ℕ → ConnectBlock → Bool × ConnectBlock
accept_known current_time b =
    if ltb current_time b.block_time
    then (false, record b { block_time = u64 (b.block_time + 250) })
    else if leb current_time (b.last_attempt + 5000)
    then (if ltb 5 (u32 (b.count + 1))
        then (if leb current_time (b.last_attempt + 500)
            then (
              false,
              record {
                last_attempt = current_time;
                block_time = u64 (current_time + 3000);
                count = 0;
              },
            )
            else (true, record b { last_attempt = current_time; count = 0 }))
        else (true, record b { last_attempt = current_time; count = u32 (b.count + 1) }))
    else (true, record b { last_attempt = current_time; count = 1 })

unfoldable pub accept_connection :
    ℕ → ℕ → (ℕ → Option ConnectBlock) → Bool × (ℕ → Option ConnectBlock)
accept_connection current_time ip blocks = elim (blocks ip) [
  | none ↦ (
    true,
    λ j.
        if ip == j
        then some (record { last_attempt = current_time; block_time = 0; count = 1 })
        else blocks j,
  )
  | some b ↦
      let r = accept_known current_time b in (r.0, λ j. if ip == j then some r.1 else blocks j)
]

-- Attempts from one address at the given times: the answers, and the map afterwards.
unfoldable pub attempts :
    List ℕ → ℕ → (ℕ → Option ConnectBlock) → List Bool × (ℕ → Option ConnectBlock)
attempts [] ip blocks = ([], blocks)
attempts (t ∷ ts) ip blocks =
    let r = accept_connection t ip blocks in let rest = attempts ts ip r.1 in (r.0 ∷ rest.0, rest.1)
