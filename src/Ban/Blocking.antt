-- ===== src/Ban/Blocking.antt =====
-- When an address is refused.
use odirion_mmoserver.Base.{
  ℕ, ◌+◌, ◌*◌, ◌^◌, ◌≤◌, ◌<◌, ◌≡◌, refl, ap, ◌∙◌, Bool, true, false, Option, none, some, List, [],
  ◌∷◌, arith, ◌==◌, All, All-map, length,
}
use odirion_mmoserver.Ban.{ConnectBlock, accept_known, accept_connection, attempts}

-- An address that is known gets the answer and the entry of the branches.
accept_connection-known :
    (t ip : ℕ) (b : ConnectBlock) (blocks : ℕ → Option ConnectBlock)
    → blocks ip ≡ some b
    → let r = accept_connection t ip blocks in
      (r.0 ≡ (accept_known t b).0) × (r.1 ip ≡ some (accept_known t b).1)
unfolding accept_connection
accept_connection-known t ip b blocks known =
    let same : (ip == ip) ≡ true = ground arith in
    rw (known, accept_connection) (refl, rw same refl)

abbrev Counted : ℕ → ℕ → ConnectBlock
Counted last n = record { last_attempt = last; block_time = 0; count = n }

accept-counts :
    (t ip last n : ℕ) (blocks : ℕ → Option ConnectBlock)
    → blocks ip ≡ some (Counted last n)
    → n ≤ 4
    → t ≤ last + 500
    → let r = accept_connection t ip blocks in (r.0 ≡ true) × (r.1 ip ≡ some (Counted t (n + 1)))
unfolding accept_known
accept-counts t ip last n blocks known few soon =
    let r = accept_connection-known t ip (Counted last n) blocks known in
    let known' : accept_known t (Counted last n) ≡ (true, Counted t (n + 1)) = ground arith in
    (r.0 ∙ ap (λ k. k.0) known', r.1 ∙ ap (λ k. some k.1) known')

accept-refuses :
    (t ip last : ℕ) (blocks : ℕ → Option ConnectBlock)
    → blocks ip ≡ some (Counted last 5)
    → t ≤ last + 500
    → t + 3000 < 2 ^ 64
    → let r = accept_connection t ip blocks in
      (r.0 ≡ false)
      × (r.1 ip ≡ some (record { last_attempt = t; block_time = t + 3000; count = 0 }))
unfolding accept_known
accept-refuses t ip last blocks known soon small =
    let r = accept_connection-known t ip (Counted last 5) blocks known in
    let known' : accept_known t (Counted last 5)
        ≡ (false, record { last_attempt = t; block_time = t + 3000; count = 0 }) =
      ground arith in
    (r.0 ∙ ap (λ k. k.0) known', r.1 ∙ ap (λ k. some k.1) known')

accept-first :
    (t ip : ℕ) (blocks : ℕ → Option ConnectBlock)
    → blocks ip ≡ none
    → let r = accept_connection t ip blocks in (r.0 ≡ true) × (r.1 ip ≡ some (Counted t 1))
unfolding accept_connection
accept-first t ip blocks new =
    let same : (ip == ip) ≡ true = ground arith in rw (new, accept_connection) (refl, rw same refl)

-- An unknown address makes six attempts, each at most half a second behind the one before, while the
-- clock is far from its wrap: the first five are accepted, the sixth is refused, and the address is
-- blocked for three seconds from then on.
pub attempts-block :
    (t1 t2 t3 t4 t5 t6 ip : ℕ) (blocks : ℕ → Option ConnectBlock)
    → blocks ip ≡ none
    → t2 ≤ t1 + 500
    → t3 ≤ t2 + 500
    → t4 ≤ t3 + 500
    → t5 ≤ t4 + 500
    → t6 ≤ t5 + 500
    → t6 + 3000 < 2 ^ 64
    → let r = attempts (t1 ∷ t2 ∷ t3 ∷ t4 ∷ t5 ∷ t6 ∷ []) ip blocks in
      (r.0 ≡ true ∷ true ∷ true ∷ true ∷ true ∷ false ∷ [])
      × (r.1 ip ≡ some (record { last_attempt = t6; block_time = t6 + 3000; count = 0 }))
unfolding attempts
attempts-block t1 t2 t3 t4 t5 t6 ip blocks new h2 h3 h4 h5 h6 small =
    let r1 = accept-first t1 ip blocks new in
    let r2 = accept-counts t2 ip t1 1 _ (r1.1) (omega arith) h2 in
    let r3 = accept-counts t3 ip t2 2 _ (r2.1) (omega arith) h3 in
    let r4 = accept-counts t4 ip t3 3 _ (r3.1) (omega arith) h4 in
    let r5 = accept-counts t5 ip t4 4 _ (r4.1) (omega arith) h5 in
    let r6 = accept-refuses t6 ip t5 _ (r5.1) h6 small in
    (λ i. r1.0 i ∷ r2.0 i ∷ r3.0 i ∷ r4.0 i ∷ r5.0 i ∷ r6.0 i ∷ [], r6.1)

abbrev pub refusals : List ℕ → List Bool
refusals [] = []
refusals (t ∷ ts) = false ∷ refusals ts

-- Attempts at times before a known address's block ends are all refused, and each adds a quarter of a
-- second to the block, if that does not wrap.
pub attempts-blocked :
    (times : List ℕ) (ip : ℕ) (b : ConnectBlock) (blocks : ℕ → Option ConnectBlock)
    → blocks ip ≡ some b
    → All (λ t. t < b.block_time) times
    → b.block_time + 250 * length times < 2 ^ 64
    → let r = attempts times ip blocks in
      (r.0 ≡ refusals times)
      × (r.1 ip ≡ some (record b { block_time = b.block_time + 250 * length times }))
unfolding attempts accept_known
attempts-blocked [] ip b blocks known early small =
    (refl, known ∙ ap (λ k. some (record b { block_time = k })) (omega arith))
attempts-blocked (t ∷ ts) ip b blocks known early small =
    let longer : ConnectBlock = record b { block_time = b.block_time + 250 } in
    let refused : accept_known t b ≡ (false, longer) = ground (arith, early.0) in
    let r = accept_connection-known t ip b blocks known in
    let rest =
      attempts-blocked ts ip longer _ (r.1 ∙ ap (λ k. some k.1) refused)
        (All-map (λ t' h. omega (arith, h)) ts (early.1)) (omega arith) in
    (
      λ i. (r.0 ∙ ap (λ k. k.0) refused) i ∷ rest.0 i,
      rest.1 ∙ ap (λ k. some (record b { block_time = k })) (omega arith),
    )
