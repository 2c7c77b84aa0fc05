-- ===== src/Skill/Gains.antt =====
-- Tries are neither lost nor made up.
use odirion_mmoserver.Base.{
  ℕ, zero, suc, ◌+◌, ◌^◌, ◌≤◌, ◌<◌, ◌≡◌, ◌≢◌, refl, ap, ◌∙◌, inl, inr, true, false, some, arith,
  leb, ◌==◌, u16, u64, sub64, Bool-cases,
}
use odirion_mmoserver.Skill.{Skill, Turn, skill_up, grow, put_tries, add_skill_advance}

-- All tries that lead to a level.
pub sum_to : (ℕ → ℕ) → ℕ → ℕ
sum_to req zero = 0
sum_to req (suc n) = sum_to req n + req (suc n)

module _ (req : ℕ → ℕ) (bottom top : ℕ) (top_fits : top < 2 ^ 16)
    (increases : (k : ℕ) → bottom ≤ k → k < top → req k < req (k + 1)) where
  -- Between two turns.
  record IsTurn (t : Turn) : Type 0 where
    curr : t.curr_req_tries ≡ req t.skill.level
    next : t.next_req_tries ≡ req (t.skill.level + 1)
    below : t.skill.tries < t.next_req_tries
    small : t.skill.tries + t.count < 2 ^ 64
    above : bottom ≤ t.skill.level
    room : t.skill.level < top
    short : t.skill.tries + t.count < req top

  total : Turn → ℕ
  total t = sum_to req t.skill.level + t.skill.tries + t.count

  skill_up-IsTurn :
      (t : Turn)
      → IsTurn t
      → t.next_req_tries ≤ t.skill.tries + t.count
      → IsTurn (skill_up req t)
        × (total (skill_up req t) ≡ total t)
        × ((skill_up req t).count < t.count)
        × ((skill_up req t).curr_req_tries < (skill_up req t).next_req_tries)
  unfolding skill_up total sum_to
  skill_up-IsTurn t h enough =
      let level : u16 (t.skill.level + 1) ≡ suc t.skill.level = omega (arith, h.room, top_fits) in
      let not_top : t.skill.level + 1 ≢ top = λ e.
        let at_top : t.next_req_tries ≡ req top = h.next ∙ ap req e in
        omega (arith, at_top, h.short, enough) in
      let after : suc t.skill.level < top = omega (arith, h.room, not_top) in
      let count : sub64 t.count (sub64 t.next_req_tries t.skill.tries) + t.next_req_tries
          ≡ t.skill.tries + t.count =
        omega (arith, h.below, h.small, enough) in
      let one : t.skill.level + 1 ≡ suc t.skill.level = omega arith in
      let needs : t.next_req_tries ≡ req (suc t.skill.level) = h.next ∙ ap req one in
      let more : req (suc t.skill.level) < req (suc t.skill.level + 1) =
        increases (suc t.skill.level) (omega (arith, h.above)) after in
      rw level (
        record {
          curr = needs;
          next = refl;
          below = omega (arith, more);
          small = omega (arith, count, h.small);
          above = omega (arith, h.above);
          room = after;
          short = omega (arith, count, h.short);
        },
        omega (arith, count, needs),
        omega (arith, count, h.below),
        omega (arith, needs, more),
      )

  grow-turn :
      (fuel : ℕ) (t : Turn)
      → leb t.next_req_tries (u64 (t.skill.tries + t.count)) ≡ true
      → (skill_up req t).curr_req_tries < (skill_up req t).next_req_tries
      → grow req (suc fuel) t ≡ grow req fuel (skill_up req t)
  unfolding grow
  grow-turn fuel t y more =
      let goes_on : leb (skill_up req t).next_req_tries (skill_up req t).curr_req_tries ≡ false =
        ground arith in
      rw (y, grow) (rw goes_on refl)

  grow-IsTurn :
      (fuel : ℕ) (t : Turn)
      → IsTurn t
      → t.count < fuel
      → (t' : Turn) × (grow req fuel t ≡ some t')
        × IsTurn t'
        × (total t' ≡ total t)
        × (t'.skill.tries + t'.count < t'.next_req_tries)
  unfolding grow
  grow-IsTurn zero t h enough = absurd (omega arith)
  grow-IsTurn (suc fuel) t h enough =
      let whole : u64 (t.skill.tries + t.count) ≡ t.skill.tries + t.count =
        omega (arith, h.small) in
      elim (Bool-cases (leb t.next_req_tries (u64 (t.skill.tries + t.count)))) [
        | inr n ↦ (t, rw (n, grow) refl, h, refl, ground arith)
        | inl y ↦
            let u = skill_up-IsTurn t h (ground arith) in
            let r = grow-IsTurn fuel (skill_up req t) (u.0) (omega (arith, u.2)) in
            (r.0, grow-turn fuel t y (u.3) ∙ r.1, r.2, r.3 ∙ u.1, r.4)
      ]

  -- If each level from the bottom to the top, which is below 2 ^ 16, needs more than the one before, a skill
  -- between them whose tries do not reach the next level and, with what the event grants, stay below what the top
  -- needs and below 2 ^ 64, gains exactly the tries that the event grants: those of the levels that were reached
  -- and those that are left, too few for one more level.
  pub add_skill_advance-conserves :
      (on_gain : ℕ → ℕ) (count : ℕ) (s : Skill)
      → bottom ≤ s.level
      → s.level < top
      → s.tries < req (s.level + 1)
      → s.tries + on_gain count < 2 ^ 64
      → s.tries + on_gain count < req top
      → (s' : Skill) × (add_skill_advance req on_gain count s ≡ some s')
        × (sum_to req s'.level + s'.tries ≡ sum_to req s.level + s.tries + on_gain count)
        × (s'.tries < req (s'.level + 1))
  unfolding add_skill_advance put_tries total
  add_skill_advance-conserves on_gain count s above room below small short =
      let more : leb (req (s.level + 1)) (req s.level) ≡ false =
        ground (arith, increases s.level above room) in
      elim (Bool-cases (on_gain count == 0)) [
        | inl y ↦
            let nothing : on_gain count ≡ 0 = ground arith in
            (s, rw (more, add_skill_advance) (rw y refl), omega arith, below)
        | inr n ↦
            let start : Turn = record {
              skill = s;
              curr_req_tries = req s.level;
              next_req_tries = req (s.level + 1);
              count = on_gain count;
            } in
            let h : IsTurn start = record {
              curr = refl;
              next = refl;
              below = below;
              small = small;
              above = above;
              room = room;
              short = short;
            } in
            let r = grow-IsTurn (suc (suc (on_gain count + s.tries))) start h (omega arith) in
            let whole : u64 (r.0.skill.tries + r.0.count) ≡ r.0.skill.tries + r.0.count =
              omega (arith, r.2.small) in
            (
              put_tries req r.0,
              rw (more, add_skill_advance) (rw n (rw (r.1) refl)),
              omega (arith, r.3, whole),
              omega (arith, r.4, r.2.next, whole),
            )
      ]
