-- ===== src/Skill.antt =====
-- Skill tries: `addSkillAdvance` of player.cpp. What a level needs,
-- `getReqSkillTries` of the vocation, is computed with floats and is an argument.
pub mod Gains
mod Examples
use odirion_mmoserver.Base.{
  ℕ, zero, suc, ◌+◌, ◌^◌, Bool, true, false, Option, none, some, ltb, leb, ◌==◌, if◌then◌else◌, u16,
  u64, sub64,
}
use odirion_mmoserver.Character.{percent_level}

pub record Skill : Type 0 where
  pub level : ℕ
  pub tries : ℕ
  pub percent : ℕ

-- `currReqTries`, `nextReqTries`, the skill and the count that is left, in the loop.
pub record Turn : Type 0 where
  pub skill : Skill
  pub curr_req_tries : ℕ
  pub next_req_tries : ℕ
  pub count : ℕ

module _ (req : ℕ → ℕ) where
  -- A turn of the loop.
  unfoldable pub skill_up : Turn → Turn
  skill_up t =
      let level = u16 (t.skill.level + 1) in
      record {
        skill = record { level = level; tries = 0; percent = 0 };
        curr_req_tries = t.next_req_tries;
        next_req_tries = req (level + 1);
        count = sub64 t.count (sub64 t.next_req_tries t.skill.tries);
      }

  -- The loop of `addSkillAdvance`; the fuel bounds its turns.
  unfoldable pub grow : ℕ → Turn → Option Turn
  grow zero t = none
  grow (suc fuel) t = elim (leb t.next_req_tries (u64 (t.skill.tries + t.count))) [
    | false ↦ some t
    | true ↦
        let t' = skill_up t in
        elim (leb t'.next_req_tries t'.curr_req_tries) [
          | true ↦ some (record t' { count = 0 })
          | false ↦ grow fuel t'
        ]
  ]

  -- What follows the loop.
  unfoldable pub put_tries : Turn → Skill
  put_tries t =
      let tries = u64 (t.skill.tries + t.count) in
      record t.skill {
        tries = tries;
        percent =
            if ltb t.curr_req_tries t.next_req_tries
            then percent_level tries t.next_req_tries
            else 0;
      }

  -- `addSkillAdvance`; the first turn leaves at most the count and the tries together, and each later
  -- one takes at least one from them.
  unfoldable pub add_skill_advance : (ℕ → ℕ) → ℕ → Skill → Option Skill
  add_skill_advance on_gain count s =
      let curr = req s.level in
      let next = req (s.level + 1) in
      if leb next curr
      then some s
      else let granted = on_gain count in
        if granted == 0
        then some s
        else elim (grow (suc (suc (granted + s.tries)))
            (record { skill = s; curr_req_tries = curr; next_req_tries = next; count = granted })) [
              | none ↦ none
              | some t ↦ some (put_tries t)
            ]
