-- ===== src/Party/Invariant/Handlers.antt =====
-- Every request of a client keeps the invariant.
use odirion_mmoserver.Base.{
  ℕ, ◌≡◌, subst, inl, inr, Bool, true, not, ◌||◌, none, some, arith, ◌==◌, Bool-cases, Option-cases,
}
use odirion_mmoserver.Party.Store.{Party, World, Env, points_to}
use odirion_mmoserver.Party.Handlers.{
  get_party, is_inviting, is_partner, Answers, join, revoke_party_invitation, pass_leadership,
  leave, enable_shared,
}
use odirion_mmoserver.Party.Invariant.{IsParty, IsAt, IsWorld, Others, IsWorld-Others}
use odirion_mmoserver.Party.Invariant.Operations.{
  set_shared_experience-SameLists, IsParty-SameLists, store-IsWorld, pass_party_leadership-IsParty,
}
use odirion_mmoserver.Party.Invariant.Joining.{join_party-IsWorld}
use odirion_mmoserver.Party.Invariant.Inviting.{remove_invite-IsWorld}
use odirion_mmoserver.Party.Invariant.Leaving.{leave_party-IsWorld}

-- The party that a player's pointer leads to.
pub record Found (w : World) (player p : ℕ) (party : Party) : Type 0 where
  pub there : w.parties p ≡ some party
  pub points : points_to (w.party_of player) p ≡ true

get_party-Found :
    (w : World) (player p : ℕ) (party : Party)
    → get_party w player ≡ some (p, party)
    → Found w player p party
unfolding get_party points_to
get_party-Found w player p party e = ground arith

-- A player for whom no party is found points to none.
pub get_party-none :
    (w : World) (player : ℕ) → IsWorld w → get_party w player ≡ none → w.party_of player ≡ none
unfolding get_party points_to
get_party-none w player h e = elim (Option-cases (w.party_of player)) [
  | inl free ↦ free
  | inr (p, here) ↦
      let gone : w.parties p ≡ none = ground arith in
      let nobody : IsAt w p none = subst (IsAt w p) gone (h.each p) in
      ground (arith, (nobody player).0)
]

module _ (w : World) (h : IsWorld w) where
  pub party_of_found :
      (player p : ℕ) (party : Party)
      → get_party w player ≡ some (p, party)
      → Others w p × IsParty w p party
  party_of_found player p party e =
      let found = get_party-Found w player p party e in
      (IsWorld-Others p (found.there) h, subst (IsAt w p) (found.there) (h.each p))

  -- What a handler does for the party that it found.
  pub with_party :
      (f : ℕ → Party → World) (player : ℕ)
      → ((p : ℕ) (party : Party)
          → Found w player p party
          → Others w p
          → IsParty w p party
          → IsWorld (f p party))
      → IsWorld (elim (get_party w player) [ none ↦ w | some (p, party) ↦ f p party ])
  with_party f player keeps = elim (Option-cases (get_party w player)) [
    | inl e ↦ rw e h
    | inr ((p, party), e) ↦
        let found = party_of_found player p party e in
        rw e (keeps p party (get_party-Found w player p party e) (found.0) (found.1))
  ]

  pub enable_shared-IsWorld :
      (env : Env) (player : ℕ) (active : Bool) → IsWorld (enable_shared env player active w)
  unfolding enable_shared
  enable_shared-IsWorld env player active = with_party _ player λ p party found o i.
      elim (Bool-cases (not (env.online player) || env.in_fight player)) [
        | inl y ↦ rw y h
        | inr n ↦ rw n (
            store-IsWorld w p _ o (
              IsParty-SameLists p _ party (set_shared_experience-SameLists env player active party)
                i))
      ]

  pub pass_leadership-IsWorld :
      (env : Env) (player new : ℕ) → IsWorld (pass_leadership env player new w)
  unfolding pass_leadership
  pass_leadership-IsWorld env player new = with_party _ player λ p party found o i.
      elim (Bool-cases (
        not (env.online player)
        || not (party.leader == player)
        || not (env.online new)
        || not (is_partner w player new))) [
          | inl y ↦ rw y h
          | inr n ↦ rw n (store-IsWorld w p _ o (pass_party_leadership-IsParty env p new party i))
        ]

  pub revoke-IsWorld :
      (env : Env) (answers : Answers) (player invited : ℕ)
      → IsWorld (revoke_party_invitation env answers player invited w)
  unfolding revoke_party_invitation
  revoke-IsWorld env answers player invited = with_party _ player λ p party found o i.
      elim (Bool-cases (
        not (env.online player)
        || not (party.leader == player)
        || not (env.online invited)
        || not (is_inviting w player invited))) [
          | inl y ↦ rw y h
          | inr n ↦ rw n (remove_invite-IsWorld answers.may_disband w p invited party h o i)
        ]

  pub leave-IsWorld :
      (env : Env) (answers : Answers) (player : ℕ)
      → answers.may_disband ≡ true
      → IsWorld (leave env answers player w)
  unfolding leave
  leave-IsWorld env answers player agreed = with_party _ player λ p party found o i.
      elim (Bool-cases (not (env.online player) || env.in_fight player)) [
        | inl y ↦ rw y h
        | inr n ↦
            rw (n, agreed)
              (leave_party-IsWorld env answers.may_leave w p player party h o i (found.points))
      ]

  pub join-IsWorld :
      (env : Env) (answers : Answers) (player leader : ℕ)
      → IsWorld (join env answers player leader w)
  unfolding join
  join-IsWorld env answers player leader =
      elim (Bool-cases
        (not (env.online player) || not (env.online leader) || not (is_inviting w leader player))) [
          | inl y ↦ rw y h
          | inr n ↦ rw n (
              with_party _ leader λ p party found o i.
                elim (Bool-cases (not (party.leader == leader))) [
                  | inl y ↦ rw y h
                  | inr n' ↦ rw n' (elim (Option-cases (get_party w player)) [
                    | inr (other, e) ↦ rw e h
                    | inl e ↦ rw e (
                        join_party-IsWorld env answers.may_join w p player party h o i
                          (get_party-none w player h e))
                  ])
                ])
        ]
