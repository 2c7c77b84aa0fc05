-- ===== src/Party/Invariant/Requests.antt =====
-- A new party, and every sequence of requests.
use odirion_mmoserver.Base.{
  ℕ, ◌≡◌, refl, sym, subst, inl, inr, true, false, not, ◌||◌, none, some, List, [], ◌∷◌, arith,
  ◌==◌, Bool-cases, Option-cases, All,
}
use native.Mathlib.Nat.{le_refl}
use odirion_mmoserver.Party.Store.{Party, World, Env, contains, points_to, store}
use odirion_mmoserver.Party.Operations.{
  leave_party, disband, without_player, pass_on, is_missing_leader, invite_player,
}
use odirion_mmoserver.Party.Handlers.{
  get_party, is_inviting, new_party, Request, invites, joins, revokes, passes, leaves, logs_out,
  enables, Answers, invite_to_party, handle, handle_all,
}
use odirion_mmoserver.Party.Invariant.{IsParty, IsAt, IsAt-transfer, IsWorld, Others, IsWorld-intro}
use odirion_mmoserver.Party.Invariant.Inviting.{invite_player-IsWorld}
use odirion_mmoserver.Party.Invariant.Leaving.{
  pass_on_missing, is_missing_leader-leader, without_player-SameLists, left,
}
use odirion_mmoserver.Party.Invariant.Handlers.{
  get_party-none, party_of_found, enable_shared-IsWorld, pass_leadership-IsWorld, revoke-IsWorld,
  leave-IsWorld, join-IsWorld,
}
use odirion_mmoserver.Party.Invariant.LoggingOut.{log_out-IsWorld}

-- A new party has its leader alone.
abbrev alone : ℕ → Party
alone leader = record {
  leader = leader;
  member_list = [];
  invite_list = [];
  ticks_map = [];
  shared_exp_active = false;
  shared_exp_enabled = false;
}

new_party-Others :
    (w : World) (leader : ℕ)
    → IsWorld w
    → w.party_of leader ≡ none
    → Others (new_party leader w) w.next_party
unfolding new_party points_to
new_party-Others w leader h free = record {
  each = λ p' ne.
      let same : w.parties p' ≡ (new_party leader w).parties p' = ground arith in
      subst (IsAt (new_party leader w) p') same (
        IsAt-transfer w (new_party leader w) p' (w.parties p') (λ q. ground arith) (λ q. refl)
          (h.each p'));
  fresh = λ p' le ne. ground (arith, h.fresh p');
  known = le_refl _;
}

new_party-IsParty :
    (w : World) (leader : ℕ) → IsWorld w → IsParty (new_party leader w) w.next_party (alone leader)
unfolding new_party points_to contains
new_party-IsParty w leader h =
    let nobody : IsAt w w.next_party none =
      subst (IsAt w w.next_party) (h.fresh w.next_party (le_refl _)) (h.each w.next_party) in
    record {
      members = λ q. ground (arith, (nobody q).0);
      invited = λ q. sym ((nobody q).1);
      leader_apart = refl;
      distinct_members = tt;
      distinct_invites = tt;
    }

new_party-stored :
    (w : World) (leader : ℕ) → (new_party leader w).parties w.next_party ≡ some (alone leader)
unfolding new_party
new_party-stored w leader = ground arith

invite_new-IsWorld :
    (w : World) (player invited : ℕ)
    → IsWorld w
    → w.party_of player ≡ none
    → IsWorld (invite_player w.next_party invited (alone player) (new_party player w)).1
invite_new-IsWorld w player invited h free =
    let o = new_party-Others w player h free in
    let i = new_party-IsParty w player h in
    let all =
      IsWorld-intro w.next_party o
        (subst (IsAt (new_party player w) w.next_party) (sym (new_party-stored w player)) i) in
    invite_player-IsWorld (new_party player w) w.next_party invited (alone player) all o i

invite_to_party-IsWorld :
    (w : World) (env : Env) (player invited : ℕ)
    → IsWorld w
    → IsWorld (invite_to_party env player invited w)
unfolding invite_to_party
invite_to_party-IsWorld w env player invited h =
    elim (Bool-cases
      (not (env.online player) || not (env.online invited) || is_inviting w invited player)) [
        | inl y ↦ rw y h
        | inr n ↦ rw n (elim (Option-cases (get_party w invited)) [
          | inr (other, e) ↦ rw e h
          | inl e ↦ rw e (elim (Option-cases (get_party w player)) [
            | inl f ↦
                rw (f, new_party-stored w player)
                  (invite_new-IsWorld w player invited h (get_party-none w player h f))
            | inr ((p, party), f) ↦ rw f (elim (Bool-cases (party.leader == player)) [
              | inr n' ↦ rw n' h
              | inl y ↦
                  let found = party_of_found w h player p party f in
                  rw y (invite_player-IsWorld w p invited party h (found.0) (found.1))
            ])
          ])
        ])
      ]

-- Every request keeps the invariant, if the event agrees whenever a party is to end.
handle-IsWorld :
    (env : Env) (answers : Answers) (r : Request) (w : World)
    → answers.may_disband ≡ true
    → IsWorld w
    → IsWorld (handle env answers r w)
unfolding handle
handle-IsWorld env answers (invites player invited) w agreed h =
    invite_to_party-IsWorld w env player invited h
handle-IsWorld env answers (joins player leader) w agreed h =
    join-IsWorld w h env answers player leader
handle-IsWorld env answers (revokes player invited) w agreed h =
    revoke-IsWorld w h env answers player invited
handle-IsWorld env answers (passes player new) w agreed h =
    pass_leadership-IsWorld w h env player new
handle-IsWorld env answers (leaves player) w agreed h = leave-IsWorld w h env answers player agreed
handle-IsWorld env answers (logs_out player) w agreed h =
    log_out-IsWorld env answers player w agreed h
handle-IsWorld env answers (enables player active) w agreed h =
    enable_shared-IsWorld w h env player active

-- Any sequence of requests and logouts, each with its own view of the players and its own answers of the
-- events, which let each party end that is to end, keeps it: exactly the leader and the members of a party point to it, exactly the invited hold it
-- as an invitation, nobody is listed twice, and no pointer is left to a party that was deleted.
pub handle_all-IsWorld :
    (requests : List (Env × Answers × Request)) (w : World)
    → All (λ r. r.1.may_disband ≡ true) requests
    → IsWorld w
    → IsWorld (handle_all requests w)
unfolding handle_all
handle_all-IsWorld [] w agreed h = h
handle_all-IsWorld ((env, answers, r) ∷ rest) w agreed h =
    handle_all-IsWorld rest (handle env answers r w) (agreed.1)
      (handle-IsWorld env answers r w (agreed.0) h)

missing_of_refused :
    (env : Env) (player : ℕ) (party : Party) (w : World) (p : ℕ)
    → points_to (w.party_of player) p ≡ true
    → is_missing_leader player party ≡ true
    → let w' = (leave_party env true false p player party w).1 in
      (w'.parties p ≡ some (without_player env player (pass_on env p w.party_of player party)))
      × (w'.party_of player ≡ none)
unfolding leave_party disband store
missing_of_refused env player party w p points missing =
    (rw (points, missing) (ground arith), rw (points, missing) (ground arith))

-- If the leader leaves a party of a world in which pointers and lists agree, nobody can lead on and the event
-- refuses the end of the party, then the party is kept with him as its leader, he points to no party, and
-- pointers and lists agree no more.
pub leave_party-refused :
    (env : Env) (player : ℕ) (party : Party) (w : World) (p : ℕ)
    → IsWorld w
    → w.parties p ≡ some party
    → is_missing_leader player party ≡ true
    → (rest : Party) × ((leave_party env true false p player party w).1.parties p ≡ some rest)
      × (rest.leader ≡ player)
      × ((leave_party env true false p player party w).1.party_of player ≡ none)
      × (¬ IsWorld (leave_party env true false p player party w).1)
unfolding points_to left
leave_party-refused env player party w p world here missing =
    let before : IsParty w p party = subst (IsAt w p) here (world.each p) in
    let leads = is_missing_leader-leader player party missing in
    let points : points_to (w.party_of player) p ≡ true =
      ground (arith, leads, before.members player) in
    let after = missing_of_refused env player party w p points missing in
    let rest = without_player env player (pass_on env p w.party_of player party) in
    let same = without_player-SameLists w p player env (pass_on env p w.party_of player party) in
    let passed = pass_on_missing w p player env party missing in
    let leader : rest.leader ≡ player = ground (arith, same.same_leader, passed, leads) in
    (
      rest,
      after.0,
      leader,
      after.1,
      λ h.
          let i : IsParty (leave_party env true false p player party w).1 p rest =
            subst (IsAt (leave_party env true false p player party w).1 p) (after.0) (h.each p) in
          ground (arith, i.members player, after.1, leader),
    )
