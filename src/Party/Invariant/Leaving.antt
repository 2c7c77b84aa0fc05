-- ===== src/Party/Invariant/Leaving.antt =====
-- Joining, inviting, revoking and leaving keep the invariant.
use odirion_mmoserver.Base.{
  ℕ, ◌≡◌, refl, sym, subst, ◌∙◌, inl, inr, Bool, true, false, none, List, [], ◌∷◌, arith, ◌==◌,
  if◌then◌else◌, Bool-cases,
}
use odirion_mmoserver.Party.Store.{
  Party, World, Env, update, contains, erase, is_empty, points_to, store,
}
use odirion_mmoserver.Party.Experience.{update_shared_experience}
use odirion_mmoserver.Party.Operations.{
  empty, disband, pass_party_leadership, is_missing_leader, pass_to_front, pass_on, without_player,
  leave_party,
}
use odirion_mmoserver.Party.Lists.{contains-erase, erase-absent, IsDistinct-erase}
use odirion_mmoserver.Party.Invariant.{
  is_member, IsParty, IsWorld, Others, Unseen, Others-Unseen, IsDoomed, disband-IsWorld,
}
use odirion_mmoserver.Party.Invariant.Operations.{
  SameLists, update_shared_experience-SameLists, clear_player_points-SameLists, IsParty-SameLists,
  store-IsWorld, store-Unseen, store-IsDoomed, pass_party_leadership-IsParty,
}
use odirion_mmoserver.Party.Invariant.Inviting.{disband_if-IsWorld}

module _ (w : World) (p player : ℕ) where
  leaving : World
  leaving = record w { party_of = update w.party_of player none }

  unfoldable pub left : Party → Party
  left party = record party { member_list = erase player party.member_list }

  leaving-Unseen : (points_to (w.party_of player) p ≡ true) → Unseen w leaving p
  unfolding leaving points_to
  leaving-Unseen points = record {
    pointers = λ p' ne q. ground arith;
    holdings = λ p' ne q. refl;
    same_parties = λ p' ne. refl;
    same_next = refl;
  }

  -- A member who is not the leader leaves.
  left-IsParty :
      (party : Party)
      → (party.leader == player) ≡ false
      → IsParty w p party
      → IsParty leaving p (left party)
  unfolding leaving left points_to
  left-IsParty party other h = record {
    members = λ q.
        ground (arith, h.members q, contains-erase q player party.member_list h.distinct_members);
    invited = h.invited;
    leader_apart = erase-absent party.leader player party.member_list h.leader_apart;
    distinct_members = IsDistinct-erase player party.member_list h.distinct_members;
    distinct_invites = h.distinct_invites;
  }

  -- The leader leaves a party that is about to be deleted.
  left-IsDoomed :
      (party : Party)
      → (party.leader == player) ≡ true
      → IsParty w p party
      → IsDoomed leaving p (left party)
  unfolding leaving left points_to
  left-IsDoomed party same h = record {
    members = λ q e.
        ground (arith, h.members q, contains-erase q player party.member_list h.distinct_members);
    no_others = λ q p' ne m.
        ground (arith, h.members q, contains-erase q player party.member_list h.distinct_members);
    invited = λ q e. h.invited q ∙ e;
  }

  pub without_player-SameLists :
      (env : Env) (party : Party) → SameLists (without_player env player party) (left party)
  unfolding without_player left
  without_player-SameLists env party =
      let a = clear_player_points-SameLists env player (
        update_shared_experience env
          (record party { member_list = erase player party.member_list })) in
      let b =
        update_shared_experience-SameLists env
          (record party { member_list = erase player party.member_list }) in
      record {
        same_leader = a.same_leader ∙ b.same_leader;
        same_members = a.same_members ∙ b.same_members;
        same_invites = a.same_invites ∙ b.same_invites;
      }

  -- The first member is not the leader, so he leads afterwards.
  pass_to_front-leader :
      (env : Env) (m : ℕ) (ms : List ℕ) (party : Party)
      → party.member_list ≡ m ∷ ms
      → (party.leader == player) ≡ true
      → IsParty w p party
      → ((pass_party_leadership env p w.party_of m party).1.leader == player) ≡ false
  unfolding pass_party_leadership update_shared_experience contains
  pass_to_front-leader env m ms party e same h =
      let apart : contains party.leader (m ∷ ms) ≡ false = rw e at (h.leader_apart) in
      let points : is_member m party ≡ points_to (w.party_of m) p = h.members m in
      let listed : contains m party.member_list ≡ true = rw e (ground arith) in ground arith

  pass_to_front_lem :
      (env : Env) (ms : List ℕ) (party : Party)
      → party.member_list ≡ ms
      → is_empty ms ≡ false
      → (party.leader == player) ≡ true
      → IsParty w p party
      → IsParty w p (pass_to_front env p w.party_of ms party)
        × (((pass_to_front env p w.party_of ms party).leader == player) ≡ false)
  unfolding pass_to_front is_empty
  pass_to_front_lem env [] party e some_left same h = cc
  pass_to_front_lem env (m ∷ ms) party e some_left same h =
      (pass_party_leadership-IsParty env p m party h, pass_to_front-leader env m ms party e same h)

  not_empty_of_present :
      (party : Party)
      → (party.leader == player) ≡ true
      → is_missing_leader player party ≡ false
      → is_empty party.member_list ≡ false
  unfolding is_missing_leader is_empty
  not_empty_of_present party same present = ground arith

  -- Where somebody can lead on, he does.
  pass_on_lem :
      (env : Env) (party : Party)
      → is_missing_leader player party ≡ false
      → IsParty w p party
      → IsParty w p (pass_on env p w.party_of player party)
        × (((pass_on env p w.party_of player party).leader == player) ≡ false)
  unfolding pass_on
  pass_on_lem env party present h = elim (Bool-cases (party.leader == player)) [
    | inl y ↦
        rw (y, present, pass_on)
          (pass_to_front_lem env party.member_list party refl (not_empty_of_present party y present)
            y h)
    | inr n ↦ rw (n, pass_on) (h, n)
  ]

pub pass_on_missing :
    (w : World) (p player : ℕ) (env : Env) (party : Party)
    → is_missing_leader player party ≡ true
    → pass_on env p w.party_of player party ≡ party
unfolding pass_on
pass_on_missing w p player env party missing = ground arith

pub is_missing_leader-leader :
    (player : ℕ) (party : Party)
    → is_missing_leader player party ≡ true
    → (party.leader == player) ≡ true
unfolding is_missing_leader
is_missing_leader-leader player party e = ground arith

-- A player who points to his party leaves it, by whichever way. If the leader leaves and nobody can
-- lead on, the event must agree to the end of the party.
pub leave_party-IsWorld :
    (env : Env) (may_leave : Bool) (w : World) (p player : ℕ) (party : Party)
    → IsWorld w
    → Others w p
    → IsParty w p party
    → points_to (w.party_of player) p ≡ true
    → IsWorld (leave_party env may_leave true p player party w).1
unfolding leave_party
leave_party-IsWorld env may_leave w p player party all o h points = elim (Bool-cases may_leave) [
  | inr n ↦ rw (points, n) all
  | inl y ↦
      rw (points, y)
        (elim (Bool-cases (is_missing_leader player party)) [
          | inl missing ↦ rw missing (unfold leaving in ended missing)
          | inr present ↦ rw present (unfold leaving in goes_on present)
        ])
]
  where
    w' : World
    w' = leaving w p player

    rest : Party
    rest = without_player env player (pass_on env p w.party_of player party)

    others : Others w' p
    others = Others-Unseen p (leaving-Unseen w p player points) o

    same : SameLists rest (left w p player (pass_on env p w.party_of player party))
    same = without_player-SameLists w p player env (pass_on env p w.party_of player party)

    ended : is_missing_leader player party ≡ true → IsWorld (disband true p rest (store p rest w'))
    ended missing =
        disband-IsWorld p rest (store p rest w') (Others-Unseen p (store-Unseen w' p rest) others) (
          store-IsDoomed w' p rest _ same (
            subst (λ a. IsDoomed w' p (left w p player a))
              (sym (pass_on_missing w p player env party missing))
              (left-IsDoomed w p player party (is_missing_leader-leader player party missing) h)))

    goes_on :
        is_missing_leader player party ≡ false
        → IsWorld (if empty rest then disband true p rest (store p rest w') else store p rest w')
    goes_on present =
        let r = pass_on_lem w p player env party present h in
        disband_if-IsWorld true (empty rest) p rest w' (
          store-IsWorld w' p rest others
            (IsParty-SameLists p rest _ same (left-IsParty w p player _ (r.1) (r.0))))
