-- ===== src/Party/Invariant/Operations.antt =====
-- The operations of a party keep the invariant.
use odirion_mmoserver.Base.{
  ℕ, ◌≡◌, refl, subst, inl, inr, Bool, true, false, not, ◌||◌, some, ◌∷◌, arith, ◌==◌, Bool-cases,
}
use odirion_mmoserver.Party.Store.{Party, World, Env, contains, erase, points_to, store}
use odirion_mmoserver.Party.Experience.{
  update_shared_experience, clear_player_points, set_shared_experience,
}
use odirion_mmoserver.Party.Operations.{pass_party_leadership}
use odirion_mmoserver.Party.Lists.{contains-erase, erase-absent, IsDistinct-erase}
use odirion_mmoserver.Party.Invariant.{
  IsParty, IsAt, IsWorld, Others, Unseen, Others-Unseen, IsWorld-intro, IsDoomed,
}

-- Two parties with the same lists.
pub record SameLists (a b : Party) : Type 0 where
  pub same_leader : a.leader ≡ b.leader
  pub same_members : a.member_list ≡ b.member_list
  pub same_invites : a.invite_list ≡ b.invite_list

pub update_shared_experience-SameLists :
    (env : Env) (p : Party) → SameLists (update_shared_experience env p) p
unfolding update_shared_experience
update_shared_experience-SameLists env p = ground arith

pub clear_player_points-SameLists :
    (env : Env) (player : ℕ) (p : Party) → SameLists (clear_player_points env player p) p
unfolding clear_player_points update_shared_experience
clear_player_points-SameLists env player p = ground arith

pub set_shared_experience-SameLists :
    (env : Env) (player : ℕ) (active : Bool) (p : Party)
    → SameLists (set_shared_experience env player active p).1 p
unfolding set_shared_experience
set_shared_experience-SameLists env player active p = ground arith

pub IsParty-SameLists :
    {w : World} (p : ℕ) (a b : Party) → SameLists a b → IsParty w p b → IsParty w p a
IsParty-SameLists p a b s h = record {
  members = λ q. rw (s.same_leader, s.same_members) (h.members q);
  invited = λ q. rw (s.same_invites) (h.invited q);
  leader_apart = rw (s.same_leader, s.same_members) (h.leader_apart);
  distinct_members = rw (s.same_members) (h.distinct_members);
  distinct_invites = rw (s.same_invites) (h.distinct_invites);
}

pub store-Unseen : (w : World) (p : ℕ) (party : Party) → Unseen w (store p party w) p
unfolding store
store-Unseen w p party = record {
  pointers = λ p' ne q. refl;
  holdings = λ p' ne q. refl;
  same_parties = λ p' ne. ground arith;
  same_next = refl;
}

-- What is true of the players' pointers stays true when the party is stored.
pub store-IsDoomed :
    (w : World) (p : ℕ) (a b : Party) → SameLists a b → IsDoomed w p b → IsDoomed (store p a w) p a
unfolding store
store-IsDoomed w p a b s d = record {
  members = λ q e. rw (s.same_leader, s.same_members) (d.members q e);
  no_others = λ q p' ne m. d.no_others q p' ne (rw (s.same_leader, s.same_members) at m);
  invited = λ q e. rw (s.same_invites) (d.invited q e);
}

-- Storing a party that agrees with the players.
pub store-IsWorld :
    (w : World) (p : ℕ) (party : Party) → Others w p → IsParty w p party → IsWorld (store p party w)
store-IsWorld w p party o h =
    IsWorld-intro p (Others-Unseen p (store-Unseen w p party) o)
      (subst (IsAt w' p) stored (again h))
  where
    w' : World
    w' = store p party w

    stored : some party ≡ w'.parties p
    stored = unfold store in ground arith

    again : IsParty w p party → IsParty w' p party
    again h =
        unfold store in
        record {
          members = h.members;
          invited = h.invited;
          leader_apart = h.leader_apart;
          distinct_members = h.distinct_members;
          distinct_invites = h.distinct_invites;
        }

-- The new leader comes from the members, and the old one goes to them.
passed : ℕ → Party → Party
passed player party = record party {
  leader = player;
  member_list = party.leader ∷ erase player party.member_list;
}

passed-IsParty :
    {w : World} (p player : ℕ) (party : Party)
    → IsParty w p party
    → points_to (w.party_of player) p ≡ true
    → (party.leader == player) ≡ false
    → IsParty w p (passed player party)
unfolding passed contains
passed-IsParty {w} p player party h points other = record {
  members = λ q. ground (
    arith,
    h.members q,
    h.members player,
    contains-erase q player party.member_list h.distinct_members,
  );
  invited = h.invited;
  leader_apart = ground (arith, contains-erase player player party.member_list h.distinct_members);
  distinct_members = (
    erase-absent party.leader player party.member_list (h.leader_apart),
    IsDistinct-erase player party.member_list h.distinct_members,
  );
  distinct_invites = h.distinct_invites;
}

pub pass_party_leadership-IsParty :
    {w : World} (env : Env) (p player : ℕ) (party : Party)
    → IsParty w p party
    → IsParty w p (pass_party_leadership env p w.party_of player party).1
unfolding pass_party_leadership
pass_party_leadership-IsParty {w} env p player party h =
    elim (Bool-cases (party.leader == player || not (points_to (w.party_of player) p))) [
      | inl y ↦ rw y h
      | inr n ↦ rw n (
          IsParty-SameLists p _ (passed player party)
            (unfold passed in update_shared_experience-SameLists env _)
            (passed-IsParty p player party h (ground arith) (ground arith)))
    ]
