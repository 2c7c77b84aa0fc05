-- ===== src/Party/Invariant/Joining.antt =====
-- Joining, inviting, revoking and leaving keep the invariant.
use odirion_mmoserver.Base.{
  ℕ, ◌≡◌, refl, inl, inr, Bool, not, ◌||◌, none, some, [], ◌∷◌, ◌++◌, arith, Bool-cases,
}
use odirion_mmoserver.Party.Store.{Party, World, Env, update, contains, erase, remove, points_to}
use odirion_mmoserver.Party.Experience.{update_shared_experience}
use odirion_mmoserver.Party.Operations.{join_party}
use odirion_mmoserver.Party.Lists.{
  contains-append, contains-remove, contains-erase, IsDistinct-erase, IsDistinct-snoc,
}
use odirion_mmoserver.Party.Invariant.{IsParty, IsWorld, Others, Unseen, Others-Unseen}
use odirion_mmoserver.Party.Invariant.Operations.{
  update_shared_experience-SameLists, IsParty-SameLists, store-IsWorld,
}

module _ (w : World) (p player : ℕ) where
  joining : World
  joining = record w {
    party_of = update w.party_of player (some p);
    invitations = update w.invitations player (remove p (w.invitations player));
  }

  joined : Party → Party
  joined party = record party {
    invite_list = erase player party.invite_list;
    member_list = party.member_list ++ player ∷ [];
  }

  joining-Unseen : w.party_of player ≡ none → Unseen w joining p
  unfolding joining points_to
  joining-Unseen free = record {
    pointers = λ p' ne q. ground arith;
    holdings = λ p' ne q. ground (arith, contains-remove p' p (w.invitations q));
    same_parties = λ p' ne. refl;
    same_next = refl;
  }

  joined-IsParty :
      (party : Party)
      → w.party_of player ≡ none
      → IsParty w p party
      → IsParty joining p (joined party)
  unfolding joining joined points_to contains
  joined-IsParty party free h = record {
    members = λ q.
        ground
          (arith, h.members q, contains-append q party.member_list (player ∷ []), h.members player);
    invited = λ q. ground (
      arith,
      h.invited q,
      contains-erase q player party.invite_list h.distinct_invites,
      contains-remove p p (w.invitations q),
    );
    leader_apart = ground (
      arith,
      h.leader_apart,
      contains-append party.leader party.member_list (player ∷ []),
      h.members player,
    );
    distinct_members =
        IsDistinct-snoc player party.member_list (ground (arith, h.members player))
          h.distinct_members;
    distinct_invites = IsDistinct-erase player party.invite_list h.distinct_invites;
  }

pub join_party-IsWorld :
    (env : Env) (may_join : Bool) (w : World) (p player : ℕ) (party : Party)
    → IsWorld w
    → Others w p
    → IsParty w p party
    → w.party_of player ≡ none
    → IsWorld (join_party env may_join p player party w).1
unfolding join_party
join_party-IsWorld env may_join w p player party all o h free =
    elim (Bool-cases (not may_join || not (contains player party.invite_list))) [
      | inl y ↦ rw y all
      | inr n ↦ rw n (
          unfold joining joined in
          store-IsWorld (joining w p player) p
            (update_shared_experience env (joined w p player party))
            (Others-Unseen p (joining-Unseen w p player free) o)
            (IsParty-SameLists p _ _
              (update_shared_experience-SameLists env (joined w p player party))
              (joined-IsParty w p player party free h)))
    ]
