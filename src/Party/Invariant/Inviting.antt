-- ===== src/Party/Invariant/Inviting.antt =====
-- Joining, inviting, revoking and leaving keep the invariant.
use odirion_mmoserver.Base.{
  ℕ, ◌≡◌, refl, subst, ◌∙◌, inl, inr, Bool, true, false, some, [], ◌∷◌, ◌++◌, arith, if◌then◌else◌,
  Bool-cases,
}
use odirion_mmoserver.Party.Store.{Party, World, update, contains, erase, remove, points_to, store}
use odirion_mmoserver.Party.Operations.{disband, remove_invite, invite_player}
use odirion_mmoserver.Party.Lists.{
  contains-append, contains-remove, contains-erase, IsDistinct-erase, IsDistinct-snoc,
}
use odirion_mmoserver.Party.Invariant.{
  IsParty, IsAt, IsWorld, Others, Unseen, Others-Unseen, IsDoomed, disband-IsWorld, IsWorld-Others,
}
use odirion_mmoserver.Party.Invariant.Operations.{store-IsWorld}

module _ (w : World) (p player : ℕ) where
  inviting : World
  inviting = record w {
    invitations = update w.invitations player (
        if contains p (w.invitations player)
        then w.invitations player
        else p ∷ w.invitations player);
  }

  inviting-Unseen : Unseen w inviting p
  unfolding inviting contains
  inviting-Unseen = record {
    pointers = λ p' ne q. refl;
    holdings = λ p' ne q. ground arith;
    same_parties = λ p' ne. refl;
    same_next = refl;
  }

  inviting-IsParty :
      (party : Party)
      → contains player party.invite_list ≡ false
      → IsParty w p party
      → IsParty inviting p (record party { invite_list = party.invite_list ++ player ∷ [] })
  unfolding inviting contains
  inviting-IsParty party new h = record {
    members = h.members;
    invited = λ q.
        ground
          (arith, h.invited q, contains-append q party.invite_list (player ∷ []), h.invited player);
    leader_apart = h.leader_apart;
    distinct_members = h.distinct_members;
    distinct_invites = IsDistinct-snoc player party.invite_list new h.distinct_invites;
  }

  revoking : World
  revoking = record w {
    invitations = update w.invitations player (remove p (w.invitations player));
  }

  revoking-Unseen : Unseen w revoking p
  unfolding revoking
  revoking-Unseen = record {
    pointers = λ p' ne q. refl;
    holdings = λ p' ne q. ground (arith, contains-remove p' p (w.invitations q));
    same_parties = λ p' ne. refl;
    same_next = refl;
  }

  revoking-IsParty :
      (party : Party)
      → IsParty w p party
      → IsParty revoking p (record party { invite_list = erase player party.invite_list })
  unfolding revoking
  revoking-IsParty party h = record {
    members = h.members;
    invited = λ q. ground (
      arith,
      h.invited q,
      contains-erase q player party.invite_list h.distinct_invites,
      contains-remove p p (w.invitations q),
    );
    leader_apart = h.leader_apart;
    distinct_members = h.distinct_members;
    distinct_invites = IsDistinct-erase player party.invite_list h.distinct_invites;
  }

pub invite_player-IsWorld :
    (w : World) (p player : ℕ) (party : Party)
    → IsWorld w
    → Others w p
    → IsParty w p party
    → IsWorld (invite_player p player party w).1
unfolding invite_player
invite_player-IsWorld w p player party all o h =
    elim (Bool-cases (contains player party.invite_list)) [
      | inl y ↦ rw y all
      | inr n ↦ rw n (
          unfold inviting in
          store-IsWorld (inviting w p player) p _ (Others-Unseen p (inviting-Unseen w p player) o)
            (inviting-IsParty w p player party n h))
    ]

-- A party that agrees with its players can be deleted.
pub IsParty-IsDoomed : (w : World) (p : ℕ) (party : Party) → IsParty w p party → IsDoomed w p party
unfolding points_to
IsParty-IsDoomed w p party h = record {
  members = λ q e. h.members q ∙ e;
  no_others = λ q p' ne m. ground (arith, h.members q);
  invited = λ q e. h.invited q ∙ e;
}

stored : (w : World) (p : ℕ) (party : Party) → (store p party w).parties p ≡ some party
unfolding store
stored w p party = ground arith

-- `if (empty()) disband()`, or another reason to.
pub disband_if-IsWorld :
    (may_disband now : Bool) (p : ℕ) (party : Party) (w : World)
    → IsWorld (store p party w)
    → IsWorld (if now then disband may_disband p party (store p party w) else store p party w)
disband_if-IsWorld may_disband false p party w h = h
disband_if-IsWorld false true p party w h = unfold disband in h
disband_if-IsWorld true true p party w h =
    disband-IsWorld p party (store p party w) (IsWorld-Others p (stored w p party) h) (
      IsParty-IsDoomed (store p party w) p party
        (subst (IsAt (store p party w) p) (stored w p party) (h.each p)))

pub remove_invite-IsWorld :
    (may_disband : Bool) (w : World) (p player : ℕ) (party : Party)
    → IsWorld w
    → Others w p
    → IsParty w p party
    → IsWorld (remove_invite may_disband true p player party w).1
unfolding remove_invite
remove_invite-IsWorld may_disband w p player party all o h =
    elim (Bool-cases (contains player party.invite_list)) [
      | inr n ↦ rw n all
      | inl y ↦ rw y (
          unfold revoking in
          disband_if-IsWorld may_disband _ p _ (revoking w p player) (
            store-IsWorld (revoking w p player) p _ (Others-Unseen p (revoking-Unseen w p player) o)
              (revoking-IsParty w p player party h)))
    ]
