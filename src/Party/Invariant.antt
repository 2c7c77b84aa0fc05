-- ===== src/Party/Invariant.antt =====
-- The invariant of parties and players: pointers and lists agree, in both directions.
pub mod Operations
pub mod Joining
pub mod Inviting
pub mod Leaving
pub mod Handlers
pub mod LoggingOut
pub mod Requests
use odirion_mmoserver.Base.{
  ℕ, suc, ◌≤◌, ◌<◌, ◌≡◌, ◌≢◌, refl, sym, ap, subst, ◌∙◌, inl, inr, Bool, true, false, not, ◌&&◌,
  ◌||◌, Option, none, some, List, [], ◌∷◌, ◌++◌, arith, ◌==◌, if◌then◌else◌, Bool-cases,
  Option-cases, ==_iff,
}
use native.Mathlib.Decide.{ℕ_discrete, dec_le}
use odirion_mmoserver.Party.Store.{Party, World, update, contains, erase, remove, points_to, store}
use odirion_mmoserver.Party.Operations.{disband}
use odirion_mmoserver.Party.Lists.{IsDistinct, clear_parties_lem, remove_invitations_lem}

abbrev pub is_member : ℕ → Party → Bool
is_member q party = party.leader == q || contains q party.member_list

-- Exactly the leader and the members point to the party, exactly the invited hold it as an
-- invitation, and nobody is listed twice.
pub record IsParty (w : World) (p : ℕ) (party : Party) : Type 0 where
  pub members : (q : ℕ) → is_member q party ≡ points_to (w.party_of q) p
  pub invited : (q : ℕ) → contains q party.invite_list ≡ contains p (w.invitations q)
  pub leader_apart : contains party.leader party.member_list ≡ false
  pub distinct_members : IsDistinct party.member_list
  pub distinct_invites : IsDistinct party.invite_list

-- Nobody holds a pointer to a party that is not there.
abbrev pub IsAt : World → ℕ → Option Party → Type 0
IsAt w p none =
    (q : ℕ) → (points_to (w.party_of q) p ≡ false) × (contains p (w.invitations q) ≡ false)
IsAt w p (some party) = IsParty w p party

pub record IsWorld (w : World) : Type 0 where
  pub each : (p : ℕ) → IsAt w p (w.parties p)
  pub fresh : (p : ℕ) → w.next_party ≤ p → w.parties p ≡ none

-- All but one party.
pub record Others (w : World) (p : ℕ) : Type 0 where
  pub each : (p' : ℕ) → p ≢ p' → IsAt w p' (w.parties p')
  pub fresh : (p' : ℕ) → w.next_party ≤ p' → p ≢ p' → w.parties p' ≡ none
  pub known : suc p ≤ w.next_party

-- A change of the players that no other party can see.
pub record Unseen (w w' : World) (p : ℕ) : Type 0 where
  pub pointers :
      (p' : ℕ) → p ≢ p' → (q : ℕ) → points_to (w'.party_of q) p' ≡ points_to (w.party_of q) p'
  pub holdings :
      (p' : ℕ) → p ≢ p' → (q : ℕ) → contains p' (w'.invitations q) ≡ contains p' (w.invitations q)
  pub same_parties : (p' : ℕ) → p ≢ p' → w'.parties p' ≡ w.parties p'
  pub same_next : w'.next_party ≡ w.next_party

-- What holds of a party depends only on who points to it and who is invited by it.
pub IsAt-transfer :
    (w w' : World) (p : ℕ) (o : Option Party)
    → ((q : ℕ) → points_to (w'.party_of q) p ≡ points_to (w.party_of q) p)
    → ((q : ℕ) → contains p (w'.invitations q) ≡ contains p (w.invitations q))
    → IsAt w p o
    → IsAt w' p o
IsAt-transfer w w' p none pointers holdings h = λ q. (pointers q ∙ (h q).0, holdings q ∙ (h q).1)
IsAt-transfer w w' p (some party) pointers holdings h = record {
  members = λ q. h.members q ∙ sym (pointers q);
  invited = λ q. h.invited q ∙ sym (holdings q);
  leader_apart = h.leader_apart;
  distinct_members = h.distinct_members;
  distinct_invites = h.distinct_invites;
}

-- So it is with all parties, for worlds that differ only in the order in which invitations are held.
pub IsWorld-transfer :
    (w w' : World)
    → ((p : ℕ) → w'.parties p ≡ w.parties p)
    → w'.next_party ≡ w.next_party
    → ((p q : ℕ) → points_to (w'.party_of q) p ≡ points_to (w.party_of q) p)
    → ((p q : ℕ) → contains p (w'.invitations q) ≡ contains p (w.invitations q))
    → IsWorld w
    → IsWorld w'
IsWorld-transfer w w' parties next pointers holdings h = record {
  each = λ p.
      subst (IsAt w' p) (sym (parties p))
        (IsAt-transfer w w' p (w.parties p) (pointers p) (holdings p) (h.each p));
  fresh = λ p le. parties p ∙ h.fresh p (subst (λ n. n ≤ p) next le);
}

pub Others-Unseen : {w w' : World} (p : ℕ) → Unseen w w' p → Others w p → Others w' p
Others-Unseen {w} {w'} p u o = record {
  each = λ p' ne.
      subst (IsAt w' p') (sym (u.same_parties p' ne))
        (IsAt-transfer w w' p' (w.parties p') (u.pointers p' ne) (u.holdings p' ne) (o.each p' ne));
  fresh = λ p' le ne. u.same_parties p' ne ∙ o.fresh p' (subst (λ n. n ≤ p') (u.same_next) le) ne;
  known = rw (u.same_next) (o.known);
}

none-ne-some : {A : Type 0} {o : Option A} {a : A} → o ≡ some a → o ≡ none → ⊥
none-ne-some e f = cc

pub IsWorld-Others :
    {w : World} (p : ℕ) {party : Party} → w.parties p ≡ some party → IsWorld w → Others w p
IsWorld-Others {w} p e h = record {
  each = λ p' ne. h.each p';
  fresh = λ p' le ne. h.fresh p' le;
  known = elim (dec_le w.next_party p) [
    | yes le ↦ absurd (none-ne-some e (h.fresh p le))
    | no gt ↦ omega arith
  ];
}

-- The party itself and all the others.
pub IsWorld-intro : {w : World} (p : ℕ) → Others w p → IsAt w p (w.parties p) → IsWorld w
IsWorld-intro {w} p o h = record {
  each = λ p'. elim (ℕ_discrete p p') [
    | yes e ↦ subst (λ k. IsAt w k (w.parties k)) e h
    | no ne ↦ o.each p' ne
  ];
  fresh = λ p' le. elim (ℕ_discrete p p') [
    | yes e ↦ absurd (omega (arith, o.known))
    | no ne ↦ o.fresh p' le ne
  ];
}

-- A party that is about to be deleted: its lists name everybody who holds a pointer to it, and
-- nobody whom another party has.
pub record IsDoomed (w : World) (p : ℕ) (party : Party) : Type 0 where
  pub members : (q : ℕ) → points_to (w.party_of q) p ≡ true → is_member q party ≡ true
  pub no_others :
      (q p' : ℕ) → p ≢ p' → is_member q party ≡ true → points_to (w.party_of q) p' ≡ false
  pub invited : (q : ℕ) → contains p (w.invitations q) ≡ true → contains q party.invite_list ≡ true

disband-pointer :
    (p : ℕ) (party : Party) (w : World) (q p' : ℕ)
    → points_to ((disband true p party w).party_of q) p'
      ≡ (if is_member q party then false else points_to (w.party_of q) p')
unfolding disband points_to
disband-pointer p party w q p' =
    ground (arith, clear_parties_lem party.member_list (update w.party_of party.leader none) q)

disband-holding :
    (p : ℕ) (party : Party) (w : World) (q p' : ℕ)
    → contains p' ((disband true p party w).invitations q)
      ≡ (contains p' (w.invitations q) && not (p' == p && contains q party.invite_list))
unfolding disband
disband-holding p party w q p' = remove_invitations_lem p p' party.invite_list w.invitations q

-- Deleting such a party leaves no pointer to it.
pub disband-IsWorld :
    (p : ℕ) (party : Party) (w : World)
    → Others w p
    → IsDoomed w p party
    → IsWorld (disband true p party w)
disband-IsWorld p party w o d = IsWorld-intro p (Others-Unseen p unseen o) gone
  where
    w' : World
    w' = disband true p party w

    unseen : Unseen w w' p
    unseen = record {
      pointers = λ p' ne q. disband-pointer p party w q p' ∙ elim (Bool-cases (is_member q party)) [
        | inl y ↦ rw y (sym (d.no_others q p' ne y))
        | inr n ↦ rw n
      ];
      holdings = λ p' ne q. disband-holding p party w q p' ∙ ground arith;
      same_parties = λ p' ne. unfold disband in ground arith;
      same_next = unfold disband in refl;
    }

    no_pointer : (q : ℕ) → points_to (w'.party_of q) p ≡ false
    no_pointer q = disband-pointer p party w q p ∙ elim (Bool-cases (is_member q party)) [
      | inl y ↦ rw y
      | inr n ↦ rw n (ground (arith, d.members q))
    ]

    no_holding : (q : ℕ) → contains p (w'.invitations q) ≡ false
    no_holding q = disband-holding p party w q p ∙ ground (arith, d.invited q)

    emptied : none ≡ w'.parties p
    emptied = unfold disband in ground arith

    gone : IsAt w' p (w'.parties p)
    gone = subst (IsAt w' p) emptied (λ q. (no_pointer q, no_holding q))
