-- ===== src/Party/Invariant/LoggingOut.antt =====
-- A player who leaves the game.
use odirion_mmoserver.Base.{
  ℕ, ◌≡◌, refl, sym, ap, subst, ◌∙◌, inl, inr, Bool, true, false, not, none, some, List, [], ◌∷◌,
  arith, if◌then◌else◌, Bool-cases, Option-cases,
}
use odirion_mmoserver.Party.Store.{Party, World, Env, update, contains, erase, remove, store}
use odirion_mmoserver.Party.Operations.{
  empty, disband, remove_invite, remove_from_parties, clear_party_invitations, leave_party,
}
use odirion_mmoserver.Party.Handlers.{Answers, log_out}
use odirion_mmoserver.Party.Lists.{contains-remove, remove_invitations_lem}
use odirion_mmoserver.Party.Invariant.{IsParty, IsAt, IsWorld, IsWorld-transfer, IsWorld-Others}
use odirion_mmoserver.Party.Invariant.Handlers.{with_party}
use odirion_mmoserver.Party.Invariant.Inviting.{remove_invite-IsWorld}
use odirion_mmoserver.Party.Invariant.Leaving.{leave_party-IsWorld}

module _ (player : ℕ) where
  -- The world in which the player holds these invitations.
  holding : List ℕ → World → World
  holding ps w = record w { invitations = update w.invitations player ps }

  -- What becomes of a party without the invitation, for the code's world and for one in which the player has
  -- dropped it at once.
  abbrev after : Bool → Bool → ℕ → Party → World → World
  after may_disband now p rest w =
      if now then disband may_disband p rest (store p rest w) else store p rest w

  after-IsWorld :
      (may_disband now : Bool) (p : ℕ) (rest : Party) (ps qs : List ℕ) (w : World)
      → contains p qs ≡ false
      → IsWorld (after may_disband now p rest (holding qs (holding ps w)))
      → IsWorld (holding qs (after may_disband now p rest w))
  unfolding holding disband store
  after-IsWorld may_disband false p rest ps qs w gone h =
      IsWorld-transfer _ (holding qs (after may_disband false p rest w)) (λ q. refl) refl
        (λ q k. refl) (λ q k. ground arith) h
  after-IsWorld false true p rest ps qs w gone h =
      IsWorld-transfer _ (holding qs (after false true p rest w)) (λ q. refl) refl (λ q k. refl)
        (λ q k. ground arith) h
  after-IsWorld true true p rest ps qs w gone h =
      IsWorld-transfer _ (holding qs (after true true p rest w)) (λ q. refl) refl (λ q k. refl)
        (λ q k. ground (
          arith,
          gone,
          remove_invitations_lem p q rest.invite_list w.invitations k,
          remove_invitations_lem p q rest.invite_list (holding qs (holding ps w)).invitations k,
        ))
        h

  -- A party that is not there is not held, and none that does not list the player.
  unheld :
      (p : ℕ) (ps : List ℕ) (w : World)
      → contains p ps ≡ false
      → IsWorld (holding ps w)
      → IsWorld (holding (remove p ps) w)
  unfolding holding
  unheld p ps w gone h =
      IsWorld-transfer (holding ps w) (holding (remove p ps) w) (λ q. refl) refl (λ q k. refl)
        (λ q k. ground (arith, gone, contains-remove q p ps)) h

  held : (ps : List ℕ) (w : World) → (holding ps w).invitations player ≡ ps
  unfolding holding
  held ps w = ground arith

  -- The player without the invitation of the party that the loop has come to.
  remove_invite-kept :
      (may_disband : Bool) (p : ℕ) (party : Party) (ps : List ℕ) (w : World)
      → w.parties p ≡ some party
      → IsWorld (holding ps w)
      → IsWorld (holding (remove p ps) (remove_invite may_disband false p player party w).1)
  unfolding remove_invite holding
  remove_invite-kept may_disband p party ps w here h =
      let i : IsParty (holding ps w) p party = subst (IsAt (holding ps w) p) here (h.each p) in
      elim (Bool-cases (contains player party.invite_list)) [
        | inr n ↦
            rw n (unheld p ps w (sym (ap (contains p) (held ps w)) ∙ sym (i.invited player) ∙ n) h)
        | inl y ↦
            let rest = record party { invite_list = erase player party.invite_list } in
            let whole =
              remove_invite-IsWorld may_disband (holding ps w) p player party h
                (IsWorld-Others p here h) i in
            let dropped : IsWorld (
                after may_disband (empty rest) p rest
                  (holding (remove p ((holding ps w).invitations player)) (holding ps w))) =
              subst
                (λ b.
                  IsWorld
                    (if◌then◌else◌ {A = Bool × World} (not b) (false, holding ps w)
                      (
                        true,
                        after may_disband (empty rest) p rest
                            (holding (remove p ((holding ps w).invitations player)) (holding ps w)),
                      )).1)
                y whole in
            rw y (
              after-IsWorld may_disband (empty rest) p rest ps (remove p ps) w
                (ground (arith, contains-remove p p ps))
                (subst
                  (λ xs.
                    IsWorld (
                      after may_disband (empty rest) p rest (holding (remove p xs) (holding ps w))))
                  (held ps w) dropped))
      ]

  remove_from_parties-IsWorld :
      (may_disband : Bool) (ps rs : List ℕ) (w : World)
      → ((p : ℕ) → contains p rs ≡ true → contains p ps ≡ true)
      → IsWorld (holding rs w)
      → IsWorld (holding [] (remove_from_parties may_disband player ps w))
  unfolding remove_from_parties holding contains
  remove_from_parties-IsWorld may_disband [] rs w within h =
      IsWorld-transfer (holding rs w) (holding [] w) (λ q. refl) refl (λ q k. refl)
        (λ q k. let none_left = within q in ground (arith, none_left)) h
  remove_from_parties-IsWorld may_disband (p ∷ ps) rs w within h =
      let fewer : (q : ℕ) → contains q (remove p rs) ≡ true → contains q ps ≡ true =
        λ q e. let known = within q in ground (arith, contains-remove q p rs, known, e) in
      elim (Option-cases (w.parties p)) [
        | inl gone ↦
            let nobody : IsAt (holding rs w) p none =
              subst (IsAt (holding rs w) p) gone (h.each p) in
            rw (gone, remove_from_parties)
              (remove_from_parties-IsWorld may_disband ps (remove p rs) w fewer
                (unheld p rs w (sym (ap (contains p) (held rs w)) ∙ (nobody player).1) h))
        | inr (party, here) ↦
            rw (here, remove_from_parties)
              (remove_from_parties-IsWorld may_disband ps (remove p rs)
                (remove_invite may_disband false p player party w).1 fewer
                (remove_invite-kept may_disband p party rs w here h))
      ]

  clear_party_invitations-IsWorld :
      (may_disband : Bool) (w : World)
      → IsWorld w
      → IsWorld (clear_party_invitations may_disband player w)
  unfolding clear_party_invitations holding
  clear_party_invitations-IsWorld may_disband w h =
      remove_from_parties-IsWorld may_disband (w.invitations player) (w.invitations player) w
        (λ p e. e)
        (IsWorld-transfer w (holding (w.invitations player) w) (λ q. refl) refl (λ q k. refl)
          (λ q k. ground arith) h)

-- A player who leaves the game leaves no pointer to him in a party, and no party in him.
pub log_out-IsWorld :
    (env : Env) (answers : Answers) (player : ℕ) (w : World)
    → answers.may_disband ≡ true
    → IsWorld w
    → IsWorld (log_out env answers player w)
unfolding log_out
log_out-IsWorld env answers player w agreed h =
    let w' = clear_party_invitations answers.may_disband player w in
    let h' = clear_party_invitations-IsWorld player answers.may_disband w h in
    with_party w' h' _ player (λ p party found o i.
      subst (λ d. IsWorld (leave_party env answers.may_leave d p player party w').1) (sym agreed)
        (leave_party-IsWorld env answers.may_leave w' p player party h' o i found.points))
