-- ===== src/Party/Operations.antt =====
-- The operations of a party on itself and on its players.
use odirion_mmoserver.Base.{
  ℕ, Bool, true, false, not, ◌&&◌, ◌||◌, Option, none, some, List, [], ◌∷◌, ◌++◌, ◌==◌,
  if◌then◌else◌,
}
use odirion_mmoserver.Party.Store.{
  Party, World, Env, update, contains, erase, remove, is_empty, points_to, store,
}
use odirion_mmoserver.Party.Experience.{update_shared_experience, clear_player_points}

-- The pointers of players to parties, for a list of players.
unfoldable pub clear_parties : List ℕ → (ℕ → Option ℕ) → ℕ → Option ℕ
clear_parties [] f = f
clear_parties (m ∷ ms) f = clear_parties ms (update f m none)

unfoldable pub remove_invitations : ℕ → List ℕ → (ℕ → List ℕ) → ℕ → List ℕ
remove_invitations p [] f = f
remove_invitations p (i ∷ is) f = remove_invitations p is (update f i (remove p (f i)))

-- `disband`, where `agreed` is the event's answer; the party is deleted.
unfoldable pub disband : Bool → ℕ → Party → World → World
disband agreed p party w = if not agreed then w else record w {
  parties = update w.parties p none;
  party_of = clear_parties party.member_list (update w.party_of party.leader none);
  invitations = remove_invitations p party.invite_list w.invitations;
}

unfoldable pub empty : Party → Bool
empty party = is_empty party.member_list && is_empty party.invite_list

-- `passPartyLeadership`; `party_of` is read for its guard.
unfoldable pub pass_party_leadership : Env → ℕ → (ℕ → Option ℕ) → ℕ → Party → Bool × Party
pass_party_leadership env p party_of player party =
    if party.leader == player || not (points_to (party_of player) p) then (false, party) else (
      true,
      update_shared_experience env (record party {
        leader = player;
        member_list = party.leader ∷ erase player party.member_list;
      }),
    )

-- The leader leaves, and there is nobody to lead on.
unfoldable pub is_missing_leader : ℕ → Party → Bool
is_missing_leader player party =
    party.leader == player
    && elim party.member_list [ [] ↦ true | m ∷ ms ↦ is_empty ms && is_empty party.invite_list ]

-- `passPartyLeadership(memberList.front())`.
unfoldable pub pass_to_front : Env → ℕ → (ℕ → Option ℕ) → List ℕ → Party → Party
pass_to_front env p party_of [] party = party
pass_to_front env p party_of (m ∷ ms) party = (pass_party_leadership env p party_of m party).1

-- The party after the leader, if it is he who leaves, has passed the leadership on.
unfoldable pub pass_on : Env → ℕ → (ℕ → Option ℕ) → ℕ → Party → Party
pass_on env p party_of player party =
    if party.leader == player && not (is_missing_leader player party)
    then pass_to_front env p party_of party.member_list party
    else party

-- The party without the player.
unfoldable pub without_player : Env → ℕ → Party → Party
without_player env player party =
    clear_player_points env player
      (update_shared_experience env (record party { member_list = erase player party.member_list }))

-- `leaveParty`; `may_leave` and `may_disband` are the answers of the events.
unfoldable pub leave_party : Env → Bool → Bool → ℕ → ℕ → Party → World → Bool × World
leave_party env may_leave may_disband p player party w =
    if not (points_to (w.party_of player) p) && not (party.leader == player)
    then (false, w)
    else if not may_leave
    then (false, w)
    else let rest = without_player env player (pass_on env p w.party_of player party) in
      let w' = store p rest (record w { party_of = update w.party_of player none }) in
      (
        true,
        if is_missing_leader player party || empty rest then disband may_disband p rest w' else w',
      )

unfoldable pub join_party : Env → Bool → ℕ → ℕ → Party → World → Bool × World
join_party env may_join p player party w =
    if not may_join || not (contains player party.invite_list) then (false, w) else (
      true,
      store p
          (update_shared_experience env (record party {
            invite_list = erase player party.invite_list;
            member_list = party.member_list ++ player ∷ [];
          }))
          (record w {
            party_of = update w.party_of player (some p);
            invitations = update w.invitations player (remove p (w.invitations player));
          }),
    )

unfoldable pub remove_invite : Bool → Bool → ℕ → ℕ → Party → World → Bool × World
remove_invite may_disband remove_from_player p player party w =
    if not (contains player party.invite_list)
    then (false, w)
    else let rest = record party { invite_list = erase player party.invite_list } in
      let w' = store p rest (
        if remove_from_player
        then record w {
          invitations = update w.invitations player (remove p (w.invitations player));
        }
        else w) in
      (true, if empty rest then disband may_disband p rest w' else w')

-- The loop of `clearPartyInvitations`. A party that is not there is passed over: the code meets none, since
-- each invitation is held once.
unfoldable pub remove_from_parties : Bool → ℕ → List ℕ → World → World
remove_from_parties may_disband player [] w = w
remove_from_parties may_disband player (p ∷ ps) w =
    remove_from_parties may_disband player ps (elim (w.parties p) [
      | none ↦ w
      | some party ↦ (remove_invite may_disband false p player party w).1
    ])

-- `clearPartyInvitations`.
unfoldable pub clear_party_invitations : Bool → ℕ → World → World
clear_party_invitations may_disband player w =
    let w' = remove_from_parties may_disband player (w.invitations player) w in
    record w' { invitations = update w'.invitations player [] }

unfoldable pub invite_player : ℕ → ℕ → Party → World → Bool × World
invite_player p player party w = if contains player party.invite_list then (false, w) else (
  true,
  store p (record party { invite_list = party.invite_list ++ player ∷ [] })
      (record w {
        invitations = update w.invitations player (
            if contains p (w.invitations player)
            then w.invitations player
            else p ∷ w.invitations player);
      }),
)
