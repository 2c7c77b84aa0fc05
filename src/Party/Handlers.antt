-- ===== src/Party/Handlers.antt =====
-- What a client's request does: the handlers of game.cpp. And the logout of a player, of player.cpp.
use odirion_mmoserver.Base.{
  ℕ, suc, Bool, true, false, not, ◌&&◌, ◌||◌, Option, none, some, List, [], ◌∷◌, ◌==◌,
  if◌then◌else◌,
}
use odirion_mmoserver.Party.Store.{Party, World, Env, update, contains, points_to, store}
use odirion_mmoserver.Party.Experience.{set_shared_experience}
use odirion_mmoserver.Party.Operations.{
  pass_party_leadership, leave_party, join_party, remove_invite, clear_party_invitations,
  invite_player,
}

-- `Player::getParty`, with the object that it points to.
unfoldable pub get_party : World → ℕ → Option (ℕ × Party)
get_party w player = elim (w.party_of player) [
  | none ↦ none
  | some p ↦ elim (w.parties p) [ none ↦ none | some party ↦ some (p, party) ]
]

unfoldable pub is_inviting : World → ℕ → ℕ → Bool
is_inviting w player other = elim (get_party w player) [
  | none ↦ false
  | some (p, party) ↦ party.leader == player && contains other party.invite_list
]

unfoldable pub is_partner : World → ℕ → ℕ → Bool
is_partner w player other = elim (w.party_of player) [
  | none ↦ false
  | some p ↦ points_to (w.party_of other) p
]

-- `new Party(leader)`.
unfoldable pub new_party : ℕ → World → World
new_party leader w = record w {
  parties = update w.parties w.next_party (
      some (record {
        leader = leader;
        member_list = [];
        invite_list = [];
        ticks_map = [];
        shared_exp_active = false;
        shared_exp_enabled = false;
      }));
  next_party = suc w.next_party;
  party_of = update w.party_of leader (some w.next_party);
}

pub data Request : Type 0 where
  invites joins revokes passes : ℕ → ℕ → Request
  leaves logs_out : ℕ → Request
  enables : ℕ → Bool → Request

-- The answers of the events `onJoin`, `onLeave` and `onDisband`.
pub record Answers : Type 0 where
  pub may_join : Bool
  pub may_leave : Bool
  pub may_disband : Bool

-- `playerInviteToParty`.
unfoldable pub invite_to_party : Env → ℕ → ℕ → World → World
invite_to_party env player invited w =
    if not (env.online player) || not (env.online invited) || is_inviting w invited player
    then w
    else elim (get_party w invited) [
      | some _ ↦ w
      | none ↦ elim (get_party w player) [
        | none ↦ elim ((new_party player w).parties w.next_party) [
          | none ↦ w
          | some party ↦ (invite_player w.next_party invited party (new_party player w)).1
        ]
        | some (p, party) ↦
            if party.leader == player then (invite_player p invited party w).1 else w
      ]
    ]

-- `playerJoinParty`.
unfoldable pub join : Env → Answers → ℕ → ℕ → World → World
join env answers player leader w =
    if not (env.online player) || not (env.online leader) || not (is_inviting w leader player)
    then w
    else elim (get_party w leader) [
      | none ↦ w
      | some (p, party) ↦ if not (party.leader == leader) then w else elim (get_party w player) [
        | some _ ↦ w
        | none ↦ (join_party env answers.may_join p player party w).1
      ]
    ]

-- `playerRevokePartyInvitation`, and `revokeInvitation` which it calls.
unfoldable pub revoke_party_invitation : Env → Answers → ℕ → ℕ → World → World
revoke_party_invitation env answers player invited w = elim (get_party w player) [
  | none ↦ w
  | some (p, party) ↦
      if not (env.online player)
        || not (party.leader == player)
        || not (env.online invited)
        || not (is_inviting w player invited)
      then w
      else (remove_invite answers.may_disband true p invited party w).1
]

-- `playerPassPartyLeadership`.
unfoldable pub pass_leadership : Env → ℕ → ℕ → World → World
pass_leadership env player new_leader w = elim (get_party w player) [
  | none ↦ w
  | some (p, party) ↦
      if not (env.online player)
        || not (party.leader == player)
        || not (env.online new_leader)
        || not (is_partner w player new_leader)
      then w
      else store p (pass_party_leadership env p w.party_of new_leader party).1 w
]

-- `playerLeaveParty`.
unfoldable pub leave : Env → Answers → ℕ → World → World
leave env answers player w = elim (get_party w player) [
  | none ↦ w
  | some (p, party) ↦
      if not (env.online player) || env.in_fight player
      then w
      else (leave_party env answers.may_leave answers.may_disband p player party w).1
]

-- `playerEnableSharedPartyExperience`.
unfoldable pub enable_shared : Env → ℕ → Bool → World → World
enable_shared env player active w = elim (get_party w player) [
  | none ↦ w
  | some (p, party) ↦
      if not (env.online player) || env.in_fight player
      then w
      else store p (set_shared_experience env player active party).1 w
]

-- What `onRemoveCreature` does of parties for a player who leaves the game.
unfoldable pub log_out : Env → Answers → ℕ → World → World
log_out env answers player w =
    let w' = clear_party_invitations answers.may_disband player w in
    elim (get_party w' player) [
      | none ↦ w'
      | some (p, party) ↦
          (leave_party env answers.may_leave answers.may_disband p player party w').1
    ]

unfoldable pub handle : Env → Answers → Request → World → World
handle env answers (invites player invited) w = invite_to_party env player invited w
handle env answers (joins player leader) w = join env answers player leader w
handle env answers (revokes player invited) w = revoke_party_invitation env answers player invited w
handle env answers (passes player new_leader) w = pass_leadership env player new_leader w
handle env answers (leaves player) w = leave env answers player w
handle env answers (logs_out player) w = log_out env answers player w
handle env answers (enables player active) w = enable_shared env player active w

-- The world changes between requests: each has its own view of the players.
unfoldable pub handle_all : List (Env × Answers × Request) → World → World
handle_all [] w = w
handle_all ((env, answers, r) ∷ rest) w = handle_all rest (handle env answers r w)
