-- ===== src/Party/Examples.antt =====
-- Tests of the parties.
use odirion_mmoserver.Base.{◌≡◌, refl, true, false, none, some, List, [], ◌∷◌}
use odirion_mmoserver.Party.Store.{Party, World, Env, points_to, contains, store}
use odirion_mmoserver.Party.Operations.{leave_party, is_missing_leader, invite_player}
use odirion_mmoserver.Party.Handlers.{
  Answers, Request, invites, joins, leaves, logs_out, handle, handle_all, invite_to_party,
  is_inviting, get_party, new_party,
}
use odirion_mmoserver.Party.Invariant.{IsWorld}
use odirion_mmoserver.Party.Invariant.Requests.{handle_all-IsWorld, leave_party-refused}

abbrev env : Env
env = record {
  level = λ q. 50;
  position = λ q. record { x = 100; y = 100; z = 7 };
  not_gain_in_fight = λ q. false;
  online = λ q. true;
  in_fight = λ q. false;
  time = 1000;
  pz_locked = 60000;
}

abbrev agreed : Answers
agreed = record { may_join = true; may_leave = true; may_disband = true }

abbrev start : World
start = record { parties = λ p. none; next_party = 0; party_of = λ q. none; invitations = λ q. [] }

start-IsWorld : IsWorld start
unfolding points_to contains
start-IsWorld = record { each = λ p q. (refl, refl); fresh = λ p le. refl }

abbrev evening : List (Env × Answers × Request)
evening =
    (env, agreed, invites 1 2)
    ∷ (env, agreed, joins 2 1)
    ∷ (env, agreed, invites 1 3)
    ∷ (env, agreed, leaves 1)
    ∷ (env, agreed, logs_out 3)
    ∷ []

handle_all-IsWorld_example : IsWorld (handle_all evening start)
handle_all-IsWorld_example =
    handle_all-IsWorld evening start (refl, (refl, (refl, (refl, (refl, tt))))) start-IsWorld

abbrev lonely : Party
lonely = record {
  leader = 1;
  member_list = [];
  invite_list = 4 ∷ [];
  ticks_map = [];
  shared_exp_active = false;
  shared_exp_enabled = false;
}

-- Player 1 has invited player 4.
abbrev with_lonely : World
with_lonely = handle_all ((env, agreed, invites 1 4) ∷ []) start

with_lonely-IsWorld : IsWorld with_lonely
with_lonely-IsWorld =
    handle_all-IsWorld ((env, agreed, invites 1 4) ∷ []) start (refl, tt) start-IsWorld

lonely_there : with_lonely.parties 0 ≡ some lonely
unfolding handle_all handle invite_to_party is_inviting get_party new_party invite_player store
    contains
lonely_there = refl

leave_party-refused_example :
    (rest : Party) × ((leave_party env true false 0 1 lonely with_lonely).1.parties 0 ≡ some rest)
    × (rest.leader ≡ 1)
    × ((leave_party env true false 0 1 lonely with_lonely).1.party_of 1 ≡ none)
    × (¬ IsWorld (leave_party env true false 0 1 lonely with_lonely).1)
unfolding is_missing_leader
leave_party-refused_example =
    leave_party-refused env 1 lonely with_lonely 0 with_lonely-IsWorld lonely_there refl
