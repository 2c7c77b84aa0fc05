-- ===== src/WaitList/Examples.antt =====
-- Tests of the login queue.
use odirion_mmoserver.Base.{◌≡◌, refl, inr, Bool, true, false, none, some, [], ◌∷◌, arith}
use odirion_mmoserver.WaitList.{
  WaitListInfo, Player, client_login, queue_login, after_find, find_client, index_of, cleanup,
  cleanup_list, is_over, enqueue, deadline, get_timeout, get_time,
}
use odirion_mmoserver.WaitList.Queue.{cleanup_list-keeps_expired, IsQueue}
use odirion_mmoserver.WaitList.Login.{client_login-IsQueue}
use odirion_mmoserver.WaitList.Turns.{
  Waits, client_login-Waits, client_login-erases_through_other_list,
}

abbrev knight : Player
knight = record { guid = 7; can_always_login = false; is_gamemaster = false; is_premium = true }

abbrev druid : Player
druid = record { guid = 9; can_always_login = false; is_gamemaster = false; is_premium = false }

abbrev queue : WaitListInfo
queue = record {
  priority_wait_list = record { timeout = 50000; player_guid = 7 } ∷ [];
  wait_list = record { timeout = 40000; player_guid = 8 } ∷ [];
}

refused :
    client_login 10 10 60000 druid queue
    ≡ some (
      false,
      record queue {
        wait_list =
            record { timeout = 40000; player_guid = 8 }
            ∷ record { timeout = 80000; player_guid = 9 }
            ∷ [];
      },
    )
unfolding client_login queue_login after_find find_client index_of cleanup cleanup_list is_over
    enqueue deadline get_timeout get_time
refused = refl

queue-IsQueue : IsQueue queue
queue-IsQueue = record { priority = omega arith; normal = omega arith; apart = omega arith }

client_login-IsQueue_example :
    (ok : Bool) × (info : WaitListInfo) × (client_login 10 10 60000 druid queue ≡ some (ok, info))
    × IsQueue info
unfolding find_client index_of cleanup cleanup_list is_over
client_login-IsQueue_example =
    client_login-IsQueue 10 10 60000 druid queue queue-IsQueue (inr (omega arith))

client_login-Waits_example : Waits 9 (client_login 10 10 60000 druid queue)
client_login-Waits_example = client_login-Waits 10 10 60000 druid queue

cleanup_list-keeps_expired_example : cleanup_list 60000 queue.wait_list ≡ queue.wait_list
cleanup_list-keeps_expired_example =
    cleanup_list-keeps_expired 60000 queue.wait_list (omega arith) (omega arith)

client_login-erases_through_other_list_example : client_login 10 5 60000 knight queue ≡ none
unfolding cleanup_list is_over index_of
client_login-erases_through_other_list_example =
    client_login-erases_through_other_list 10 5 60000 knight queue 0 refl refl refl (omega arith)
