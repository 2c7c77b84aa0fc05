-- ===== src/Muting/Bounds.antt =====
-- How often a player is muted.
use odirion_mmoserver.Base.{ℕ, zero, suc, ◌+◌, ◌-◌, ◌≤◌, ◌≡◌, ◌≢◌, refl, false, arith, length}
use odirion_mmoserver.Muting.{Speaker, mute, remove_message_buffer, speak}

remove_message_buffer_lem :
    (max_buffer : ℕ) (s : Speaker)
    → max_buffer ≢ 0
    → s.message_buffer_count ≤ max_buffer + 2
    → let s' = remove_message_buffer false max_buffer s in
      (s'.message_buffer_count ≤ max_buffer + 2)
      × (length s'.mutes + (s.message_buffer_count - max_buffer)
          ≡ length s.mutes + (s'.message_buffer_count - max_buffer))
      × (s.message_buffer_count ≤ s'.message_buffer_count)
unfolding remove_message_buffer mute
remove_message_buffer_lem max_buffer s nz small = ground arith

-- A player who may be muted, whose count is at most two above a limit that is not 0, says any number
-- of messages in a row: the count stays within two above the limit, the mutes that are added are as
-- many as the count has gained above the limit, and so they are two at most.
pub speak-mutes :
    (max_buffer n : ℕ) (s : Speaker)
    → max_buffer ≢ 0
    → s.message_buffer_count ≤ max_buffer + 2
    → let s' = speak false max_buffer n s in
      (s'.message_buffer_count ≤ max_buffer + 2)
      × (length s'.mutes + (s.message_buffer_count - max_buffer)
          ≡ length s.mutes + (s'.message_buffer_count - max_buffer))
      × (length s'.mutes ≤ length s.mutes + 2)
unfolding speak
speak-mutes max_buffer zero s nz small = (small, refl, omega arith)
speak-mutes max_buffer (suc n) s nz small =
    let a = remove_message_buffer_lem max_buffer s nz small in
    let b = speak-mutes max_buffer n (remove_message_buffer false max_buffer s) nz (a.0) in
    (b.0, omega (arith, a.1, b.1), omega (arith, a.1, b.1, b.0))
