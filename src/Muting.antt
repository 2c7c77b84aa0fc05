-- ===== src/Muting.antt =====
-- The message buffer of a player, which mutes those who say too much: `addMessageBuffer` and
-- `removeMessageBuffer` of player.cpp. The configuration and the player's flag are arguments.
pub mod Bounds
mod Examples
use odirion_mmoserver.Base.{
  ℕ, zero, suc, ◌+◌, ◌-◌, ◌*◌, ◌^◌, Bool, true, false, not, ◌&&◌, ◌||◌, Option, none, some, List,
  [], ◌∷◌, ltb, leb, ◌==◌, if◌then◌else◌, u32,
}

-- `MessageBufferCount`, the player's entry in `muteCountMap`, and the mutes in seconds, the last first.
pub record Speaker : Type 0 where
  pub message_buffer_count : ℕ
  pub mute_count : Option ℕ
  pub mutes : List ℕ

unfoldable pub add_message_buffer : Bool → ℕ → Speaker → Speaker
add_message_buffer cannot_be_muted max_message_buffer s =
    if ltb 0 s.message_buffer_count && not (max_message_buffer == 0) && not cannot_be_muted
    then record s { message_buffer_count = s.message_buffer_count - 1 }
    else s

-- `muteCount`, which is 1 for a player without an entry.
unfoldable pub mutes_so_far : Option ℕ → ℕ
mutes_so_far none = 1
mutes_so_far (some n) = n

unfoldable pub mute : Speaker → Speaker
mute s =
    let n = mutes_so_far s.mute_count in
    record s { mute_count = some (u32 (n + 1)); mutes = u32 (5 * n * n) ∷ s.mutes }

unfoldable pub remove_message_buffer : Bool → ℕ → Speaker → Speaker
remove_message_buffer cannot_be_muted max_message_buffer s =
    if cannot_be_muted
    then s
    else if not (max_message_buffer == 0) && leb s.message_buffer_count (max_message_buffer + 1)
    then (let s' = record s { message_buffer_count = s.message_buffer_count + 1 } in
        if ltb max_message_buffer s'.message_buffer_count then mute s' else s')
    else s

-- That many messages in a row.
unfoldable pub speak : Bool → ℕ → ℕ → Speaker → Speaker
speak cannot_be_muted max_message_buffer zero s = s
speak cannot_be_muted max_message_buffer (suc n) s =
    speak cannot_be_muted max_message_buffer n
      (remove_message_buffer cannot_be_muted max_message_buffer s)
