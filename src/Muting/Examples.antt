-- ===== src/Muting/Examples.antt =====
-- Tests of the message buffer.
use odirion_mmoserver.Base.{◌+◌, ◌-◌, ◌≤◌, ◌≡◌, refl, none, [], ◌∷◌, false, arith, length}
use odirion_mmoserver.Muting.{Speaker, speak, remove_message_buffer, mute, mutes_so_far}
use odirion_mmoserver.Muting.Bounds.{speak-mutes}

abbrev quiet : Speaker
quiet = record { message_buffer_count = 0; mute_count = none; mutes = [] }

twice : (speak false 4 9 quiet).mutes ≡ 20 ∷ 5 ∷ []
unfolding speak remove_message_buffer mute mutes_so_far
twice = refl

speak-mutes_example :
    let s = speak false 4 9 quiet in
    (s.message_buffer_count ≤ 6)
    × (length s.mutes + 0 ≡ 0 + (s.message_buffer_count - 4))
    × (length s.mutes ≤ 2)
speak-mutes_example = speak-mutes 4 9 quiet (omega arith) (omega arith)
