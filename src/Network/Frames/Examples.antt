-- ===== src/Network/Frames/Examples.antt =====
-- A message of three bytes, sent and received.
use odirion_mmoserver.Base.{ℕ, refl, arith, false, List, [], ◌∷◌, replicate, length-replicate}
use odirion_mmoserver.Base.Bytes.{IsBytes}
use odirion_mmoserver.Network.Message.{NetworkMessage}
use odirion_mmoserver.Network.Message.Buffer.{IsBuffer}
use odirion_mmoserver.Network.Frames.Parts.{message_of, replicate-IsBytes}
use odirion_mmoserver.Network.Frames.Sending.{encrypting}
use odirion_mmoserver.Network.Frames.RoundTrip.{IsDelivered, on_send_message-IsDelivered}

-- The rest of a buffer of zeros.
zeros : ℕ → List ℕ
zeros n = replicate n 0

zeros-IsBytes : (n : ℕ) → IsBytes (zeros n)
unfolding zeros
zeros-IsBytes n = replicate-IsBytes n 0 (omega arith)

abbrev short_message : NetworkMessage
short_message = message_of 3 11 false (0 ∷ 0 ∷ 0 ∷ 0 ∷ 0 ∷ 0 ∷ 0 ∷ 0 ∷ 10 ∷ 20 ∷ 30 ∷ zeros 24579)

short_message-IsBuffer : IsBuffer short_message
unfolding zeros
short_message-IsBuffer = omega (arith, length-replicate {A = ℕ} 24579 0)

short_message-IsBytes : IsBytes short_message.buffer
short_message-IsBytes = (
  omega arith,
  (
    omega arith,
    (
      omega arith,
      (
        omega arith,
        (
          omega arith,
          (
            omega arith,
            (
              omega arith,
              (omega arith, (omega arith, (omega arith, (omega arith, zeros-IsBytes 24579)))),
            ),
          ),
        ),
      ),
    ),
  ),
)

abbrev empty : NetworkMessage
empty = message_of 0 8 false (zeros 24590)

empty-IsBuffer : IsBuffer empty
unfolding zeros
empty-IsBuffer = length-replicate {A = ℕ} 24590 0

abbrev key : List ℕ
key = 1 ∷ 2 ∷ 3 ∷ 4 ∷ []

on_send_message-IsDelivered_example : IsDelivered (encrypting key) short_message empty
on_send_message-IsDelivered_example =
    on_send_message-IsDelivered key short_message empty short_message-IsBuffer empty-IsBuffer
      short_message-IsBytes refl (omega arith)
