-- ===== src/Position/Examples.antt =====
-- Tests of the position functions.
use odirion_mmoserver.Base.{◌≡◌, refl, true, false, ◌↔◌, ◌⊎◌, not, arith}
use odirion_mmoserver.Position.{
  Position, northeast, south, direction_to, distance_x, distance_y, distance_z, next_position,
  are_in_range, less, greater,
}
use odirion_mmoserver.Position.Order.{less_trans, less_total, greater_iff}
use odirion_mmoserver.Position.Steps.{
  opposite, next_position-opposite, direction_to-next_position, next_position-direction_to,
}

abbrev temple : Position
temple = record { x = 100; y = 200; z = 7 }

abbrev corner : Position
corner = record { x = 0; y = 0; z = 7 }

abbrev near_temple : Position
near_temple = record { x = 101; y = 199; z = 7 }

directions : (direction_to temple near_temple ≡ northeast) × (less corner temple ≡ true)
unfolding direction_to less
directions = (refl, refl)

greater_itself : greater temple temple ≡ true
unfolding greater
greater_itself = refl

less_trans_example : (less corner temple ≡ true) × (less temple corner ≡ false)
unfolding less
less_trans_example = less_trans corner near_temple temple refl refl

less_total_example : less temple near_temple ≡ not (less near_temple temple)
less_total_example = less_total temple near_temple (ground arith)

greater_iff_example :
    (greater temple temple ≡ true) ↔ ((less temple temple ≡ true) ⊎ (temple ≡ temple))
greater_iff_example = greater_iff temple temple

step_back : next_position (opposite northeast) (next_position northeast corner) ≡ corner
step_back = next_position-opposite northeast corner (omega arith)

direction_to-next_position_example : direction_to temple (next_position south temple) ≡ south
direction_to-next_position_example = direction_to-next_position south temple (omega arith) (λ e. cc)

in_range : are_in_range 1 1 0 temple near_temple ≡ true
unfolding are_in_range distance_x distance_y distance_z
in_range = refl

next_position-direction_to_example :
    next_position (direction_to temple near_temple) temple ≡ near_temple
next_position-direction_to_example =
    next_position-direction_to temple near_temple (omega arith) (omega arith) in_range
      (λ e. ground arith)
