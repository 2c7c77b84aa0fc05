-- ===== src/Position.antt =====
-- position.h, and `getNextPosition` and `getDirectionTo` of tools.cpp.
-- A coordinate is a number below 2 ^ 16 (`x`, `y`) or 2 ^ 8 (`z`), which `IsPosition` states.
pub mod Order
pub mod Steps
mod Examples
use odirion_mmoserver.Base.{
  ℕ, ◌+◌, ◌^◌, ◌<◌, ◌≡◌, Bool, true, false, not, ◌&&◌, ltb, leb, ◌==◌, if◌then◌else◌, u8, u16, sub8,
  sub16,
}
use odirion_mmoserver.Base.Int.{ℤ, pos, sub_ℕ, abs, ltb_ℤ}

pub data Direction : Type 0 where
  north east south west southwest southeast northwest northeast direction_none : Direction

pub record Position : Type 0 where
  pub x : ℕ
  pub y : ℕ
  pub z : ℕ

abbrev pub IsPosition : Position → Type 0
IsPosition p = (p.x < 2 ^ 16) × (p.y < 2 ^ 16) × (p.z < 2 ^ 8)

unfoldable pub offset_x : Position → Position → ℤ
offset_x p1 p2 = sub_ℕ p1.x p2.x

unfoldable pub offset_y : Position → Position → ℤ
offset_y p1 p2 = sub_ℕ p1.y p2.y

unfoldable pub offset_z : Position → Position → ℤ
offset_z p1 p2 = sub_ℕ p1.z p2.z

unfoldable pub distance_x : Position → Position → ℕ
unfolding offset_x
distance_x p1 p2 = abs (offset_x p1 p2)

unfoldable pub distance_y : Position → Position → ℕ
unfolding offset_y
distance_y p1 p2 = abs (offset_y p1 p2)

unfoldable pub distance_z : Position → Position → ℕ
unfolding offset_z
distance_z p1 p2 = abs (offset_z p1 p2)

-- `areInRange<deltax, deltay, deltaz>`.
unfoldable pub are_in_range : ℕ → ℕ → ℕ → Position → Position → Bool
are_in_range deltax deltay deltaz p1 p2 =
    leb (distance_x p1 p2) deltax && leb (distance_y p1 p2) deltay && leb (distance_z p1 p2) deltaz

-- `operator<`.
pub less : Position → Position → Bool
less p q =
    if ltb p.z q.z
    then true
    else if ltb q.z p.z
    then false
    else if ltb p.y q.y
    then true
    else if ltb q.y p.y
    then false
    else if ltb p.x q.x
    then true
    else if ltb q.x p.x
    then false
    else false

-- `operator>`.
pub greater : Position → Position → Bool
unfolding less
greater p q = not (less p q)

-- `operator==`.
unfoldable pub equals : Position → Position → Bool
equals p q = q.x == p.x && q.y == p.y && q.z == p.z

-- `operator+` and `operator-`; the constructor takes the results to the coordinates' widths.
pub add : Position → Position → Position
add p q = record { x = u16 (p.x + q.x); y = u16 (p.y + q.y); z = u8 (p.z + q.z) }

pub sub : Position → Position → Position
sub p q = record { x = sub16 p.x q.x; y = sub16 p.y q.y; z = sub8 p.z q.z }

unfoldable pub next_position : Direction → Position → Position
next_position north p = record p { y = sub16 p.y 1 }
next_position south p = record p { y = u16 (p.y + 1) }
next_position west p = record p { x = sub16 p.x 1 }
next_position east p = record p { x = u16 (p.x + 1) }
next_position southwest p = record p { x = sub16 p.x 1; y = u16 (p.y + 1) }
next_position northwest p = record p { x = sub16 p.x 1; y = sub16 p.y 1 }
next_position northeast p = record p { x = u16 (p.x + 1); y = sub16 p.y 1 }
next_position southeast p = record p { x = u16 (p.x + 1); y = u16 (p.y + 1) }
next_position direction_none p = p

-- The two halves of `getDirectionTo`; `dir_x` is the east or west that the first half leaves.
is_east : Direction → Bool
is_east east = true
is_east _ = false

direction_y : Direction → ℕ → ℤ → Direction
unfolding is_east
direction_y dir_x x_offset y_offset =
    if ltb_ℤ y_offset (pos 0)
    then (if ltb x_offset (abs y_offset)
        then south
        else if abs y_offset == x_offset
        then (if is_east dir_x then southeast else southwest)
        else dir_x)
    else if ltb x_offset (abs y_offset)
    then north
    else if abs y_offset == x_offset
    then (if is_east dir_x then northeast else northwest)
    else dir_x

pub direction_to : Position → Position → Direction
unfolding offset_x offset_y direction_y
direction_to from to =
    direction_y (if ltb_ℤ (offset_x from to) (pos 0) then east else west) (abs (offset_x from to))
      (offset_y from to)
