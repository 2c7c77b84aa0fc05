-- ===== src/Position/Steps.antt =====
-- Steps to a neighbouring tile, and the direction of one position from another.
use odirion_mmoserver.Base.{ℕ, ◌+◌, ◌^◌, ◌≤◌, ◌<◌, ◌≡◌, ◌≢◌, refl, true, arith}
use odirion_mmoserver.Position.{
  Position, IsPosition, Direction, north, east, south, west, southwest, southeast, northwest,
  northeast, direction_none, next_position, direction_to, are_in_range, add, sub, distance_x,
  distance_y, distance_z,
}

pub opposite : Direction → Direction
opposite north = south
opposite east = west
opposite south = north
opposite west = east
opposite southwest = northeast
opposite southeast = northwest
opposite northwest = southeast
opposite northeast = southwest
opposite direction_none = direction_none

-- A step and the step back lead to the same place, across the wrap of a coordinate too.
pub next_position-opposite :
    (d : Direction) (p : Position)
    → IsPosition p
    → next_position (opposite d) (next_position d p) ≡ p
unfolding next_position opposite
next_position-opposite north p h = ground arith
next_position-opposite _ p h = ground arith

abbrev pub IsInner : Position → Type 0
IsInner p = (1 ≤ p.x) × (p.x + 1 < 2 ^ 16) × (1 ≤ p.y) × (p.y + 1 < 2 ^ 16)

-- Away from the map's edge, the direction to the next tile is the direction that was taken.
pub direction_to-next_position :
    (d : Direction) (p : Position)
    → IsInner p
    → d ≢ direction_none
    → direction_to p (next_position d p) ≡ d
unfolding direction_to next_position
direction_to-next_position direction_none p h k = absurd (k refl)
direction_to-next_position north p h k = ground arith
direction_to-next_position _ p h k = ground arith

distance_x_bounds : (p q : Position) → distance_x p q ≤ 1 → (p.x ≤ q.x + 1) × (q.x ≤ p.x + 1)
unfolding distance_x
distance_x_bounds p q h = ground arith

distance_y_bounds : (p q : Position) → distance_y p q ≤ 1 → (p.y ≤ q.y + 1) × (q.y ≤ p.y + 1)
unfolding distance_y
distance_y_bounds p q h = ground arith

distance_z_bounds : (p q : Position) → distance_z p q ≤ 0 → p.z ≡ q.z
unfolding distance_z
distance_z_bounds p q h = ground arith

are_in_range_parts :
    (dx dy dz : ℕ) (p q : Position)
    → are_in_range dx dy dz p q ≡ true
    → (distance_x p q ≤ dx) × (distance_y p q ≤ dy) × (distance_z p q ≤ dz)
unfolding are_in_range
are_in_range_parts dx dy dz p q h = ground arith

abbrev Touches : Position → Position → Type 0
Touches p q = (p.x ≤ q.x + 1) × (q.x ≤ p.x + 1) × (p.y ≤ q.y + 1) × (q.y ≤ p.y + 1) × (p.z ≡ q.z)

Touches-of_in_range : (p q : Position) → are_in_range 1 1 0 p q ≡ true → Touches p q
Touches-of_in_range p q h =
    let near = are_in_range_parts 1 1 0 p q h in
    let x = distance_x_bounds p q near.0 in
    let y = distance_y_bounds p q near.1 in (x.0, x.1, y.0, y.1, distance_z_bounds p q near.2)

next_position_touching :
    (p q : Position)
    → IsPosition p
    → IsPosition q
    → Touches p q
    → p ≢ q
    → next_position (direction_to p q) p ≡ q
unfolding direction_to next_position
next_position_touching p q hp hq near ne = ground arith

-- A step in the direction found reaches any other tile in range 1 on the same floor.
pub next_position-direction_to :
    (p q : Position)
    → IsPosition p
    → IsPosition q
    → are_in_range 1 1 0 p q ≡ true
    → p ≢ q
    → next_position (direction_to p q) p ≡ q
next_position-direction_to p q hp hq near =
    next_position_touching p q hp hq (Touches-of_in_range p q near)

distance_x_comm : (p q : Position) → distance_x p q ≡ distance_x q p
unfolding distance_x
distance_x_comm p q = ground arith

distance_y_comm : (p q : Position) → distance_y p q ≡ distance_y q p
unfolding distance_y
distance_y_comm p q = ground arith

distance_z_comm : (p q : Position) → distance_z p q ≡ distance_z q p
unfolding distance_z
distance_z_comm p q = ground arith

pub are_in_range_comm :
    (dx dy dz : ℕ) (p q : Position) → are_in_range dx dy dz p q ≡ are_in_range dx dy dz q p
unfolding are_in_range
are_in_range_comm dx dy dz p q = rw (distance_x_comm p q, distance_y_comm p q, distance_z_comm p q)

pub add-sub : (p q : Position) → IsPosition p → IsPosition q → add (sub p q) q ≡ p
unfolding add sub
add-sub p q hp hq = ground arith
