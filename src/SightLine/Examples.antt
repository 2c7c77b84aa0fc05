-- ===== src/SightLine/Examples.antt =====
-- A wall between two tiles.
use odirion_mmoserver.Base.{◌≡◌, ◌&&◌, Bool, true, false, some, arith, ◌==◌, leb}
use odirion_mmoserver.Position.{Position, offset_x, offset_y, distance_x, distance_y}
use odirion_mmoserver.SightLine.{Tiles, is_sight_clear}
use odirion_mmoserver.SightLine.Ends.{is_sight_clear-ends}

abbrev wall : Tiles
wall = record {
  blocks_projectile = λ p. p.x == 103 && leb 95 p.y && leb p.y 105;
  has_things = λ p. false;
}

abbrev near_side : Position
near_side = record { x = 100; y = 100; z = 7 }

abbrev far_side : Position
far_side = record { x = 106; y = 102; z = 7 }

is_sight_clear-ends_example : (b : Bool) × (is_sight_clear wall near_side far_side true ≡ some b)
unfolding distance_x distance_y offset_x offset_y
is_sight_clear-ends_example =
    is_sight_clear-ends wall near_side far_side true (omega arith, omega arith, omega arith)
      (omega arith, omega arith, omega arith) (omega arith, omega arith)
