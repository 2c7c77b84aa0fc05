-- ===== src/SightLine/Products.antt =====
-- Where the 32 bits of the line of sight are enough.
use odirion_mmoserver.Base.{ℕ, zero, suc, ap, ◌+◌, ◌*◌, ◌^◌, ◌≤◌, ◌<◌, ◌≡◌, arith}
use odirion_mmoserver.Base.Int.{ℤ, pos, negsuc, sub_ℕ, abs, neg, ◌+ℤ◌}
use odirion_mmoserver.Position.{Position, IsPosition, offset_x, offset_y, distance_x, distance_y}
use odirion_mmoserver.SightLine.{◌*ℤ◌, i32, Line, off_line, line_between}

i32-exact : (z : ℤ) → abs z < 2 ^ 31 → i32 z ≡ z
unfolding i32
i32-exact (pos n) h = ground (arith, h)
i32-exact (negsuc n) h = ground (arith, h)

abs-sum : (a b : ℤ) → abs (a +ℤ b) ≤ abs a + abs b
unfolding ◌+ℤ◌
abs-sum (pos a) (pos b) = ground arith
abs-sum (pos a) (negsuc b) = ground arith
abs-sum (negsuc a) (pos b) = ground arith
abs-sum (negsuc a) (negsuc b) = ground arith

abs-neg : (a : ℤ) → abs (neg a) ≡ abs a
abs-neg (pos zero) = ground arith
abs-neg (pos (suc a)) = ground arith
abs-neg (negsuc a) = ground arith

times_le : (k x : ℕ) → k < 2 ^ 13 → x ≤ 2 ^ 16 → k * x ≤ 8191 * 2 ^ 16
times_le k x h g = grind (arith, h, g)

-- The two products that a distance adds up.
abs-times : (a : ℤ) (x : ℕ) → abs a < 2 ^ 13 → x ≤ 2 ^ 16 → abs (a *ℤ pos x) ≤ 8191 * 2 ^ 16
unfolding ◌*ℤ◌
abs-times (pos k) x h g = ground (arith, times_le k x h g)
abs-times (negsuc k) x h g = ground (arith, times_le (suc k) x h g)

-- A line whose ends are less than 2 ^ 13 apart.
pub record IsShort (l : Line) : Type 0 where
  pub short_a : abs l.a < 2 ^ 13
  pub short_b : abs l.b < 2 ^ 13
  pub short_c : abs l.c < 2 ^ 30

module _ (a b : ℤ) (x y : ℕ) (short_a : abs a < 2 ^ 13) (short_b : abs b < 2 ^ 13)
    (inside_x : x ≤ 2 ^ 16) (inside_y : y ≤ 2 ^ 16) where
  sum_bound : abs (a *ℤ pos x +ℤ b *ℤ pos y) < 2 ^ 30
  sum_bound = omega (
    arith,
    abs-sum (a *ℤ pos x) (b *ℤ pos y),
    abs-times a x short_a inside_x,
    abs-times b y short_b inside_y,
  )

  sum_exact : i32 (i32 (a *ℤ pos x) +ℤ i32 (b *ℤ pos y)) ≡ a *ℤ pos x +ℤ b *ℤ pos y
  sum_exact =
      rw
        (
          i32-exact (a *ℤ pos x) (omega (arith, abs-times a x short_a inside_x)),
          i32-exact (b *ℤ pos y) (omega (arith, abs-times b y short_b inside_y)),
        )
        (i32-exact _ (omega (arith, sum_bound)))

pub off_line-exact :
    (l : Line) (x y : ℕ)
    → IsShort l
    → x ≤ 2 ^ 16
    → y ≤ 2 ^ 16
    → off_line l (pos x) (pos y) ≡ abs (l.a *ℤ pos x +ℤ l.b *ℤ pos y +ℤ l.c)
unfolding off_line
off_line-exact l x y s hx hy =
    let sum = sum_bound l.a l.b x y s.short_a s.short_b hx hy in
    rw (sum_exact l.a l.b x y s.short_a s.short_b hx hy) (
      ap abs
        (i32-exact _ (omega (arith, sum, s.short_c, abs-sum (l.a *ℤ pos x +ℤ l.b *ℤ pos y) l.c))))

pub line_between-IsShort :
    (s d : Position)
    → IsPosition d
    → distance_x s d < 2 ^ 13
    → distance_y s d < 2 ^ 13
    → IsShort (line_between s d)
unfolding line_between offset_x offset_y distance_x distance_y
line_between-IsShort s d hd near_x near_y =
    let a : ℤ = sub_ℕ d.y s.y in
    let b : ℤ = sub_ℕ s.x d.x in
    let short_a : abs a < 2 ^ 13 = ground (arith, near_y) in
    let sum = sum_bound a b d.x d.y short_a near_x (omega (arith, hd)) (omega (arith, hd)) in
    let c = sum_exact a b d.x d.y short_a near_x (omega (arith, hd)) (omega (arith, hd)) in
    let same = abs-neg (a *ℤ pos d.x +ℤ b *ℤ pos d.y) in
    record {
      short_a = short_a;
      short_b = near_x;
      short_c =
          rw (c, i32-exact (neg (a *ℤ pos d.x +ℤ b *ℤ pos d.y)) (omega (arith, same, sum)))
            (omega (arith, same, sum));
    }
