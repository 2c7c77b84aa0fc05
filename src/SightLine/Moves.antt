-- ===== src/SightLine/Moves.antt =====
-- A turn of the loop over the tiles comes nearer to the destination.
use odirion_mmoserver.Base.{
  ℕ, suc, ◌+◌, ◌-◌, ◌*◌, ◌^◌, ◌≤◌, ◌<◌, ◌≡◌, ◌⊎◌, ◌∙◌, refl, inl, inr, Bool, true, false, arith,
  ◌==◌, if◌then◌else◌,
}
use odirion_mmoserver.Base.Int.{ℤ, pos, negsuc, pos_part, neg_part, sub_ℕ, abs, ◌+ℤ◌}
use odirion_mmoserver.SightLine.{◌*ℤ◌, Line, off_line, moved}
use odirion_mmoserver.SightLine.Products.{IsShort, off_line-exact}

-- The distance of two numbers.
abbrev pub apart : ℕ → ℕ → ℕ
apart m n = (m - n) + (n - m)

times_pos : (k x : ℕ) → pos k *ℤ pos x ≡ pos (k * x)
unfolding ◌*ℤ◌
times_pos k x = ground arith

times_neg : (k x : ℕ) → negsuc k *ℤ pos x ≡ sub_ℕ 0 (suc k * x)
unfolding ◌*ℤ◌
times_neg k x = ground arith

abbrev pub value : ℤ → ℤ → ℤ → ℕ → ℕ → ℕ
value a b c x y =
    apart (pos_part a * x + pos_part b * y + pos_part c)
      (neg_part a * x + neg_part b * y + neg_part c)

value_pp :
    (a b x y : ℕ) (c : ℤ)
    → abs (pos a *ℤ pos x +ℤ pos b *ℤ pos y +ℤ c) ≡ value (pos a) (pos b) c x y
unfolding ◌+ℤ◌
value_pp a b x y c = rw (times_pos a x, times_pos b y) (ground arith)

value_pn :
    (a b x y : ℕ) (c : ℤ)
    → abs (pos a *ℤ pos x +ℤ negsuc b *ℤ pos y +ℤ c) ≡ value (pos a) (negsuc b) c x y
unfolding ◌+ℤ◌
value_pn a b x y c = rw (times_pos a x, times_neg b y) (ground arith)

value_np :
    (a b x y : ℕ) (c : ℤ)
    → abs (negsuc a *ℤ pos x +ℤ pos b *ℤ pos y +ℤ c) ≡ value (negsuc a) (pos b) c x y
unfolding ◌+ℤ◌
value_np a b x y c = rw (times_neg a x, times_pos b y) (ground arith)

value_nn :
    (a b x y : ℕ) (c : ℤ)
    → abs (negsuc a *ℤ pos x +ℤ negsuc b *ℤ pos y +ℤ c) ≡ value (negsuc a) (negsuc b) c x y
unfolding ◌+ℤ◌
value_nn a b x y c = rw (times_neg a x, times_neg b y) (ground arith)

values : (a b c : ℤ) (x y : ℕ) → abs (a *ℤ pos x +ℤ b *ℤ pos y +ℤ c) ≡ value a b c x y
values (pos a) (pos b) c x y = value_pp a b x y c
values (pos a) (negsuc b) c x y = value_pn a b x y c
values (negsuc a) (pos b) c x y = value_np a b x y c
values (negsuc a) (negsuc b) c x y = value_nn a b x y c

pub off_line-value :
    (l : Line) (x y : ℕ)
    → IsShort l
    → x < 2 ^ 16
    → y < 2 ^ 16
    → off_line l (pos x) (pos y) ≡ value l.a l.b l.c x y
off_line-value l x y s hx hy =
    off_line-exact l x y s (omega (arith, hx)) (omega (arith, hy)) ∙ values l.a l.b l.c x y

-- The coordinate beside, towards the destination; `P` and `Q` are the signs of the slope that go with it.
abbrev pub Step : Type 0 → Type 0 → ℤ → ℕ → ℕ → Type 0
Step P Q m x x' = ((m ≡ pos 1) × (x' ≡ x + 1) × P) ⊎ ((m ≡ negsuc 0) × (x ≡ x' + 1) × Q)

-- A coordinate on its way to the destination.
abbrev pub Way : Type 0 → Type 0 → ℤ → ℕ → ℕ → Type 0
Way P Q m x d = ((m ≡ pos 1) × P × (x ≤ d)) ⊎ ((m ≡ negsuc 0) × Q × (d ≤ x)) ⊎ (x ≡ d)

abbrev pub Rises : ℤ → Type 0
Rises a = (k : ℕ) × (a ≡ pos (suc k))

abbrev pub Falls : ℤ → Type 0
Falls a = (k : ℕ) × (a ≡ negsuc k)

abbrev pub StepX : ℤ → ℤ → ℕ → ℕ → Type 0
StepX m b = Step (Falls b) (Rises b) m

abbrev pub StepY : ℤ → ℤ → ℕ → ℕ → Type 0
StepY m a = Step (Rises a) (Falls a) m

-- At no place do the three distances hold both moves back.
pub no_stall :
    (m n a b c : ℤ) (x x' y y' : ℕ)
    → StepX m b x x'
    → StepY n a y y'
    → value a b c x' y ≡ value a b c x y'
    → value a b c x' y ≤ value a b c x' y'
    → ⊥
no_stall m n a b c x x' y y' (inl (_, ex, (j, eb))) (inl (_, ey, (i, ea))) =
    rw (ex, eb, ey, ea) (λ h k. omega (arith, h, k))
no_stall m n a b c x x' y y' (inl (_, ex, (j, eb))) (inr (_, ey, (i, ea))) =
    rw (ex, eb, ey, ea) (λ h k. omega (arith, h, k))
no_stall m n a b c x x' y y' (inr (_, ex, (j, eb))) (inl (_, ey, (i, ea))) =
    rw (ex, eb, ey, ea) (λ h k. omega (arith, h, k))
no_stall m n a b c x x' y y' (inr (_, ex, (j, eb))) (inr (_, ey, (i, ea))) =
    rw (ex, eb, ey, ea) (λ h k. omega (arith, h, k))

module _ {P Q : Type 0} (m : ℤ) (x d : ℕ) (bx : x < 2 ^ 16) (bd : d < 2 ^ 16)
    (way : Way P Q m x d) where
  pub record IsNext (x' : ℕ) : Type 0 where
    pub step : Step P Q m x x'
    pub is_moved : moved x m ≡ x'
    pub as_number : pos x +ℤ m ≡ pos x'
    pub nearer : apart x' d + 1 ≡ apart x d
    pub way_on : Way P Q m x' d
    pub bound : x' < 2 ^ 16

  pub next : (x == d) ≡ false → (x' : ℕ) × IsNext x'
  unfolding moved ◌+ℤ◌
  next far = elim way [
    | inl (e, p, h) ↦ (
      x + 1,
      record {
        step = inl (e, refl, p);
        is_moved = rw e (ground (arith, h, bd, far));
        as_number = rw e (ground arith);
        nearer = ground (arith, h, far);
        way_on = inl (e, p, ground (arith, h, far));
        bound = ground (arith, h, bd, far);
      },
    )
    | inr (inl (e, q, h)) ↦ (
      x - 1,
      record {
        step = inr (e, ground (arith, h, far), q);
        is_moved = rw e (ground (arith, h, bx, far));
        as_number = rw e (ground (arith, h, far));
        nearer = ground (arith, h, far);
        way_on = inr (inl (e, q, ground (arith, h, far)));
        bound = omega (arith, bx);
      },
    )
    | inr (inr same) ↦ absurd (ground (arith, far, same))
  ]

  -- A coordinate after a turn that moves it or not.
  pub record IsChosen (c : Bool) (z : ℕ) : Type 0 where
    pub way_on : Way P Q m z d
    pub bound : z < 2 ^ 16
    pub gain : apart z d + (if c then 1 else 0) ≡ apart x d

  pub chosen : (c : Bool) → (c ≡ true → (x == d) ≡ false) → IsChosen c (if c then moved x m else x)
  chosen false far = record { way_on = way; bound = bx; gain = omega arith }
  chosen true far =
      let (x', n) = next (far refl) in
      rw n.is_moved (record { way_on = n.way_on; bound = n.bound; gain = n.nearer })
