-- ===== src/Video/Geometry.antt =====
-- The place of a frame on the canvas.
use iriseus.Prelude.{
  ℕ, ◌+◌, ◌-◌, ◌*◌, ◌/◌, ◌≤◌, ◌<◌, ◌≡◌, ◌⊎◌, inl, inr, true, false, arith, Bool-cases,
}
use iriseus.Video.{DoubleLib, Fit, fit, even, at_least_two}

-- The picture lies on a canvas of width `w` and height `h`, fills it in one direction, and is in its
-- middle up to the rounding to even numbers.
pub record IsPlaced (w h : ℕ) (at : Fit) : Type 0 where
  pub across : at.offset_x + at.scaled_width ≤ w
  pub down : at.offset_y + at.scaled_height ≤ h
  pub wide : 2 ≤ at.scaled_width
  pub tall : 2 ≤ at.scaled_height
  pub fills : (at.scaled_width ≡ w) ⊎ (at.scaled_height ≡ h)
  pub centred_x : w ≤ at.scaled_width + 2 * at.offset_x + 3
  pub centred_y : h ≤ at.scaled_height + 2 * at.offset_y + 3

-- The scaled side, and the margin before it.
side_bounds :
    (n t : ℕ)
    → 2 ≤ t
    → n ≤ t
    → let s = at_least_two (even n) in
      let o = even ((t - s) / 2) in (2 ≤ s) × (o + s ≤ t) × (t ≤ s + 2 * o + 3)
side_bounds n t h k = ground arith

module _ (double : DoubleLib) where
  open double use {ratio, greater, divided, multiplied}

  divided_le :
      (w h a b : ℕ)
      → 0 < w
      → 0 < h
      → 0 < b
      → greater (ratio a b) (ratio w h) ≡ true
      → divided w (ratio a b) ≤ h
  divided_le w h a b p q r g =
      omega (arith, double.divided_antitone w a b w h r p q g, double.divided-ratio w h p q)

  multiplied_le :
      (w h a b : ℕ)
      → 0 < w
      → 0 < h
      → 0 < b
      → greater (ratio a b) (ratio w h) ≡ false
      → multiplied h (ratio a b) ≤ w
  multiplied_le w h a b p q r g =
      omega (arith, double.multiplied_monotone h a b w h r q g, double.multiplied-ratio w h p q)

  -- A frame of any positive size is placed within a canvas of two pixels or more in each direction,
  -- fills it in one direction, and is in its middle up to three pixels.
  pub fit-IsPlaced :
      (w h a b : ℕ) → 2 ≤ w → 2 ≤ h → 0 < a → 0 < b → IsPlaced w h (fit double w h a b)
  unfolding fit
  fit-IsPlaced w h a b p q r s = elim (Bool-cases (greater (ratio a b) (ratio w h))) [
    | inl g ↦
        let bounds =
          side_bounds (divided w (ratio a b)) h q
            (divided_le w h a b (omega arith) (omega arith) s g) in
        rw (g, fit)
          (record {
            across = omega arith;
            down = bounds.1;
            wide = p;
            tall = bounds.0;
            fills = inl (omega arith);
            centred_x = omega arith;
            centred_y = bounds.2;
          })
    | inr g ↦
        let bounds =
          side_bounds (multiplied h (ratio a b)) w p
            (multiplied_le w h a b (omega arith) (omega arith) s g) in
        rw (g, fit)
          (record {
            across = bounds.1;
            down = omega arith;
            wide = bounds.0;
            tall = q;
            fills = inr (omega arith);
            centred_x = bounds.2;
            centred_y = omega arith;
          })
  ]
