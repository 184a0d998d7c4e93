-- ===== src/Video/Picture.antt =====
-- The canvas that a frame is shown on, pixel by pixel.
use native.Mathlib.Nat.{add-mul, mul_comm}
use iriseus.Prelude.{
  ℕ, ◌+◌, ◌-◌, ◌*◌, ◌≤◌, ◌<◌, ◌≡◌, refl, sym, ap, ◌∙◌, inl, inr, Bool, true, false, ◌&&◌, ◌||◌, leb,
  ltb, arith, if◌then◌else◌, Bool-cases,
}
use iriseus.Video.{SwsLib, Pixel, black, Memory, Fit, Decoder, fill_black, drawn}
use iriseus.Video.Geometry.{IsPlaced}
use iriseus.Video.Mirror.{at, at-injective, flipped, flipped-lt, mirror_rows_lem}

abbrev pub in_picture : Fit → ℕ → ℕ → Bool
in_picture f y x =
    leb f.offset_y y
    && ltb y (f.offset_y + f.scaled_height)
    && leb f.offset_x x
    && ltb x (f.offset_x + f.scaled_width)

at-offset : (s a b r c : ℕ) → a * s + b + r * s + c ≡ at s (a + r) (b + c)
at-offset s a b r c = omega (arith, add-mul a r s)

at-lt : (w h y x : ℕ) → y < h → x < w → at w y x < w * h
at-lt w h y x p q = let k : y * w + x < h * w = grind arith in omega (arith, mul_comm w h)

module _ (sws : SwsLib) where
  open sws use {Frame, picture, scale, scale_inside, scale_outside}

  -- The pixel in row `y` and column `x`: that of the scaled picture, mirrored or not, or black.
  abbrev pub expected : Frame → Fit → Bool → ℕ → ℕ → Pixel
  expected f p flip y x =
      if in_picture p y x
      then picture f p.scaled_width p.scaled_height (y - p.offset_y)
          (if flip then p.scaled_width - 1 - (x - p.offset_x) else x - p.offset_x)
      else black

  module _ (f : Frame) (w h : ℕ) (p : Fit) (fits : IsPlaced w h p) where
    abbrev put : Memory → Memory
    put m = scale f p.scaled_width p.scaled_height (p.offset_y * w + p.offset_x) w m

    inside_bounds :
        (y x : ℕ)
        → in_picture p y x ≡ true
        → (p.offset_y ≤ y)
          × (y < p.offset_y + p.scaled_height)
          × (p.offset_x ≤ x)
          × (x < p.offset_x + p.scaled_width)
    inside_bounds y x e = ground arith

    put_inside :
        (m : Memory) (y x : ℕ)
        → in_picture p y x ≡ true
        → put m (at w y x)
          ≡ picture f p.scaled_width p.scaled_height (y - p.offset_y) (x - p.offset_x)
    put_inside m y x e =
        let (a, b, c, d) = inside_bounds y x e in
        ap (put m) (
          sym (
            at-offset w p.offset_y p.offset_x (y - p.offset_y) (x - p.offset_x)
            ∙ ap (λ (r : ℕ). at w r (p.offset_x + (x - p.offset_x))) (omega arith)
            ∙ ap (at w y) (omega arith)))
        ∙ scale_inside f p.scaled_width p.scaled_height (p.offset_y * w + p.offset_x) w m
            (y - p.offset_y) (x - p.offset_x) (omega (arith, fits.across)) (omega arith)
            (omega arith)

    put_outside :
        (m : Memory) (y x : ℕ) → x < w → in_picture p y x ≡ false → put m (at w y x) ≡ m (at w y x)
    put_outside m y x k e =
        scale_outside f p.scaled_width p.scaled_height (p.offset_y * w + p.offset_x) w m (at w y x)
          (λ row col a b g.
            let (r, c) =
              at-injective w y x (p.offset_y + row) (p.offset_x + col) k
                (omega (arith, fits.across)) (g ∙ at-offset w p.offset_y p.offset_x row col) in
            ground arith)

    -- With margins the canvas is cleared; without, there is nothing outside the picture.
    cleared_outside :
        (m : Memory) (y x : ℕ)
        → y < h
        → x < w
        → in_picture p y x ≡ false
        → (if ltb p.scaled_width w || ltb p.scaled_height h then fill_black (w * h) m else m)
            (at w y x)
          ≡ black
    unfolding fill_black
    cleared_outside m y x a b e =
        ground (arith, at-lt w h y x a b, fits.across, fits.down, fits.wide, fits.tall)

    -- The picture on its canvas, before it is mirrored.
    put_lem :
        (m : Memory) (y x : ℕ)
        → y < h
        → x < w
        → put
            (if ltb p.scaled_width w || ltb p.scaled_height h then fill_black (w * h) m else m)
            (at w y x)
          ≡ expected f p false y x
    put_lem m y x a b = elim (Bool-cases (in_picture p y x)) [
      | inl e ↦ put_inside _ y x e ∙ rw e refl
      | inr e ↦ put_outside _ y x b e ∙ cleared_outside m y x a b e ∙ rw e refl
    ]

    expected-flipped :
        (y x : ℕ)
        → expected f p false y (flipped w p fits.across p.scaled_height 0 y x)
          ≡ expected f p true y x
    expected-flipped y x = ground (arith, fits.across)

  -- The canvas of width `w` and height `h` that is drawn for a frame: where the frame is placed,
  -- it holds the scaled picture, mirrored if the flag says so, and it is black everywhere else.
  pub drawn_lem :
      (f : Frame) (d : Decoder) (y x : ℕ)
      → IsPlaced d.target_width d.target_height d.placed
      → y < d.target_height
      → x < d.target_width
      → drawn sws f (d.placed.scaled_width, d.placed.scaled_height) d (at d.target_width y x)
        ≡ expected f d.placed d.flip_horizontal y x
  unfolding drawn
  drawn_lem f d y x fits a b = elim (Bool-cases d.flip_horizontal) [
    | inl e ↦
        rw (e, drawn)
          (mirror_rows_lem d.target_width d.placed fits.across d.placed.scaled_height 0 y x _ b
            ∙ put_lem f d.target_width d.target_height d.placed fits d.buffer y _ a
                (flipped-lt d.target_width d.placed fits.across d.placed.scaled_height 0 y x b)
            ∙ expected-flipped f d.target_width d.target_height d.placed fits y x)
    | inr e ↦
        rw (e, drawn) (put_lem f d.target_width d.target_height d.placed fits d.buffer y x a b)
  ]
