-- ===== src/Video.antt =====
-- src/core/VideoDecoder.cpp: where a decoded frame is put on the canvas, and what the canvas holds
-- when it is shown.
pub mod Geometry
pub mod Mirror
pub mod Picture
pub mod Frames
pub mod Nalus
use iriseus.Prelude.{
  ℕ, zero, suc, ◌+◌, ◌-◌, ◌*◌, ◌/◌, ◌%◌, ◌≤◌, ◌<◌, ◌≡◌, Bool, true, false, ◌&&◌, ◌||◌, not, ltb,
  nat_beq, Option, none, some, List, [], ◌∷◌, if◌then◌else◌,
}

-- What the code does with a `double`: quotients of positive widths and heights, their order, and
-- whole numbers divided or multiplied by one and cut off. Division and multiplication round to the
-- nearest double, so that they keep the order, and what is multiplied back errs by less than one.
pub record DoubleLib : Type 1 where
  pub Double : Type 0
  pub ratio : ℕ → ℕ → Double
  pub greater : Double → Double → Bool
  pub divided : ℕ → Double → ℕ
  pub multiplied : ℕ → Double → ℕ
  pub divided_antitone :
      (n a b c d : ℕ)
      → 0 < b
      → 0 < c
      → 0 < d
      → greater (ratio a b) (ratio c d) ≡ true
      → divided n (ratio a b) ≤ divided n (ratio c d)
  pub divided-ratio : (w h : ℕ) → 0 < w → 0 < h → divided w (ratio w h) ≤ h
  pub multiplied_monotone :
      (n a b c d : ℕ)
      → 0 < b
      → 0 < d
      → greater (ratio a b) (ratio c d) ≡ false
      → multiplied n (ratio a b) ≤ multiplied n (ratio c d)
  pub multiplied-ratio : (w h : ℕ) → 0 < w → 0 < h → multiplied h (ratio w h) ≤ w

-- The three bytes of `Pixel24`.
pub record Pixel : Type 0 where
  pub b : ℕ
  pub g : ℕ
  pub r : ℕ

abbrev pub black : Pixel
black = record { b = 0; g = 0; r = 0 }

-- The memory from the start of `m_rgbBuffer` on, pixel by pixel: every address of the code is a
-- multiple of three bytes from there. The buffer is the first width × height pixels.
abbrev pub Memory : Type 0
Memory = ℕ → Pixel

-- libavcodec gives frames, libswscale scales them. `scale` writes a picture of the given width and
-- height, whose rows begin `stride` pixels apart, and nothing else.
pub record SwsLib : Type 1 where
  pub Frame : Type 0
  pub width : Frame → ℕ
  pub height : Frame → ℕ
  pub format : Frame → ℕ
  pub has_context : ℕ → ℕ → ℕ → ℕ → ℕ → Bool
  pub picture : Frame → ℕ → ℕ → ℕ → ℕ → Pixel
  pub scale : Frame → ℕ → ℕ → ℕ → ℕ → Memory → Memory
  pub scale_inside :
      (f : Frame) (w h start stride : ℕ) (m : Memory) (row col : ℕ)
      → w ≤ stride
      → row < h
      → col < w
      → scale f w h start stride m (start + row * stride + col) ≡ picture f w h row col
  pub scale_outside :
      (f : Frame) (w h start stride : ℕ) (m : Memory) (i : ℕ)
      → ((row col : ℕ) → row < h → col < w → ¬ (i ≡ start + row * stride + col))
      → scale f w h start stride m i ≡ m i

-- `m_scaledWidth`, `m_scaledHeight`, `m_offsetX` and `m_offsetY`.
pub record Fit : Type 0 where
  pub scaled_width : ℕ
  pub scaled_height : ℕ
  pub offset_x : ℕ
  pub offset_y : ℕ

-- `n & ~1`.
abbrev pub even : ℕ → ℕ
even n = n - n % 2

abbrev pub at_least_two : ℕ → ℕ
at_least_two n = if ltb n 2 then 2 else n

module _ (double : DoubleLib) where
  open double use {ratio, greater, divided, multiplied}

  -- Letterbox for a frame that is wider than the canvas, pillarbox for others.
  unfoldable pub fit : ℕ → ℕ → ℕ → ℕ → Fit
  fit target_width target_height src_width src_height =
      let aspect = ratio src_width src_height in
      let wide = at_least_two (even (divided target_width aspect)) in
      let tall = at_least_two (even (multiplied target_height aspect)) in
      if greater aspect (ratio target_width target_height)
      then record {
        scaled_width = target_width;
        scaled_height = wide;
        offset_x = 0;
        offset_y = even ((target_height - wide) / 2);
      }
      else record {
        scaled_width = tall;
        scaled_height = target_height;
        offset_x = even ((target_width - tall) / 2);
        offset_y = 0;
      }

-- `std::fill` of the buffer.
unfoldable pub fill_black : ℕ → Memory → Memory
fill_black size m = λ i. if ltb i size then black else m i

unfoldable pub swap : ℕ → ℕ → Memory → Memory
swap i j m = λ k. if nat_beq k i then m j else if nat_beq k j then m i else m k

-- The swaps of a row from column `x` on, with `n` to go.
unfoldable pub mirror_row : ℕ → ℕ → ℕ → ℕ → Memory → Memory
unfolding swap
mirror_row zero row width x m = m
mirror_row (suc n) row width x m =
    mirror_row n row width (x + 1) (swap (row + x) (row + (width - 1 - x)) m)

-- The rows from `row` on, with `n` to go.
unfoldable pub mirror_rows : ℕ → ℕ → ℕ → Fit → Memory → Memory
unfolding mirror_row
mirror_rows zero row target_width at m = m
mirror_rows (suc n) row target_width at m = mirror_rows n (row + 1) target_width at (
    mirror_row (at.scaled_width / 2) ((at.offset_y + row) * target_width + at.offset_x)
      at.scaled_width 0 m)

-- `scaler` is the size that the context was made for, `none` for none.
pub record Decoder : Type 0 where
  pub target_width : ℕ
  pub target_height : ℕ
  pub src_width : ℕ
  pub src_height : ℕ
  pub last_format : Option ℕ
  pub placed : Fit
  pub scaler : Option (ℕ × ℕ)
  pub flip_horizontal : Bool
  pub has_callback : Bool
  pub buffer : Memory

abbrev pub positive_or : ℕ → ℕ → ℕ
positive_or n d = if ltb 0 n then n else d

-- `init`, when libavcodec has the codec. What is behind the buffer stays as it is.
unfoldable pub init : ℕ → ℕ → Memory → Decoder
unfolding fill_black
init width height m =
    let w = positive_or width 1920 in
    let h = positive_or height 1080 in
    record {
      target_width = w;
      target_height = h;
      src_width = 0;
      src_height = 0;
      last_format = none;
      placed = record { scaled_width = 0; scaled_height = 0; offset_x = 0; offset_y = 0 };
      scaler = none;
      flip_horizontal = true;
      has_callback = false;
      buffer = fill_black (w * h) m;
    }

abbrev pub changed : Option ℕ → ℕ → Bool
changed none f = true
changed (some g) f = not (nat_beq f g)

module _ (sws : SwsLib) where
  open sws use {Frame, has_context, scale}

  -- `sws_getContext`, with the size that it scales to.
  abbrev pub context_for : ℕ → ℕ → ℕ → Fit → Option (ℕ × ℕ)
  context_for src_width src_height fmt at =
      if has_context src_width src_height fmt at.scaled_width at.scaled_height
      then some (at.scaled_width, at.scaled_height)
      else none

  -- The canvas with the margins black, the scaled picture in its place, and its rows mirrored.
  unfoldable pub drawn : Frame → ℕ × ℕ → Decoder → Memory
  unfolding fill_black mirror_rows
  drawn f (w, h) d =
      let at = d.placed in
      let cleared =
        if ltb at.scaled_width d.target_width || ltb at.scaled_height d.target_height
        then fill_black (d.target_width * d.target_height) d.buffer
        else d.buffer in
      let put = scale f w h (at.offset_y * d.target_width + at.offset_x) d.target_width cleared in
      if d.flip_horizontal then mirror_rows at.scaled_height 0 d.target_width at put else put

  -- `convertToRgb`: the canvas that the callback gets, `none` if it is not called.
  unfoldable pub convert_to_rgb : Frame → Option (ℕ × ℕ) → Decoder → Decoder × Option Memory
  unfolding drawn
  convert_to_rgb f none d = (d, none)
  convert_to_rgb f (some size) d =
      if d.has_callback && ltb 0 d.src_width && ltb 0 d.src_height
      then (record d { buffer = drawn f size d }, some (drawn f size d))
      else (d, none)

abbrev pub with_canvas : Option Memory → Decoder × List Memory → Decoder × List Memory
with_canvas none r = r
with_canvas (some m) r = (r.0, m ∷ r.1)

module _ (double : DoubleLib) (sws : SwsLib) where
  open sws use {Frame, width, height, format}

  -- A frame of another size or format than the one before.
  unfoldable pub resized : Frame → Decoder → Decoder
  unfolding fit fill_black
  resized f d =
      let e = record d {
        src_width = width f;
        src_height = height f;
        last_format = some (format f);
      } in
      let at = fit double d.target_width d.target_height (width f) (height f) in
      if ltb 0 (width f) && ltb 0 (height f)
      then record e {
        placed = at;
        scaler = context_for sws (width f) (height f) (format f) at;
        buffer = fill_black (d.target_width * d.target_height) d.buffer;
      }
      else e

  unfoldable pub prepared : Frame → Decoder → Decoder
  unfolding resized
  prepared f d =
      if not (nat_beq (width f) d.src_width)
        || not (nat_beq (height f) d.src_height)
        || changed d.last_format (format f)
      then resized f d
      else d

  -- One round of the loop of `decode`.
  unfoldable pub decode_frame : Frame → Decoder → Decoder × Option Memory
  unfolding prepared convert_to_rgb
  decode_frame f d = let e = prepared f d in convert_to_rgb sws f e.scaler e

  -- The frames that a packet gives.
  unfoldable pub decode : List Frame → Decoder → Decoder × List Memory
  unfolding decode_frame
  decode [] d = (d, [])
  decode (f ∷ fs) d =
      let (e, out) = decode_frame f d in let rest = decode fs e in with_canvas out rest
