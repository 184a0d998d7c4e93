-- ===== src/Video/Frames.antt =====
-- The canvases that the callback gets for the frames of a packet.
use iriseus.Prelude.{
  ℕ, ◌≤◌, ◌<◌, ◌≡◌, refl, sym, ap, ◌∙◌, subst, ◌⊎◌, inl, inr, Bool, true, false, ◌&&◌, ◌||◌, not,
  ltb, nat_beq, Option, none, some, List, [], ◌∷◌, arith, Bool-cases, Option-cases, All,
}
use iriseus.Video.{
  DoubleLib, SwsLib, Memory, Fit, Decoder, context_for, fit, changed, resized, prepared, drawn,
  convert_to_rgb, decode_frame, with_canvas, decode,
}
use iriseus.Video.Geometry.{IsPlaced, fit-IsPlaced}
use iriseus.Video.Mirror.{at}
use iriseus.Video.Picture.{expected, drawn_lem}

unchanged : (o : Option ℕ) (f : ℕ) → changed o f ≡ false → o ≡ some f
unchanged none f h = cc
unchanged (some g) f h = ground arith

module _ (double : DoubleLib) (sws : SwsLib) where
  open sws use {Frame, width, height, format, has_context}

  -- After a frame of positive size, its place and its context are those of its size and format.
  pub record IsReady (w h : ℕ) (d : Decoder) : Type 0 where
    pub wide : d.target_width ≡ w
    pub tall : d.target_height ≡ h
    pub listens : d.has_callback ≡ true
    pub placed :
        (fmt : ℕ)
        → d.last_format ≡ some fmt
        → 0 < d.src_width
        → 0 < d.src_height
        → (d.placed ≡ fit double w h d.src_width d.src_height)
          × (d.scaler
              ≡ context_for sws d.src_width d.src_height fmt
                  (fit double w h d.src_width d.src_height))

  -- What the decoder is when a frame is converted.
  record IsPrepared (w h : ℕ) (f : Frame) (d e : Decoder) : Type 0 where
    ready : IsReady w h e
    src_width : e.src_width ≡ width f
    src_height : e.src_height ≡ height f
    last_format : e.last_format ≡ some (format f)
    flip : e.flip_horizontal ≡ d.flip_horizontal

  resized-IsPrepared :
      (w h : ℕ) (f : Frame) (d : Decoder)
      → IsReady w h d
      → IsPrepared w h f d (resized double sws f d)
  unfolding resized
  resized-IsPrepared w h f d r = elim (Bool-cases (ltb 0 (width f) && ltb 0 (height f))) [
    | inl e ↦
        rw (e, resized)
          (record {
            ready = record {
              wide = r.wide;
              tall = r.tall;
              listens = r.listens;
              placed = λ fmt k a b.
                  let same : format f ≡ fmt = cc in rw (r.wide, r.tall, same) (refl, refl);
            };
            src_width = refl;
            src_height = refl;
            last_format = refl;
            flip = refl;
          })
    | inr e ↦
        rw (e, resized)
          (record {
            ready = record {
              wide = r.wide;
              tall = r.tall;
              listens = r.listens;
              placed = λ fmt k a b. absurd (let no : ⊥ = ground (arith, e, a, b) in no);
            };
            src_width = refl;
            src_height = refl;
            last_format = refl;
            flip = refl;
          })
  ]

  prepared-IsPrepared :
      (w h : ℕ) (f : Frame) (d : Decoder)
      → IsReady w h d
      → IsPrepared w h f d (prepared double sws f d)
  unfolding prepared
  prepared-IsPrepared w h f d r =
      elim (Bool-cases (
        not (nat_beq (width f) d.src_width)
        || not (nat_beq (height f) d.src_height)
        || changed d.last_format (format f))) [
          | inl e ↦ rw (e, prepared) (resized-IsPrepared w h f d r)
          | inr e ↦
              rw (e, prepared)
                (record {
                  ready = r;
                  src_width = ground (arith, e);
                  src_height = ground (arith, e);
                  last_format = unchanged d.last_format (format f) (ground (arith, e));
                  flip = refl;
                })
        ]

  -- The canvas of width `w` and height `h` that shows a frame.
  pub CanvasOf : ℕ → ℕ → Bool → Frame → Memory → Type 0
  CanvasOf w h flip f m =
      (y x : ℕ)
      → y < h
      → x < w
      → m (at w y x) ≡ expected sws f (fit double w h (width f) (height f)) flip y x

  -- Whether libswscale has a context for a frame.
  abbrev pub scalable : ℕ → ℕ → Frame → Option (ℕ × ℕ)
  scalable w h f =
      context_for sws (width f) (height f) (format f) (fit double w h (width f) (height f))

  -- Every frame is shown in turn, but for those that libswscale has no context for.
  pub data Shows (w h : ℕ) (flip : Bool) : List Frame → List Memory → Type 0 where
    done : Shows w h flip [] []
    left_out :
        {f : Frame} {fs : List Frame} {ms : List Memory}
        → scalable w h f ≡ none
        → Shows w h flip fs ms
        → Shows w h flip (f ∷ fs) ms
    shown :
        {f : Frame} {fs : List Frame} {m : Memory} {ms : List Memory} (size : ℕ × ℕ)
        → scalable w h f ≡ some size
        → CanvasOf w h flip f m
        → Shows w h flip fs ms
        → Shows w h flip (f ∷ fs) (m ∷ ms)

  -- What a frame of positive size gives.
  record Round (w h : ℕ) (f : Frame) (d e : Decoder) (out : Option Memory) : Type 0 where
    ready : IsReady w h e
    flip : e.flip_horizontal ≡ d.flip_horizontal
    output :
        ((scalable w h f ≡ none) × (out ≡ none))
        ⊎ ((size : ℕ × ℕ) × (m : Memory) × (scalable w h f ≡ some size)
            × (out ≡ some m)
            × CanvasOf w h d.flip_horizontal f m)

  context_size :
      (a b fmt : ℕ) (p : Fit) (size : ℕ × ℕ)
      → context_for sws a b fmt p ≡ some size
      → context_for sws a b fmt p ≡ some (p.scaled_width, p.scaled_height)
  context_size a b fmt p size h = ground arith

  module _ (w h : ℕ) (two_wide : 2 ≤ w) (two_tall : 2 ≤ h) where
    converted :
        (f : Frame) (d e : Decoder)
        → 0 < width f
        → 0 < height f
        → IsPrepared w h f d e
        → (e.placed ≡ fit double w h (width f) (height f)) × (e.scaler ≡ scalable w h f)
    converted f d e a b p =
        let (k, l) =
          p.ready.placed (format f) p.last_format (rw p.src_width a) (rw p.src_height b) in
        (k ∙ rw (p.src_width, p.src_height), l ∙ rw (p.src_width, p.src_height))

    canvas :
        (f : Frame) (d e : Decoder)
        → 0 < width f
        → 0 < height f
        → IsPrepared w h f d e
        → CanvasOf w h d.flip_horizontal f
            (drawn sws f (e.placed.scaled_width, e.placed.scaled_height) e)
    unfolding CanvasOf
    canvas f d e a b p y x k l =
        let pl = (converted f d e a b p).0 in
        let placed : IsPlaced e.target_width e.target_height e.placed =
          rw (p.ready.wide, p.ready.tall, pl)
            (fit-IsPlaced double w h (width f) (height f) two_wide two_tall a b) in
        ap (λ (s : ℕ). drawn sws f (e.placed.scaled_width, e.placed.scaled_height) e (at s y x))
          (sym p.ready.wide)
        ∙ drawn_lem sws f e y x placed (rw p.ready.tall k) (rw p.ready.wide l)
        ∙ ap (λ (q : Fit). expected sws f q e.flip_horizontal y x) pl
        ∙ ap (λ (b : Bool). expected sws f (fit double w h (width f) (height f)) b y x) p.flip

    convert_none :
        (f : Frame) (e : Decoder) (o : Option (ℕ × ℕ))
        → o ≡ none
        → convert_to_rgb sws f o e ≡ (e, none)
    unfolding convert_to_rgb
    convert_none f e o h = rw (h, convert_to_rgb)

    convert_some :
        (f : Frame) (e : Decoder) (o : Option (ℕ × ℕ)) (size : ℕ × ℕ)
        → o ≡ some size
        → (e.has_callback && ltb 0 e.src_width && ltb 0 e.src_height) ≡ true
        → convert_to_rgb sws f o e
          ≡ (record e { buffer = drawn sws f size e }, some (drawn sws f size e))
    unfolding convert_to_rgb drawn
    convert_some f e o size h t = rw (h, convert_to_rgb) (rw t)

    convert-Round :
        (f : Frame) (d e : Decoder)
        → 0 < width f
        → 0 < height f
        → IsPrepared w h f d e
        → Round w h f d (convert_to_rgb sws f e.scaler e).0 (convert_to_rgb sws f e.scaler e).1
    unfolding convert_to_rgb
    convert-Round f d e a b p = elim (Option-cases (scalable w h f)) [
      | inl miss ↦
          let sc : e.scaler ≡ none = (converted f d e a b p).1 ∙ miss in
          rw (convert_none f e e.scaler sc)
            (record { ready = p.ready; flip = p.flip; output = inl (miss, refl) })
      | inr (size, hit) ↦
          let (pl, same) = converted f d e a b p in
          let sc : e.scaler ≡ some (e.placed.scaled_width, e.placed.scaled_height) =
            same
            ∙ context_size (width f) (height f) (format f) (fit double w h (width f) (height f))
                size hit
            ∙ ap (λ (q : Fit). some (q.scaled_width, q.scaled_height)) (sym pl) in
          let test : (e.has_callback && ltb 0 e.src_width && ltb 0 e.src_height) ≡ true =
            ground (arith, p.ready.listens, p.src_width, p.src_height) in
          let m = drawn sws f (e.placed.scaled_width, e.placed.scaled_height) e in
          rw (convert_some f e e.scaler _ sc test) (record {
            ready = record {
              wide = p.ready.wide;
              tall = p.ready.tall;
              listens = p.ready.listens;
              placed = p.ready.placed;
            };
            flip = p.flip;
            output = inr (size, m, hit, refl, canvas f d e a b p);
          })
    ]

    decode_frame-Round :
        (f : Frame) (d : Decoder)
        → 0 < width f
        → 0 < height f
        → IsReady w h d
        → Round w h f d (decode_frame double sws f d).0 (decode_frame double sws f d).1
    unfolding decode_frame
    decode_frame-Round f d a b r =
        convert-Round f d (prepared double sws f d) a b (prepared-IsPrepared w h f d r)

    with_canvas-Shows :
        (f : Frame) (fs : List Frame) (flip : Bool) (out : Option Memory)
        (rest : Decoder × List Memory)
        → ((scalable w h f ≡ none) × (out ≡ none))
          ⊎ ((size : ℕ × ℕ) × (m : Memory) × (scalable w h f ≡ some size)
              × (out ≡ some m)
              × CanvasOf w h flip f m)
        → Shows w h flip fs rest.1
        → IsReady w h rest.0
        → Shows w h flip (f ∷ fs) (with_canvas out rest).1 × IsReady w h (with_canvas out rest).0
    with_canvas-Shows f fs flip out rest (inl (miss, e)) s r = rw e (left_out miss s, r)
    with_canvas-Shows f fs flip out rest (inr (size, m, hit, e, c)) s r =
        rw e (shown size hit c s, r)

    -- On a canvas of two pixels or more in each direction, the callback gets, for every frame of
    -- positive size in turn but for those that libswscale has no context for, the canvas with the
    -- frame scaled to its place, mirrored if the flag says so, and black around it. It holds of any
    -- decoder that was set up for the canvas, whatever it has decoded, and of the decoder behind
    -- the frames again.
    pub decode-Shows :
        (fs : List Frame) (d : Decoder)
        → All (λ f. (0 < width f) × (0 < height f)) fs
        → IsReady w h d
        → Shows w h d.flip_horizontal fs (decode double sws fs d).1
          × IsReady w h (decode double sws fs d).0
    unfolding decode
    decode-Shows [] d p r = (done, r)
    decode-Shows (f ∷ fs) d ((a, b), p) r =
        let one = decode_frame-Round f d a b r in
        let (more, last) = decode-Shows fs (decode_frame double sws f d).0 p one.ready in
        let rest : Shows w h d.flip_horizontal fs
            (decode double sws fs (decode_frame double sws f d).0).1 =
          subst
            (λ (b : Bool). Shows w h b fs (decode double sws fs (decode_frame double sws f d).0).1)
            one.flip more in
        with_canvas-Shows f fs d.flip_horizontal _ _ one.output rest last
