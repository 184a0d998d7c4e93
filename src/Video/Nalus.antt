-- ===== src/Video/Nalus.antt =====
-- The NALUs that reach the decoder of src/core/VideoDecoder.cpp, up to the camera.
use iriseus.Prelude.{
  ℕ, ◌≤◌, ◌<◌, ◌≡◌, refl, ap, ◌∙◌, subst, ◌||◌, Bytes, Bool, true, false, ◌&&◌, Option, none, some,
  List, [], ◌∷◌, ◌++◌, if◌then◌else◌, if_cases, nat_beq, not, ltb, All,
}
use iriseus.Video.{
  DoubleLib, SwsLib, Memory, Decoder, changed, resized, prepared, convert_to_rgb, decode_frame,
  with_canvas, decode,
}
use iriseus.Video.Frames.{IsReady, Shows, done, left_out, shown, decode-Shows}
use iriseus.Camera.{Call, loads, creates, Answers, closed, run}
use iriseus.Camera.Shown.{all_shown, all_sent, all_shown-sent}

-- libavcodec: whether a packet is taken, and the frames that it then gives.
pub record CodecLib (Frame : Type 0) : Type 1 where
  pub State : Type 0
  pub send_packet : Bytes → State → Bool × State
  pub receive_frames : State → List Frame × State

-- The calls of softcam.dll for canvases: none without a canvas.
abbrev pub calls_for : ℕ → ℕ → ℕ → List Memory → List Call
calls_for w h cam [] = []
calls_for w h cam (m ∷ ms) = loads ∷ creates w h (some cam) ∷ all_sent cam (m ∷ ms)

module _ (double : DoubleLib) (sws : SwsLib) (codec : CodecLib sws.Frame) where
  open sws use {Frame, width, height}
  open codec use {State, send_packet, receive_frames}

  -- `pushNalu`, with the head of `decode`.
  unfoldable pub push_nalu : Bytes → State → Decoder → State × Decoder × List Memory
  unfolding decode
  push_nalu nalu s d =
      let (taken, s') = send_packet nalu s in
      let (fs, s'') = receive_frames s' in
      let (e, ms) = decode double sws fs d in if not taken then (s', d, []) else (s'', e, ms)

  -- The decoder thread, NALU by NALU: the canvases that the callback gets.
  unfoldable pub push_nalus : List Bytes → State → Decoder → List Memory
  unfolding push_nalu
  push_nalus [] s d = []
  push_nalus (nalu ∷ nalus) s d =
      let (s', e, ms) = push_nalu nalu s d in ms ++ push_nalus nalus s' e

  -- What libavcodec makes of NALUs: the frames of those that it takes.
  abbrev pub frames_of : List Bytes → State → List Frame
  frames_of [] s = []
  frames_of (nalu ∷ nalus) s =
      let (taken, s') = send_packet nalu s in
      let (fs, s'') = receive_frames s' in
      if not taken then frames_of nalus s' else fs ++ frames_of nalus s''

  resized-flip :
      (f : Frame) (d : Decoder) → (resized double sws f d).flip_horizontal ≡ d.flip_horizontal
  unfolding resized
  resized-flip f d =
      if_cases (λ (e : Decoder). e.flip_horizontal ≡ d.flip_horizontal)
        (ltb 0 (width f) && ltb 0 (height f)) _ _ (λ e. refl) (λ e. refl)

  prepared-flip :
      (f : Frame) (d : Decoder) → (prepared double sws f d).flip_horizontal ≡ d.flip_horizontal
  unfolding prepared
  prepared-flip f d =
      if_cases (λ (e : Decoder). e.flip_horizontal ≡ d.flip_horizontal)
        (not (nat_beq (width f) d.src_width)
          || not (nat_beq (height f) d.src_height)
          || changed d.last_format (sws.format f))
        _ _ (λ e. resized-flip f d) (λ e. refl)

  convert-flip :
      (f : Frame) (o : Option (ℕ × ℕ)) (d : Decoder)
      → (convert_to_rgb sws f o d).0.flip_horizontal ≡ d.flip_horizontal
  unfolding convert_to_rgb
  convert-flip f none d = refl
  convert-flip f (some size) d =
      if_cases (λ (r : Decoder × Option Memory). r.0.flip_horizontal ≡ d.flip_horizontal)
        (d.has_callback && ltb 0 d.src_width && ltb 0 d.src_height) _ _ (λ e. refl) (λ e. refl)

  with_canvas-decoder : (o : Option Memory) (r : Decoder × List Memory) → (with_canvas o r).0 ≡ r.0
  with_canvas-decoder none r = refl
  with_canvas-decoder (some m) r = refl

  decode-flip :
      (fs : List Frame) (d : Decoder)
      → (decode double sws fs d).0.flip_horizontal ≡ d.flip_horizontal
  unfolding decode decode_frame
  decode-flip [] d = refl
  decode-flip (f ∷ fs) d =
      let e = prepared double sws f d in
      ap (λ (x : Decoder). x.flip_horizontal) (with_canvas-decoder _ _)
      ∙ (decode-flip fs (convert_to_rgb sws f e.scaler e).0
          ∙ (convert-flip f e.scaler e ∙ prepared-flip f d))

  module _ (w h : ℕ) (two_wide : 2 ≤ w) (two_tall : 2 ≤ h) where
    Shows-append :
        (flip : Bool) (fs gs : List Frame) (ms ns : List Memory)
        → Shows double sws w h flip fs ms
        → Shows double sws w h flip gs ns
        → Shows double sws w h flip (fs ++ gs) (ms ++ ns)
    Shows-append flip [] gs [] ns done t = t
    Shows-append flip [] gs (m ∷ ms) ns s t = elim s [ ]
    Shows-append flip (f ∷ fs) gs ms ns (left_out miss s) t =
        left_out miss (Shows-append flip fs gs ms ns s t)
    Shows-append flip (f ∷ fs) gs (m ∷ ms) ns (shown size hit c s) t =
        shown size hit c (Shows-append flip fs gs ms ns s t)

    abbrev pub Positive : Frame → Type 0
    Positive f = (0 < width f) × (0 < height f)

    All-both : (fs gs : List Frame) → All Positive (fs ++ gs) → All Positive fs × All Positive gs
    All-both [] gs h = (tt, h)
    All-both (f ∷ fs) gs (p, h) = let (a, b) = All-both fs gs h in ((p, a), b)

    -- What the rest of the NALUs has to show.
    Continues : List Bytes → Type 0
    Continues nalus =
        (s : State) (d : Decoder)
        → All Positive (frames_of nalus s)
        → IsReady double sws w h d
        → Shows double sws w h d.flip_horizontal (frames_of nalus s) (push_nalus nalus s d)

    -- One NALU, by whether libavcodec takes it.
    pushed :
        (taken : Bool) (s' s'' : State) (fs : List Frame) (d : Decoder) (nalus : List Bytes)
        → Continues nalus
        → All Positive (if not taken then frames_of nalus s' else fs ++ frames_of nalus s'')
        → IsReady double sws w h d
        → let r : State × Decoder × List Memory =
            if not taken
            then (s', d, [])
            else (s'', (decode double sws fs d).0, (decode double sws fs d).1) in
          Shows double sws w h d.flip_horizontal
            (if not taken then frames_of nalus s' else fs ++ frames_of nalus s'')
            (r.2 ++ push_nalus nalus r.0 r.1)
    unfolding Continues
    pushed false s' s'' fs d nalus rest p r = rest s' d p r
    pushed true s' s'' fs d nalus rest p r =
        let (now, later) = All-both fs (frames_of nalus s'') p in
        let (shows, ready) = decode-Shows double sws w h two_wide two_tall fs d now r in
        Shows-append d.flip_horizontal fs (frames_of nalus s'') _ _ shows (
          subst
            (λ (b : Bool).
              Shows double sws w h b (frames_of nalus s'')
                (push_nalus nalus s'' (decode double sws fs d).0))
            (decode-flip fs d) (rest s'' (decode double sws fs d).0 later ready))

    push_nalus-Shows : (nalus : List Bytes) → Continues nalus
    unfolding push_nalus push_nalu Continues
    push_nalus-Shows [] s d p r = done
    push_nalus-Shows (nalu ∷ nalus) s d p r =
        pushed (send_packet nalu s).0 _ _ _ d nalus (push_nalus-Shows nalus) p r

    calls_lem :
        (a : Answers) (cam : ℕ) (ms : List Memory)
        → a.library ≡ true
        → (a.create && a.delete && a.send) ≡ true
        → a.handle ≡ some cam
        → (run closed (all_shown a w h ms)).1 ≡ calls_for w h cam ms
    unfolding run
    calls_lem a cam [] l f c = refl
    calls_lem a cam (m ∷ ms) l f c = all_shown-sent a w h cam m ms l f c

    -- On a canvas of two pixels or more in each direction, with softcam.dll there and giving a
    -- camera, of any NALUs that the decoder thread decodes after it was set up: for each frame that
    -- libavcodec gives of them, in order, but for those that libswscale has no context for, the
    -- camera gets the canvas that shows this frame, and nothing else; it is created, in the size
    -- of the canvas, before the first. All frames have to be of positive size.
    pub nalus_reach_camera :
        (nalus : List Bytes) (s : State) (d : Decoder) (a : Answers) (cam : ℕ)
        → All Positive (frames_of nalus s)
        → IsReady double sws w h d
        → a.library ≡ true
        → (a.create && a.delete && a.send) ≡ true
        → a.handle ≡ some cam
        → (ms : List Memory) × Shows double sws w h d.flip_horizontal (frames_of nalus s) ms
          × ((run closed (all_shown a w h (push_nalus nalus s d))).1 ≡ calls_for w h cam ms)
    unfolding Continues
    nalus_reach_camera nalus s d a cam p r l f c = (
      push_nalus nalus s d,
      push_nalus-Shows nalus s d p r,
      calls_lem a cam (push_nalus nalus s d) l f c,
    )
