-- ===== src/Examples/Videos.antt =====
-- Two frames on a small canvas. A double is an exact fraction, and a scaled picture has its rows and
-- columns for colours.
use iriseus.Prelude.{
  ℕ, zero, suc, ◌+◌, ◌-◌, ◌*◌, ◌/◌, ◌%◌, ◌≤◌, ◌<◌, ◌≡◌, refl, ap, ◌∙◌, true, false, ◌&&◌, ltb, leb,
  List, [], ◌∷◌, arith, if◌then◌else◌, if_cases, not, nat_beq,
}
use native.Mathlib.Nat.{
  div-zero, div-le_of_le-mul, add-mul-div_right, add-mul-mod_self_right, mod-eq_of_lt, div-eq_of_lt,
  le_of_mul-le-mul_right, mul-le-mul_left, mul-le-mul_right, div-mul-le_self, le-div_iff_mul-le,
  div-add-mod,
}
use iriseus.Video.{DoubleLib, SwsLib, Pixel, black, Memory, Decoder, init, fit, decode}
use iriseus.Video.Geometry.{IsPlaced, fit-IsPlaced}
use iriseus.Video.Frames.{IsReady, Shows, decode-Shows}
use iriseus.Prelude.{Bytes, is_empty, some}
use iriseus.Video.Nalus.{CodecLib, push_nalus, frames_of, calls_for, nalus_reach_camera}
use iriseus.Camera.{Answers, closed, run}
use iriseus.Camera.Shown.{all_shown}

quotient_le : (x y a c : ℕ) → 0 < c → x * c ≤ y * a → x / a ≤ y / c
quotient_le x y zero c p h = rw (div-zero x) (omega arith)
quotient_le x y (suc a) c p h = (le-div_iff_mul-le p).1 (
    le_of_mul-le-mul_right {k = suc a}
      (let l : x / suc a * suc a * c ≤ x * c = mul-le-mul_right c (div-mul-le_self x (suc a)) in
        omega (arith, l, h))
      (omega arith))

scaled_le : (n x y : ℕ) → x ≤ y → n * x ≤ n * y
scaled_le n x y h = mul-le-mul_left n h

-- Fractions, by their products across.
divided_lem :
    (n a b c d : ℕ) → 0 < b → 0 < c → 0 < d → ltb (c * b) (a * d) ≡ true → n * b / a ≤ n * d / c
divided_lem n a b c d p q r h =
    quotient_le (n * b) (n * d) a c q
      (omega (arith, scaled_le n (c * b) (a * d) (ground (arith, h))))

multiplied_lem :
    (n a b c d : ℕ) → 0 < b → 0 < d → ltb (c * b) (a * d) ≡ false → n * a / b ≤ n * c / d
multiplied_lem n a b c d p q h =
    quotient_le (n * a) (n * c) b d q
      (omega (arith, scaled_le n (a * d) (c * b) (ground (arith, h))))

abbrev fractions : DoubleLib
fractions = record {
  Double = ℕ × ℕ;
  ratio = λ a b. (a, b);
  greater = λ x y. ltb (y.0 * x.1) (x.0 * y.1);
  divided = λ n x. n * x.1 / x.0;
  multiplied = λ n x. n * x.0 / x.1;
  divided_antitone = divided_lem;
  divided-ratio = λ w h p q. div-le_of_le-mul w (omega arith);
  multiplied_monotone = multiplied_lem;
  multiplied-ratio = λ w h p q. div-le_of_le-mul h (omega arith);
}

abbrev spot : ℕ → ℕ → ℕ → ℕ → ℕ → ℕ → Pixel
spot w h fw fh row col = record { b = row; g = col; r = fw + fh }

abbrev painted : ℕ × ℕ → ℕ → ℕ → ℕ → ℕ → Memory → Memory
painted f w h start stride m i =
    if leb start i && ltb ((i - start) % stride) w && ltb ((i - start) / stride) h
    then spot w h f.0 f.1 ((i - start) / stride) ((i - start) % stride)
    else m i

-- A place by its row and its column.
row_of : (row col stride : ℕ) → col < stride → (row * stride + col) / stride ≡ row
row_of row col stride h =
    ap (λ (n : ℕ). n / stride) (let e : row * stride + col ≡ col + row * stride = omega arith in e)
    ∙ (add-mul-div_right col row (omega arith) ∙ rw (div-eq_of_lt h) (omega arith))

col_of : (row col stride : ℕ) → col < stride → (row * stride + col) % stride ≡ col
col_of row col stride h =
    ap (λ (n : ℕ). n % stride) (let e : row * stride + col ≡ col + row * stride = omega arith in e)
    ∙ (add-mul-mod_self_right col row stride ∙ mod-eq_of_lt h)

painted_inside :
    (f : ℕ × ℕ) (w h start stride : ℕ) (m : Memory) (row col : ℕ)
    → w ≤ stride
    → row < h
    → col < w
    → painted f w h start stride m (start + row * stride + col) ≡ spot w h f.0 f.1 row col
painted_inside f w h start stride m row col a b c =
    let off : start + row * stride + col - start ≡ row * stride + col = omega arith in
    let r : (start + row * stride + col - start) / stride ≡ row =
      ap (λ (n : ℕ). n / stride) off ∙ row_of row col stride (omega arith) in
    let k : (start + row * stride + col - start) % stride ≡ col =
      ap (λ (n : ℕ). n % stride) off ∙ col_of row col stride (omega arith) in
    let test : (leb start (start + row * stride + col) && ltb col w && ltb row h) ≡ true =
      ground (arith, b, c) in
    rw (r, k) (rw test refl)

painted_outside :
    (f : ℕ × ℕ) (w h start stride : ℕ) (m : Memory) (i : ℕ)
    → ((row col : ℕ) → row < h → col < w → ¬ (i ≡ start + row * stride + col))
    → painted f w h start stride m i ≡ m i
painted_outside f w h start stride m i out =
    if_cases (λ x. x ≡ m i)
      (leb start i && ltb ((i - start) % stride) w && ltb ((i - start) / stride) h) _ _
      (λ e. absurd (
        out ((i - start) / stride) ((i - start) % stride) (ground (arith, e)) (ground (arith, e)) (
          let split = div-add-mod (i - start) stride in
          let le : start ≤ i = ground (arith, e) in omega (arith, split, le))))
      (λ e. refl)

-- It has a context for every size but a width of 7.
abbrev painter : SwsLib
painter = record {
  Frame = ℕ × ℕ;
  width = λ f. f.0;
  height = λ f. f.1;
  format = λ f. 0;
  has_context = λ a b fmt w h. not (nat_beq a 7);
  picture = λ f w h row col. spot w h f.0 f.1 row col;
  scale = painted;
  scale_inside = painted_inside;
  scale_outside = painted_outside;
}

abbrev listening : Decoder
listening = record (init 4 2 (λ i. black)) { has_callback = true }

listening-IsReady : IsReady fractions painter 4 2 listening
unfolding init
listening-IsReady = record {
  wide = refl;
  tall = refl;
  listens = refl;
  placed = λ fmt e a b. absurd (let no : ⊥ = cc in no);
}

abbrev frames : List (ℕ × ℕ)
frames = (2, 2) ∷ (7, 7) ∷ (8, 2) ∷ []

fit-IsPlaced_example : IsPlaced 4 2 (fit fractions 4 2 8 2)
fit-IsPlaced_example =
    fit-IsPlaced fractions 4 2 8 2 (omega arith) (omega arith) (omega arith) (omega arith)

decode-Shows_example :
    Shows fractions painter 4 2 listening.flip_horizontal frames
      (decode fractions painter frames listening).1
    × IsReady fractions painter 4 2 (decode fractions painter frames listening).0
decode-Shows_example =
    decode-Shows fractions painter 4 2 (omega arith) (omega arith) frames listening
      ((omega arith, omega arith), ((omega arith, omega arith), ((omega arith, omega arith), tt)))
      listening-IsReady

-- It takes what is not empty, and gives two frames for it, one of them of a width of 7.
abbrev pairs : CodecLib (ℕ × ℕ)
pairs = record {
  State = ℕ;
  send_packet = λ nalu s. (not (is_empty nalu), s);
  receive_frames = λ s. ((2, 2) ∷ (7, 7) ∷ [], s + 1);
}

abbrev ready : Answers
ready = record { library = true; create = true; delete = true; send = true; handle = some 9 }

abbrev nalus : List Bytes
nalus = (1 ∷ []) ∷ [] ∷ (2 ∷ []) ∷ []

nalus_reach_camera_example :
    (ms : List Memory) × Shows fractions painter 4 2 listening.flip_horizontal
      (frames_of fractions painter pairs nalus 0)
      ms
    × ((run closed (all_shown ready 4 2 (push_nalus fractions painter pairs nalus 0 listening))).1
        ≡ calls_for 4 2 9 ms)
nalus_reach_camera_example =
    nalus_reach_camera fractions painter pairs 4 2 (omega arith) (omega arith) nalus 0 listening
      ready 9
      (
        (omega arith, omega arith),
        (
          (omega arith, omega arith),
          ((omega arith, omega arith), ((omega arith, omega arith), tt)),
        ),
      )
      listening-IsReady refl refl refl
