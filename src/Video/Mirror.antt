-- ===== src/Video/Mirror.antt =====
-- The loops that mirror the picture, as moves of pixels.
use native.Mathlib.Nat.{div-eq_of_lt, mul-add-div_right}
use iriseus.Prelude.{
  ℕ, zero, suc, ◌+◌, ◌-◌, ◌*◌, ◌/◌, ◌≤◌, ◌<◌, ◌≡◌, ap, ◌∙◌, ◌&&◌, leb, ltb, nat_beq, arith,
  if◌then◌else◌,
}
use iriseus.Video.{Memory, Fit, swap, mirror_row, mirror_rows}

-- Where the pixel at `k` comes from when two are swapped.
abbrev exchanged : ℕ → ℕ → ℕ → ℕ
exchanged i j k = if nat_beq k i then j else if nat_beq k j then i else k

-- Where it comes from when the columns from `x` to the one as far from the end are mirrored.
abbrev pub mirrored : ℕ → ℕ → ℕ → ℕ → ℕ
mirrored row width x i =
    if leb (row + x) i && ltb i (row + (width - x)) then row + (width - 1 - (i - row)) else i

swap_lem : (i j : ℕ) (m : Memory) (k : ℕ) → swap i j m k ≡ m (exchanged i j k)
unfolding swap
swap_lem i j m k = ground arith

exchanged-mirrored :
    (row width x i : ℕ)
    → x + 1 ≤ width / 2
    → exchanged (row + x) (row + (width - 1 - x)) (mirrored row width (x + 1) i)
      ≡ mirrored row width x i
exchanged-mirrored row width x i h = ground arith

mirrored-last : (row width x i : ℕ) → x ≡ width / 2 → i ≡ mirrored row width x i
mirrored-last row width x i h = ground arith

-- The swaps of a row from column `x` on.
pub mirror_row_lem :
    (n row width x i : ℕ) (m : Memory)
    → x + n ≡ width / 2
    → mirror_row n row width x m i ≡ m (mirrored row width x i)
unfolding mirror_row
mirror_row_lem zero row width x i m e = ap m (mirrored-last row width x i (omega arith))
mirror_row_lem (suc n) row width x i m e =
    mirror_row_lem n row width (x + 1) i _ (omega arith)
    ∙ swap_lem (row + x) (row + (width - 1 - x)) m (mirrored row width (x + 1) i)
    ∙ ap m (exchanged-mirrored row width x i (omega arith))

-- The pixel of a row and a column.
abbrev pub at : ℕ → ℕ → ℕ → ℕ
at stride row col = row * stride + col

pub at-injective :
    (stride r c r' c' : ℕ)
    → c < stride
    → c' < stride
    → at stride r c ≡ at stride r' c'
    → (r ≡ r') × (c ≡ c')
at-injective stride r c r' c' h k e =
    let rows : r ≡ r' = omega (
      arith,
      mul-add-div_right {m = stride} (omega arith) r c,
      mul-add-div_right {m = stride} (omega arith) r' c',
      div-eq_of_lt h,
      div-eq_of_lt k,
      ap (λ (n : ℕ). n / stride) e,
    ) in
    (rows, omega (arith, e, ap (λ (n : ℕ). n * stride) rows))

-- The column that a column of the picture comes from.
abbrev pub opposite : Fit → ℕ → ℕ
opposite f x =
    if leb f.offset_x x && ltb x (f.offset_x + f.scaled_width)
    then f.offset_x + (f.scaled_width - 1 - (x - f.offset_x))
    else x

module _ (stride : ℕ) (f : Fit) (fits : f.offset_x + f.scaled_width ≤ stride) where
  -- The columns of a row lie in no other row.
  mirrored_row :
      (y' y x : ℕ)
      → x < stride
      → mirrored (at stride y' f.offset_x) f.scaled_width 0 (at stride y x)
        ≡ at stride y (if nat_beq y y' then opposite f x else x)
  mirrored_row y' y x h =
      ground (
        arith,
        at-injective stride y x y' (f.offset_x + (at stride y x - at stride y' f.offset_x)) h,
      )

  -- The columns of the rows from `row` on, of which there are `n`, are mirrored.
  abbrev pub flipped : ℕ → ℕ → ℕ → ℕ → ℕ
  flipped n row y x =
      if leb (f.offset_y + row) y && ltb y (f.offset_y + (row + n)) then opposite f x else x

  pub flipped-lt : (n row y x : ℕ) → x < stride → flipped n row y x < stride
  flipped-lt n row y x h = ground arith

  flipped_zero : (row y x : ℕ) → x ≡ flipped 0 row y x
  flipped_zero row y x = ground arith

  flipped-suc :
      (n row y x : ℕ)
      → (if nat_beq y (f.offset_y + row)
          then opposite f (flipped n (row + 1) y x)
          else flipped n (row + 1) y x)
        ≡ flipped (suc n) row y x
  flipped-suc n row y x = ground arith

  pub mirror_rows_lem :
      (n row y x : ℕ) (m : Memory)
      → x < stride
      → mirror_rows n row stride f m (at stride y x) ≡ m (at stride y (flipped n row y x))
  unfolding mirror_rows
  mirror_rows_lem zero row y x m h = ap (λ k. m (at stride y k)) (flipped_zero row y x)
  mirror_rows_lem (suc n) row y x m h =
      mirror_rows_lem n (row + 1) y x _ h
      ∙ mirror_row_lem (f.scaled_width / 2) (at stride (f.offset_y + row) f.offset_x) f.scaled_width
          0 _ m (omega arith)
      ∙ ap m (
          mirrored_row (f.offset_y + row) y (flipped n (row + 1) y x) (flipped-lt n (row + 1) y x h)
          ∙ ap (at stride y) (flipped-suc n row y x))
