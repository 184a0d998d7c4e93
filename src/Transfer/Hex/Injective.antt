-- ===== src/Transfer/Hex/Injective.antt =====
-- Hexadecimal text and the UUID, read back.
use mathlib.Core.Path.{ap₂}
use iriseus.Prelude.{
  ℕ, ◌+◌, ◌/◌, ◌%◌, ◌<◌, ◌≡◌, refl, sym, ap, ◌∙◌, Bytes, [], ◌∷◌, ◌++◌, false, nat_beq, length,
  take, drop, drop-drop, take-append-drop, take_all, length-drop, All, arith,
}
use iriseus.Transfer.Hex.{hex_digit, to_hex, uuid, strip_dashes, dash}

abbrev pub IsByte : ℕ → Type 0
IsByte x = x < 256

hex_digit-ne-dash : (n : ℕ) → nat_beq (hex_digit n) dash ≡ false
unfolding hex_digit
hex_digit-ne-dash n = ground arith

hex_digit-injective : (m n : ℕ) → m < 16 → n < 16 → hex_digit m ≡ hex_digit n → m ≡ n
unfolding hex_digit
hex_digit-injective m n hm hn e = ground arith

strip-append : (a b : Bytes) → strip_dashes (a ++ b) ≡ strip_dashes a ++ strip_dashes b
unfolding strip_dashes
strip-append [] b = refl
strip-append (c ∷ a) b = ground (arith, strip-append a b)

strip-to_hex : (b : Bytes) → strip_dashes (to_hex b) ≡ to_hex b
unfolding strip_dashes to_hex
strip-to_hex [] = refl
strip-to_hex (x ∷ b) =
    ground (arith, hex_digit-ne-dash (x / 16), hex_digit-ne-dash (x % 16), strip-to_hex b)

strip-dash : (b : Bytes) → strip_dashes (dash ∷ b) ≡ strip_dashes b
unfolding strip_dashes
strip-dash b = refl

to_hex-append : (a b : Bytes) → to_hex (a ++ b) ≡ to_hex a ++ to_hex b
unfolding to_hex
to_hex-append [] b = refl
to_hex-append (x ∷ a) b = ap (λ l. hex_digit (x / 16) ∷ hex_digit (x % 16) ∷ l) (to_hex-append a b)

byte_of_digits : (x y : ℕ) → x < 256 → y < 256 → x / 16 ≡ y / 16 → x % 16 ≡ y % 16 → x ≡ y
byte_of_digits x y hx hy p q = omega arith

to_hex-injective : (a b : Bytes) → All IsByte a → All IsByte b → to_hex a ≡ to_hex b → a ≡ b
unfolding to_hex
to_hex-injective [] [] ha hb e = refl
to_hex-injective [] (y ∷ b) ha hb e = absurd (cc)
to_hex-injective (x ∷ a) [] ha hb e = absurd (cc)
to_hex-injective (x ∷ a) (y ∷ b) (hx, ha) (hy, hb) e =
    ap₂ (λ c l. c ∷ l)
      (byte_of_digits x y hx hy
        (hex_digit-injective (x / 16) (y / 16) (omega arith) (omega arith) (cc))
        (hex_digit-injective (x % 16) (y % 16) (omega arith) (omega arith) (cc)))
      (to_hex-injective a b ha hb (cc))

-- The groups of a UUID are the sixteen bytes.
groups :
    (b : Bytes)
    → length b ≡ 16
    → take 4 b
        ++ (take 2 (drop 4 b) ++ (take 2 (drop 6 b) ++ (take 2 (drop 8 b) ++ take 6 (drop 10 b))))
      ≡ b
groups b h = rw (take_all 6 (drop 10 b) (omega (arith, length-drop 10 b))) (
    ap (λ l. take 4 b ++ (take 2 (drop 4 b) ++ (take 2 (drop 6 b) ++ l))) (join 2 8)
    ∙ ap (λ l. take 4 b ++ (take 2 (drop 4 b) ++ l)) (join 2 6)
    ∙ ap (λ l. take 4 b ++ l) (join 2 4)
    ∙ take-append-drop 4 b)
  where
    join : (m n : ℕ) → take m (drop n b) ++ drop (n + m) b ≡ drop n b
    join m n = rw (← drop-drop m n b) (take-append-drop m (drop n b))

-- The dashes are all that a UUID adds to the plain hexadecimal text.
pub strip-uuid : (b : Bytes) → length b ≡ 16 → strip_dashes (uuid b) ≡ to_hex b
unfolding uuid
strip-uuid b h =
    simp (strip-append, strip-dash, strip-to_hex, ← to_hex-append) (ap to_hex (groups b h))

-- Two identifiers of sixteen bytes each with the same UUID text are the same.
pub uuid-injective :
    (a b : Bytes)
    → All IsByte a
    → All IsByte b
    → length a ≡ 16
    → length b ≡ 16
    → uuid a ≡ uuid b
    → a ≡ b
uuid-injective a b ha hb la lb e =
    to_hex-injective a b ha hb (sym (strip-uuid a la) ∙ ap strip_dashes e ∙ strip-uuid b lb)
