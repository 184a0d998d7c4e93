-- ===== src/Pairing/Pin.antt =====
-- The text of the PIN, and how the dialog shows it.
use iriseus.Prelude.{
  ℕ, ◌+◌, ◌*◌, ◌-◌, ◌≤◌, ◌<◌, ◌≡◌, refl, Bytes, ◌∷◌, ◌++◌, length, take, drop, All, arith,
}
use iriseus.Wire.{byte_at}
use iriseus.Pairing.{pin_text, format_pin}

abbrev pub IsDigit : ℕ → Type 0
IsDigit c = (b'0' ≤ c) × (c ≤ b'9')

-- The number that six digits spell.
abbrev pub spelled : Bytes → ℕ
spelled p =
    (byte_at p 0 - b'0') * 100000
    + (byte_at p 1 - b'0') * 10000
    + (byte_at p 2 - b'0') * 1000
    + (byte_at p 3 - b'0') * 100
    + (byte_at p 4 - b'0') * 10
    + (byte_at p 5 - b'0')

-- The PIN of a number below a million is six digits, which spell that number; the dialog shows them
-- with a space behind the third.
pub pin_text_lem :
    (n : ℕ)
    → n < 1000000
    → (length (pin_text n) ≡ 6)
      × All IsDigit (pin_text n)
      × (spelled (pin_text n) ≡ n)
      × (format_pin (pin_text n) ≡ take 3 (pin_text n) ++ b' ' ∷ drop 3 (pin_text n))
unfolding pin_text format_pin
pin_text_lem n h = (refl, omega arith, omega arith, refl)
