-- ===== src/Transfer/Hex.antt =====
-- Bytes as lower-case hexadecimal text: `toHex` of src/core/FileTransferServer.cpp and the
-- `snprintf` that spells 16 bytes as a UUID there and in src/core/FileTransferManager.cpp.
pub mod Injective
use iriseus.Prelude.{
  ℕ, ◌+◌, ◌-◌, ◌*◌, ◌/◌, ◌%◌, ◌<◌, Bytes, Bool, [], ◌∷◌, ◌++◌, ltb, nat_beq, take, drop,
  if◌then◌else◌,
}

unfoldable pub hex_digit : ℕ → ℕ
hex_digit n = if ltb n 10 then b'0' + n else b'a' + n - 10

-- `%02x` of each byte.
unfoldable pub to_hex : Bytes → Bytes
unfolding hex_digit
to_hex [] = []
to_hex (x ∷ b) = hex_digit (x / 16) ∷ hex_digit (x % 16) ∷ to_hex b

abbrev pub dash : ℕ
dash = b'-'

-- 8-4-4-4-12.
unfoldable pub uuid : Bytes → Bytes
unfolding to_hex
uuid b =
    to_hex (take 4 b)
    ++ dash
      ∷ (to_hex (take 2 (drop 4 b))
          ++ dash
            ∷ (to_hex (take 2 (drop 6 b))
                ++ dash ∷ (to_hex (take 2 (drop 8 b)) ++ dash ∷ to_hex (take 6 (drop 10 b)))))

-- `erase(remove(begin, end, '-'), end)`.
unfoldable pub strip_dashes : Bytes → Bytes
strip_dashes [] = []
strip_dashes (c ∷ s) = let rest = strip_dashes s in if nat_beq c dash then rest else c ∷ rest
