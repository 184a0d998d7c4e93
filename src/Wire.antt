-- ===== src/Wire.antt =====
-- The framing that src/core/StreamReceiver.cpp and src/core/FileTransferServer.cpp share:
-- four bytes, most significant first, give the number of payload bytes that follow.
pub mod Frames
use iriseus.Prelude.{
  ℕ, zero, suc, ◌+◌, ◌*◌, ◌/◌, ◌%◌, ◌^◌, ◌≤◌, ◌<◌, ◌≡◌, refl, Bytes, Option, none, some, List, [],
  ◌∷◌, ◌++◌, ◌||◌, Bool, ltb, nat_beq, length, take, drop, if◌then◌else◌, arith,
}
use iriseus.Net.{SocketLib, read_exact}

-- `buf[i]`; the buffers that are read here are full.
abbrev pub byte_at : Bytes → ℕ → ℕ
byte_at [] i = 0
byte_at (x ∷ b) zero = x
byte_at (x ∷ b) (suc i) = byte_at b i

-- The four shifted bytes share no bit, so that `|` is a sum.
unfoldable pub be32 : Bytes → ℕ
be32 b = byte_at b 0 * 2 ^ 24 + byte_at b 1 * 2 ^ 16 + byte_at b 2 * 2 ^ 8 + byte_at b 3

unfoldable pub to_be32 : ℕ → Bytes
to_be32 n = (n / 2 ^ 24 % 256) ∷ (n / 2 ^ 16 % 256) ∷ (n / 2 ^ 8 % 256) ∷ (n % 256) ∷ []

pub be32-to_be32 : (n : ℕ) → n < 2 ^ 32 → be32 (to_be32 n) ≡ n
unfolding be32 to_be32
be32-to_be32 n h = omega arith

-- The length and the payload, as the sender writes them.
unfoldable pub frame : Bytes → Bytes
frame p = to_be32 (length p) ++ p

abbrev pub bad_size : ℕ → ℕ → Bool
bad_size limit n = nat_beq n 0 || ltb limit n

module _ (net : SocketLib) where
  open net use {Sock}

  -- One round of a receiving loop up to the payload; `none` is each of its `break`s.
  unfoldable pub next_frame : ℕ → Sock → Option (Bytes × Sock)
  next_frame limit s = elim (read_exact net s 4) [
    | none ↦ none
    | some (len_buf, s') ↦
        if bad_size limit (be32 len_buf) then none else read_exact net s' (be32 len_buf)
  ]

-- The frame at the front of a run of bytes, and the bytes behind it.
unfoldable pub deframe : ℕ → Bytes → Option (Bytes × Bytes)
deframe limit b =
    let n = be32 (take 4 b) in
    let rest = drop 4 b in
    if ltb (length b) 4 || bad_size limit n || ltb (length rest) n
    then none
    else some (take n rest, drop n rest)
