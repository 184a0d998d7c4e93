-- ===== src/Net.antt =====
-- The TCP socket that the receivers read from (Boost.Asio, outside this repository), as an
-- interface, and `readExact`, which src/core/StreamReceiver.cpp and
-- src/core/FileTransferServer.cpp declare with the same text.
pub mod Exact
pub mod Segments
pub mod Acceptor
use iriseus.Prelude.{
  ℕ, zero, suc, ◌-◌, ◌≤◌, ◌<◌, ◌≡◌, ◌≢◌, Bytes, Option, none, some, [], ◌++◌, true, false, ltb,
  nat_beq, length, if◌then◌else◌,
}

-- `pending s` is what the peer sends before it closes the connection or the connection fails;
-- `none` is an error code. A read gives at most as many bytes as asked, in order, and at least one
-- while some are left.
pub record SocketLib : Type 1 where
  pub Sock : Type 0
  pub read_some : Sock → ℕ → Option (Bytes × Sock)
  pub pending : Sock → Bytes
  pub read_some_in_order :
      (s : Sock) (n : ℕ) (b : Bytes) (s' : Sock)
      → read_some s n ≡ some (b, s')
      → (length b ≤ n) × (pending s ≡ b ++ pending s')
  pub read_some_progress :
      (s : Sock) (n : ℕ)
      → 0 < n
      → 0 < length (pending s)
      → (b : Bytes) × (s' : Sock) × (read_some s n ≡ some (b, s')) × (0 < length b)

module _ (net : SocketLib) where
  open net use {Sock, read_some}

  -- `got` is what the buffer holds so far, so `total` is its length.
  unfoldable pub read_exact_loop : ℕ → Sock → ℕ → Bytes → Option (Bytes × Sock)
  read_exact_loop zero s size got = none
  read_exact_loop (suc fuel) s size got = elim (ltb (length got) size) [
    | true ↦ elim (read_some s (size - length got)) [
      | none ↦ none
      | some (b, s') ↦ elim (nat_beq (length b) 0) [
        | true ↦ none
        | false ↦ read_exact_loop fuel s' size (got ++ b)
      ]
    ]
    | false ↦ some (got, s)
  ]

  -- Each round reads a byte or more, so `size` rounds and a last test are enough.
  unfoldable pub read_exact : Sock → ℕ → Option (Bytes × Sock)
  read_exact s size = read_exact_loop (suc size) s size []
