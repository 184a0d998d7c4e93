-- ===== src/Transfer/Connection/Accepted.antt =====
-- The handshake of src/core/FileTransferServer.cpp that a client with the right token sends.
use iriseus.Prelude.{
  ℕ, suc, ◌+◌, ◌≡◌, ◌≤◌, refl, sym, ap, ◌∙◌, Bytes, false, some, [], ◌∷◌, ◌++◌, bytes_eq, length,
  length-append, drop, take_part, drop_part, arith,
}
use iriseus.Prelude.Assoc.{beq_refl}
use iriseus.Net.{SocketLib, read_exact}
use iriseus.Net.Exact.{read_exact-ReadsExactly}
use iriseus.Wire.{byte_at}
use iriseus.Transfer.Files.{FilesLib, HashLib, PathLib}
use iriseus.Transfer.Sessions.{Session}
use iriseus.Transfer.Upload.{Control}
use iriseus.Transfer.Connection.{
  uuid_binary_size, id_of, token_of, direction_of, token_size, handshake_size, token_refused,
  transfer_mode, checked_session,
}

-- The bytes of a handshake.
abbrev pub hello : Bytes → Bytes → ℕ → Bytes
hello id token direction = id ++ (token ++ direction ∷ [])

byte_at-append : (a b : Bytes) (n : ℕ) → byte_at (a ++ b) (length a + n) ≡ byte_at b n
byte_at-append [] b n = let e : 0 + n ≡ n = omega arith in rw e refl
byte_at-append (x ∷ a) b n =
    let e : suc (length a) + n ≡ suc (length a + n) = omega arith in rw e (byte_at-append a b n)

module _ (id token : Bytes) (direction : ℕ) (l : length id ≡ uuid_binary_size)
    (k : length token ≡ token_size) where
  pub id_of-hello : id_of (hello id token direction) ≡ id
  id_of-hello = take_part id _ _ uuid_binary_size refl l

  behind_id : drop uuid_binary_size (hello id token direction) ≡ token ++ direction ∷ []
  behind_id = drop_part id _ _ uuid_binary_size refl l

  pub token_of-hello : token_of (hello id token direction) ≡ token
  token_of-hello = take_part token (direction ∷ []) _ token_size (sym behind_id) k

  pub direction_of-hello : direction_of (hello id token direction) ≡ direction
  direction_of-hello =
      let e : uuid_binary_size + token_size ≡ length id + (length token + 0) =
        omega (arith, l, k) in
      ap (byte_at (hello id token direction)) e
      ∙ byte_at-append id (token ++ direction ∷ []) (length token + 0)
      ∙ byte_at-append token (direction ∷ []) 0

  pub length-hello : length (hello id token direction) ≡ handshake_size
  length-hello = omega (
    arith,
    l,
    k,
    length-append id (token ++ direction ∷ []),
    length-append token (direction ∷ []),
  )

token_refused_same : (session : Session) → token_refused session session.token_bytes ≡ false
unfolding token_refused
token_refused_same session = ground (arith, beq_refl session.token_bytes)

module _ (net : SocketLib) (files : FilesLib) (sha : HashLib) (paths : PathLib) where
  open net use {Sock, pending}
  open files use {Disk}

  -- The handshake is read whole, and what follows it is still to come.
  pub read_hello :
      (s : Sock) (id token rest : Bytes) (direction : ℕ)
      → length id ≡ uuid_binary_size
      → length token ≡ token_size
      → pending s ≡ hello id token direction ++ rest
      → (s' : Sock) × (read_exact net s handshake_size ≡ some (hello id token direction, s'))
        × (pending s' ≡ rest)
  read_hello s id token rest direction l k p =
      let n = length-hello id token direction l k in
      let long : handshake_size ≤ length (pending s) =
        omega (arith, n, ap length p, length-append (hello id token direction) rest) in
      let (s', e, q) = (read_exact-ReadsExactly net s handshake_size).enough long in
      (
        s',
        e
            ∙ ap (λ b. some (b, s'))
                (take_part (hello id token direction) rest (pending s) handshake_size (sym p) n),
        q ∙ drop_part (hello id token direction) rest (pending s) handshake_size (sym p) n,
      )

  pub checked_session-hello :
      (ctl : Control) (session : Session) (s : Sock) (d : Disk) (id token : Bytes) (direction : ℕ)
      → length id ≡ uuid_binary_size
      → length token ≡ token_size
      → session.token_bytes ≡ token
      → checked_session net files sha paths (hello id token direction) ctl (some session) s d
        ≡ transfer_mode net files sha paths direction ctl session s d
  unfolding checked_session
  checked_session-hello ctl session s d id token direction l k same =
      rw
        (
          token_of-hello id token direction l k,
          direction_of-hello id token direction l k,
          ← same,
          token_refused_same session,
        )
        refl
