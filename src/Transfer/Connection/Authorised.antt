-- ===== src/Transfer/Connection/Authorised.antt =====
-- The handshake of src/core/FileTransferServer.cpp: who is let through.
use iriseus.Prelude.{
  ◌≤◌, ◌≡◌, refl, ◌⊎◌, inl, inr, Bytes, false, Option, none, some, bytes_eq, bytes_beq_iff, length,
  take, ltb, ltb→lt, ltb_false→le, Bool-cases, arith,
}
use iriseus.Net.{SocketLib, read_exact}
use iriseus.Net.Exact.{read_exact-ReadsExactly}
use iriseus.Transfer.Hex.{uuid}
use iriseus.Transfer.Files.{FilesLib, HashLib, PathLib}
use iriseus.Transfer.Sessions.{Session, Sessions, find_session}
use iriseus.Transfer.Upload.{Control}
use iriseus.Transfer.Connection.{
  id_of, token_of, token_size, handshake_size, token_refused, closed, checked_session,
  handle_connection,
}

module _ (net : SocketLib) (files : FilesLib) (sha : HashLib) (paths : PathLib) where
  open net use {Sock, pending}
  open files use {Disk}

  -- The peer has sent a handshake for a session of the table, with its token.
  pub record Authorised (sessions : Sessions) (s : Sock) : Type 0 where
    pub session : Session
    pub complete : handshake_size ≤ length (pending s)
    pub found :
        find_session (uuid (id_of (take handshake_size (pending s)))) sessions ≡ some session
    pub token :
        length session.token_bytes ≡ token_size
        → token_of (take handshake_size (pending s)) ≡ session.token_bytes

  token_accepted :
      (session : Session) (token : Bytes)
      → token_refused session token ≡ false
      → length session.token_bytes ≡ token_size
      → token ≡ session.token_bytes
  unfolding token_refused
  token_accepted session token h l = ground (arith, bytes_beq_iff token session.token_bytes)

  handle_connection_read :
      (ctl : Control) (sessions : Sessions) (s s' : Sock) (d : Disk) (buf : Bytes)
      → read_exact net s handshake_size ≡ some (buf, s')
      → handle_connection net files sha paths ctl sessions s d
        ≡ checked_session net files sha paths buf ctl
            (find_session (uuid (id_of buf)) sessions)
            s'
            d
  unfolding handle_connection
  handle_connection_read ctl sessions s s' d buf e = rw (e, handle_connection)

  handle_connection_starved :
      (ctl : Control) (sessions : Sessions) (s : Sock) (d : Disk)
      → read_exact net s handshake_size ≡ none
      → handle_connection net files sha paths ctl sessions s d ≡ closed net files sha paths d
  unfolding handle_connection
  handle_connection_starved ctl sessions s d e = rw (e, handle_connection)

  -- What becomes of a handshake that was read whole.
  checked-Authorised :
      (ctl : Control) (sessions : Sessions) (s s' : Sock) (d : Disk) (o : Option Session)
      → handshake_size ≤ length (pending s)
      → find_session (uuid (id_of (take handshake_size (pending s)))) sessions ≡ o
      → (checked_session net files sha paths (take handshake_size (pending s)) ctl o s' d
          ≡ closed net files sha paths d)
        ⊎ Authorised sessions s
  unfolding checked_session
  checked-Authorised ctl sessions s s' d none h e = inl refl
  checked-Authorised ctl sessions s s' d (some session) h e =
      elim (Bool-cases (token_refused session (token_of (take handshake_size (pending s))))) [
        | inl wrong ↦ inl (rw (wrong, checked_session))
        | inr right ↦ inr (record {
          session = session;
          complete = h;
          found = e;
          token = token_accepted session _ right;
        })
      ]

  -- A connection without a complete handshake, of an identifier that is not in the table, or with a
  -- token other than the 32 bytes of the session, changes no file, sends nothing and reports
  -- nothing: what is not left untouched was authorised. A session whose token has another length
  -- takes any.
  pub handle_connection-Authorised :
      (ctl : Control) (sessions : Sessions) (s : Sock) (d : Disk)
      → (handle_connection net files sha paths ctl sessions s d ≡ closed net files sha paths d)
        ⊎ Authorised sessions s
  handle_connection-Authorised ctl sessions s d =
      elim (Bool-cases (ltb (length (pending s)) handshake_size)) [
        | inl short ↦ inl (
            handle_connection_starved ctl sessions s d
              ((read_exact-ReadsExactly net s handshake_size).starved (ltb→lt _ _ short)))
        | inr long ↦
            let h = ltb_false→le _ _ long in
            let (s', e, _) = (read_exact-ReadsExactly net s handshake_size).enough h in
            rw (handle_connection_read ctl sessions s s' d _ e)
              (checked-Authorised ctl sessions s s' d _ h refl)
      ]
