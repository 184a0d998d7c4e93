-- ===== src/Manager/Exchange/Complete.antt =====
-- A file that a client offers, sends and sees reported: src/core/FileTransferManager.cpp and
-- src/core/FileTransferServer.cpp together.
use iriseus.Prelude.{
  ℕ, ◌≡◌, refl, ap, ◌∙◌, Bytes, true, none, some, [], ◌∷◌, ◌++◌, bytes_eq, length,
}
use iriseus.Prelude.Assoc.{lookup, lookup-erase_self}
use iriseus.Json.{JsonLib}
use iriseus.Net.{SocketLib}
use iriseus.Transfer.Hex.{uuid}
use iriseus.Transfer.Files.{FilesLib, HashLib, PathLib}
use iriseus.Transfer.Sessions.{Session, find_session}
use iriseus.Transfer.Upload.{Control, Outcome, done}
use iriseus.Transfer.Connection.{uuid_binary_size, token_size, transfer_mode}
use iriseus.Transfer.Connection.Accepted.{hello, id_of-hello, read_hello, checked_session-hello}
use iriseus.Manager.{TransferMeta, Manager, finished, forget}
use iriseus.Manager.Handlers.{complete_message, reply_to, on_finished}
use iriseus.Manager.Exchange.{reported, serve, tell}

module _ (lib : JsonLib) (net : SocketLib) (files : FilesLib) (sha : HashLib)
    (paths : PathLib) where
  open net use {Sock, pending}
  open files use {Disk, contents}

  -- A connection with the identifier and the token of a session of the table is served by the mode
  -- that it asks for.
  pub serve-hello :
      (ctl : Control) (s : Sock) (m : Manager) (d : Disk) (session : Session)
      (id token rest : Bytes) (direction : ℕ)
      → length id ≡ uuid_binary_size
      → length token ≡ token_size
      → pending s ≡ hello id token direction ++ rest
      → find_session (uuid id) m.sessions ≡ some session
      → session.token_bytes ≡ token
      → (s' : Sock) × (pending s' ≡ rest)
        × (serve lib net files sha paths ctl s m d
            ≡ reported lib net files sha paths
                (some session)
                (transfer_mode net files sha paths direction ctl session s' d)
                m)
  unfolding serve
  serve-hello ctl s m d session id token rest direction l k p found same =
      let (s', e, q) = read_hello net files sha paths s id token rest direction l k p in
      (
        s',
        q,
        rw (e, serve)
            (rw (id_of-hello id token direction l k, found)
              (ap (λ o. reported lib net files sha paths (some session) o m)
                (checked_session-hello net files sha paths ctl session s' d id token direction l k
                  same))),
      )

  tell_done :
      (id : Bytes) (m : Manager) (meta : TransferMeta)
      → lookup id m.offers ≡ some meta
      → tell lib id (some done) m ≡ (
        forget id m,
        reply_to lib meta.session_id (complete_message lib id true [])
            ++ finished id meta.offer.name true [] ∷ [],
      )
  unfolding tell on_finished
  tell_done id m meta e = rw (e, on_finished)

  pub reported_done :
      (session : Session) (o : Outcome Disk) (m : Manager) (meta : TransferMeta)
      → o.verdict ≡ some done
      → lookup session.transfer_id m.offers ≡ some meta
      → let r = reported lib net files sha paths (some session) o m in
        (r.outputs
          ≡ reply_to lib meta.session_id (complete_message lib session.transfer_id true [])
            ++ finished session.transfer_id meta.offer.name true [] ∷ [])
        × (lookup session.transfer_id r.manager.offers ≡ none)
        × (r.disk ≡ o.disk)
        × (r.sent ≡ o.sent)
  unfolding reported
  reported_done session o m meta v e =
      let k : tell lib session.transfer_id o.verdict m ≡ _ =
        ap (λ x. tell lib session.transfer_id x m) v ∙ tell_done session.transfer_id m meta e in
      (
        ap (λ x. x.1) k,
        ap (λ x. lookup session.transfer_id x.0.offers) k
            ∙ lookup-erase_self session.transfer_id m.offers,
        refl,
        refl,
      )
