-- ===== src/Manager/Exchange/Fetched.antt =====
-- A file that the user sends, the client accepts and fetches, and the user sees reported:
-- src/core/FileTransferManager.cpp and src/core/FileTransferServer.cpp together.
use iriseus.Prelude.{
  ℕ, ◌^◌, ◌<◌, ◌≡◌, refl, sym, subst, Bytes, true, false, Option, none, some, [], ◌∷◌, ◌++◌,
  bytes_eq, codes, length, is_empty, arith,
}
use iriseus.Prelude.Assoc.{lookup, lookup-insert_self}
use iriseus.Json.{JsonLib}
use iriseus.Pairing.{CryptoLib}
use iriseus.Net.{SocketLib}
use iriseus.Transfer.Hex.{uuid}
use iriseus.Transfer.Files.{FilesLib, HashLib, PathLib}
use iriseus.Transfer.Sessions.{
  new_session, desktop_download_to_mobile, register_transfer, find_session,
}
use iriseus.Transfer.Sessions.Search.{find_session-hit}
use iriseus.Transfer.Upload.{Control}
use iriseus.Transfer.Download.{download}
use iriseus.Transfer.Download.Complete.{Smooth, download_done}
use iriseus.Transfer.Download.Stream.{Delivered}
use iriseus.Transfer.Connection.{uuid_binary_size, token_size, transfer_mode}
use iriseus.Transfer.Connection.Accepted.{hello}
use iriseus.Manager.{TransferMeta, Manager, sends, finished}
use iriseus.Manager.Handlers.{
  send_file, sha256_hex, handle_file_accept, accepted_offer, id_field, ready_message,
  complete_message, reply_to,
}
use iriseus.Manager.Exchange.{serve}
use iriseus.Manager.Exchange.Complete.{serve-hello, reported_done}

is_empty-append : (a b : Bytes) (c : ℕ) → is_empty (a ++ c ∷ b) ≡ false
is_empty-append [] b c = refl
is_empty-append (x ∷ a) b c = refl

module _ (lib : JsonLib) (crypto : CryptoLib) (sha : HashLib) where
  open lib use {Json}

  -- What is kept of a file that the user sends.
  abbrev pub meta_of : (Bytes → Bytes) → Bytes → Bytes → ℕ → Bytes → TransferMeta
  meta_of base id path session_id content = record {
    session_id = session_id;
    offer = record {
      transfer_id = uuid id;
      name = base path;
      size = length content;
      mime = codes "application/octet-stream";
      sha256 = sha256_hex sha content;
    };
    file_path = path;
  }

  send_file_offers :
      (base : Bytes → Bytes) (id token path content : Bytes) (session_id : ℕ) (m : Manager)
      → lookup
          (uuid id)
          (send_file lib crypto sha base id token session_id path (some content) m).0.offers
        ≡ some (meta_of base id path session_id content)
  unfolding send_file
  send_file_offers base id token path content session_id m = lookup-insert_self (uuid id) _ m.offers

  uuid_some : (id : Bytes) → is_empty (uuid id) ≡ false
  unfolding uuid
  uuid_some id = is_empty-append _ _ _

  -- The registration that an accepted offer gets.
  pub accept_registers :
      (token id : Bytes) (session_id : ℕ) (p : Option Json) (meta : TransferMeta) (m : Manager)
      → id_field lib p ≡ some (uuid id)
      → lookup (uuid id) m.offers ≡ some meta
      → (m' : Manager) × (handle_file_accept lib crypto token session_id p m
          ≡ some (m', sends session_id (ready_message lib (uuid id) (crypto.encode token)) ∷ []))
        × (find_session (uuid id) m'.sessions
            ≡ some (
                new_session
                  (uuid id)
                  (crypto.encode token)
                  token
                  meta.file_path
                  meta.offer.size
                  meta.offer.sha256
                  desktop_download_to_mobile))
        × (m'.offers ≡ m.offers)
  unfolding handle_file_accept accepted_offer register_transfer
  accept_registers token id session_id p meta m e k = (
    (accepted_offer lib crypto token session_id (uuid id) (some meta) m).0,
    rw (e, handle_file_accept) (rw (uuid_some id, k) refl),
    find_session-hit _ (uuid id) _ (lookup-insert_self (uuid id) _ m.sessions),
    refl,
  )

module _ (lib : JsonLib) (net : SocketLib) (files : FilesLib) (sha : HashLib) (paths : PathLib)
    (crypto : CryptoLib) where
  open lib use {Json}
  open net use {Sock, pending}
  open files use {Disk, contents}

  -- A file that the user sends, and whose offer the client accepts, can be fetched over a connection
  -- with the offer's sixteen bytes and the 32 bytes of the token that answers the acceptance: the
  -- client gets the whole file in frames of legal size. When the last frame is written, the program
  -- itself declares the transfer complete, without waiting for the client to check the hash: the
  -- session that the file was sent to, if it is not 0, is sent `file_complete` without an error, the
  -- user gets one signal with the file's name, and the offer is forgotten. This is so when the file
  -- is still the same, it is shorter than 2 ^ 64, nobody stops the server or cancels the transfer,
  -- and the peer takes what is written.
  pub sent_file_completes :
      (ctl : Control) (smooth : Smooth ctl) (base : Bytes → Bytes)
      (id first_token token path content rest : Bytes) (session_id accepter : ℕ) (p : Option Json)
      (m : Manager) (s : Sock) (d : Disk)
      → contents d path ≡ some content
      → length content < 2 ^ 64
      → length id ≡ uuid_binary_size
      → length token ≡ token_size
      → id_field lib p ≡ some (uuid id)
      → pending s ≡ hello id token 1 ++ rest
      → let m1 =
          (send_file lib crypto sha base id first_token session_id path (some content) m).0 in
        (m2 : Manager) × (handle_file_accept lib crypto token accepter p m1
          ≡ some (m2, sends accepter (ready_message lib (uuid id) (crypto.encode token)) ∷ []))
        × (let r = serve lib net files sha paths ctl s m2 d in
            (r.outputs
              ≡ reply_to lib session_id (complete_message lib (uuid id) true [])
                ++ finished (uuid id) (base path) true [] ∷ [])
            × (lookup (uuid id) r.manager.offers ≡ none)
            × Delivered (length content) content r.sent)
  unfolding transfer_mode
  sent_file_completes ctl smooth base id first_token token path content rest session_id accepter p m
        s d c small l k e q =
      let m1 = (send_file lib crypto sha base id first_token session_id path (some content) m).0 in
      let meta = meta_of lib crypto sha base id path session_id content in
      let offers = send_file_offers lib crypto sha base id first_token path content session_id m in
      let (m2, accepted, found, same) =
        accept_registers lib crypto sha token id accepter p meta m1 e offers in
      let session =
        new_session (uuid id) (crypto.encode token) token path (length content)
          (sha256_hex sha content) desktop_download_to_mobile in
      let (s', _, served) =
        serve-hello lib net files sha paths ctl s m2 d session id token rest 1 l k q found refl in
      let (v, delivered) = download_done ctl smooth session files d content c small (omega arith) in
      let (out, forgotten, _, sent) =
        reported_done lib net files sha paths session (download files ctl session d) m2 meta v
          (rw same offers) in
      (
        m2,
        accepted,
        rw served (
          out,
          forgotten,
          subst (λ b. Delivered (length content) content b) (sym sent) delivered,
        ),
      )
