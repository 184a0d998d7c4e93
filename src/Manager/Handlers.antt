-- ===== src/Manager/Handlers.antt =====
-- The handlers of src/core/FileTransferManager.cpp. Random bytes, the folder for downloads, and what
-- `QFileInfo` says of a path are arguments.
use iriseus.Prelude.{
  ◌>>=◌, ℕ, zero, suc, Bytes, Bool, false, Option, none, some, List, [], ◌∷◌, ◌++◌, codes, nat_beq,
  is_empty, take, drop, length, bytes_eq, if◌then◌else◌,
}
use iriseus.Prelude.Assoc.{lookup, insert, erase}
use iriseus.Json.{JsonLib}
use iriseus.Pairing.{CryptoLib}
use iriseus.Transfer.Hex.{uuid, to_hex}
use iriseus.Transfer.Files.{FilesLib, HashLib}
use iriseus.Transfer.Sessions.{
  mobile_upload_to_pc, desktop_download_to_mobile, register_transfer, cancel_transfer,
}
use iriseus.Manager.{
  FileOffer, TransferMeta, Manager, Output, makes_folder, sends, finished, file_transfer_port,
  sanitize_file_name, forget, offer_json, offer_from_json,
}

module _ (sha : HashLib) where
  open sha use {State, init, update, final}

  -- The reads of 65536 bytes, fed to the hash until one is empty.
  unfoldable pub hash_loop : ℕ → State → Bytes → State
  hash_loop zero h b = h
  hash_loop (suc n) h b =
      let rest = hash_loop n (update h (take 65536 b)) (drop 65536 b) in
      if is_empty b then h else rest

  unfoldable pub sha256_hex : Bytes → Bytes
  unfolding hash_loop to_hex
  sha256_hex b = to_hex (final (hash_loop (suc (length b)) init b))

module _ (lib : JsonLib) where
  open lib use {Json, object, string, number, boolean, dump, value_string, value_bool}

  unfoldable pub ready_message : Bytes → Bytes → Bytes
  ready_message id token = dump (
      object (
        (codes "type", string (codes "file_ready"))
        ∷ (codes "transferId", string id)
        ∷ (codes "port", number file_transfer_port)
        ∷ (codes "token", string token)
        ∷ []))

  unfoldable pub accept_message : Bytes → Bytes
  accept_message id =
      dump (
        object
          ((codes "type", string (codes "file_accept")) ∷ (codes "transferId", string id) ∷ []))

  unfoldable pub complete_message : Bytes → Bool → Bytes → Bytes
  complete_message id ok error = dump (
      object (
        (codes "type", string (codes "file_complete"))
        ∷ (codes "transferId", string id)
        ∷ (codes "ok", boolean ok)
        ∷ (if is_empty error then [] else if ok then [] else (codes "error", string error) ∷ [])))

  abbrev pub reply_to : ℕ → Bytes → List Output
  reply_to session_id message = if nat_beq session_id 0 then [] else sends session_id message ∷ []

  -- The callback `onFinished` of the server: 0 is no session.
  unfoldable pub on_finished : Bytes → Bool → Bytes → Manager → Manager × List Output
  unfolding lookup erase complete_message
  on_finished id ok error m = elim (lookup id m.offers) [
    | none ↦ (forget id m, finished id [] ok error ∷ [])
    | some meta ↦ (
      forget id m,
      reply_to meta.session_id (complete_message id ok error)
          ++ finished id meta.offer.name ok error ∷ [],
    )
  ]

  -- `value` throws (`none`) for a missing payload.
  abbrev pub id_field : Option Json → Option Bytes
  id_field none = none
  id_field (some j) = value_string j (codes "transferId") []

  unfoldable pub handle_file_complete : Option Json → Manager → Option (Manager × List Output)
  unfolding lookup erase
  handle_file_complete none m = none
  handle_file_complete (some j) m = do
    id ← value_string j (codes "transferId") []
    ok ← value_bool j (codes "ok") false
    error ← value_string j (codes "error") []
    elim (lookup id m.offers) [
      | none ↦ some (m, [])
      | some meta ↦ some (forget id m, finished id meta.offer.name ok error ∷ [])
    ]

  module _ (crypto : CryptoLib) where
    open crypto use {encode}

    -- A payload that is no offer is reported in the log and ignored.
    unfoldable pub handle_file_offer :
        (Bytes → Bytes) → Bytes → Bytes → ℕ → Option Json → Manager → Manager × List Output
    unfolding register_transfer insert sanitize_file_name offer_from_json ready_message
        accept_message
    handle_file_offer base folder token session_id none m = (m, [])
    handle_file_offer base folder token session_id (some j) m = elim (offer_from_json lib j) [
      | none ↦ (m, [])
      | some offer ↦ (
        record m {
          offers =
              insert offer.transfer_id
                (record { session_id = session_id; offer = offer; file_path = [] }) m.offers;
          sessions =
              register_transfer offer.transfer_id (encode token) token
                (folder ++ (codes "/" ++ sanitize_file_name base offer.name)) offer.size
                offer.sha256 mobile_upload_to_pc m.sessions;
        },
        sends session_id (accept_message offer.transfer_id)
            ∷ makes_folder folder
            ∷ sends session_id (ready_message offer.transfer_id (encode token))
            ∷ [],
      )
    ]

    unfoldable pub accepted_offer :
        Bytes → ℕ → Bytes → Option TransferMeta → Manager → Manager × List Output
    unfolding register_transfer ready_message
    accepted_offer token session_id id none m = (m, [])
    accepted_offer token session_id id (some meta) m = (
      record m {
        sessions =
            register_transfer id (encode token) token meta.file_path meta.offer.size
              meta.offer.sha256 desktop_download_to_mobile m.sessions;
      },
      sends session_id (ready_message id (encode token)) ∷ [],
    )

    unfoldable pub handle_file_accept :
        Bytes → ℕ → Option Json → Manager → Option (Manager × List Output)
    unfolding accepted_offer lookup
    handle_file_accept token session_id p m = elim (id_field p) [
      | none ↦ none
      | some id ↦
          if is_empty id
          then some (m, [])
          else some (accepted_offer token session_id id (lookup id m.offers) m)
    ]

    module _ (sha : HashLib) where
      -- One file of `sendFiles`: `content` is `none` for a path that is no file or does not open.
      unfoldable pub send_file :
          (Bytes → Bytes)
          → Bytes
          → Bytes
          → ℕ
          → Bytes
          → Option Bytes
          → Manager
          → Manager × List Output
      unfolding register_transfer insert sha256_hex uuid
      send_file base uuid_bytes token session_id path none m = (m, [])
      send_file base uuid_bytes token session_id path (some content) m =
          let offer : FileOffer = record {
            transfer_id = uuid uuid_bytes;
            name = base path;
            size = length content;
            mime = codes "application/octet-stream";
            sha256 = sha256_hex sha content;
          } in
          (
            record m {
              offers =
                  insert offer.transfer_id
                    (record { session_id = session_id; offer = offer; file_path = path }) m.offers;
              sessions =
                  register_transfer offer.transfer_id (encode token) token path offer.size
                    offer.sha256 desktop_download_to_mobile m.sessions;
            },
            sends session_id (dump (offer_json lib offer)) ∷ [],
          )

      -- The loop of `sendFiles`; for each path the random bytes come with what the disk has.
      unfoldable pub send_each :
          (Bytes → Bytes)
          → ℕ
          → List (Bytes × Bytes × Bytes × Option Bytes)
          → Manager
          → Manager × List Output
      unfolding send_file
      send_each base session_id [] m = (m, [])
      send_each base session_id ((path, uuid_bytes, token, content) ∷ paths) m =
          let (m', out) = send_file base uuid_bytes token session_id path content m in
          let (last, more) = send_each base session_id paths m' in (last, out ++ more)

      -- Session 0 stands for the current one; without one nothing is sent.
      unfoldable pub send_files :
          (Bytes → Bytes)
          → ℕ
          → List (Bytes × Bytes × Bytes × Option Bytes)
          → Manager
          → Manager × List Output
      unfolding send_each
      send_files base session_id paths m =
          let chosen = if nat_beq session_id 0 then m.current_session else session_id in
          let sent = send_each base chosen paths m in if nat_beq chosen 0 then (m, []) else sent

module _ (lib : JsonLib) (files : FilesLib) where
  open lib use {Json}
  open files use {Disk}

  -- `handleFileReject` and `handleFileCancel`, which have the same body.
  unfoldable pub handle_file_cancel : Option Json → Manager → Disk → Option (Manager × Disk)
  unfolding cancel_transfer erase
  handle_file_cancel p m d = elim (id_field lib p) [
    | none ↦ none
    | some id ↦
        if is_empty id
        then some (m, d)
        else let (sessions, d') = cancel_transfer files id m.sessions d in
          some (record m { sessions = sessions; offers = erase id m.offers }, d')
  ]
