-- ===== src/Manager/Offers.antt =====
-- What offers are registered and announced as: src/core/FileTransferManager.cpp and the format of
-- src/core/FileTransferProtocol.h.
use iriseus.Prelude.{
  ◌==◌, ℕ, zero, suc, ◌≤◌, ◌≡◌, refl, sym, ◌∙◌, ap, inl, inr, Bytes, Bool, false, none, some, [],
  ◌∷◌, ◌++◌, codes, take, drop, length, is_empty, bytes_eq, bytes_beq, All, Bool-cases, length-drop,
  take-append-drop, if◌then◌else◌, arith,
}
use iriseus.Prelude.Assoc.{lookup, lookup-insert_self, lookup-erase, lookup-erase_self}
use iriseus.Json.{JsonLib}
use iriseus.Pairing.{CryptoLib}
use iriseus.Transfer.Hex.{uuid, to_hex}
use iriseus.Transfer.Files.{HashLib}
use iriseus.Transfer.Sessions.{
  mobile_upload_to_pc, desktop_download_to_mobile, register_transfer, new_session, find_session,
}
use iriseus.Transfer.Sessions.Search.{find_session-hit}
use iriseus.Manager.{
  FileOffer, TransferMeta, Manager, makes_folder, sends, finished, cleaned, forbidden,
  sanitize_file_name, offer_fields, offer_json, offer_from_json,
}
use iriseus.Manager.Handlers.{
  hash_loop, sha256_hex, on_finished, complete_message, ready_message, accept_message,
  handle_file_offer, send_file, reply_to,
}

module _ (lib : JsonLib) where
  open lib use {Json, value_string, value_number, value_string_lem, value_number_lem}

  -- An offer that the program announces is read back as the same offer.
  pub offer_from_json-offer_json : (p : FileOffer) → offer_from_json lib (offer_json lib p) ≡ some p
  unfolding offer_from_json lookup bytes_beq
  offer_from_json-offer_json p =
      let fields = offer_fields lib p in
      rw
        (
          value_string_lem fields (codes "transferId") [] p.transfer_id refl,
          value_string_lem fields (codes "name") [] p.name refl,
          value_number_lem fields (codes "size") 0 p.size refl,
          value_string_lem fields (codes "mime") [] p.mime refl,
          value_string_lem fields (codes "sha256") [] p.sha256 refl,
        )
        refl

pub cleaned-Allowed : (s : Bytes) → All (λ c. forbidden c ≡ false) (cleaned s)
unfolding cleaned
cleaned-Allowed [] = ground arith
cleaned-Allowed (c ∷ s) = ground (arith, cleaned-Allowed s)

-- Whatever name a client gives, the name that is used is not empty and has none of the characters
-- that Windows forbids, so no path separator and no drive either.
pub sanitize_file_name-Safe :
    (base : Bytes → Bytes) (name : Bytes)
    → All (λ c. forbidden c ≡ false) (sanitize_file_name base name)
      × (is_empty (sanitize_file_name base name) ≡ false)
unfolding sanitize_file_name
sanitize_file_name-Safe base name = elim (Bool-cases (is_empty (cleaned (base name)))) [
  | inl e ↦ rw (e, sanitize_file_name) (ground arith)
  | inr e ↦ rw (e, sanitize_file_name) (cleaned-Allowed (base name), e)
]

module _ (sha : HashLib) where
  open sha use {State, init, update, final, update_nil, update-append}

  drop_shorter : (k x : ℕ) (b : Bytes) → length (drop (suc k) (x ∷ b)) ≤ length b
  drop_shorter k x b = rw (length-drop k b) (omega arith)

  hash_loop_lem :
      (n : ℕ) (h : State) (b : Bytes) → suc (length b) ≤ n → hash_loop sha n h b ≡ update h b
  unfolding hash_loop
  hash_loop_lem zero h b e = absurd (omega arith)
  hash_loop_lem (suc n) h [] e = sym (update_nil h)
  hash_loop_lem (suc n) h (x ∷ b) e =
      hash_loop_lem n (update h (take 65536 (x ∷ b))) (drop 65536 (x ∷ b))
        (omega (arith, drop_shorter 65535 x b))
      ∙ update-append h (take 65536 (x ∷ b)) (drop 65536 (x ∷ b))
      ∙ ap (update h) (take-append-drop 65536 (x ∷ b))

  -- Hashing a file of any size in pieces gives the hash of the whole.
  pub sha256_hex_whole : (b : Bytes) → sha256_hex sha b ≡ to_hex (final (update init b))
  unfolding sha256_hex
  sha256_hex_whole b =
      ap (λ h. to_hex (final h)) (hash_loop_lem (suc (length b)) init b (omega arith))

module _ (lib : JsonLib) (crypto : CryptoLib) where
  open lib use {dump}
  open crypto use {encode}

  -- An offer of a client whose identifier is the UUID of sixteen bytes is answered by `file_accept`
  -- and `file_ready`, in this order and to this client only, with the folder for downloads made in
  -- between. The token in the answer is the one that is registered, with the offer's size and hash,
  -- and the sixteen bytes find that registration.
  pub handle_file_offer_registers :
      (base : Bytes → Bytes) (folder token uuid_bytes : Bytes) (session_id : ℕ) (offer : FileOffer)
      (m : Manager)
      → offer.transfer_id ≡ uuid uuid_bytes
      → let (m', out) =
          handle_file_offer lib crypto base folder token session_id
            (some (offer_json lib offer))
            m in
        (find_session (uuid uuid_bytes) m'.sessions
          ≡ some (
              new_session offer.transfer_id
                (encode token)
                token
                (folder ++ (codes "/" ++ sanitize_file_name base offer.name))
                offer.size
                offer.sha256
                mobile_upload_to_pc))
        × (out
            ≡ sends session_id (accept_message lib offer.transfer_id)
              ∷ makes_folder folder
              ∷ sends session_id (ready_message lib offer.transfer_id (encode token))
              ∷ [])
  unfolding handle_file_offer register_transfer
  handle_file_offer_registers base folder token uuid_bytes session_id offer m e =
      rw (offer_from_json-offer_json lib offer, handle_file_offer)
        (
          rw (sym e) (
              find_session-hit _ offer.transfer_id _
                (lookup-insert_self offer.transfer_id _ m.sessions)),
          refl,
        )

  -- A file that the user sends is announced to the chosen session by one offer. Its size and its
  -- hash are those of the file as a whole, and the identifier's sixteen bytes find the registration
  -- that serves this path under the fresh token.
  pub send_file_registers :
      (sha : HashLib) (base : Bytes → Bytes) (uuid_bytes token path content : Bytes)
      (session_id : ℕ) (m : Manager)
      → let hash = to_hex (sha.final (sha.update sha.init content)) in
        let offer : FileOffer = record {
          transfer_id = uuid uuid_bytes;
          name = base path;
          size = length content;
          mime = codes "application/octet-stream";
          sha256 = hash;
        } in
        let (m', out) =
          send_file lib crypto sha base uuid_bytes token session_id path (some content) m in
        (find_session (uuid uuid_bytes) m'.sessions
          ≡ some (
              new_session
                (uuid uuid_bytes)
                (encode token)
                token
                path
                (length content)
                hash
                desktop_download_to_mobile))
        × (out ≡ sends session_id (dump (offer_json lib offer)) ∷ [])
  unfolding send_file register_transfer
  send_file_registers sha base uuid_bytes token path content session_id m =
      rw (sym (sha256_hex_whole sha content)) (
        find_session-hit _ (uuid uuid_bytes) _ (lookup-insert_self (uuid uuid_bytes) _ m.sessions),
        refl,
      )

module _ (lib : JsonLib) where
  -- The end of a transfer of the table is told once: to the session that the offer belongs to, if
  -- it is not 0, and as a signal with the offer's name. The transfer is forgotten, others are not,
  -- and telling the end of the same transfer again sends nothing to a client.
  pub on_finished_once :
      (id error other_error : Bytes) (ok other_ok : Bool) (meta : TransferMeta) (m : Manager)
      → lookup id m.offers ≡ some meta
      → let (m', out) = on_finished lib id ok error m in
        (out
          ≡ reply_to lib meta.session_id (complete_message lib id ok error)
            ++ finished id meta.offer.name ok error ∷ [])
        × ((j : Bytes) → lookup j m'.offers ≡ (if id == j then none else lookup j m.offers))
        × ((on_finished lib id other_ok other_error m').1
            ≡ finished id [] other_ok other_error ∷ [])
  unfolding on_finished
  on_finished_once id error other_error ok other_ok meta m e =
      rw (e, on_finished)
        (
          refl,
          (λ j. lookup-erase id j m.offers),
          rw (lookup-erase_self id m.offers, on_finished) refl,
        )
