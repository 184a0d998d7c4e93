-- ===== src/Examples/Exchanges.antt =====
-- A photo that the phone sends, and a file that it fetches, from the offer to the report.
use iriseus.Prelude.{
  ℕ, zero, suc, ◌≡◌, refl, Bytes, true, none, some, [], ◌∷◌, ◌++◌, codes, bytes_eq, bytes_beq,
  arith,
}
use iriseus.Prelude.Assoc.{lookup}
use iriseus.Net.Segments.{segments, Segments}
use iriseus.Transfer.Hex.{uuid}
use iriseus.Transfer.Download.Stream.{Delivered}
use iriseus.Manager.{FileOffer, Manager, sends, finished}
use iriseus.Manager.Handlers.{handle_file_accept, send_file, ready_message, complete_message}
use iriseus.Manager.Exchange.{serve}
use iriseus.Manager.Exchange.Fetched.{sent_file_completes}
use iriseus.Examples.JsonText.{values}
use iriseus.Examples.Libraries.{table, Table, plain_hash, flat_paths, plain_keys}
use iriseus.Examples.Transfers.{quiet, quiet-Smooth}

abbrev same_bytes : ℕ → ℕ → Bytes
same_bytes x zero = []
same_bytes x (suc n) = x ∷ same_bytes x n

abbrev photo_id : Bytes
photo_id = same_bytes 0 16

abbrev ticket : Bytes
ticket = same_bytes 7 32

abbrev photo : FileOffer
photo = record {
  transfer_id = uuid photo_id;
  name = codes "photo";
  size = 3;
  mime = codes "image/jpeg";
  sha256 = [];
}

abbrev idle : Manager
idle = record { offers = []; sessions = []; current_session = 4 }

abbrev disk : Table
disk = (codes "notes", 1 ∷ 2 ∷ []) ∷ []

abbrev sending : Segments
sending =
    (photo_id ++ (ticket ++ 0 ∷ [])) ∷ (0 ∷ 0 ∷ 0 ∷ 2 ∷ 7 ∷ 8 ∷ []) ∷ (0 ∷ 0 ∷ 0 ∷ 1 ∷ 9 ∷ []) ∷ []

abbrev fetching : Segments
fetching = (photo_id ++ (ticket ++ 1 ∷ [])) ∷ []

sent_file_completes_example :
    let m1 =
      (send_file values plain_keys plain_hash
        (λ b. b)
        photo_id
        (5 ∷ [])
        4
        (codes "notes")
        (some (1 ∷ 2 ∷ []))
        idle).0 in
    (m2 : Manager) × (handle_file_accept values plain_keys ticket 4
        (some (values.object ((codes "transferId", values.string (uuid photo_id)) ∷ [])))
        m1
      ≡ some (m2, sends 4 (ready_message values (uuid photo_id) ticket) ∷ []))
    × (let r = serve values segments table plain_hash flat_paths quiet fetching m2 disk in
        (r.outputs
          ≡ sends 4 (complete_message values (uuid photo_id) true [])
            ∷ finished (uuid photo_id) (codes "notes") true []
            ∷ [])
        × (lookup (uuid photo_id) r.manager.offers ≡ none)
        × Delivered 2 (1 ∷ 2 ∷ []) r.sent)
unfolding lookup bytes_beq
sent_file_completes_example =
    sent_file_completes values segments table plain_hash flat_paths plain_keys quiet quiet-Smooth
      (λ b. b) photo_id (5 ∷ []) ticket (codes "notes") (1 ∷ 2 ∷ []) [] 4 4
      (some (values.object ((codes "transferId", values.string (uuid photo_id)) ∷ []))) idle
      fetching disk refl (omega arith) refl refl refl refl
