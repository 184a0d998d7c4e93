-- ===== src/Examples/Transfers.antt =====
-- A file of three bytes, sent to the program and fetched from it.
use iriseus.Prelude.{
  ◌≡◌, refl, ◌⊎◌, Bytes, true, false, some, [], ◌∷◌, codes, bytes_eq, bytes_beq, arith, All,
}
use iriseus.Prelude.Assoc.{lookup}
use iriseus.Net.Segments.{segments, Segments}
use iriseus.Wire.{frame, to_be32}
use iriseus.Transfer.Hex.{uuid}
use iriseus.Transfer.Hex.Injective.{IsByte}
use iriseus.Transfer.Files.{free_name}
use iriseus.Transfer.Files.FreeName.{free_name_free}
use iriseus.Transfer.Sessions.{
  Session, Sessions, new_session, mobile_upload_to_pc, desktop_download_to_mobile,
}
use iriseus.Transfer.Upload.{Control, done, upload}
use iriseus.Transfer.Upload.Verdicts.{upload_saved, Stored}
use iriseus.Transfer.Upload.Others.{contents-upload}
use iriseus.Transfer.Upload.Delivery.{upload_delivers, Undisturbed}
use iriseus.Transfer.Download.{download}
use iriseus.Transfer.Download.Stream.{download-Delivered, Delivered}
use iriseus.Transfer.Download.Complete.{download_done, Smooth}
use iriseus.Transfer.Connection.{handle_connection, closed}
use iriseus.Transfer.Connection.Authorised.{Authorised, handle_connection-Authorised}
use iriseus.Examples.Libraries.{table, Table, table-Works, plain_hash, flat_paths}

abbrev pub quiet : Control
quiet = record {
  running = λ i. true;
  cancelled = λ i. false;
  cancelled_after = false;
  cancelled_report = false;
  swept = false;
  header_sent = λ i. true;
  payload_sent = λ i. true;
}

pub quiet-Undisturbed : Undisturbed quiet
quiet-Undisturbed = record { runs = λ i. refl; keeps = λ i. refl; kept = refl; unswept = refl }

pub quiet-Smooth : Smooth quiet
quiet-Smooth = record { calm = quiet-Undisturbed; headers = λ i. refl; payloads = λ i. refl }

abbrev photo : Session
photo = new_session (codes "t") (codes "k") (codes "k") (codes "photo") 3 [] mobile_upload_to_pc

-- The three bytes in two chunks, and a file with the wanted name that is there already.
abbrev arriving : Segments
arriving = (0 ∷ 0 ∷ 0 ∷ 2 ∷ 7 ∷ 8 ∷ []) ∷ (0 ∷ 0 ∷ 0 ∷ 1 ∷ 9 ∷ []) ∷ []

abbrev before : Table
before = (codes "photo", 1 ∷ []) ∷ []

photo_done :
    (upload segments table plain_hash flat_paths quiet photo arriving before).verdict ≡ some done
unfolding frame to_be32
photo_done =
    (upload_delivers segments table plain_hash flat_paths table-Works quiet quiet-Undisturbed photo
      arriving before ((7 ∷ 8 ∷ []) ∷ (9 ∷ []) ∷ []) [] (omega arith)
      ((omega arith, omega arith), ((omega arith, omega arith), tt)) refl refl
      (λ h. absurd (h refl))).0

upload_saved_example :
    Stored segments table plain_hash flat_paths photo
      (upload segments table plain_hash flat_paths quiet photo arriving before).disk
unfolding frame to_be32
upload_saved_example =
    upload_saved segments table plain_hash flat_paths table-Works quiet photo arriving before
      (omega arith) photo_done

contents-upload_example :
    lookup
      (codes "photo")
      (upload segments table plain_hash flat_paths quiet photo arriving before).disk
    ≡ some (1 ∷ [])
unfolding lookup bytes_beq
contents-upload_example =
    contents-upload segments table plain_hash flat_paths quiet photo arriving before (codes "photo")
      (1 ∷ []) (λ e. absurd (cc)) refl

abbrev stored : Session
stored =
    new_session (codes "t") (codes "k") (codes "k") (codes "photo") 1 [] desktop_download_to_mobile

download_done_example :
    ((download table quiet stored before).verdict ≡ some done)
    × Delivered 1 (1 ∷ []) (download table quiet stored before).sent
unfolding lookup bytes_beq
download_done_example =
    download_done quiet quiet-Smooth stored table before (1 ∷ []) refl (omega arith) (omega arith)

download-Delivered_example :
    (content : Bytes) × (lookup (codes "photo") before ≡ some content)
    × Delivered 1 content (download table quiet stored before).sent
unfolding lookup bytes_beq
download-Delivered_example = download-Delivered table quiet stored before (omega arith) (
    (download_done quiet quiet-Smooth stored table before (1 ∷ []) refl (omega arith)
      (omega arith)).0)

free_name_free_example :
    table.exists before (free_name table flat_paths before (codes "photo")) ≡ false
free_name_free_example = free_name_free table flat_paths before (codes "photo")

handle_connection-Authorised_example :
    (handle_connection segments table plain_hash flat_paths quiet [] arriving before
      ≡ closed segments table plain_hash flat_paths before)
    ⊎ Authorised segments table plain_hash flat_paths [] arriving
handle_connection-Authorised_example =
    handle_connection-Authorised segments table plain_hash flat_paths quiet [] arriving before

abbrev some_id : Bytes
some_id = 1 ∷ 2 ∷ 3 ∷ 4 ∷ 5 ∷ 6 ∷ 7 ∷ 8 ∷ 9 ∷ 10 ∷ 11 ∷ 12 ∷ 13 ∷ 14 ∷ 15 ∷ 255 ∷ []

abbrev other_id : Bytes
other_id = 0 ∷ 2 ∷ 3 ∷ 4 ∷ 5 ∷ 6 ∷ 7 ∷ 8 ∷ 9 ∷ 10 ∷ 11 ∷ 12 ∷ 13 ∷ 14 ∷ 15 ∷ 255 ∷ []

some_bytes : All IsByte some_id
some_bytes = ground arith

other_bytes : All IsByte other_id
other_bytes = ground arith

abbrev waiting : Sessions
waiting = (uuid some_id, photo) ∷ []
