-- ===== src/Transfer/Sessions.antt =====
-- The transfers that src/core/FileTransferServer.cpp waits for: `registerTransfer`,
-- `cancelTransfer`, `stop`, and the search of a session by the identifier of a handshake.
pub mod Search
pub mod Every
use iriseus.Prelude.{
  ℕ, Bytes, Bool, true, false, Option, none, some, List, [], ◌∷◌, ◌++◌, ◌==◌, bytes_eq, codes, not,
  is_empty, if◌then◌else◌,
}
use iriseus.Prelude.Assoc.{Assoc, lookup, insert, erase}
use iriseus.Transfer.Hex.{strip_dashes}
use iriseus.Transfer.Files.{FilesLib}

pub data Direction : Type 0 where
  mobile_upload_to_pc desktop_download_to_mobile : Direction

-- `bytesTransferred` and `cancelled` change while a connection is served: see `Transfer.Upload`.
pub record Session : Type 0 where
  pub transfer_id : Bytes
  pub token_base64 : Bytes
  pub token_bytes : Bytes
  pub target_path : Bytes
  pub temp_path : Bytes
  pub expected_size : ℕ
  pub expected_sha256 : Bytes
  pub direction : Direction

abbrev pub Sessions : Type 0
Sessions = Assoc Bytes Session

abbrev pub new_session : Bytes → Bytes → Bytes → Bytes → ℕ → Bytes → Direction → Session
new_session id token_base64 token_bytes target size sha256 direction = record {
  transfer_id = id;
  token_base64 = token_base64;
  token_bytes = token_bytes;
  target_path = target;
  temp_path = target ++ codes ".part";
  expected_size = size;
  expected_sha256 = sha256;
  direction = direction;
}

unfoldable pub register_transfer :
    Bytes → Bytes → Bytes → Bytes → ℕ → Bytes → Direction → Sessions → Sessions
unfolding insert
register_transfer id token_base64 token_bytes target size sha256 direction m =
    insert id (new_session id token_base64 token_bytes target size sha256 direction) m

-- A table of sessions, or of what stands for them.
module _ {ℓ} {A : Type ℓ} where
  -- The scan of the table when no key is equal to the identifier.
  unfoldable pub find_stripped : Bytes → Assoc Bytes A → Option A
  unfolding strip_dashes
  find_stripped no_dash [] = none
  find_stripped no_dash ((key, session) ∷ m) =
      if strip_dashes key == no_dash then some session else find_stripped no_dash m

  unfoldable pub find_session : Bytes → Assoc Bytes A → Option A
  unfolding lookup find_stripped
  find_session candidate m = elim (lookup candidate m) [
    | some session ↦ some session
    | none ↦ find_stripped (strip_dashes candidate) m
  ]

module _ (files : FilesLib) where
  open files use {Disk, remove}

  abbrev pub remove_temp : Session → Disk → Disk
  remove_temp session d = if not (is_empty session.temp_path) then remove d session.temp_path else d

  pub cancelled_disk : Option Session → Disk → Disk
  cancelled_disk none d = d
  cancelled_disk (some session) d = remove_temp session d

  -- Of a registered transfer the temporary file and the entry go; others are left alone.
  unfoldable pub cancel_transfer : Bytes → Sessions → Disk → Sessions × Disk
  unfolding cancelled_disk lookup erase
  cancel_transfer id m d = (erase id m, cancelled_disk (lookup id m) d)

  -- `stop` removes the temporary file of each session and forgets them all.
  pub stop_disk : Sessions → Disk → Disk
  stop_disk [] d = d
  stop_disk ((key, session) ∷ m) d = stop_disk m (remove_temp session d)

  unfoldable pub stop : Sessions → Disk → Sessions × Disk
  unfolding stop_disk
  stop m d = ([], stop_disk m d)
