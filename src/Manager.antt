-- ===== src/Manager.antt =====
-- src/core/FileTransferManager.cpp: what the program does with the messages about files, with the
-- files the user drops on it, and when a transfer has ended.
pub mod Handlers
pub mod Offers
pub mod Exchange
use iriseus.Prelude.{
  ◌>>=◌, ℕ, zero, suc, ◌+◌, Bytes, Bool, true, false, Option, none, some, List, [], ◌∷◌, ◌++◌, ◌||◌,
  codes, nat_beq, not, is_empty, take, drop, length, bytes_eq, if◌then◌else◌,
}
use iriseus.Prelude.Assoc.{Assoc, lookup, insert, erase}
use iriseus.Json.{JsonLib}
use iriseus.Transfer.Sessions.{Sessions}

pub record FileOffer : Type 0 where
  pub transfer_id : Bytes
  pub name : Bytes
  pub size : ℕ
  pub mime : Bytes
  pub sha256 : Bytes

pub record TransferMeta : Type 0 where
  pub session_id : ℕ
  pub offer : FileOffer
  pub file_path : Bytes

-- `m_activeOffers`, the table of `m_server`, and `m_currentSessionId`.
pub record Manager : Type 0 where
  pub offers : Assoc Bytes TransferMeta
  pub sessions : Sessions
  pub current_session : ℕ

-- A message for a client, by its session's number, the making of a folder, and the signal
-- `transferFinished`.
pub data Output : Type 0 where
  makes_folder : Bytes → Output
  sends : ℕ → Bytes → Output
  finished : Bytes → Bytes → Bool → Bytes → Output

abbrev pub file_transfer_port : ℕ
file_transfer_port = 45680

-- The characters that a file name on Windows cannot hold.
abbrev pub forbidden : ℕ → Bool
forbidden c =
    nat_beq c b'\\'
    || nat_beq c b'/'
    || nat_beq c b':'
    || nat_beq c b'*'
    || nat_beq c b'?'
    || nat_beq c b'"'
    || nat_beq c b'<'
    || nat_beq c b'>'
    || nat_beq c b'|'

unfoldable pub cleaned : Bytes → Bytes
cleaned [] = []
cleaned (c ∷ s) = let rest = cleaned s in if forbidden c then rest else c ∷ rest

-- `base` is `QFileInfo(name).fileName()`.
unfoldable pub sanitize_file_name : (Bytes → Bytes) → Bytes → Bytes
unfolding cleaned
sanitize_file_name base name =
    if is_empty (cleaned (base name)) then codes "arquivo_recebido" else cleaned (base name)

-- `downloads` is what `QStandardPaths` knows of the folder for downloads, `home` the user's own.
unfoldable pub default_download_dir : Bytes → Bytes → Bytes
default_download_dir downloads home =
    (if is_empty downloads then home ++ codes "/Downloads" else downloads) ++ codes "/Iriseus"

-- `onFinished` without its reply: the entry goes.
abbrev pub forget : Bytes → Manager → Manager
forget id m = record m { offers = erase id m.offers }

module _ (lib : JsonLib) where
  open lib use {Json, object, string, number, boolean, dump, value_string, value_number, value_bool}

  abbrev pub offer_fields : FileOffer → Assoc Bytes Json
  offer_fields p =
      (codes "type", string (codes "file_offer"))
      ∷ (codes "transferId", string p.transfer_id)
      ∷ (codes "name", string p.name)
      ∷ (codes "size", number p.size)
      ∷ (codes "mime", string p.mime)
      ∷ (codes "sha256", string p.sha256)
      ∷ []

  abbrev pub offer_json : FileOffer → Json
  offer_json p = object (offer_fields p)

  -- `payload.get<FileOffer>()`, `none` if a field has another type.
  unfoldable pub offer_from_json : Json → Option FileOffer
  offer_from_json j = do
    transfer_id ← value_string j (codes "transferId") []
    name ← value_string j (codes "name") []
    size ← value_number j (codes "size") 0
    mime ← value_string j (codes "mime") []
    sha256 ← value_string j (codes "sha256") []
    some
        record { transfer_id = transfer_id; name = name; size = size; mime = mime; sha256 = sha256 }
