-- ===== src/Transfer/Connection.antt =====
-- `handleConnection` of src/core/FileTransferServer.cpp: the handshake and the choice of a mode.
pub mod Authorised
pub mod Accepted
use iriseus.Prelude.{
  ℕ, ◌+◌, Bytes, Bool, true, false, Option, none, some, List, [], ◌==◌, bytes_eq, not, ◌&&◌,
  nat_beq, length, take, drop, if◌then◌else◌,
}
use iriseus.Net.{SocketLib, read_exact}
use iriseus.Wire.{byte_at}
use iriseus.Transfer.Hex.{uuid}
use iriseus.Transfer.Files.{FilesLib, HashLib, PathLib}
use iriseus.Transfer.Sessions.{Session, Sessions, find_session}
use iriseus.Transfer.Upload.{Control, Outcome, upload}
use iriseus.Transfer.Download.{download}

abbrev pub uuid_binary_size : ℕ
uuid_binary_size = 16

abbrev pub token_size : ℕ
token_size = 32

abbrev pub handshake_size : ℕ
handshake_size = uuid_binary_size + token_size + 1

-- The three fields of the handshake.
abbrev pub id_of : Bytes → Bytes
id_of buf = take uuid_binary_size buf

abbrev pub token_of : Bytes → Bytes
token_of buf = take token_size (drop uuid_binary_size buf)

abbrev pub direction_of : Bytes → ℕ
direction_of buf = byte_at buf (uuid_binary_size + token_size)

-- A token of the wrong length is not compared.
unfoldable pub token_refused : Session → Bytes → Bool
token_refused session token =
    nat_beq (length session.token_bytes) token_size && not (token == session.token_bytes)

module _ (net : SocketLib) (files : FilesLib) (sha : HashLib) (paths : PathLib) where
  open net use {Sock}
  open files use {Disk}

  -- An early return: nothing is written, sent or reported.
  abbrev pub closed : Disk → Outcome Disk
  closed d = record { disk = d; progress = []; verdict = none; sent = [] }

  unfoldable pub transfer_mode : ℕ → Control → Session → Sock → Disk → Outcome Disk
  transfer_mode direction ctl session s d =
      if nat_beq direction 0
      then upload net files sha paths ctl session s d
      else if nat_beq direction 1
      then download files ctl session d
      else closed d

  unfoldable pub checked_session : Bytes → Control → Option Session → Sock → Disk → Outcome Disk
  unfolding transfer_mode token_refused
  checked_session buf ctl none s d = closed d
  checked_session buf ctl (some session) s d =
      if token_refused session (token_of buf)
      then closed d
      else transfer_mode (direction_of buf) ctl session s d

  unfoldable pub handle_connection : Control → Sessions → Sock → Disk → Outcome Disk
  unfolding checked_session
  handle_connection ctl sessions s d = elim (read_exact net s handshake_size) [
    | none ↦ closed d
    | some (buf, s') ↦ checked_session buf ctl (find_session (uuid (id_of buf)) sessions) s' d
  ]
