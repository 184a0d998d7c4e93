-- ===== src/Manager/Exchange.antt =====
-- A connection of src/core/FileTransferServer.cpp together with the callback `onFinished` that
-- src/core/FileTransferManager.cpp gives it.
pub mod Complete
pub mod Fetched
use iriseus.Prelude.{ℕ, Bytes, true, false, Option, none, some, List, [], codes}
use iriseus.Net.{SocketLib, read_exact}
use iriseus.Json.{JsonLib}
use iriseus.Transfer.Hex.{uuid}
use iriseus.Transfer.Files.{FilesLib, HashLib, PathLib}
use iriseus.Transfer.Sessions.{Session, find_session}
use iriseus.Transfer.Upload.{
  Control, Outcome, Verdict, done, failed, Failure, create_failed, cancelled, interrupted,
  hash_mismatch, save_failed, unreadable, send_interrupted,
}
use iriseus.Transfer.Connection.{id_of, handshake_size, checked_session, closed}
use iriseus.Manager.{Manager, Output}
use iriseus.Manager.Handlers.{on_finished}

-- What `m_onFinished` is told.
unfoldable pub error_text : Failure → Bytes
error_text create_failed = codes "Falha ao criar arquivo local"
error_text cancelled = codes "Cancelado"
error_text interrupted = codes "Conexão interrompida"
error_text hash_mismatch = codes "Hash SHA-256 incorreto"
error_text save_failed = codes "Falha ao salvar arquivo final"
error_text unreadable = codes "Arquivo local inacessível"
error_text send_interrupted = codes "Envio interrompido"

module _ (lib : JsonLib) where
  unfoldable pub tell : Bytes → Option Verdict → Manager → Manager × List Output
  unfolding on_finished error_text
  tell id none m = (m, [])
  tell id (some done) m = on_finished lib id true [] m
  tell id (some (failed why)) m = on_finished lib id false (error_text why) m

module _ (lib : JsonLib) (net : SocketLib) (files : FilesLib) (sha : HashLib)
    (paths : PathLib) where
  open net use {Sock}
  open files use {Disk}

  -- What a connection leaves of the program: the manager, the messages and signals, the disk, and
  -- the bytes that the peer got.
  pub record Served : Type 0 where
    pub manager : Manager
    pub outputs : List Output
    pub disk : Disk
    pub sent : Bytes

  unfoldable pub reported : Option Session → Outcome Disk → Manager → Served
  unfolding tell
  reported none o m = record { manager = m; outputs = []; disk = o.disk; sent = o.sent }
  reported (some session) o m =
      let (m', out) = tell lib session.transfer_id o.verdict m in
      record { manager = m'; outputs = out; disk = o.disk; sent = o.sent }

  unfoldable pub serve : Control → Sock → Manager → Disk → Served
  unfolding reported checked_session find_session
  serve ctl s m d = elim (read_exact net s handshake_size) [
    | none ↦ record { manager = m; outputs = []; disk = d; sent = [] }
    | some (buf, s') ↦
        let found = find_session (uuid (id_of buf)) m.sessions in
        reported found (checked_session net files sha paths buf ctl found s' d) m
  ]
