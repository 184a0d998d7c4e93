-- ===== src/Transfer/Upload.antt =====
-- `handleConnection` of src/core/FileTransferServer.cpp, mode 0: the phone sends a file, in frames,
-- to a temporary file that is checked and then renamed.
pub mod Loop
pub mod Body
pub mod Verdicts
pub mod Others
pub mod Delivery
use iriseus.Prelude.{
  ℕ, zero, suc, ◌+◌, ◌*◌, ◌%◌, ◌^◌, Bytes, Bool, true, false, Option, none, some, List, [], ◌∷◌,
  ◌++◌, ◌==◌, ◌&&◌, ◌||◌, not, bytes_eq, nat_beq, ltb, length, is_empty, if◌then◌else◌,
}
use iriseus.Net.{SocketLib}
use iriseus.Wire.{next_frame}
use iriseus.Transfer.Hex.{to_hex}
use iriseus.Transfer.Files.{FilesLib, HashLib, PathLib, free_name}
use iriseus.Transfer.Sessions.{Session}

abbrev pub max_chunk : ℕ
max_chunk = 1024 * 1024

-- What the thread of a connection sees of the others, which stop the server or cancel the
-- transfer: at the test of each round of the loop, behind the loop, and for the report. For the
-- sending side, whether the two writes of each round succeed. `swept` says whether `cancelTransfer`
-- or `stop` removes the temporary file behind the checks and before it gets its name; while the
-- file is open, Windows refuses to remove it.
pub record Control : Type 0 where
  pub running : ℕ → Bool
  pub cancelled : ℕ → Bool
  pub cancelled_after : Bool
  pub cancelled_report : Bool
  pub swept : Bool
  pub header_sent : ℕ → Bool
  pub payload_sent : ℕ → Bool

-- The texts that `m_onFinished` gets with `false`; with `true` it gets none.
pub data Failure : Type 0 where
  create_failed cancelled interrupted hash_mismatch save_failed unreadable send_interrupted :
      Failure

pub data Verdict : Type 0 where
  done : Verdict
  failed : Failure → Verdict

-- What a connection leaves behind: the disk, the totals given to `m_onProgress`, the call of
-- `m_onFinished` if there was one, and the bytes written to the peer.
pub record Outcome (D : Type 0) : Type 0 where
  pub disk : D
  pub progress : List ℕ
  pub verdict : Option Verdict
  pub sent : Bytes

module _ (net : SocketLib) (files : FilesLib) (sha : HashLib) where
  open net use {Sock}
  open files use {Disk, write}
  open sha use {State, init, update}

  -- The variables of the loop.
  pub record Upload : Type 0 where
    pub disk : Disk
    pub hash : State
    pub total : ℕ
    pub error : Bool
    pub progress : List ℕ

  abbrev pub begun : Disk → Upload
  begun d = record { disk = d; hash = init; total = 0; error = false; progress = [] }

  -- A chunk that has been read.
  unfoldable pub absorb : Session → Bytes → Upload → Upload
  absorb session chunk u = record u {
    disk = write u.disk session.temp_path chunk;
    hash = update u.hash chunk;
    total = (u.total + length chunk) % 2 ^ 64;
    progress = u.progress ++ ((u.total + length chunk) % 2 ^ 64) ∷ [];
  }

  abbrev pub goes_on : Control → Session → ℕ → Upload → Bool
  goes_on ctl session i u =
      ctl.running i && not (ctl.cancelled i) && ltb u.total session.expected_size

  -- `i` counts the rounds. Every round reads a frame, so that the bytes to come bound the rounds.
  unfoldable pub receive_chunks : ℕ → Control → Session → ℕ → Sock → Upload → Upload
  receive_chunks zero ctl session i s u = u
  receive_chunks (suc fuel) ctl session i s u = elim (goes_on ctl session i u) [
    | false ↦ u
    | true ↦ elim (next_frame net max_chunk s) [
      | none ↦ record u { error = true }
      | some (chunk, s') ↦ receive_chunks fuel ctl session (i + 1) s' (absorb session chunk u)
    ]
  ]

module _ (net : SocketLib) (files : FilesLib) (sha : HashLib) (paths : PathLib) where
  open net use {Sock, pending}
  open files use {Disk, create, make_path, remove, rename}
  open sha use {final}

  abbrev pub discard : Session → Upload net files sha → Failure → Outcome Disk
  discard session u why = record {
    disk = remove u.disk session.temp_path;
    progress = u.progress;
    verdict = some (failed why);
    sent = [];
  }

  -- The temporary file gets the first free name.
  unfoldable pub save : Session → Upload net files sha → Outcome Disk
  save session u =
      elim (rename u.disk session.temp_path (free_name files paths u.disk session.target_path)) [
        | none ↦ discard session u save_failed
        | some d ↦ record { disk = d; progress = u.progress; verdict = some done; sent = [] }
      ]

  -- The removal by another thread.
  unfoldable pub sweep : Control → Session → Upload net files sha → Upload net files sha
  sweep ctl session u = if ctl.swept then record u { disk = remove u.disk session.temp_path } else u

  -- Behind the loop.
  unfoldable pub finish : Control → Session → Upload net files sha → Outcome Disk
  unfolding save sweep
  finish ctl session u =
      if u.error || ctl.cancelled_after || not (nat_beq u.total session.expected_size)
      then discard session u (if ctl.cancelled_report then cancelled else interrupted)
      else if not (is_empty session.expected_sha256)
          && not (to_hex (final u.hash) == session.expected_sha256)
      then discard session u hash_mismatch
      else save session (sweep ctl session u)

  unfoldable pub upload : Control → Session → Sock → Disk → Outcome Disk
  unfolding finish receive_chunks absorb
  upload ctl session s d =
      let made = make_path d (paths.directory session.temp_path) in
      elim (create made session.temp_path) [
        | none ↦ record {
          disk = made;
          progress = [];
          verdict = some (failed create_failed);
          sent = [];
        }
        | some d' ↦ finish ctl session (
            receive_chunks net files sha (suc (length (pending s))) ctl session 0 s
              (begun net files sha d'))
      ]
