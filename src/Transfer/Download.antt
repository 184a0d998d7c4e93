-- ===== src/Transfer/Download.antt =====
-- `handleConnection` of src/core/FileTransferServer.cpp, mode 1: the PC sends a file in frames.
pub mod Stream
pub mod Complete
use iriseus.Prelude.{
  ℕ, zero, suc, ◌+◌, ◌-◌, ◌*◌, ◌%◌, ◌^◌, Bytes, Bool, true, false, Option, none, some, List, [],
  ◌∷◌, ◌++◌, ◌&&◌, ◌||◌, not, nat_beq, ltb, leb, length, take, drop, is_empty, if◌then◌else◌,
}
use iriseus.Wire.{to_be32}
use iriseus.Transfer.Files.{FilesLib}
use iriseus.Transfer.Sessions.{Session}
use iriseus.Transfer.Upload.{Control, Outcome, Verdict, done, failed, unreadable, send_interrupted}

-- `kChunkPlaintextSize`.
abbrev pub chunk_size : ℕ
chunk_size = 256 * 1024

abbrev pub smaller : ℕ → ℕ → ℕ
smaller a b = if leb a b then a else b

-- The variables of the loop: what is left of the file and what the completed writes gave the peer.
pub record Download : Type 0 where
  pub rest : Bytes
  pub total : ℕ
  pub error : Bool
  pub progress : List ℕ
  pub sent : Bytes

abbrev pub goes_on : Control → Session → ℕ → Download → Bool
goes_on ctl session i v =
    ctl.running i && not (ctl.cancelled i) && ltb v.total session.expected_size

-- `in.read` and `in.gcount`: what the file has left, up to a chunk and up to the announced size.
abbrev pub next_chunk : Session → Download → Bytes
next_chunk session v = take (smaller chunk_size (session.expected_size - v.total)) v.rest

-- A chunk whose header and payload were both written.
unfoldable pub sent_chunk : Bytes → Download → Download
sent_chunk chunk v = record v {
  rest = drop (length chunk) v.rest;
  total = (v.total + length chunk) % 2 ^ 64;
  progress = v.progress ++ ((v.total + length chunk) % 2 ^ 64) ∷ [];
  sent = v.sent ++ (to_be32 (length chunk) ++ chunk);
}

abbrev pub header_only : Bytes → Download → Download
header_only chunk v = record v { error = true; sent = v.sent ++ to_be32 (length chunk) }

-- Every round sends a byte or more of the file, so that the file bounds the rounds.
pub send_chunks : ℕ → Control → Session → ℕ → Download → Download
send_chunks zero ctl session i v = v
send_chunks (suc fuel) ctl session i v = elim (goes_on ctl session i v) [
  | false ↦ v
  | true ↦ elim (is_empty (next_chunk session v)) [
    | true ↦ v
    | false ↦ elim (ctl.header_sent i) [
      | false ↦ record v { error = true }
      | true ↦ elim (ctl.payload_sent i) [
        | false ↦ header_only (next_chunk session v) v
        | true ↦ send_chunks fuel ctl session (i + 1) (sent_chunk (next_chunk session v) v)
      ]
    ]
  ]
]

abbrev pub opened : Bytes → Download
opened content = record { rest = content; total = 0; error = false; progress = []; sent = [] }

abbrev pub send_verdict : Control → Session → Download → Verdict
send_verdict ctl session v =
    if v.error || ctl.cancelled_after || not (nat_beq v.total session.expected_size)
    then failed send_interrupted
    else done

module _ (files : FilesLib) where
  open files use {Disk, contents}

  unfoldable pub download : Control → Session → Disk → Outcome Disk
  unfolding send_chunks sent_chunk
  download ctl session d = elim (contents d session.target_path) [
    | none ↦ record { disk = d; progress = []; verdict = some (failed unreadable); sent = [] }
    | some content ↦
        let v = send_chunks (suc (length content)) ctl session 0 (opened content) in
        record {
          disk = d;
          progress = v.progress;
          verdict = some (send_verdict ctl session v);
          sent = v.sent;
        }
  ]
