-- ===== src/Transfer/Server.antt =====
-- src/core/FileTransferServer.cpp with its threads: the state that they share, and what a
-- connection's thread does in one turn. The mutex of the table makes `registerTransfer`,
-- `cancelTransfer` and the search each one step; everything else that touches the state is a turn of
-- its own.
pub mod Steps
pub mod Held
pub mod Bystander
pub mod OtherFiles
pub mod Unsaved
pub mod Cancelled
pub mod Settled
pub mod Told
pub mod Owner
pub mod Over
pub mod AllBut
pub mod Alone
pub mod Peace
pub mod Saves
use iriseus.Prelude.{
  ℕ, ◌+◌, ◌-◌, ◌%◌, ◌^◌, Bytes, Bool, true, false, Option, none, some, List, [], ◌∷◌, ◌++◌, ◌==◌,
  ◌||◌, ◌&&◌, not, bytes_eq, nat_beq, ltb, length, take, drop, is_empty, if◌then◌else◌,
}
use iriseus.Prelude.Assoc.{Assoc}
use iriseus.Net.{SocketLib, read_exact}
use iriseus.Wire.{next_frame, to_be32}
use iriseus.Transfer.Hex.{to_hex, uuid}
use iriseus.Transfer.Files.{HashLib, PathLib, numbered}
use iriseus.Transfer.Disk.{DiskLib}
use iriseus.Transfer.Sessions.{Session, find_session}
use iriseus.Transfer.Upload.{
  Verdict, done, failed, Failure, create_failed, cancelled, interrupted, hash_mismatch, save_failed,
  unreadable, send_interrupted, max_chunk,
}
use iriseus.Transfer.Download.{chunk_size, smaller}
use iriseus.Transfer.Connection.{id_of, token_of, direction_of, handshake_size, token_refused}

-- `std::shared_ptr<ActiveTransferSession>`: the number tells the objects apart.
pub record Shared : Type 0 where
  pub number : ℕ
  pub session : Session

pub data Call : Type 0 where
  progressed : Bytes → ℕ → ℕ → Call
  reported : Bytes → Verdict → Call

-- Where the thread of `acceptLoop` is: before the test of `m_running`, or in `accept`.
pub data Acceptor : Type 0 where
  off tests waits : Acceptor

abbrev pub elem : ℕ → List ℕ → Bool
elem n [] = false
elem n (m ∷ l) = nat_beq m n || elem n l

module _ (net : SocketLib) (disks : DiskLib) (sha : HashLib) where
  open net use {Sock}
  open disks use {Disk, File}
  open sha use {State}

  -- The variables of the receiving loop.
  pub record Received : Type 0 where
    pub hash : State
    pub total : ℕ
    pub error : Bool

  pub record Sent : Type 0 where
    pub total : ℕ
    pub error : Bool
    pub sent : Bytes

  -- Where a connection's thread is. `testing` is before the test of the receiving loop, `reading`
  -- in its body, `closing` behind it, `giving_up` and `discarding` before the removal of the
  -- temporary file, `naming` in the search of a free name and `moving` before the renaming;
  -- `serving`, `sending` and `served` are the three places of the sending loop.
  pub data Stage : Type 0 where
    handshaking : Sock → Stage
    opening : Shared → Sock → Stage
    testing reading : Shared → Sock → File → Received → Stage
    closing : Shared → Received → Stage
    giving_up : Shared → Stage
    discarding : Shared → Failure → Stage
    naming : Shared → Bytes → ℕ → Stage
    moving : Shared → Bytes → Stage
    asking : Shared → Stage
    serving sending : Shared → File → Sent → Stage
    served : Shared → Sent → Stage
    reporting : Shared → Verdict → Stage
    finished : Option Verdict → Stage

  -- `cancelled` are the objects whose flag is set.
  pub record Server : Type 0 where
    pub running : Bool
    pub stopping : Bool
    pub acceptor : Acceptor
    pub table : Assoc Bytes Shared
    pub next : ℕ
    pub cancelled : List ℕ
    pub threads : List Stage
    pub disk : Disk
    pub calls : List Call

  -- What a turn changes.
  pub record Turn : Type 0 where
    pub stage : Stage
    pub disk : Disk
    pub calls : List Call

  abbrev pub is_cancelled : Shared → Server → Bool
  is_cancelled k w = elem k.number w.cancelled

  -- The test of both loops.
  abbrev pub goes_on : Shared → ℕ → Server → Bool
  goes_on k total w = w.running && not (is_cancelled k w) && ltb total k.session.expected_size

  abbrev pub goes_to : Stage → Server → Turn
  goes_to st w = record { stage = st; disk = w.disk; calls = [] }

  -- The search and the token.
  unfoldable pub greeted : Bytes → Sock → Option Shared → Stage
  unfolding token_refused
  greeted buf s none = finished none
  greeted buf s (some k) =
      if token_refused k.session (token_of buf)
      then finished none
      else if nat_beq (direction_of buf) 0
      then opening k s
      else if nat_beq (direction_of buf) 1
      then asking k
      else finished none

  unfoldable pub greet : Option (Bytes × Sock) → Assoc Bytes Shared → Stage
  unfolding greeted
  greet none table = finished none
  greet (some (buf, s)) table = greeted buf s (find_session (uuid (id_of buf)) table)

  abbrev pub nothing_received : Received
  nothing_received = record { hash = sha.init; total = 0; error = false }

  unfoldable pub created : Shared → Sock → Disk → Option (File × Disk) → Turn
  created k s d none = record { stage = reporting k (failed create_failed); disk = d; calls = [] }
  created k s d (some (f, d')) = record {
    stage = testing k s f nothing_received;
    disk = d';
    calls = [];
  }

  abbrev pub took : Bytes → Received → Received
  took chunk v = record v {
    hash = sha.update v.hash chunk;
    total = (v.total + length chunk) % 2 ^ 64;
  }

  -- The body of the receiving loop.
  unfoldable pub received : Shared → File → Received → Option (Bytes × Sock) → Server → Turn
  received k f v none w = goes_to (closing k (record v { error = true })) w
  received k f v (some (chunk, s)) w = record {
    stage = testing k s f (took chunk v);
    disk = disks.write w.disk f v.total chunk;
    calls =
        progressed k.session.transfer_id ((v.total + length chunk) % 2 ^ 64) k.session.expected_size
        ∷ [];
  }

  -- Behind the receiving loop: the file is dropped, or it gets a name.
  unfoldable pub closes : Shared → Received → Bool → Stage
  closes k v flag =
      if v.error || flag || not (nat_beq v.total k.session.expected_size)
      then giving_up k
      else if not (is_empty k.session.expected_sha256)
          && not (to_hex (sha.final v.hash) == k.session.expected_sha256)
      then discarding k hash_mismatch
      else naming k k.session.target_path 1

  unfoldable pub moved : Shared → Server → Option Disk → Turn
  moved k w none = goes_to (discarding k save_failed) w
  moved k w (some d) = record { stage = reporting k done; disk = d; calls = [] }

  abbrev pub nothing_sent : Sent
  nothing_sent = record { total = 0; error = false; sent = [] }

  unfoldable pub asked : Shared → Option File → Stage
  asked k none = reporting k (failed unreadable)
  asked k (some f) = serving k f nothing_sent

  abbrev pub piece : Shared → File → Sent → Disk → Bytes
  piece k f v d =
      take (smaller chunk_size (k.session.expected_size - v.total))
        (drop v.total (disks.inside d f))

  -- The body of the sending loop; `header` and `payload` say whether the two writes succeed.
  unfoldable pub sends : Bool → Bool → Shared → File → Sent → Bytes → Server → Turn
  sends header payload k f v chunk w =
      if is_empty chunk
      then goes_to (served k v) w
      else if not header
      then goes_to (served k (record v { error = true })) w
      else if not payload
      then goes_to (served k (record v { error = true; sent = v.sent ++ to_be32 (length chunk) })) w
      else record {
        stage = serving k f (record v {
          total = (v.total + length chunk) % 2 ^ 64;
          sent = v.sent ++ (to_be32 (length chunk) ++ chunk);
        });
        disk = w.disk;
        calls =
            progressed k.session.transfer_id ((v.total + length chunk) % 2 ^ 64)
              k.session.expected_size
            ∷ [];
      }

  unfoldable pub send_verdict : Shared → Sent → Bool → Verdict
  send_verdict k v flag =
      if v.error || flag || not (nat_beq v.total k.session.expected_size)
      then failed send_interrupted
      else done

  module _ (paths : PathLib) where
    open disks use {make_path, create, remove, rename, exists, named}

    -- One turn of a connection's thread.
    unfoldable pub turn : Bool → Bool → Server → Stage → Turn
    unfolding greet created received closes moved asked sends send_verdict
    turn header payload w (handshaking s) =
        goes_to (greet (read_exact net s handshake_size) w.table) w
    turn header payload w (opening k s) =
        let d = make_path w.disk (paths.directory k.session.temp_path) in
        created k s d (create d k.session.temp_path)
    turn header payload w (testing k s f v) =
        goes_to (if goes_on k v.total w then reading k s f v else closing k v) w
    turn header payload w (reading k s f v) = received k f v (next_frame net max_chunk s) w
    turn header payload w (closing k v) = goes_to (closes k v (is_cancelled k w)) w
    turn header payload w (giving_up k) = record {
      stage = reporting k (failed (if is_cancelled k w then cancelled else interrupted));
      disk = remove w.disk k.session.temp_path;
      calls = [];
    }
    turn header payload w (discarding k why) = record {
      stage = reporting k (failed why);
      disk = remove w.disk k.session.temp_path;
      calls = [];
    }
    turn header payload w (naming k path count) =
        goes_to
          (if exists w.disk path
            then naming k (numbered paths k.session.target_path count) (count + 1)
            else moving k path)
          w
    turn header payload w (moving k path) = moved k w (rename w.disk k.session.temp_path path)
    turn header payload w (asking k) = goes_to (asked k (named w.disk k.session.target_path)) w
    turn header payload w (serving k f v) =
        goes_to (if goes_on k v.total w then sending k f v else served k v) w
    turn header payload w (sending k f v) = sends header payload k f v (piece k f v w.disk) w
    turn header payload w (served k v) =
        goes_to (reporting k (send_verdict k v (is_cancelled k w))) w
    turn header payload w (reporting k verdict) = record {
      stage = finished (some verdict);
      disk = w.disk;
      calls = reported k.session.transfer_id verdict ∷ [];
    }
    turn header payload w (finished verdict) = goes_to (finished verdict) w
