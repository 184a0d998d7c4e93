-- ===== src/Transfer/Server/Steps.antt =====
-- `start`, `stop`, `registerTransfer`, `cancelTransfer` and `acceptLoop` of
-- src/core/FileTransferServer.cpp as steps of the shared state, in any order with the turns of the
-- connections.
use iriseus.Prelude.{
  ◌≡◌, subst, All, ℕ, zero, suc, ◌+◌, Bytes, Bool, true, false, Option, none, some, List, [], ◌∷◌,
  ◌++◌, ◌&&◌, not, is_empty, if◌then◌else◌, bytes_eq,
}
use iriseus.Prelude.Assoc.{Assoc, lookup, insert, erase}
use iriseus.Net.{SocketLib}
use iriseus.Transfer.Files.{HashLib, PathLib}
use iriseus.Transfer.Disk.{DiskLib}
use iriseus.Transfer.Sessions.{Direction, new_session}
use iriseus.Transfer.Server.{
  Shared, Acceptor, off, tests, waits, Stage, handshaking, Server, Turn, turn,
}

module _ {ℓ} {A : Type ℓ} where
  abbrev pub get_elem? : List A → ℕ → Option A
  get_elem? [] i = none
  get_elem? (x ∷ l) zero = some x
  get_elem? (x ∷ l) (suc i) = get_elem? l i

  abbrev pub replace : ℕ → A → List A → List A
  replace i y [] = []
  replace zero y (x ∷ l) = y ∷ l
  replace (suc i) y (x ∷ l) = x ∷ replace i y l

  pub All-get_elem? {κ} :
      (P : A → Type κ) (l : List A) (i : ℕ) (x : A) → All P l → get_elem? l i ≡ some x → P x
  All-get_elem? P [] i x h e = absurd (cc)
  All-get_elem? P (y ∷ l) zero x h e = let same : y ≡ x = cc in subst P same h.0
  All-get_elem? P (y ∷ l) (suc i) x h e = All-get_elem? P l i x h.1 e

  pub All-replace {κ} :
      (P : A → Type κ) (l : List A) (i : ℕ) (y : A) → All P l → P y → All P (replace i y l)
  All-replace P [] i y h p = tt
  All-replace P (x ∷ l) zero y h p = (p, h.1)
  All-replace P (x ∷ l) (suc i) y h p = (h.0, All-replace P l i y h.1 p)

module _ (net : SocketLib) (disks : DiskLib) (sha : HashLib) (paths : PathLib) where
  open net use {Sock}
  open disks use {Disk, remove}

  -- `starts` says whether the port could be bound, `accepts` what `accept` gave; `stop_begins` is
  -- `stop` up to the joining of the accepting thread, `stop_ends` what it does then.
  pub data Step : Type 0 where
    starts : Bool → Step
    looks : Step
    accepts : Option Sock → Step
    registers : Bytes → Bytes → Bytes → Bytes → ℕ → Bytes → Direction → Step
    cancels : Bytes → Step
    stop_begins stop_ends : Step
    turns : ℕ → Bool → Bool → Step

  -- On a server that listens already, opening the acceptor throws.
  unfoldable pub start : Bool → Server net disks sha → Server net disks sha
  start bound w =
      if bound && not w.running && not w.stopping
      then record w { running = true; acceptor = tests }
      else w

  unfoldable pub look : Acceptor → Server net disks sha → Server net disks sha
  look off w = w
  look tests w = record w { acceptor = if w.running then waits else off }
  look waits w = w

  -- A connection gets a thread, which is detached.
  unfoldable pub accept : Acceptor → Option Sock → Server net disks sha → Server net disks sha
  accept off connection w = w
  accept tests connection w = w
  accept waits none w = record w { acceptor = off }
  accept waits (some s) w = record w { acceptor = tests; threads = w.threads ++ handshaking s ∷ [] }

  unfoldable pub register : Bytes → Shared → Server net disks sha → Server net disks sha
  unfolding insert
  register id k w = record w { table = insert id k w.table; next = w.next + 1 }

  abbrev pub remove_temp : Shared → Disk → Disk
  remove_temp k d = if not (is_empty k.session.temp_path) then remove d k.session.temp_path else d

  unfoldable pub cancel_found : Bytes → Option Shared → Server net disks sha → Server net disks sha
  unfolding erase
  cancel_found id none w = w
  cancel_found id (some k) w = record w {
    cancelled = k.number ∷ w.cancelled;
    disk = remove_temp k w.disk;
    table = erase id w.table;
  }

  unfoldable pub cancel : Bytes → Server net disks sha → Server net disks sha
  unfolding cancel_found lookup
  cancel id w = cancel_found id (lookup id w.table) w

  unfoldable pub stop_begin : Server net disks sha → Server net disks sha
  stop_begin w = if w.running then record w { running = false; stopping = true } else w

  unfoldable pub swept : Assoc Bytes Shared → Disk → Disk
  swept [] d = d
  swept ((id, k) ∷ m) d = swept m (remove_temp k d)

  abbrev pub numbers : Assoc Bytes Shared → List ℕ
  numbers [] = []
  numbers ((id, k) ∷ m) = k.number ∷ numbers m

  -- The accepting thread has been joined; the threads of the connections go on.
  unfoldable pub sweep : Server net disks sha → Server net disks sha
  unfolding swept
  sweep w = record w {
    stopping = false;
    cancelled = numbers w.table ++ w.cancelled;
    disk = swept w.table w.disk;
    table = [];
  }

  unfoldable pub stop_end : Acceptor → Server net disks sha → Server net disks sha
  unfolding sweep
  stop_end off w = if w.stopping then sweep w else w
  stop_end tests w = w
  stop_end waits w = w

  abbrev pub turned : ℕ → Turn net disks sha → Server net disks sha → Server net disks sha
  turned i t w = record w {
    threads = replace i t.stage w.threads;
    disk = t.disk;
    calls = w.calls ++ t.calls;
  }

  unfoldable pub turn_of :
      ℕ → Bool → Bool → Option (Stage net disks sha) → Server net disks sha → Server net disks sha
  unfolding turn
  turn_of i header payload none w = w
  turn_of i header payload (some st) w = turned i (turn net disks sha paths header payload w st) w

  unfoldable pub step : Step → Server net disks sha → Server net disks sha
  unfolding start look accept register cancel stop_begin stop_end turn_of
  step (starts bound) w = start bound w
  step looks w = look w.acceptor w
  step (accepts connection) w = accept w.acceptor connection w
  step (registers id token64 token target size sha256 dir) w =
      register id
        (record { number = w.next; session = new_session id token64 token target size sha256 dir })
        w
  step (cancels id) w = cancel id w
  step stop_begins w = stop_begin w
  step stop_ends w = stop_end w.acceptor w
  step (turns i header payload) w = turn_of i header payload (get_elem? w.threads i) w

  unfoldable pub run : List Step → Server net disks sha → Server net disks sha
  unfolding step
  run [] w = w
  run (e ∷ es) w = run es (step e w)
