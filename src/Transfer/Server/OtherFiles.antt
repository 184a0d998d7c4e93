-- ===== src/Transfer/Server/OtherFiles.antt =====
-- A file that is no transfer's temporary file, through every run of
-- src/core/FileTransferServer.cpp: connections, registrations, cancellations and stops in any order.
use iriseus.Prelude.{
  ℕ, ◌≡◌, refl, Bytes, Bool, false, Option, none, some, List, [], ◌∷◌, ◌++◌, ◌==◌, ◌&&◌, not,
  bytes_eq, if_cases, is_empty, All, All-append, codes,
}
use iriseus.Prelude.Assoc.{Assoc, lookup}
use iriseus.Net.{SocketLib, read_exact}
use iriseus.Transfer.Hex.{uuid}
use iriseus.Transfer.Connection.{handshake_size, id_of}
use iriseus.Transfer.Files.{HashLib, PathLib}
use iriseus.Transfer.Disk.{DiskLib}
use iriseus.Transfer.Sessions.Every.{
  Every, Every-find_session, Every-lookup, Every-erase, Every-insert,
}
use iriseus.Transfer.Server.{Shared, Acceptor, off, tests, waits, Server, Stage, handshaking}
use iriseus.Transfer.Server.Steps.{
  Step, starts, looks, accepts, registers, cancels, stop_begins, stop_ends, turns, start, look,
  accept, register, cancel_found, cancel, stop_begin, stop_end, sweep, swept, remove_temp, turn_of,
  step, run, get_elem?, All-get_elem?, All-replace,
}
use iriseus.Transfer.Server.Held.{Held, Held-remove}
use iriseus.Transfer.Server.Bystander.{Elsewhere, Away, greet-Away, turn-Spares}

module _ (net : SocketLib) (disks : DiskLib) (sha : HashLib) (paths : PathLib) (p : Bytes)
    (f : disks.File) (b : Bytes) where
  open net use {Sock}
  open disks use {Disk, remove, named, inside}

  abbrev Else : Shared → Type 0
  Else = Elsewhere net disks sha paths p f (λ s. Unit)

  abbrev Gone : Stage net disks sha → Type 0
  Gone = Away net disks sha paths p f (λ s. Unit)

  -- The file is there, and no transfer and no connection uses it.
  pub record Clear (w : Server net disks sha) : Type 0 where
    pub held : Held disks p f b w.disk
    pub table : Every Else w.table
    pub threads : All Gone w.threads

  -- A transfer that is registered has another temporary file.
  unfoldable pub Leaves : Step net disks sha paths → Type 0
  Leaves (registers id token64 token target size sha256 dir) =
      ((target ++ codes ".part") == p) ≡ false
  Leaves (starts bound) = Unit
  Leaves looks = Unit
  Leaves (accepts connection) = Unit
  Leaves (cancels id) = Unit
  Leaves stop_begins = Unit
  Leaves stop_ends = Unit
  Leaves (turns i header payload) = Unit

  remove_temp-Held :
      (k : Shared) (d : Disk)
      → Else k
      → Held disks p f b d
      → Held disks p f b (remove_temp net disks sha paths k d)
  unfolding Elsewhere
  remove_temp-Held k d a h =
      if_cases (Held disks p f b) (not (is_empty k.session.temp_path)) _ _
        (λ e. Held-remove disks p f b d k.session.temp_path a h) (λ e. h)

  swept-Held :
      (m : Assoc Bytes Shared) (d : Disk)
      → Every Else m
      → Held disks p f b d
      → Held disks p f b (swept net disks sha paths m d)
  unfolding swept Every
  swept-Held [] d a h = h
  swept-Held ((id, k) ∷ m) d a h = swept-Held m _ a.1 (remove_temp-Held k d a.0 h)

  start-Clear :
      (bound : Bool) (w : Server net disks sha)
      → Clear w
      → Clear (start net disks sha paths bound w)
  unfolding start
  start-Clear bound w c =
      if_cases Clear (bound && not w.running && not w.stopping) _ _
        (λ e. record { held = c.held; table = c.table; threads = c.threads }) (λ e. c)

  look-Clear :
      (l : Acceptor) (w : Server net disks sha) → Clear w → Clear (look net disks sha paths l w)
  unfolding look
  look-Clear off w c = c
  look-Clear tests w c = record { held = c.held; table = c.table; threads = c.threads }
  look-Clear waits w c = c

  accept-Clear :
      (l : Acceptor) (o : Option Sock) (w : Server net disks sha)
      → Clear w
      → Clear (accept net disks sha paths l o w)
  unfolding accept Away
  accept-Clear off o w c = c
  accept-Clear tests o w c = c
  accept-Clear waits none w c = record { held = c.held; table = c.table; threads = c.threads }
  accept-Clear waits (some s) w c = record {
    held = c.held;
    table = c.table;
    threads = All-append Gone w.threads (handshaking s ∷ []) c.threads (tt, tt);
  }

  register-Clear :
      (id : Bytes) (k : Shared) (w : Server net disks sha)
      → Else k
      → Clear w
      → Clear (register net disks sha paths id k w)
  unfolding register
  register-Clear id k w a c = record {
    held = c.held;
    table = Every-insert Else w.table id k a c.table;
    threads = c.threads;
  }

  cancel-Clear :
      (id : Bytes) (o : Option Shared) (w : Server net disks sha)
      → ((k : Shared) → o ≡ some k → Else k)
      → Clear w
      → Clear (cancel_found net disks sha paths id o w)
  unfolding cancel_found
  cancel-Clear id none w a c = c
  cancel-Clear id (some k) w a c = record {
    held = remove_temp-Held k w.disk (a k refl) c.held;
    table = Every-erase Else w.table id c.table;
    threads = c.threads;
  }

  stop_begin-Clear : (w : Server net disks sha) → Clear w → Clear (stop_begin net disks sha paths w)
  unfolding stop_begin
  stop_begin-Clear w c =
      if_cases Clear w.running _ _
        (λ e. record { held = c.held; table = c.table; threads = c.threads }) (λ e. c)

  sweep-Clear : (w : Server net disks sha) → Clear w → Clear (sweep net disks sha paths w)
  unfolding sweep Every
  sweep-Clear w c = record {
    held = swept-Held w.table w.disk c.table c.held;
    table = tt;
    threads = c.threads;
  }

  stop_end-Clear :
      (l : Acceptor) (w : Server net disks sha) → Clear w → Clear (stop_end net disks sha paths l w)
  unfolding stop_end
  stop_end-Clear off w c = if_cases Clear w.stopping _ _ (λ e. sweep-Clear w c) (λ e. c)
  stop_end-Clear tests w c = c
  stop_end-Clear waits w c = c

  turn-Clear :
      (i : ℕ) (header payload : Bool) (o : Option (Stage net disks sha)) (w : Server net disks sha)
      → ((st : Stage net disks sha) → o ≡ some st → Gone st)
      → Clear w
      → Clear (turn_of net disks sha paths i header payload o w)
  unfolding turn_of
  turn-Clear i header payload none w a c = c
  turn-Clear i header payload (some st) w a c =
      let t =
        turn-Spares net disks sha paths p f (λ s. Unit) b header payload w st
          (λ s _.
            greet-Away net disks sha paths p f (λ s. Unit) (read_exact net s handshake_size) w.table
              (λ buf s' k e h. Every-find_session Else w.table (uuid (id_of buf)) k c.table h))
          c.held (a st refl) in
      record {
        held = t.held;
        table = c.table;
        threads = All-replace Gone w.threads i _ c.threads t.away;
      }

  step-Clear :
      (e : Step net disks sha paths) (w : Server net disks sha)
      → Leaves e
      → Clear w
      → Clear (step net disks sha paths e w)
  unfolding step cancel Leaves Elsewhere
  step-Clear (starts bound) w a c = start-Clear bound w c
  step-Clear looks w a c = look-Clear w.acceptor w c
  step-Clear (accepts connection) w a c = accept-Clear w.acceptor connection w c
  step-Clear (registers id token64 token target size sha256 dir) w a c = register-Clear id _ w a c
  step-Clear (cancels id) w a c =
      cancel-Clear id (lookup id w.table) w (λ k e. Every-lookup Else w.table id k c.table e) c
  step-Clear stop_begins w a c = stop_begin-Clear w c
  step-Clear stop_ends w a c = stop_end-Clear w.acceptor w c
  step-Clear (turns i header payload) w a c =
      turn-Clear i header payload (get_elem? w.threads i) w
        (λ st e. All-get_elem? Gone w.threads i st c.threads e) c

  run-Clear :
      (es : List (Step net disks sha paths)) (w : Server net disks sha)
      → All Leaves es
      → Clear w
      → Clear (run net disks sha paths es w)
  unfolding run
  run-Clear [] w a c = c
  run-Clear (e ∷ es) w a c = run-Clear es _ a.1 (step-Clear e w a.0 c)

  -- A file keeps its name and its bytes through every run of the server, whatever connections,
  -- turns of their threads, registrations, cancellations, stops and starts happen in whatever order,
  -- if at the start no registered transfer and no connection has its path as the temporary file or
  -- has the file open for writing, and no transfer registered later has its path as the temporary
  -- file.
  pub run-Held :
      (es : List (Step net disks sha paths)) (w : Server net disks sha)
      → All Leaves es
      → Clear w
      → let w' = run net disks sha paths es w in (named w'.disk p ≡ some f) × (inside w'.disk f ≡ b)
  run-Held es w a c = let h = (run-Clear es w a c).held in (h.name, h.bytes)
