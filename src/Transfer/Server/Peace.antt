-- ===== src/Transfer/Server/Peace.antt =====
-- The steps of src/core/FileTransferServer.cpp that leave a connection its file.
use iriseus.Prelude.{
  ℕ, ◌≡◌, refl, inl, inr, Bytes, Bool, false, Option, none, some, List, [], ◌∷◌, ◌==◌, ◌&&◌, not,
  bytes_eq, bytes_beq_iff, if_cases, is_empty, All,
}
use iriseus.Prelude.Assoc.{lookup}
use iriseus.Net.{SocketLib}
use iriseus.Transfer.Hex.{strip_dashes}
use iriseus.Transfer.Files.{HashLib, PathLib}
use iriseus.Transfer.Disk.{DiskLib, Appends}
use iriseus.Transfer.Sessions.Every.{All-lookup, All-erase, All-insert}
use iriseus.Transfer.Server.{Shared, Acceptor, off, tests, waits, Server, Stage, handshaking}
use iriseus.Transfer.Server.Steps.{
  Step, starts, looks, accepts, registers, cancels, stop_begins, stop_ends, turns, start, look,
  accept, register, cancel_found, cancel, stop_begin, remove_temp, step, run, get_elem?,
}
use iriseus.Transfer.Server.Held.{Held, Held-remove}
use iriseus.Transfer.Server.Bystander.{Elsewhere, Away}
use iriseus.Transfer.Server.AllBut.{AllBut, AllBut-append}
use iriseus.Transfer.Server.Owner.{Mine-Held}
use iriseus.Transfer.Server.Cancelled.{get_elem?-append}
use iriseus.Transfer.Server.Alone.{Foreign, Gone, Entry, Peaceful, Alone, entry_else, turn-Alone}

module _ (net : SocketLib) (disks : DiskLib) (sha : HashLib) (paths : PathLib) (p : Bytes)
    (f : disks.File) (id : Bytes) (owner : Shared) where
  open net use {Sock}
  open disks use {Disk, named, inside}

  module _ (works : Appends disks) (i : ℕ) where
    abbrev Lone : Server net disks sha → Type 0
    Lone = Alone net disks sha paths p f id owner i

    abbrev Others : List (Stage net disks sha) → Type 0
    Others = AllBut (Gone net disks sha paths p f id owner) i

    abbrev Entries : Bytes × Shared → Type 0
    Entries = Entry net disks sha paths p f id owner

    abbrev Spared : Shared → Type 0
    Spared = Elsewhere net disks sha paths p f (Foreign net disks sha paths p f id owner)

    abbrev Calm : Step net disks sha paths → Type 0
    Calm = Peaceful net disks sha paths p f id owner

    -- A step that starts no turn.
    other_step :
        (w w' : Server net disks sha)
        → ((st : Stage net disks sha)
            → get_elem? w.threads i ≡ some st
            → get_elem? w'.threads i ≡ some st)
        → (Others w.threads → Others w'.threads)
        → ((body : Bytes) → Held disks p f body w.disk → Held disks p f body w'.disk)
        → All Entries w'.table
        → Lone w
        → Lone w'
    other_step w w' threads others held table a = record {
      stage = a.stage;
      thread = threads a.stage a.thread;
      mine = Mine-Held net disks sha paths p f owner w.disk w'.disk a.stage held a.mine;
      others = elim a.others [ inl over ↦ inl over | inr all ↦ inr (others all) ];
      table = table;
    }

    start-Alone :
        (bound : Bool) (w : Server net disks sha)
        → Lone w
        → Lone (start net disks sha paths bound w)
    unfolding start
    start-Alone bound w a =
        if_cases Lone (bound && not w.running && not w.stopping) _ _
          (λ e. other_step w _ (λ st h. h) (λ h. h) (λ b h. h) a.table a) (λ e. a)

    look-Alone :
        (l : Acceptor) (w : Server net disks sha) → Lone w → Lone (look net disks sha paths l w)
    unfolding look
    look-Alone off w a = a
    look-Alone tests w a = other_step w _ (λ st h. h) (λ h. h) (λ b h. h) a.table a
    look-Alone waits w a = a

    accept-Alone :
        (l : Acceptor) (o : Option Sock) (w : Server net disks sha)
        → Calm (accepts o)
        → Lone w
        → Lone (accept net disks sha paths l o w)
    unfolding accept Peaceful Away
    accept-Alone off o w q a = a
    accept-Alone tests o w q a = a
    accept-Alone waits none w q a = other_step w _ (λ st h. h) (λ h. h) (λ b h. h) a.table a
    accept-Alone waits (some s) w q a =
        other_step w _ (λ st h. get_elem?-append w.threads (handshaking s ∷ []) i st h)
          (λ h.
            AllBut-append (Gone net disks sha paths p f id owner) i w.threads (handshaking s) q h)
          (λ b h. h) a.table a

    register-Alone :
        (other : Bytes) (k : Shared) (w : Server net disks sha)
        → Spared k
        → Lone w
        → Lone (register net disks sha paths other k w)
    unfolding register Entry
    register-Alone other k w e a =
        other_step w _ (λ st h. h) (λ h. h) (λ b h. h)
          (All-insert Entries w.table other k (inr e) a.table) a

    remove_temp-Held :
        (k : Shared) (d : Disk) (body : Bytes)
        → Spared k
        → Held disks p f body d
        → Held disks p f body (remove_temp net disks sha paths k d)
    unfolding Elsewhere
    remove_temp-Held k d body e h =
        if_cases (Held disks p f body) (not (is_empty k.session.temp_path)) _ _
          (λ x. Held-remove disks p f body d k.session.temp_path e h) (λ x. h)

    cancel-Alone :
        (other : Bytes) (o : Option Shared) (w : Server net disks sha)
        → ((k : Shared) → o ≡ some k → Spared k)
        → Lone w
        → Lone (cancel_found net disks sha paths other o w)
    unfolding cancel_found
    cancel-Alone other none w e a = a
    cancel-Alone other (some k) w e a =
        other_step w _ (λ st h. h) (λ h. h) (λ body h. remove_temp-Held k w.disk body (e k refl) h)
          (All-erase Entries w.table other a.table) a

    cancelled_else :
        (w : Server net disks sha) (other : Bytes) (k : Shared)
        → All Entries w.table
        → (strip_dashes other == strip_dashes id) ≡ false
        → lookup other w.table ≡ some k
        → Spared k
    cancelled_else w other k table ne e =
        let (key, q, same) = All-lookup Entries w.table other k table e in
        let eq : key ≡ other = (bytes_beq_iff key other).0 same in
        entry_else net disks sha paths p f id owner key k q (rw eq ne)

    stop_begin-Alone : (w : Server net disks sha) → Lone w → Lone (stop_begin net disks sha paths w)
    unfolding stop_begin
    stop_begin-Alone w a =
        if_cases Lone w.running _ _ (λ e. other_step w _ (λ st h. h) (λ h. h) (λ b h. h) a.table a)
          (λ e. a)

    step-Alone :
        (e : Step net disks sha paths) (w : Server net disks sha)
        → Calm e
        → Lone w
        → Lone (step net disks sha paths e w)
    unfolding step cancel Peaceful Elsewhere
    step-Alone (starts bound) w q a = start-Alone bound w a
    step-Alone looks w q a = look-Alone w.acceptor w a
    step-Alone (accepts none) w q a = accept-Alone w.acceptor none w q a
    step-Alone (accepts (some s)) w q a = accept-Alone w.acceptor (some s) w q a
    step-Alone (registers other token64 token target size sha256 dir) w q a =
        register-Alone other _ w q a
    step-Alone (cancels other) w q a =
        cancel-Alone other (lookup other w.table) w (λ k e. cancelled_else w other k a.table q e) a
    step-Alone stop_begins w q a = stop_begin-Alone w a
    step-Alone stop_ends w q a = absurd q
    step-Alone (turns j header payload) w q a =
        turn-Alone net disks sha paths p f id owner works i j header payload (get_elem? w.threads j)
          w refl a

    pub run-Alone :
        (es : List (Step net disks sha paths)) (w : Server net disks sha)
        → All Calm es
        → Lone w
        → Lone (run net disks sha paths es w)
    unfolding run
    run-Alone [] w q a = a
    run-Alone (e ∷ es) w q a = run-Alone es _ q.1 (step-Alone e w q.0 a)
