-- ===== src/Transfer/Server/Told.antt =====
-- A connection of src/core/FileTransferServer.cpp that serves a transfer, through every run.
use iriseus.Prelude.{
  ℕ, ◌≡◌, refl, ◌∙◌, inl, inr, Bytes, Bool, Option, none, some, List, [], ◌∷◌, ◌&&◌, not, bytes_eq,
  if_cases, nat_beq, nat_beq_iff, subst, Bool-cases,
}
use iriseus.Prelude.Assoc.{lookup}
use iriseus.Net.{SocketLib}
use iriseus.Transfer.Files.{HashLib, PathLib}
use iriseus.Transfer.Disk.{DiskLib}
use iriseus.Transfer.Server.{
  Call, Shared, Acceptor, off, tests, waits, Server, Stage, handshaking, turn,
}
use iriseus.Transfer.Server.Steps.{
  Step, starts, looks, accepts, registers, cancels, stop_begins, stop_ends, turns, start, look,
  accept, register, cancel_found, cancel, stop_begin, stop_end, sweep, turn_of, step, run,
  get_elem?,
}
use iriseus.Transfer.Server.Cancelled.{
  get_elem?-append, get_elem?-replace_self, get_elem?-replace_ne,
}
use iriseus.Transfer.Server.Settled.{Among, Among-append, Settled, Settled-more, turn-Settled}

module _ (net : SocketLib) (disks : DiskLib) (sha : HashLib) (paths : PathLib) (k : Shared)
    (i : ℕ) where
  open net use {Sock}

  -- What the thread `i` has come to.
  record Watched (w : Server net disks sha) : Type 0 where
    stage : Stage net disks sha
    thread : get_elem? w.threads i ≡ some stage
    settled : Settled net disks sha paths k w.calls stage

  -- A step that adds to the calls and to the threads.
  kept :
      (w w' : Server net disks sha)
      → ((c : Call) → Among c w.calls → Among c w'.calls)
      → ((st : Stage net disks sha)
          → get_elem? w.threads i ≡ some st
          → get_elem? w'.threads i ≡ some st)
      → Watched w
      → Watched w'
  kept w w' calls threads c = record {
    stage = c.stage;
    thread = threads c.stage c.thread;
    settled = Settled-more net disks sha paths k w.calls w'.calls calls c.stage c.settled;
  }

  start-Watched :
      (bound : Bool) (w : Server net disks sha)
      → Watched w
      → Watched (start net disks sha paths bound w)
  unfolding start
  start-Watched bound w c =
      if_cases Watched (bound && not w.running && not w.stopping) _ _
        (λ e. kept w _ (λ x h. h) (λ st h. h) c) (λ e. c)

  look-Watched :
      (l : Acceptor) (w : Server net disks sha) → Watched w → Watched (look net disks sha paths l w)
  unfolding look
  look-Watched off w c = c
  look-Watched tests w c = kept w _ (λ x h. h) (λ st h. h) c
  look-Watched waits w c = c

  accept-Watched :
      (l : Acceptor) (o : Option Sock) (w : Server net disks sha)
      → Watched w
      → Watched (accept net disks sha paths l o w)
  unfolding accept
  accept-Watched off o w c = c
  accept-Watched tests o w c = c
  accept-Watched waits none w c = kept w _ (λ x h. h) (λ st h. h) c
  accept-Watched waits (some s) w c =
      kept w _ (λ x h. h) (λ st h. get_elem?-append w.threads (handshaking s ∷ []) i st h) c

  cancel_found-Watched :
      (id : Bytes) (o : Option Shared) (w : Server net disks sha)
      → Watched w
      → Watched (cancel_found net disks sha paths id o w)
  unfolding cancel_found
  cancel_found-Watched id none w c = c
  cancel_found-Watched id (some l) w c = kept w _ (λ x h. h) (λ st h. h) c

  stop_begin-Watched :
      (w : Server net disks sha) → Watched w → Watched (stop_begin net disks sha paths w)
  unfolding stop_begin
  stop_begin-Watched w c =
      if_cases Watched w.running _ _ (λ e. kept w _ (λ x h. h) (λ st h. h) c) (λ e. c)

  sweep-Watched : (w : Server net disks sha) → Watched w → Watched (sweep net disks sha paths w)
  unfolding sweep
  sweep-Watched w c = kept w _ (λ x h. h) (λ st h. h) c

  stop_end-Watched :
      (l : Acceptor) (w : Server net disks sha)
      → Watched w
      → Watched (stop_end net disks sha paths l w)
  unfolding stop_end
  stop_end-Watched off w c = if_cases Watched w.stopping _ _ (λ e. sweep-Watched w c) (λ e. c)
  stop_end-Watched tests w c = c
  stop_end-Watched waits w c = c

  turn-Watched :
      (j : ℕ) (header payload : Bool) (o : Option (Stage net disks sha)) (w : Server net disks sha)
      → get_elem? w.threads j ≡ o
      → Watched w
      → Watched (turn_of net disks sha paths j header payload o w)
  unfolding turn_of
  turn-Watched j header payload none w e c = c
  turn-Watched j header payload (some st) w e c = elim (Bool-cases (nat_beq j i)) [
    | inl same ↦
        let eq : j ≡ i = (nat_beq_iff j i).0 same in
        let at : get_elem? w.threads i ≡ some st = rw (← eq) e in
        let this : c.stage ≡ st = cc in
        record {
          stage = (turn net disks sha paths header payload w st).stage;
          thread = rw eq (get_elem?-replace_self w.threads i st _ at);
          settled =
              turn-Settled net disks sha paths k header payload w st
                (subst (Settled net disks sha paths k w.calls) this c.settled);
        }
    | inr other ↦
        kept w _ (λ x h. Among-append x w.calls _ h)
          (λ x h. get_elem?-replace_ne w.threads i j _ other ∙ h) c
  ]

  step-Watched :
      (e : Step net disks sha paths) (w : Server net disks sha)
      → Watched w
      → Watched (step net disks sha paths e w)
  unfolding step cancel register
  step-Watched (starts bound) w c = start-Watched bound w c
  step-Watched looks w c = look-Watched w.acceptor w c
  step-Watched (accepts connection) w c = accept-Watched w.acceptor connection w c
  step-Watched (registers id token64 token target size sha256 dir) w c =
      kept w _ (λ x h. h) (λ st h. h) c
  step-Watched (cancels id) w c = cancel_found-Watched id (lookup id w.table) w c
  step-Watched stop_begins w c = stop_begin-Watched w c
  step-Watched stop_ends w c = stop_end-Watched w.acceptor w c
  step-Watched (turns j header payload) w c =
      turn-Watched j header payload (get_elem? w.threads j) w refl c

  run-Watched :
      (es : List (Step net disks sha paths)) (w : Server net disks sha)
      → Watched w
      → Watched (run net disks sha paths es w)
  unfolding run
  run-Watched [] w c = c
  run-Watched (e ∷ es) w c = run-Watched es _ (step-Watched e w c)

  -- A connection that serves a transfer never ends without a report: after whatever steps follow, in
  -- whatever order, it still serves the transfer, or it has ended with a verdict, and the calls hold
  -- the report of this verdict under the transfer's identifier.
  pub run-Settled :
      (es : List (Step net disks sha paths)) (w : Server net disks sha) (st : Stage net disks sha)
      → get_elem? w.threads i ≡ some st
      → Settled net disks sha paths k w.calls st
      → let w' = run net disks sha paths es w in
        (st' : Stage net disks sha) × (get_elem? w'.threads i ≡ some st')
        × Settled net disks sha paths k w'.calls st'
  run-Settled es w st e h =
      let c = run-Watched es w (record { stage = st; thread = e; settled = h }) in
      (c.stage, c.thread, c.settled)
