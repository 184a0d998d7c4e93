-- ===== src/Transfer/Server/Cancelled.antt =====
-- A connection of src/core/FileTransferServer.cpp whose transfer is cancelled, through every run.
use iriseus.Prelude.{
  ℕ, zero, suc, ◌≡◌, refl, ◌∙◌, inl, inr, Bytes, Bool, true, false, Option, none, some, List, [],
  ◌∷◌, ◌++◌, ◌&&◌, not, bytes_eq, if_cases, nat_beq, nat_beq_iff, arith, subst, Bool-cases,
}
use iriseus.Prelude.Assoc.{lookup}
use iriseus.Net.{SocketLib}
use iriseus.Transfer.Files.{HashLib, PathLib}
use iriseus.Transfer.Disk.{DiskLib}
use iriseus.Transfer.Server.{
  Shared, Acceptor, off, tests, waits, Server, Stage, handshaking, turn, elem,
}
use iriseus.Transfer.Server.Steps.{
  Step, starts, looks, accepts, registers, cancels, stop_begins, stop_ends, turns, start, look,
  accept, register, cancel_found, cancel, stop_begin, stop_end, sweep, numbers, turn_of, step, run,
  get_elem?, replace,
}
use iriseus.Transfer.Server.Unsaved.{Unsaved, turn-Unsaved}

elem-append : (n : ℕ) (l m : List ℕ) → elem n m ≡ true → elem n (l ++ m) ≡ true
elem-append n [] m h = h
elem-append n (x ∷ l) m h = ground (arith, elem-append n l m h)

module _ {ℓ} {A : Type ℓ} where
  pub get_elem?-append :
      (l m : List A) (i : ℕ) (x : A) → get_elem? l i ≡ some x → get_elem? (l ++ m) i ≡ some x
  get_elem?-append [] m i x h = absurd (cc)
  get_elem?-append (y ∷ l) m zero x h = h
  get_elem?-append (y ∷ l) m (suc i) x h = get_elem?-append l m i x h

  pub get_elem?-replace_self :
      (l : List A) (i : ℕ) (x y : A) → get_elem? l i ≡ some x → get_elem? (replace i y l) i ≡ some y
  get_elem?-replace_self [] i x y h = absurd (cc)
  get_elem?-replace_self (z ∷ l) zero x y h = refl
  get_elem?-replace_self (z ∷ l) (suc i) x y h = get_elem?-replace_self l i x y h

  pub get_elem?-replace_ne :
      (l : List A) (i j : ℕ) (y : A)
      → nat_beq j i ≡ false
      → get_elem? (replace j y l) i ≡ get_elem? l i
  get_elem?-replace_ne [] i j y h = refl
  get_elem?-replace_ne (z ∷ l) zero zero y h = absurd (ground arith)
  get_elem?-replace_ne (z ∷ l) zero (suc j) y h = refl
  get_elem?-replace_ne (z ∷ l) (suc i) zero y h = refl
  get_elem?-replace_ne (z ∷ l) (suc i) (suc j) y h = get_elem?-replace_ne l i j y (ground arith)

module _ (net : SocketLib) (disks : DiskLib) (sha : HashLib) (paths : PathLib) (n i : ℕ) where
  open net use {Sock}

  abbrev Doomed : Stage net disks sha → Type 0
  Doomed = Unsaved net disks sha paths n

  -- The flag of the object `n` is set, and the thread `i` has not saved its file.
  pub record Ending (w : Server net disks sha) : Type 0 where
    pub flag : elem n w.cancelled ≡ true
    pub stage : Stage net disks sha
    pub thread : get_elem? w.threads i ≡ some stage
    pub unsaved : Doomed stage

  -- A step that adds to the flags and to the threads.
  kept :
      (w w' : Server net disks sha)
      → (elem n w.cancelled ≡ true → elem n w'.cancelled ≡ true)
      → ((st : Stage net disks sha)
          → get_elem? w.threads i ≡ some st
          → get_elem? w'.threads i ≡ some st)
      → Ending w
      → Ending w'
  kept w w' flags threads c = record {
    flag = flags c.flag;
    stage = c.stage;
    thread = threads c.stage c.thread;
    unsaved = c.unsaved;
  }

  start-Ending :
      (bound : Bool) (w : Server net disks sha)
      → Ending w
      → Ending (start net disks sha paths bound w)
  unfolding start
  start-Ending bound w c =
      if_cases Ending (bound && not w.running && not w.stopping) _ _
        (λ e. kept w _ (λ h. h) (λ st h. h) c) (λ e. c)

  look-Ending :
      (l : Acceptor) (w : Server net disks sha) → Ending w → Ending (look net disks sha paths l w)
  unfolding look
  look-Ending off w c = c
  look-Ending tests w c = kept w _ (λ h. h) (λ st h. h) c
  look-Ending waits w c = c

  accept-Ending :
      (l : Acceptor) (o : Option Sock) (w : Server net disks sha)
      → Ending w
      → Ending (accept net disks sha paths l o w)
  unfolding accept
  accept-Ending off o w c = c
  accept-Ending tests o w c = c
  accept-Ending waits none w c = kept w _ (λ h. h) (λ st h. h) c
  accept-Ending waits (some s) w c =
      kept w _ (λ h. h) (λ st h. get_elem?-append w.threads (handshaking s ∷ []) i st h) c

  cancel_found-Ending :
      (id : Bytes) (o : Option Shared) (w : Server net disks sha)
      → Ending w
      → Ending (cancel_found net disks sha paths id o w)
  unfolding cancel_found
  cancel_found-Ending id none w c = c
  cancel_found-Ending id (some k) w c =
      kept w _ (λ h. elem-append n (k.number ∷ []) w.cancelled h) (λ st h. h) c

  stop_begin-Ending :
      (w : Server net disks sha) → Ending w → Ending (stop_begin net disks sha paths w)
  unfolding stop_begin
  stop_begin-Ending w c =
      if_cases Ending w.running _ _ (λ e. kept w _ (λ h. h) (λ st h. h) c) (λ e. c)

  sweep-Ending : (w : Server net disks sha) → Ending w → Ending (sweep net disks sha paths w)
  unfolding sweep
  sweep-Ending w c =
      kept w _ (λ h. elem-append n (numbers net disks sha paths w.table) w.cancelled h) (λ st h. h)
        c

  stop_end-Ending :
      (l : Acceptor) (w : Server net disks sha)
      → Ending w
      → Ending (stop_end net disks sha paths l w)
  unfolding stop_end
  stop_end-Ending off w c = if_cases Ending w.stopping _ _ (λ e. sweep-Ending w c) (λ e. c)
  stop_end-Ending tests w c = c
  stop_end-Ending waits w c = c

  turn-Ending :
      (j : ℕ) (header payload : Bool) (o : Option (Stage net disks sha)) (w : Server net disks sha)
      → get_elem? w.threads j ≡ o
      → Ending w
      → Ending (turn_of net disks sha paths j header payload o w)
  unfolding turn_of
  turn-Ending j header payload none w e c = c
  turn-Ending j header payload (some st) w e c = elim (Bool-cases (nat_beq j i)) [
    | inl same ↦
        let eq : j ≡ i = (nat_beq_iff j i).0 same in
        let at : get_elem? w.threads i ≡ some st = rw (← eq) e in
        let this : c.stage ≡ st = cc in
        record {
          flag = c.flag;
          stage = (turn net disks sha paths header payload w st).stage;
          thread = rw eq (get_elem?-replace_self w.threads i st _ at);
          unsaved =
              turn-Unsaved net disks sha paths n header payload w st c.flag
                (subst Doomed this c.unsaved);
        }
    | inr other ↦ kept w _ (λ h. h) (λ x h. get_elem?-replace_ne w.threads i j _ other ∙ h) c
  ]

  step-Ending :
      (e : Step net disks sha paths) (w : Server net disks sha)
      → Ending w
      → Ending (step net disks sha paths e w)
  unfolding step cancel register
  step-Ending (starts bound) w c = start-Ending bound w c
  step-Ending looks w c = look-Ending w.acceptor w c
  step-Ending (accepts connection) w c = accept-Ending w.acceptor connection w c
  step-Ending (registers id token64 token target size sha256 dir) w c =
      kept w _ (λ h. h) (λ st h. h) c
  step-Ending (cancels id) w c = cancel_found-Ending id (lookup id w.table) w c
  step-Ending stop_begins w c = stop_begin-Ending w c
  step-Ending stop_ends w c = stop_end-Ending w.acceptor w c
  step-Ending (turns j header payload) w c =
      turn-Ending j header payload (get_elem? w.threads j) w refl c

  run-Ending :
      (es : List (Step net disks sha paths)) (w : Server net disks sha)
      → Ending w
      → Ending (run net disks sha paths es w)
  unfolding run
  run-Ending [] w c = c
  run-Ending (e ∷ es) w c = run-Ending es _ (step-Ending e w c)

module _ (net : SocketLib) (disks : DiskLib) (sha : HashLib) (paths : PathLib) where
  elem_head : (n : ℕ) (l : List ℕ) → elem n (n ∷ l) ≡ true
  elem_head n l = ground (arith, nat_beq_iff n n)

  cancelled_flag :
      (k : Shared) (id : Bytes) (w : Server net disks sha)
      → lookup id w.table ≡ some k
      → elem k.number (cancel net disks sha paths id w).cancelled ≡ true
  unfolding cancel cancel_found
  cancelled_flag k id w e = rw e (elem_head k.number w.cancelled)

  cancelled_threads :
      (o : Option Shared) (id : Bytes) (w : Server net disks sha)
      → (cancel_found net disks sha paths id o w).threads ≡ w.threads
  unfolding cancel_found
  cancelled_threads none id w = refl
  cancelled_threads (some k) id w = refl

  cancel-Ending :
      (k : Shared) (i : ℕ) (st : Stage net disks sha) (id : Bytes) (w : Server net disks sha)
      → lookup id w.table ≡ some k
      → get_elem? w.threads i ≡ some st
      → Unsaved net disks sha paths k.number st
      → Ending net disks sha paths k.number i (step net disks sha paths (cancels id) w)
  unfolding step cancel
  cancel-Ending k i st id w e t u = record {
    flag = cancelled_flag k id w e;
    stage = st;
    thread = rw (cancelled_threads (lookup id w.table) id w) t;
    unsaved = u;
  }

  -- A connection that serves a registered transfer and has not passed the checks behind its loop
  -- when `cancelTransfer` is called for the transfer never saves its file and never reports that it
  -- is done: after whatever steps follow, in whatever order, its thread still is before these checks,
  -- or it removes the temporary file, or it reports or has reported a failure.
  pub cancels-Unsaved :
      (es : List (Step net disks sha paths)) (k : Shared) (i : ℕ) (st : Stage net disks sha)
      (id : Bytes) (w : Server net disks sha)
      → lookup id w.table ≡ some k
      → get_elem? w.threads i ≡ some st
      → Unsaved net disks sha paths k.number st
      → (st' : Stage net disks sha) × (get_elem?
            (run net disks sha paths (cancels id ∷ es) w).threads
            i
          ≡ some st')
        × Unsaved net disks sha paths k.number st'
  unfolding run
  cancels-Unsaved es k i st id w e t u =
      let c = run-Ending net disks sha paths k.number i es _ (cancel-Ending k i st id w e t u) in
      (c.stage, c.thread, c.unsaved)
