-- ===== src/App/Current.antt =====
-- The session that files are sent to, `currentSession` of the manager of transfers.
use iriseus.Prelude.{
  ℕ, ◌≡◌, ◌≢◌, refl, sym, ap, ◌∙◌, subst, ◌⊎◌, inl, inr, Bytes, Bool, true, false, ◌||◌, Option,
  none, some, List, [], ◌∷◌, nat_eq, nat_beq, if_cases, arith, Bool-cases,
}
use iriseus.Prelude.Assoc.{Assoc, lookup, insert, erase}
use iriseus.Json.{JsonLib}
use iriseus.Transfer.Files.{FilesLib, HashLib}
use iriseus.Pairing.{CryptoLib, Pairing}
use iriseus.Manager.{Manager}
use iriseus.Tray.{Tray}
use iriseus.Ws.Writer.{Writer, idle, ended}
use iriseus.Ws.Server.{Server, accepted, remove_session, broadcast, stop}
use iriseus.App.{
  App, Settings, Task, pairing_complete, usb_attached, usb_detached, camera_status, stream_mode,
  flips, transfer_finished, new_app, init_pairing, init_stream, init_manager, init_tray,
}
use iriseus.App.Calls.{device_disconnected, disconnected}
use iriseus.App.Steps.{
  Event, connects, receives, disconnects, writes, broadcasts, finishes, inits_pairing, inits_stream,
  inits_manager, inits_tray, runs_task, toggles_flip, asks_pairing, closes_pairing, drops_files,
  attaches, detaches, streams, quits, is_there, flipped, run_task, next_task, next_broadcast,
  toggle, stop_transfers, about_to_quit, ask_pairing, step, run,
}
use iriseus.App.Views.{
  Ensures, Ensures-bind, current_of, ids, ids-changed, ids-sent_to_all, session_view,
}
use iriseus.App.Heard.{Heard, received-Heard}
use iriseus.App.Files.{finish-Quiet, drop_files-Quiet, stop_transfers-Quiet}

abbrev pub among : ℕ → List ℕ → Bool
among n [] = false
among n (m ∷ l) = nat_beq m n || among n l

among-ids : (id : ℕ) (m : Assoc ℕ Writer) → is_there (lookup id m) ≡ true → among id (ids m) ≡ true
unfolding lookup
among-ids id [] h = h
among-ids id ((key, w) ∷ m) h = ground (arith, among-ids id m)

among-erase : (n k : ℕ) (m : Assoc ℕ Writer) → n ≢ k → among n (ids (erase k m)) ≡ among n (ids m)
unfolding erase
among-erase n k [] h = refl
among-erase n k ((key, w) ∷ m) h =
    if_cases (λ (l : Assoc ℕ Writer). among n (ids l) ≡ (nat_beq key n || among n (ids m)))
      (nat_beq key k) _ _ (λ e. among-erase n k m h ∙ ground arith)
      (λ e. ap (λ b. nat_beq key n || b) (among-erase n k m h))

-- While the server runs, there is no current session, 0, or it is one of the server's sessions.
pub IsValid : Bool × ℕ × List ℕ → Type 0
IsValid (running, current, sessions) =
    running ≡ true → (current ≡ 0) ⊎ (among current sessions ≡ true)

among-insert :
    (n k : ℕ) (m : Assoc ℕ Writer) → among n (ids m) ≡ true → among n (ids (insert k idle m)) ≡ true
unfolding insert
among-insert n k m h = elim (Bool-cases (nat_beq k n)) [
  | inl e ↦ rw e refl
  | inr e ↦ rw (e, among-erase n k m (λ z. let no : ⊥ = ground (arith, z, e) in no)) h
]

heard-IsValid :
    (running : Bool) (id : ℕ) (m : Assoc ℕ Writer)
    → is_there (lookup id m) ≡ true
    → IsValid (running, id, ids m)
unfolding IsValid
heard-IsValid running id m h r = inr (among-ids id m h)

accepted-IsValid :
    (s : Server) (n : ℕ)
    → IsValid (s.running, n, ids s.sessions)
    → IsValid ((accepted s).running, n, ids (accepted s).sessions)
unfolding accepted insert IsValid
accepted-IsValid s n h =
    if_cases (λ (t : Server). IsValid (t.running, n, ids t.sessions)) s.running _ _
      (λ e r. elim (h e) [ inl z ↦ inl z | inr k ↦ inr (among-insert n s.next_id s.sessions k) ])
      (λ e. h)

removed-IsValid :
    (s : Server) (id n : ℕ)
    → n ≢ id
    → IsValid (s.running, n, ids s.sessions)
    → IsValid ((remove_session id s).running, n, ids (remove_session id s).sessions)
unfolding remove_session IsValid
removed-IsValid s id n d h r = elim (h r) [
  | inl e ↦ inl e
  | inr e ↦ inr (among-erase n id s.sessions d ∙ e)
]

stopped-IsValid :
    (s : Server) (n : ℕ)
    → IsValid (s.running, n, ids s.sessions)
    → IsValid ((stop s).running, n, ids (stop s).sessions)
unfolding stop IsValid
stopped-IsValid s n h =
    if_cases (λ (t : Server). IsValid (t.running, n, ids t.sessions)) s.running _ _
      (λ e r. absurd (let no : ⊥ = cc in no)) (λ e. h)

module _ (files : FilesLib) where
  -- The session view of a step, by the one before.
  Keeps : App files → App files → Type 0
  Keeps a a' = IsValid (session_view files a) → IsValid (session_view files a')

  Keeps-same : (a a' : App files) → session_view files a' ≡ session_view files a → Keeps a a'
  unfolding Keeps
  Keeps-same a a' e h = subst IsValid (sym e) h

  module _ (lib : JsonLib) (crypto : CryptoLib) (sha : HashLib) where
    disconnected-Keeps :
        (id : ℕ) (o : Option Manager) (a : App files)
        → a.manager ≡ o
        → Keeps a (
            device_disconnected files lib crypto id o
              (record a { server = remove_session id a.server }))
    unfolding device_disconnected IsValid Keeps
    disconnected-Keeps id none a e h = λ r. inl (ap current_of e)
    disconnected-Keeps id (some m) a e h =
        if_cases (λ (b : App files). IsValid (session_view files b)) (nat_beq m.current_session id)
          _ _ (λ k r. inl refl)
          (λ k.
            removed-IsValid a.server id (current_of a.manager)
              (λ z.
                let same : m.current_session ≡ id = sym (ap current_of e) ∙ z in
                let no : ⊥ = ground (arith, same, k) in no)
              h)

    run_task-session :
        (task : Task) (a : App files)
        → session_view files (run_task files lib task a) ≡ session_view files a
    unfolding run_task flipped
    run_task-session (pairing_complete name) a = refl
    run_task-session (usb_attached serial) a = refl
    run_task-session (usb_detached serial) a = refl
    run_task-session (camera_status active) a = refl
    run_task-session (stream_mode screen) a = refl
    run_task-session (flips flip) a = refl
    run_task-session (transfer_finished name ok error) a = refl

    next_task-session :
        (tasks : List Task) (a : App files)
        → session_view files (next_task files lib tasks a) ≡ session_view files a
    unfolding next_task
    next_task-session [] a = refl
    next_task-session (task ∷ tasks) a = run_task-session task (record a { tasks = tasks })

    next_broadcast-session :
        (posted : List Bytes) (a : App files)
        → session_view files (next_broadcast files lib posted a) ≡ session_view files a
    unfolding next_broadcast broadcast
    next_broadcast-session [] a = refl
    next_broadcast-session (message ∷ posted) a =
        ap (λ (l : List ℕ). (a.server.running, current_of a.manager, l))
          (ids-sent_to_all message a.server.sessions)

    toggle-session :
        (o : Option Tray) (a : App files)
        → session_view files (toggle files lib o a) ≡ session_view files a
    unfolding toggle flipped
    toggle-session none a = refl
    toggle-session (some t) a = refl

    ask_pairing-session :
        (ip : Bytes) (n : ℕ) (o : Option Pairing) (a : App files)
        → session_view files (ask_pairing files lib crypto sha ip n o a) ≡ session_view files a
    unfolding ask_pairing
    ask_pairing-session ip n none a = refl
    ask_pairing-session ip n (some p) a = refl

    received-Keeps :
        (id : ℕ) (a : App files) (o : Option (App files))
        → is_there (lookup id a.server.sessions) ≡ true
        → Ensures (Heard files id a) o
        → Ensures (Keeps a) o
    unfolding Keeps
    received-Keeps id a none t h = tt
    received-Keeps id a (some a') t h = elim h.session [
      | inl e ↦ Keeps-same a a' e
      | inr e ↦ λ v. subst IsValid (sym e) (heard-IsValid a.server.running id a.server.sessions t)
    ]

    accepted-Keeps : (a : App files) → Keeps a (record a { server = accepted a.server })
    unfolding Keeps
    accepted-Keeps a = accepted-IsValid a.server (current_of a.manager)

    stopped-Keeps : (a : App files) → Keeps a (about_to_quit files lib a)
    unfolding Keeps about_to_quit
    stopped-Keeps a h =
        let b = stop_transfers files lib a.manager a in
        stopped-IsValid b.server (current_of b.manager) (
          subst IsValid (sym (stop_transfers-Quiet files lib crypto sha a.manager a refl).session)
            h)

    init_manager-Keeps : (a : App files) → Keeps a (init_manager files a)
    unfolding Keeps init_manager IsValid
    init_manager-Keeps a h r = inl refl

    step-Keeps : (a : App files) (e : Event) → Ensures (Keeps a) (step files lib crypto sha a e)
    unfolding step disconnected init_pairing init_stream init_manager init_tray
    step-Keeps a connects = accepted-Keeps a
    step-Keeps a (receives g id raw) =
        if_cases (Ensures (Keeps a)) (is_there (lookup id a.server.sessions)) _ _
          (λ t. received-Keeps id a _ t (received-Heard files lib crypto g id raw a))
          (λ t. Keeps-same a a refl)
    step-Keeps a (disconnects id) = disconnected-Keeps id a.manager a refl
    step-Keeps a (writes id good) = Keeps-same a _ (
        ap (λ (l : List ℕ). (a.server.running, current_of a.manager, l))
          (ids-changed id (λ w. ended good w.in_flight w) a.server.sessions))
    step-Keeps a broadcasts = Keeps-same a _ (next_broadcast-session a.posted a)
    step-Keeps a (finishes id ok error) =
        Keeps-same a _ (finish-Quiet files lib crypto sha id ok error a.manager a refl).session
    step-Keeps a (inits_pairing key secret fresh) = Keeps-same a _ refl
    step-Keeps a (inits_stream ok) = Keeps-same a _ refl
    step-Keeps a inits_manager = init_manager-Keeps a
    step-Keeps a inits_tray = Keeps-same a _ refl
    step-Keeps a runs_task =
        if_cases (Keeps a) (is_there a.tray) _ _ (λ e. Keeps-same a _ (next_task-session a.tasks a))
          (λ e. Keeps-same a a refl)
    step-Keeps a toggles_flip = Keeps-same a _ (toggle-session a.tray a)
    step-Keeps a (asks_pairing ip n) = Keeps-same a _ (ask_pairing-session ip n a.pairing a)
    step-Keeps a closes_pairing = Keeps-same a _ refl
    step-Keeps a (drops_files base paths) =
        Keeps-same a _ (drop_files-Quiet files lib crypto sha base paths a.manager a refl).session
    step-Keeps a (attaches serial) = Keeps-same a _ refl
    step-Keeps a (detaches serial) = Keeps-same a _ refl
    step-Keeps a (streams active) = Keeps-same a _ refl
    step-Keeps a quits = stopped-Keeps a

    run-keeps :
        (es : List Event) (a : App files)
        → IsValid (session_view files a)
        → Ensures
            (λ (b : App files). IsValid (session_view files b))
            (run files lib crypto sha a es)
    unfolding run Keeps
    run-keeps [] a h = h
    run-keeps (e ∷ es) a h =
        Ensures-bind (Keeps a) (λ (b : App files). IsValid (session_view files b))
          (step files lib crypto sha a e) _ (step-Keeps a e) (λ b k. run-keeps es b (k h))

    -- From the start of the program on, whatever connects, is received, ends or is dropped on the
    -- icon, as long as the server runs and no exception has ended the program, the manager of
    -- transfers has no current session or one that is in the server's table.
    pub run-IsValid :
        (settings : Settings) (disk : files.Disk) (es : List Event)
        → Ensures
            (λ (a : App files). IsValid (session_view files a))
            (run files lib crypto sha (new_app files settings disk) es)
    unfolding new_app IsValid
    run-IsValid settings disk es = run-keeps es (new_app files settings disk) (λ r. inl refl)
