-- ===== src/App/Agreement.antt =====
-- The settings, the stream and the menu agree on whether the picture is mirrored.
use iriseus.Prelude.{
  ℕ, ◌≡◌, refl, sym, ap, subst, ◌⊎◌, inl, inr, Bytes, Bool, true, false, not, Option, none, some,
  List, [], ◌∷◌, ◌++◌, nat_eq, nat_beq, if_cases,
}
use iriseus.Prelude.Assoc.{lookup}
use iriseus.Json.{JsonLib}
use iriseus.Transfer.Files.{FilesLib, HashLib}
use iriseus.Pairing.{CryptoLib, Pairing}
use iriseus.Manager.{Manager}
use iriseus.Stream.Flip.{Flip, start_flip, flip_horizontal, set_flip_horizontal as set_stream_flip}
use iriseus.Tray.{
  Tray, show_message, show_notification, update_camera_status, update_stream_mode,
  set_flip_horizontal as set_tray_flip,
}
use iriseus.App.{
  App, Settings, Task, pairing_complete, usb_attached, usb_detached, camera_status, stream_mode,
  flips, transfer_finished, new_app, init_pairing, init_stream, init_manager, init_tray,
}
use iriseus.App.Calls.{device_disconnected, disconnected}
use iriseus.App.Steps.{
  Event, connects, receives, disconnects, writes, broadcasts, finishes, inits_pairing, inits_stream,
  inits_manager, inits_tray, runs_task, toggles_flip, asks_pairing, closes_pairing, drops_files,
  attaches, detaches, streams, quits, over, is_there, flip_status, flipped, run_task, next_task,
  next_broadcast, toggle, about_to_quit, ask_pairing, step, run,
}
use iriseus.App.Views.{Ensures, Ensures-bind, checked_of, FlipView, flip_view}
use iriseus.App.Heard.{Heard, received-Heard}
use iriseus.App.Files.{finish-Quiet, drop_files-Quiet, stop_transfers-Quiet}

-- The decoder can start, if it does.
abbrev pub Fine : Event → Type 0
Fine (inits_stream ok) = ok ≡ true
Fine e = Unit

abbrev pub Decodes : List Event → Type 0
Decodes [] = Unit
Decodes (e ∷ es) = Fine e × Decodes es

flip-by :
    (b : Bool) (own : Bool) (decoder : Option Bool)
    → flip_horizontal (set_stream_flip b (record { own = own; decoder = decoder })) ≡ b
unfolding flip_horizontal set_stream_flip
flip-by b own none = refl
flip-by b own (some old) = refl

stream-by :
    (b : Bool) (o : Option Flip) → Ensures (λ f. flip_horizontal f ≡ b) (over (set_stream_flip b) o)
stream-by b none = tt
stream-by b (some f) = flip-by b f.own f.decoder

checked-by :
    (b : Bool) (o : Option Tray) → Ensures (λ c. c ≡ b) (checked_of (over (set_tray_flip b) o))
unfolding set_tray_flip
checked-by b none = tt
checked-by b (some t) = refl

checked-over :
    (f : Tray → Tray) (o : Option Tray)
    → ((t : Tray) → (f t).flip_checked ≡ t.flip_checked)
    → checked_of (over f o) ≡ checked_of o
checked-over f none h = refl
checked-over f (some t) h = ap some (h t)

module _ (files : FilesLib) (lib : JsonLib) where
  -- Every part that is there is as the settings say.
  pub Agreed : FlipView files → Type 0
  Agreed (flip, stream, checked) =
      Ensures (λ f. flip_horizontal f ≡ flip) stream × Ensures (λ c. c ≡ flip) checked

  -- A step that changes the setting posts it for all sessions.
  pub Told : App files → App files → Type 0
  Told a a' =
      (a'.settings.flip_horizontal ≡ a.settings.flip_horizontal)
      ⊎ (a'.posted ≡ a.posted ++ flip_status files lib a'.settings.flip_horizontal ∷ [])

  record Turned (F : Type 0) (a a' : App files) : Type 0 where
    agreed : F → Agreed (flip_view files a) → Agreed (flip_view files a')
    told : Told a a'

  Turned-same :
      {F : Type 0} (a a' : App files) → flip_view files a' ≡ flip_view files a → Turned F a a'
  unfolding Told
  Turned-same a a' e = record {
    agreed = λ f. subst Agreed (sym e);
    told = inl (ap (λ (v : FlipView files). v.0) e);
  }

  -- The setting, the stream and the menu are changed together.
  flips-Turned :
      {F : Type 0} (b : Bool) (a : App files) (o : Option Tray)
      → Ensures (λ c. c ≡ b) (checked_of o)
      → Turned F a (record (flipped files lib b a) { tray = o })
  unfolding Agreed Told flipped
  flips-Turned b a o e = record { agreed = λ f h. (stream-by b a.stream, e); told = inr refl }

  tray-Turned :
      {F : Type 0} (f : Tray → Tray) (a : App files)
      → ((t : Tray) → (f t).flip_checked ≡ t.flip_checked)
      → Turned F a (record a { tray = over f a.tray })
  tray-Turned f a h = Turned-same a _ (
      ap (λ (c : Option Bool). (a.settings.flip_horizontal, a.stream, c)) (checked-over f a.tray h))

  run_task-Turned :
      {F : Type 0} (task : Task) (a : App files) → Turned F a (run_task files lib task a)
  unfolding run_task show_notification update_camera_status update_stream_mode show_message
  run_task-Turned (pairing_complete name) a = Turned-same a _ refl
  run_task-Turned (usb_attached serial) a = tray-Turned _ a (λ t. refl)
  run_task-Turned (usb_detached serial) a = Turned-same a _ refl
  run_task-Turned (camera_status active) a = tray-Turned _ a (λ t. refl)
  run_task-Turned (stream_mode true) a = tray-Turned _ a (λ t. refl)
  run_task-Turned (stream_mode false) a = tray-Turned _ a (λ t. refl)
  run_task-Turned (flips flip) a =
      flips-Turned flip a (over (set_tray_flip flip) a.tray) (checked-by flip a.tray)
  run_task-Turned (transfer_finished name ok error) a = tray-Turned _ a (λ t. refl)

  next_task-Turned :
      {F : Type 0} (tasks : List Task) (a : App files) → Turned F a (next_task files lib tasks a)
  unfolding next_task Agreed Told
  next_task-Turned [] a = Turned-same a a refl
  next_task-Turned (task ∷ tasks) a =
      let r = run_task-Turned task (record a { tasks = tasks }) in
      record { agreed = r.agreed; told = r.told }

  toggle-Turned : {F : Type 0} (o : Option Tray) (a : App files) → Turned F a (toggle files lib o a)
  unfolding toggle
  toggle-Turned none a = Turned-same a a refl
  toggle-Turned (some t) a = flips-Turned (not t.flip_checked) a _ refl

  next_broadcast-Turned :
      {F : Type 0} (posted : List Bytes) (a : App files)
      → Turned F a (next_broadcast files lib posted a)
  unfolding next_broadcast
  next_broadcast-Turned [] a = Turned-same a a refl
  next_broadcast-Turned (message ∷ posted) a = Turned-same a _ refl

  init_tray-Turned :
      {F : Type 0} (a : App files) → Turned F a (init_tray files a.settings.flip_horizontal a)
  unfolding init_tray set_tray_flip Agreed Told
  init_tray-Turned a = record { agreed = λ f (s, t). (s, refl); told = inl refl }

  init_stream-Turned :
      (ok : Bool) (a : App files)
      → Turned (ok ≡ true) a (init_stream files a.settings.flip_horizontal ok a)
  unfolding init_stream set_stream_flip start_flip flip_horizontal Agreed Told
  init_stream-Turned true a = record { agreed = λ f (s, t). (refl, t); told = inl refl }
  init_stream-Turned false a = record {
    agreed = λ f. absurd (let wrong : ⊥ = cc in wrong);
    told = inl refl;
  }

  module _ (crypto : CryptoLib) (sha : HashLib) where
    disconnected-flip :
        (id : ℕ) (o : Option Manager) (a : App files)
        → flip_view files (device_disconnected files lib crypto id o a) ≡ flip_view files a
    unfolding device_disconnected
    disconnected-flip id none a = refl
    disconnected-flip id (some m) a =
        if_cases (λ (b : App files). flip_view files b ≡ flip_view files a)
          (nat_beq m.current_session id) _ _ (λ e. refl) (λ e. refl)

    ask_pairing-Turned :
        {F : Type 0} (ip : Bytes) (n : ℕ) (o : Option Pairing) (a : App files)
        → Turned F a (ask_pairing files lib crypto sha ip n o a)
    unfolding ask_pairing
    ask_pairing-Turned ip n none a = Turned-same a a refl
    ask_pairing-Turned ip n (some p) a = Turned-same a _ refl

    Heard-Turned :
        (id : ℕ) (a : App files) (o : Option (App files))
        → Ensures (Heard files id a) o
        → Ensures (Turned Unit a) o
    Heard-Turned id a none h = tt
    Heard-Turned id a (some a') h = Turned-same a a' h.flip

    step-Turned :
        (a : App files) (e : Event) → Ensures (Turned (Fine e) a) (step files lib crypto sha a e)
    unfolding step disconnected init_pairing init_manager about_to_quit
    step-Turned a connects = Turned-same a _ refl
    step-Turned a (receives g id raw) =
        if_cases (Ensures (Turned Unit a)) (is_there (lookup id a.server.sessions)) _ _
          (λ e. Heard-Turned id a _ (received-Heard files lib crypto g id raw a))
          (λ e. Turned-same a a refl)
    step-Turned a (disconnects id) = Turned-same a _ (disconnected-flip id a.manager _)
    step-Turned a (writes id good) = Turned-same a _ refl
    step-Turned a broadcasts = next_broadcast-Turned a.posted a
    step-Turned a (finishes id ok error) =
        Turned-same a _ (finish-Quiet files lib crypto sha id ok error a.manager a refl).flip
    step-Turned a (inits_pairing key secret fresh) = Turned-same a _ refl
    step-Turned a (inits_stream ok) = init_stream-Turned ok a
    step-Turned a inits_manager = Turned-same a _ refl
    step-Turned a inits_tray = init_tray-Turned a
    step-Turned a runs_task =
        if_cases (Turned Unit a) (is_there a.tray) _ _ (λ e. next_task-Turned a.tasks a)
          (λ e. Turned-same a a refl)
    step-Turned a toggles_flip = toggle-Turned a.tray a
    step-Turned a (asks_pairing ip n) = ask_pairing-Turned ip n a.pairing a
    step-Turned a closes_pairing = Turned-same a _ refl
    step-Turned a (drops_files base paths) =
        Turned-same a _ (drop_files-Quiet files lib crypto sha base paths a.manager a refl).flip
    step-Turned a (attaches serial) = Turned-same a _ refl
    step-Turned a (detaches serial) = Turned-same a _ refl
    step-Turned a (streams active) = Turned-same a _ refl
    step-Turned a quits =
        Turned-same a _ (stop_transfers-Quiet files lib crypto sha a.manager a refl).flip

    weaken :
        (F : Type 0) (a : App files) (o : Option (App files))
        → Ensures (Turned F a) o
        → Ensures (Told a) o
    weaken F a none h = tt
    weaken F a (some a') h = h.told

    run-keeps :
        (es : List Event) (a : App files)
        → Decodes es
        → Agreed (flip_view files a)
        → Ensures (λ (b : App files). Agreed (flip_view files b)) (run files lib crypto sha a es)
    unfolding run
    run-keeps [] a d h = h
    run-keeps (e ∷ es) a (now, later) h =
        Ensures-bind (Turned (Fine e) a) (λ (b : App files). Agreed (flip_view files b))
          (step files lib crypto sha a e) _ (step-Turned a e)
          (λ b t. run-keeps es b later (t.agreed now h))

    -- From the start of the program on, whatever happens, unless an exception has ended the
    -- program, the stream and the mark in the menu are as the setting of the mirrored picture says,
    -- each once it is there, if the decoder can start whenever the stream is made.
    pub run-Agreed :
        (settings : Settings) (disk : files.Disk) (es : List Event)
        → Decodes es
        → Ensures
            (λ (a : App files). Agreed (flip_view files a))
            (run files lib crypto sha (new_app files settings disk) es)
    unfolding new_app Agreed
    run-Agreed settings disk es d = run-keeps es (new_app files settings disk) d (tt, tt)

    -- A step that changes the setting of the mirrored picture posts one more broadcast than were
    -- waiting, the message `flip_status` with the new setting; this holds of all steps, clicks in
    -- the menu and messages of phones among them.
    pub step-Told : (a : App files) (e : Event) → Ensures (Told a) (step files lib crypto sha a e)
    step-Told a e = weaken (Fine e) a (step files lib crypto sha a e) (step-Turned a e)
