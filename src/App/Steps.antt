-- ===== src/App/Steps.antt =====
-- What happens to the program of src/app/Application.cpp: messages and ends of sessions on the
-- server's thread, and what the thread of Qt does. It takes what is queued one by one, once `init`
-- is through.
use iriseus.Prelude.{
  ◌>>=◌, ℕ, Bytes, Bool, true, false, Option, none, some, List, [], ◌∷◌, ◌++◌, codes, is_empty,
  if◌then◌else◌, nat_eq, not,
}
use iriseus.Prelude.Assoc.{lookup}
use iriseus.Json.{JsonLib}
use iriseus.Transfer.Files.{FilesLib, HashLib}
use iriseus.Pairing.{CryptoLib, Pairing, create_offer, format_pin}
use iriseus.Manager.{Manager}
use iriseus.Transfer.Sessions.{stop as stop_sessions}
use iriseus.Manager.Handlers.{on_finished, send_files}
use iriseus.Ws.Writer.{ended}
use iriseus.Ws.Server.{accepted, broadcast, changed, stop}
use iriseus.Stream.Flip.{set_flip_horizontal as set_stream_flip}
use iriseus.Tray.{
  Tray, show_notification, update_camera_status, update_stream_mode,
  set_flip_horizontal as set_tray_flip,
}
use iriseus.App.{
  App, Dialog, Task, pairing_complete, usb_attached, usb_detached, camera_status, stream_mode,
  flips, transfer_finished, queue, init_pairing, init_stream, init_manager, init_tray,
}
use iriseus.App.Calls.{Given, managed, received, disconnected}

-- What can happen. `receives` is a message of a session, `writes` the end of a write, `broadcasts`
-- the turn of the next broadcast that was posted; `finishes` comes from the server of files.
pub data Event : Type 0 where
  connects : Event
  receives : Given → ℕ → Bytes → Event
  disconnects : ℕ → Event
  writes : ℕ → Bool → Event
  broadcasts : Event
  finishes : Bytes → Bool → Bytes → Event
  inits_pairing : Bytes → Bytes → Pairing → Event
  inits_stream : Bool → Event
  inits_manager inits_tray : Event
  runs_task : Event
  toggles_flip : Event
  asks_pairing : Bytes → ℕ → Event
  closes_pairing : Event
  drops_files : (Bytes → Bytes) → List (Bytes × Bytes × Bytes × Option Bytes) → Event
  attaches detaches : Bytes → Event
  streams : Bool → Event
  quits : Event

-- The window when it opens, and when a device has paired.
unfoldable pub new_dialog : Bytes → Dialog
unfolding format_pin
new_dialog pin = record {
  pin_label = format_pin pin;
  pin_enabled = true;
  status_label = codes "Aguardando conexão do celular...";
  cancel_label = codes "Cancelar";
}

unfoldable pub on_pairing_complete : Bytes → Dialog → Dialog
on_pairing_complete name d = record d {
  status_label = codes "✓ Pareado com " ++ name;
  cancel_label = codes "Fechar";
  pin_enabled = false;
}

abbrev pub over {ℓ} : {A : Type ℓ} → (A → A) → Option A → Option A
over f none = none
over f (some x) = some (f x)

abbrev pub is_there {ℓ} : {A : Type ℓ} → Option A → Bool
is_there none = false
is_there (some x) = true

module _ (files : FilesLib) (lib : JsonLib) where
  open lib use {object, string, boolean, dump}

  unfoldable pub flip_status : Bool → Bytes
  flip_status flip =
      dump
        (object ((codes "type", string (codes "flip_status")) ∷ (codes "flip", boolean flip) ∷ []))

  -- The flag of the stream, the settings, and the message for all sessions.
  unfoldable pub flipped : Bool → App files → App files
  unfolding set_stream_flip flip_status
  flipped flip a = record a {
    stream = over (set_stream_flip flip) a.stream;
    settings = record a.settings { flip_horizontal = flip };
    posted = a.posted ++ flip_status flip ∷ [];
  }

  -- The icon is there whenever the thread of Qt runs a task.
  abbrev pub on_tray : (Tray → Tray) → App files → App files
  on_tray f a = record a { tray = over f a.tray }

  unfoldable pub run_task : Task → App files → App files
  unfolding on_pairing_complete show_notification update_camera_status update_stream_mode
      set_tray_flip flipped
  run_task (pairing_complete name) a = record a {
    dialog = over (on_pairing_complete name) a.dialog;
  }
  run_task (usb_attached serial) a =
      on_tray (show_notification (codes "Iriseus") (codes "Celular conectado via USB: " ++ serial))
        a
  run_task (usb_detached serial) a = a
  run_task (camera_status active) a = on_tray (update_camera_status active) a
  run_task (stream_mode screen) a = on_tray (update_stream_mode screen) a
  run_task (flips flip) a = on_tray (set_tray_flip flip) (flipped flip a)
  run_task (transfer_finished name ok error) a =
      on_tray
        (show_notification (codes "Iriseus") (
          if ok
          then codes "Arquivo recebido com sucesso: " ++ name
          else codes "Falha ao receber " ++ (name ++ (codes ": " ++ error))))
        a

  unfoldable pub next_task : List Task → App files → App files
  unfolding run_task
  next_task [] a = a
  next_task (task ∷ tasks) a = run_task task (record a { tasks = tasks })

  unfoldable pub next_broadcast : List Bytes → App files → App files
  unfolding broadcast
  next_broadcast [] a = a
  next_broadcast (message ∷ posted) a = record a {
    server = broadcast message a.server;
    posted = posted;
  }

  -- A click on the entry of the menu, which changes its mark and then tells the program.
  unfoldable pub toggle : Option Tray → App files → App files
  unfolding flipped
  toggle none a = a
  toggle (some t) a =
      flipped (not t.flip_checked)
        (record a { tray = some (record t { flip_checked = not t.flip_checked }) })

  -- `stop` of the manager of transfers, whose server has started.
  unfoldable pub stop_transfers : Option Manager → App files → App files
  unfolding stop_sessions
  stop_transfers none a = a
  stop_transfers (some m) a =
      let (sessions, disk) = stop_sessions files m.sessions a.disk in
      record a { manager = some (record m { sessions = sessions }); disk = disk }

  -- The stream and the monitor of USB stop too, which is no part of this state.
  unfoldable pub about_to_quit : App files → App files
  unfolding stop_transfers stop
  about_to_quit a = let b = stop_transfers a.manager a in record b { server = stop b.server }

  module _ (crypto : CryptoLib) (sha : HashLib) where
    unfoldable pub ask_pairing : Bytes → ℕ → Option Pairing → App files → App files
    unfolding create_offer new_dialog
    ask_pairing ip n none a = a
    ask_pairing ip n (some p) a =
        let p' = create_offer crypto ip n p in
        record a { pairing = some p'; dialog = some (new_dialog p'.current_offer.pin) }

    unfoldable pub finish : Bytes → Bool → Bytes → Option Manager → App files → App files
    unfolding on_finished
    finish id ok error none a = a
    finish id ok error (some m) a = managed files lib crypto a (on_finished lib id ok error m)

    unfoldable pub drop_files :
        (Bytes → Bytes)
        → List (Bytes × Bytes × Bytes × Option Bytes)
        → Option Manager
        → App files
        → App files
    unfolding send_files
    drop_files base paths none a = a
    drop_files base paths (some m) a =
        if is_empty paths
        then a
        else managed files lib crypto a (send_files lib crypto sha base 0 paths m)

    -- Only a session of the table reads.
    unfoldable pub step : App files → Event → Option (App files)
    unfolding accepted received disconnected ended next_broadcast finish init_pairing init_stream
        init_manager init_tray next_task toggle ask_pairing drop_files about_to_quit lookup changed
    step a connects = some (record a { server = accepted a.server })
    step a (receives g id raw) =
        if is_there (lookup id a.server.sessions)
        then received files lib crypto g id raw a
        else some a
    step a (disconnects id) = some (disconnected files lib crypto id a)
    step a (writes id good) = some (record a {
      server = record a.server {
        sessions = changed id (λ w. ended good w.in_flight w) a.server.sessions;
      };
    })
    step a broadcasts = some (next_broadcast a.posted a)
    step a (finishes id ok error) = some (finish id ok error a.manager a)
    step a (inits_pairing key secret fresh) = some (init_pairing files key secret fresh a)
    step a (inits_stream ok) = some (init_stream files a.settings.flip_horizontal ok a)
    step a inits_manager = some (init_manager files a)
    step a inits_tray = some (init_tray files a.settings.flip_horizontal a)
    step a runs_task = some (if is_there a.tray then next_task a.tasks a else a)
    step a toggles_flip = some (toggle a.tray a)
    step a (asks_pairing ip n) = some (ask_pairing ip n a.pairing a)
    step a closes_pairing = some (record a { dialog = none })
    step a (drops_files base paths) = some (drop_files base paths a.manager a)
    step a (attaches serial) = some (queue files (usb_attached serial) a)
    step a (detaches serial) = some (queue files (usb_detached serial) a)
    step a (streams active) = some (queue files (camera_status active) a)
    step a quits = some (about_to_quit a)

    unfoldable pub run : App files → List Event → Option (App files)
    unfolding step
    run a [] = some a
    run a (e ∷ es) = do a' ← step a e; run a' es
