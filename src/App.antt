-- ===== src/App.antt =====
-- src/app/Application.cpp: the parts of the program put together. Callbacks of the server run on its
-- thread; what changes windows, the tray icon and the settings is queued for the thread of Qt.
pub mod Calls
pub mod Steps
pub mod Views
pub mod Quiet
pub mod Heard
pub mod Files
pub mod Agreement
pub mod Current
pub mod Paired
pub mod Shown
use iriseus.Prelude.{
  ◌>>=◌, ℕ, Bytes, Bool, true, false, Option, none, some, List, [], ◌∷◌, ◌++◌, codes, is_empty, not,
  if◌then◌else◌, nat_eq,
}
use iriseus.Json.{JsonLib}
use iriseus.Pairing.{Pairing, Device, restore_device}
use iriseus.Ws.Server.{Server, started, send_to}
use iriseus.Stream.Flip.{
  Flip, new_flip, start_flip, flip_horizontal, set_flip_horizontal as set_stream_flip,
}
use iriseus.Tray.{Tray, new_tray, show, set_flip_horizontal as set_tray_flip}
use iriseus.Transfer.Files.{FilesLib}
use iriseus.Pairing.{CryptoLib}
use iriseus.Manager.{Manager, Output, makes_folder, sends, finished}

-- The values of the registry that the program uses; a missing text is empty.
pub record Settings : Type 0 where
  pub paired_device_id : Bytes
  pub paired_device_name : Bytes
  pub flip_horizontal : Bool

-- What the window of the pairing shows.
pub record Dialog : Type 0 where
  pub pin_label : Bytes
  pub pin_enabled : Bool
  pub status_label : Bytes
  pub cancel_label : Bytes

-- What waits for the thread of Qt.
pub data Task : Type 0 where
  pairing_complete : Bytes → Task
  usb_attached usb_detached : Bytes → Task
  camera_status stream_mode flips : Bool → Task
  transfer_finished : Bytes → Bool → Bytes → Task

abbrev pub new_manager : Manager
new_manager = record { offers = []; sessions = []; current_session = 0 }

-- `none` is a part that `init` has not made yet. `posted` are the broadcasts that wait for the
-- server's thread; `folders` are those that were made.
pub record App (files : FilesLib) : Type 0 where
  pub server : Server
  pub pairing : Option Pairing
  pub stream : Option Flip
  pub manager : Option Manager
  pub tray : Option Tray
  pub dialog : Option Dialog
  pub settings : Settings
  pub tasks : List Task
  pub posted : List Bytes
  pub folders : List Bytes
  pub disk : files.Disk

module _ (files : FilesLib) where
  -- `init` up to the start of the server.
  unfoldable pub new_app : Settings → files.Disk → App files
  new_app settings disk = record {
    server = started;
    pairing = none;
    stream = none;
    manager = none;
    tray = none;
    dialog = none;
    settings = settings;
    tasks = [];
    posted = [];
    folders = [];
    disk = disk;
  }

  -- The manager of pairings, and the device of the settings.
  unfoldable pub init_pairing : Bytes → Bytes → Pairing → App files → App files
  unfolding restore_device
  init_pairing unset_key unset_secret fresh a = record a {
    pairing = some (
        if not (is_empty a.settings.paired_device_id)
        then restore_device unset_key unset_secret a.settings.paired_device_id
            a.settings.paired_device_name fresh
        else fresh);
  }

  -- `flip` is what the settings had when the program started, `ok` whether the decoder could start.
  unfoldable pub init_stream : Bool → Bool → App files → App files
  unfolding set_stream_flip start_flip
  init_stream flip ok a = record a { stream = some (start_flip ok (set_stream_flip flip new_flip)) }

  unfoldable pub init_manager : App files → App files
  init_manager a = record a { manager = some new_manager }

  unfoldable pub init_tray : Bool → App files → App files
  unfolding set_tray_flip
  init_tray flip a = record a { tray = some (show (set_tray_flip flip new_tray)) }

  -- `QMetaObject::invokeMethod` with `Qt::QueuedConnection`.
  abbrev pub queue : Task → App files → App files
  queue task a = record a { tasks = a.tasks ++ task ∷ [] }

  -- What the manager of transfers does: messages, folders, and a signal that crosses threads.
  unfoldable pub emits : List Output → App files → App files
  unfolding send_to
  emits [] a = a
  emits (sends id message ∷ out) a = emits out (record a { server = send_to id message a.server })
  emits (makes_folder folder ∷ out) a = emits out (record a { folders = a.folders ++ folder ∷ [] })
  emits (finished id name ok error ∷ out) a = emits out (queue (transfer_finished name ok error) a)
