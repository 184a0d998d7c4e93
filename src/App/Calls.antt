-- ===== src/App/Calls.antt =====
-- `setupServerCallbacks` of src/app/Application.cpp. `none`: an exception that nobody catches, or a
-- null pointer, ends the program.
use iriseus.Prelude.{
  ◌>>=◌, ℕ, Bytes, Bool, true, false, Option, none, some, List, [], ◌∷◌, codes, if◌then◌else◌,
  nat_eq, nat_beq,
}
use iriseus.Json.{JsonLib}
use iriseus.Transfer.Files.{FilesLib}
use iriseus.Pairing.{CryptoLib, Pairing, Answer, accepted, rejected, threw, handle_pair_request}
use iriseus.Manager.{Manager, Output}
use iriseus.Manager.Handlers.{
  handle_file_offer, handle_file_accept, handle_file_complete, handle_file_cancel,
}
use iriseus.Ws.Server.{remove_session, send_to}
use iriseus.Ws.Dispatch.{
  Callback, on_hello, on_start_camera, on_stop_camera, on_start_screen, on_stop_screen, on_set_flip,
  on_pair_request, on_file_offer, on_file_accept, on_file_reject, on_file_complete, on_file_cancel,
  Action, calls, sends, Getters, handle_message, field_string,
}
use iriseus.Stream.Flip.{Flip, flip_horizontal}
use iriseus.App.{App, pairing_complete, stream_mode, flips, queue, emits}

-- What a handler takes from outside: the name of a path, the folder for downloads, random bytes.
pub record Given : Type 0 where
  pub base : Bytes → Bytes
  pub folder : Bytes
  pub token : Bytes

module _ (files : FilesLib) (lib : JsonLib) (crypto : CryptoLib) where
  open lib use {Json, object, string, dump}

  -- The manager changes, and what it emits is done.
  abbrev pub managed : App files → Manager × List Output → App files
  managed a (m, out) = emits files out (record a { manager = some m })

  -- `onDeviceConnected`.
  unfoldable pub device_connected : ℕ → Option Manager → App files → App files
  device_connected id none a = a
  device_connected id (some m) a = record a { manager = some (record m { current_session = id }) }

  -- `onDeviceDisconnected`, behind the removal from the server's table.
  unfoldable pub device_disconnected : ℕ → Option Manager → App files → App files
  device_disconnected id none a = a
  device_disconnected id (some m) a =
      if nat_beq m.current_session id
      then record a { manager = some (record m { current_session = 0 }) }
      else a

  unfoldable pub pair_reply : Bool → Bytes
  pair_reply ok = dump (
      object
        ((codes "type", string (if ok then codes "pair_accepted" else codes "pair_rejected")) ∷ []))

  -- `setOnPaired`: the device is remembered, and the window is told.
  unfoldable pub on_paired : Bytes → Bytes → App files → App files
  on_paired device_id device_name a = queue files (pairing_complete device_name) (record a {
    settings = record a.settings { paired_device_id = device_id; paired_device_name = device_name };
  })

  -- How a pair request ends.
  unfoldable pub paired : ℕ → Bytes → Bytes → Answer × Pairing → App files → Option (App files)
  unfolding on_paired pair_reply send_to
  paired id device_id device_name (accepted, p) a = some (
      let a' = on_paired device_id device_name (record a { pairing = some p }) in
      record a' { server = send_to id (pair_reply true) a'.server })
  paired id device_id device_name (rejected, p) a =
      some (record a { pairing = some p; server = send_to id (pair_reply false) a.server })
  paired id device_id device_name (threw, p) a = none

  unfoldable pub pair_request : ℕ → Option Json → Option Pairing → App files → Option (App files)
  unfolding paired handle_pair_request
  pair_request id payload manager a = do
    pin ← field_string lib payload (codes "pin") []
    peer ← field_string lib payload (codes "pk") []
    device_id ← field_string lib payload (codes "deviceId") []
    device_name ← field_string lib payload (codes "deviceName") []
    pairing ← manager
    paired id device_id device_name
        (handle_pair_request crypto pin peer device_id device_name pairing) a

  unfoldable pub file_offer : Given → ℕ → Option Json → Option Manager → App files → App files
  unfolding handle_file_offer
  file_offer g id payload none a = a
  file_offer g id payload (some m) a =
      managed a (handle_file_offer lib crypto g.base g.folder g.token id payload m)

  unfoldable pub file_accept :
      Given → ℕ → Option Json → Option Manager → App files → Option (App files)
  unfolding handle_file_accept
  file_accept g id payload none a = some a
  file_accept g id payload (some m) a = do
    r ← handle_file_accept lib crypto g.token id payload m
    some (managed a r)

  unfoldable pub file_complete : Option Json → Option Manager → App files → Option (App files)
  unfolding handle_file_complete
  file_complete payload none a = some a
  file_complete payload (some m) a = do r ← handle_file_complete lib payload m; some (managed a r)

  -- `onFileReject` and `onFileCancel`.
  unfoldable pub file_cancel : Option Json → Option Manager → App files → Option (App files)
  unfolding handle_file_cancel
  file_cancel payload none a = some a
  file_cancel payload (some m) a = do
    (m', disk) ← handle_file_cancel lib files payload m a.disk
    some (record a { manager = some m'; disk = disk })

  unfoldable pub callback : Given → ℕ → Callback lib → App files → Option (App files)
  unfolding device_connected pair_request file_offer file_accept file_complete file_cancel
  callback g id (on_hello name) a = some (device_connected id a.manager a)
  callback g id on_start_camera a = some (queue files (stream_mode false) a)
  callback g id on_stop_camera a = some a
  callback g id on_start_screen a = some (queue files (stream_mode true) a)
  callback g id on_stop_screen a = some (queue files (stream_mode false) a)
  callback g id (on_set_flip flip) a = some (queue files (flips flip) a)
  callback g id (on_pair_request payload) a = pair_request id payload a.pairing a
  callback g id (on_file_offer payload) a = some (file_offer g id payload a.manager a)
  callback g id (on_file_accept payload) a = file_accept g id payload a.manager a
  callback g id (on_file_reject payload) a = file_cancel payload a.manager a
  callback g id (on_file_complete payload) a = file_complete payload a.manager a
  callback g id (on_file_cancel payload) a = file_cancel payload a.manager a

  -- The actions of a message, in order: a call, or an answer of the session itself.
  unfoldable pub performs : Given → ℕ → List (Action lib) → App files → Option (App files)
  unfolding callback send_to
  performs g id [] a = some a
  performs g id (calls c ∷ actions) a = do a' ← callback g id c a; performs g id actions a'
  performs g id (sends message ∷ actions) a =
      performs g id actions (record a { server = send_to id message a.server })

  abbrev pub offered_key : Option Pairing → Bytes
  offered_key none = []
  offered_key (some p) = p.current_offer.public_key_base64

  abbrev pub stream_flip : Option Flip → Bool
  stream_flip none = true
  stream_flip (some f) = flip_horizontal f

  -- What `handleMessage` asks the program for, and which of its callbacks would throw.
  abbrev fails : {A : Type 0} → Option A → Bool
  fails none = true
  fails (some x) = false

  abbrev pub getters : Given → ℕ → App files → Getters lib
  getters g id a = record {
    pc_public_key = some (offered_key a.pairing);
    flip_horizontal = some (stream_flip a.stream);
    throws = λ c. fails (callback g id c a);
  }

  -- A message of the session `id`.
  unfoldable pub received : Given → ℕ → Bytes → App files → Option (App files)
  unfolding handle_message performs
  received g id raw a = do
    actions ← handle_message lib (getters g id a) raw
    performs g id actions a

  -- A session's end: `onDisconnect` of the server.
  unfoldable pub disconnected : ℕ → App files → App files
  unfolding remove_session device_disconnected
  disconnected id a =
      device_disconnected id a.manager (record a { server = remove_session id a.server })
