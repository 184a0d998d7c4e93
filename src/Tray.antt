-- ===== src/Tray.antt =====
-- src/ui/TrayIcon.cpp: what the icon and its menu show. A text of Qt is the list of its code points.
pub mod Shows
use iriseus.Prelude.{Bytes, Bool, true, false, not, List, [], ◌∷◌, ◌++◌, codes, if◌then◌else◌}

-- `messages` are those that `showMessage` was called with, the title first.
pub record Tray : Type 0 where
  pub visible : Bool
  pub start_visible : Bool
  pub stop_visible : Bool
  pub flip_checked : Bool
  pub camera_active : Bool
  pub tool_tip : Bytes
  pub messages : List (Bytes × Bytes)

unfoldable pub show_message : Bytes → Bytes → Tray → Tray
show_message title text t = record t { messages = t.messages ++ (title, text) ∷ [] }

-- The icon goes with the flag.
abbrev pub update_icon : Bool → Tray → Tray
update_icon active t = record t { camera_active = active }

-- The constructor, with `buildMenu`.
unfoldable pub new_tray : Tray
new_tray = update_icon false (record {
  visible = false;
  start_visible = true;
  stop_visible = false;
  flip_checked = true;
  camera_active = false;
  tool_tip = codes "Iriseus";
  messages = [];
})

abbrev pub show : Tray → Tray
show t = record t { visible = true }

unfoldable pub on_start_camera : Tray → Tray
unfolding show_message
on_start_camera t =
    show_message (codes "Iriseus") (codes "Câmera iniciada")
      (update_icon true (record t { start_visible = false; stop_visible = true }))

unfoldable pub on_stop_camera : Tray → Tray
unfolding show_message
on_stop_camera t =
    show_message (codes "Iriseus") (codes "Câmera parada")
      (update_icon false (record t { start_visible = true; stop_visible = false }))

abbrev pub on_quit : Tray → Tray
on_quit t = record t { visible = false }

unfoldable pub show_notification : Bytes → Bytes → Tray → Tray
unfolding show_message
show_notification title message t = show_message title message t

unfoldable pub update_camera_status : Bool → Tray → Tray
unfolding show_message
update_camera_status active t =
    show_message (codes "Iriseus")
      (if active then codes "Câmera ativa" else codes "Câmera desconectada")
      (record (update_icon active t) {
        start_visible = not active;
        stop_visible = active;
        tool_tip = if active then codes "Iriseus — Câmera ativa" else codes "Iriseus";
      })

unfoldable pub update_stream_mode : Bool → Tray → Tray
unfolding show_message
update_stream_mode true t =
    show_message (codes "Iriseus") (codes "Transmitindo tela do celular")
      (record t { tool_tip = codes "Iriseus — Transmitindo tela do celular" })
update_stream_mode false t =
    show_message (codes "Iriseus") (codes "Transmitindo câmera do celular")
      (record t { tool_tip = codes "Iriseus — Câmera ativa" })

-- The signal of the menu entry is blocked meanwhile.
unfoldable pub set_flip_horizontal : Bool → Tray → Tray
set_flip_horizontal flip t = record t { flip_checked = flip }

-- What the program and the user do with the icon. `toggles` is a click on the flip entry.
pub data Event : Type 0 where
  shows starts_camera stops_camera quits toggles : Event
  notifies : Bytes → Bytes → Event
  updates_status updates_mode sets_flip : Bool → Event

unfoldable pub step : Tray → Event → Tray
unfolding on_start_camera on_stop_camera show_notification update_camera_status update_stream_mode
    set_flip_horizontal
step t shows = show t
step t starts_camera = on_start_camera t
step t stops_camera = on_stop_camera t
step t quits = on_quit t
step t toggles = record t { flip_checked = not t.flip_checked }
step t (notifies title message) = show_notification title message t
step t (updates_status active) = update_camera_status active t
step t (updates_mode screen) = update_stream_mode screen t
step t (sets_flip flip) = set_flip_horizontal flip t

unfoldable pub run : Tray → List Event → Tray
unfolding step
run t [] = t
run t (e ∷ es) = run (step t e) es
