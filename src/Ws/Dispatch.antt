-- ===== src/Ws/Dispatch.antt =====
-- `handleMessage` of src/core/WsSession.cpp: which callback a message reaches and what is answered.
use iriseus.Prelude.{Bytes, Bool, true, Option, none, some, List, [], ◌∷◌, codes, if◌then◌else◌}
use iriseus.Json.{JsonLib}
use iriseus.Messages.{
  MsgType, hello, start_camera, stop_camera, ping, pair_request, file_offer, file_accept,
  file_reject, file_complete, file_cancel, start_screen, stop_screen, set_flip, parse_message,
}

module _ (lib : JsonLib) where
  open lib use {Json, object, string, boolean, dump, value_string, value_bool}

  -- The callbacks of a session, with what they are given besides the session's number.
  pub data Callback : Type 0 where
    on_hello : Bytes → Callback
    on_start_camera on_stop_camera on_start_screen on_stop_screen : Callback
    on_set_flip : Bool → Callback
    on_pair_request on_file_offer on_file_accept on_file_reject : Option Json → Callback
    on_file_complete on_file_cancel : Option Json → Callback

  pub data Action : Type 0 where
    calls : Callback → Action
    sends : Bytes → Action

  -- `getPcPublicKey` and `getFlipHorizontal`, `none` where they are not set. `WsServer` sets all the
  -- other callbacks of every session. `throws` says of which callbacks an exception comes back.
  pub record Getters : Type 0 where
    pub pc_public_key : Option Bytes
    pub flip_horizontal : Option Bool
    pub throws : Callback → Bool

  abbrev or_else {ℓ} : {A : Type ℓ} → Option A → A → A
  or_else none d = d
  or_else (some a) d = a

  unfoldable pub welcome_reply : Getters → Bytes
  welcome_reply g = dump (
      object (
        (codes "type", string (codes "welcome"))
        ∷ (codes "deviceName", string (codes "Iriseus PC"))
        ∷ (codes "deviceId", string (codes "pc-placeholder-id"))
        ∷ (codes "pk", string (or_else g.pc_public_key []))
        ∷ (codes "flip", boolean (or_else g.flip_horizontal true))
        ∷ []))

  unfoldable pub pong_reply : Bytes
  pong_reply = dump (object ((codes "type", string (codes "pong")) ∷ []))

  -- A missing payload is `null`, of which `value` throws.
  abbrev pub field_string : Option Json → Bytes → Bytes → Option Bytes
  field_string none key d = none
  field_string (some j) key d = value_string j key d

  abbrev pub field_bool : Option Json → Bytes → Bool → Option Bool
  field_bool none key d = none
  field_bool (some j) key d = value_bool j key d

  -- A callback, and what is done behind it; nothing is if it throws.
  abbrev pub called : Getters → Callback → List Action → Option (List Action)
  called g c rest = if g.throws c then none else some (calls c ∷ rest)

  -- `none`: an exception leaves the handler.
  unfoldable pub dispatch : Getters → MsgType → Option Json → Option (List Action)
  unfolding welcome_reply pong_reply
  dispatch g hello p = elim (field_string p (codes "deviceName") (codes "Unknown")) [
    | none ↦ none
    | some name ↦ called g (on_hello name) (sends (welcome_reply g) ∷ [])
  ]
  dispatch g start_camera p = called g on_start_camera []
  dispatch g stop_camera p = called g on_stop_camera []
  dispatch g start_screen p = called g on_start_screen []
  dispatch g stop_screen p = called g on_stop_screen []
  dispatch g set_flip p = elim (field_bool p (codes "flip") true) [
    | none ↦ none
    | some flip ↦ called g (on_set_flip flip) []
  ]
  dispatch g ping p = some (sends pong_reply ∷ [])
  dispatch g pair_request p = called g (on_pair_request p) []
  dispatch g file_offer p = called g (on_file_offer p) []
  dispatch g file_accept p = called g (on_file_accept p) []
  dispatch g file_reject p = called g (on_file_reject p) []
  dispatch g file_complete p = called g (on_file_complete p) []
  dispatch g file_cancel p = called g (on_file_cancel p) []
  dispatch g other p = some []

  unfoldable pub handle_message : Getters → Bytes → Option (List Action)
  unfolding parse_message dispatch
  handle_message g raw = let msg = parse_message lib raw in dispatch g msg.type msg.payload
