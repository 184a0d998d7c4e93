-- ===== src/Messages.antt =====
-- src/core/MessageDispatcher.h: the kinds of control messages and how a text is taken for one.
pub mod Kinds
use iriseus.Prelude.{
  Bytes, Bool, Option, none, some, List, [], ◌∷◌, ◌==◌, bytes_eq, if◌then◌else◌, codes,
}
use iriseus.Json.{JsonLib}

pub data MsgType : Type 0 where
  hello start_camera stop_camera ping welcome pong error : MsgType
  pair_request pair_accepted pair_rejected : MsgType
  file_offer file_accept file_reject file_ready file_complete file_cancel : MsgType
  start_screen stop_screen set_flip flip_status unknown : MsgType

unfoldable pub msg_type_from_string : Bytes → MsgType
msg_type_from_string s =
    if s == codes "hello"
    then hello
    else if s == codes "start_camera"
    then start_camera
    else if s == codes "stop_camera"
    then stop_camera
    else if s == codes "start_screen"
    then start_screen
    else if s == codes "stop_screen"
    then stop_screen
    else if s == codes "set_flip"
    then set_flip
    else if s == codes "flip_status"
    then flip_status
    else if s == codes "ping"
    then ping
    else if s == codes "pair_request"
    then pair_request
    else if s == codes "pair_accepted"
    then pair_accepted
    else if s == codes "pair_rejected"
    then pair_rejected
    else if s == codes "file_offer"
    then file_offer
    else if s == codes "file_accept"
    then file_accept
    else if s == codes "file_reject"
    then file_reject
    else if s == codes "file_ready"
    then file_ready
    else if s == codes "file_complete"
    then file_complete
    else if s == codes "file_cancel"
    then file_cancel
    else if s == codes "welcome"
    then welcome
    else if s == codes "pong"
    then pong
    else if s == codes "error"
    then error
    else unknown

module _ (lib : JsonLib) where
  open lib use {Json, parse, value_string}

  -- A default-constructed payload is `null`, which `none` stands for.
  pub record ControlMessage : Type 0 where
    pub type : MsgType
    pub payload : Option Json

  -- An exception in either step leaves the type unknown; the payload is there if the text was parsed.
  unfoldable pub parse_message : Bytes → ControlMessage
  unfolding msg_type_from_string
  parse_message raw = elim (parse raw) [
    | none ↦ record { type = unknown; payload = none }
    | some j ↦ elim (value_string j (codes "type") []) [
      | none ↦ record { type = unknown; payload = some j }
      | some t ↦ record { type = msg_type_from_string t; payload = some j }
    ]
  ]
