-- ===== src/Messages/Kinds.antt =====
-- The names of the kinds of messages in src/core/MessageDispatcher.h.
use iriseus.Prelude.{
  ◌≡◌, ◌≢◌, ◌↔◌, refl, sym, ap, ◌∙◌, Bytes, bytes_eq, bytes_beq_iff, ◌==◌, bytes_beq, codes, [],
  if_cases, if◌then◌else◌,
}
use iriseus.Messages.{
  MsgType, hello, start_camera, stop_camera, ping, welcome, pong, error, pair_request,
  pair_accepted, pair_rejected, file_offer, file_accept, file_reject, file_ready, file_complete,
  file_cancel, start_screen, stop_screen, set_flip, flip_status, unknown, msg_type_from_string,
}

-- The name that the protocol gives a kind; `unknown` has none.
pub name_of : MsgType → Bytes
name_of hello = codes "hello"
name_of start_camera = codes "start_camera"
name_of stop_camera = codes "stop_camera"
name_of ping = codes "ping"
name_of welcome = codes "welcome"
name_of pong = codes "pong"
name_of error = codes "error"
name_of pair_request = codes "pair_request"
name_of pair_accepted = codes "pair_accepted"
name_of pair_rejected = codes "pair_rejected"
name_of file_offer = codes "file_offer"
name_of file_accept = codes "file_accept"
name_of file_reject = codes "file_reject"
name_of file_ready = codes "file_ready"
name_of file_complete = codes "file_complete"
name_of file_cancel = codes "file_cancel"
name_of start_screen = codes "start_screen"
name_of stop_screen = codes "stop_screen"
name_of set_flip = codes "set_flip"
name_of flip_status = codes "flip_status"
name_of unknown = []

type-name_of : (t : MsgType) → msg_type_from_string (name_of t) ≡ t
unfolding msg_type_from_string name_of bytes_beq
type-name_of hello = refl
type-name_of start_camera = refl
type-name_of _ = refl

-- A text that is taken for a kind is the name of that kind.
abbrev Named : Bytes → MsgType → Type 0
Named s t = t ≢ unknown → s ≡ name_of t

Named_test :
    (s : Bytes) (t : MsgType) {rest : MsgType}
    → Named s rest
    → Named s (if s == name_of t then t else rest)
Named_test s t {rest} n =
    if_cases (Named s) (s == name_of t) t rest (λ e _. (bytes_beq_iff s (name_of t)).0 e) (λ _. n)

Named-type : (s : Bytes) → Named s (msg_type_from_string s)
unfolding msg_type_from_string name_of
Named-type s = Named_test s hello (
    Named_test s start_camera (
      Named_test s stop_camera (
        Named_test s start_screen (
          Named_test s stop_screen (
            Named_test s set_flip (
              Named_test s flip_status (
                Named_test s ping (
                  Named_test s pair_request (
                    Named_test s pair_accepted (
                      Named_test s pair_rejected (
                        Named_test s file_offer (
                          Named_test s file_accept (
                            Named_test s file_reject (
                              Named_test s file_ready (
                                Named_test s file_complete (
                                  Named_test s file_cancel (
                                    Named_test s welcome (
                                      Named_test s pong (
                                        Named_test s error (λ h. absurd (h refl)))))))))))))))))))))

-- A text is taken for a kind of message other than the unknown one exactly when it is the name of
-- that kind.
pub msg_type_from_string_iff :
    (s : Bytes) (t : MsgType) → t ≢ unknown → (msg_type_from_string s ≡ t) ↔ (s ≡ name_of t)
msg_type_from_string_iff s t h = (
  λ e. Named-type s (λ u. h (sym e ∙ u)) ∙ ap name_of e,
  λ e. ap msg_type_from_string e ∙ type-name_of t,
)
