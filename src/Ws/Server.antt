-- ===== src/Ws/Server.antt =====
-- src/core/WsServer.cpp: the table of sessions. What happens on the executor happens one after the
-- other; each session's writes are those of `Ws.Writer`.
pub mod Sessions
pub mod Starts
use iriseus.Prelude.{
  ℕ, ◌+◌, ◌%◌, ◌^◌, Bytes, Bool, true, false, Option, none, some, List, [], ◌∷◌, nat_eq, ◌==◌,
  if◌then◌else◌,
}
use iriseus.Prelude.Assoc.{Assoc, lookup, insert, erase}
use iriseus.Ws.Writer.{Writer, idle, send, ended}

-- `m_running`, `m_nextId`, a 64-bit counter, and `m_sessions`.
pub record Server : Type 0 where
  pub running : Bool
  pub next_id : ℕ
  pub sessions : Assoc ℕ Writer

-- `start`, when the port could be opened.
abbrev pub started : Server
started = record { running = true; next_id = 1; sessions = [] }

-- The handler of `async_accept` for a connection that came.
unfoldable pub accepted : Server → Server
unfolding insert
accepted s =
    if s.running
    then record s {
      next_id = (s.next_id + 1) % 2 ^ 64;
      sessions = insert s.next_id idle s.sessions;
    }
    else s

unfoldable pub remove_session : ℕ → Server → Server
unfolding erase
remove_session id s = record s { sessions = erase id s.sessions }

-- A session of the table is changed in place.
unfoldable pub changed : ℕ → (Writer → Writer) → Assoc ℕ Writer → Assoc ℕ Writer
changed id f [] = []
changed id f ((key, w) ∷ m) =
    let rest = changed id f m in if key == id then (key, f w) ∷ rest else (key, w) ∷ rest

-- A number without a session is ignored.
unfoldable pub send_to : ℕ → Bytes → Server → Server
unfolding changed send
send_to id message s = record s { sessions = changed id (send message) s.sessions }

unfoldable pub sent_to_all : Bytes → Assoc ℕ Writer → Assoc ℕ Writer
unfolding send
sent_to_all message [] = []
sent_to_all message ((key, w) ∷ m) = (key, send message w) ∷ sent_to_all message m

unfoldable pub broadcast : Bytes → Server → Server
unfolding sent_to_all
broadcast message s = record s { sessions = sent_to_all message s.sessions }

unfoldable pub stop : Server → Server
stop s = if s.running then record s { running = false; sessions = [] } else s

-- What can happen to the server. `writes id good` is the end of the write that a session has in
-- flight.
pub data Event : Type 0 where
  connects : Event
  disconnects : ℕ → Event
  sends_to : ℕ → Bytes → Event
  broadcasts : Bytes → Event
  writes : ℕ → Bool → Event
  stops : Event

unfoldable pub step : Server → Event → Server
unfolding accepted remove_session send_to broadcast changed ended stop
step s connects = accepted s
step s (disconnects id) = remove_session id s
step s (sends_to id message) = send_to id message s
step s (broadcasts message) = broadcast message s
step s (writes id good) = record s {
  sessions = changed id (λ w. ended good w.in_flight w) s.sessions;
}
step s stops = stop s

unfoldable pub run : Server → List Event → Server
unfolding step
run s [] = s
run s (e ∷ es) = run (step s e) es
