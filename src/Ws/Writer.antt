-- ===== src/Ws/Writer.antt =====
-- `send` and `doWrite` of src/core/WsSession.cpp: one asynchronous write at a time, the rest in a
-- queue. The posted function and the completion handler run one at a time on the executor.
pub mod Order
use iriseus.Prelude.{Bytes, Bool, true, false, List, [], ◌∷◌, ◌++◌, is_empty, ◌||◌, if◌then◌else◌}

-- `in_flight` says that a write has been started and not completed; `overlapped` records that a
-- write was started while another was in flight, which Beast forbids. `popped` are the messages that
-- left the queue when a write had completed, `broken` says that a write failed. What a write puts on
-- the connection is left open: its buffer is the local `msg` of `doWrite`, which is gone by then.
pub record Writer : Type 0 where
  pub queue : List Bytes
  pub in_flight : Bool
  pub popped : List Bytes
  pub broken : Bool
  pub overlapped : Bool

abbrev pub idle : Writer
idle = record { queue = []; in_flight = false; popped = []; broken = false; overlapped = false }

-- `doWrite`, by the queue.
unfoldable pub do_write : List Bytes → Writer → Writer
do_write [] w = w
do_write (message ∷ rest) w = record w {
  in_flight = true;
  overlapped = w.overlapped || w.in_flight;
}

-- What `send` posts.
unfoldable pub send : Bytes → Writer → Writer
unfolding do_write
send message w =
    let w' = record w { queue = w.queue ++ message ∷ [] } in
    if is_empty w.queue then do_write w'.queue w' else w'

abbrev pub front : List Bytes → List Bytes
front [] = []
front (x ∷ l) = x ∷ []

abbrev pub pop_front : List Bytes → List Bytes
pop_front [] = []
pop_front (x ∷ l) = l

-- The handler of a write that succeeded.
unfoldable pub completed : Writer → Writer
unfolding do_write
completed w =
    let w' = record w {
      in_flight = false;
      popped = w.popped ++ front w.queue;
      queue = pop_front w.queue;
    } in
    if is_empty w'.queue then w' else do_write w'.queue w'

-- The handler of a write that failed returns at once.
unfoldable pub failed : Writer → Writer
failed w = record w { in_flight = false; broken = true }

-- What can happen: a message is sent, or the write in flight ends.
pub data Event : Type 0 where
  sends : Bytes → Event
  succeeds fails : Event

unfoldable pub ended : Bool → Bool → Writer → Writer
unfolding completed failed
ended good false w = w
ended good true w = if good then completed w else failed w

unfoldable pub step : Writer → Event → Writer
unfolding send ended
step w (sends message) = send message w
step w succeeds = ended true w.in_flight w
step w fails = ended false w.in_flight w

unfoldable pub run : Writer → List Event → Writer
unfolding step
run w [] = w
run w (e ∷ es) = run (step w e) es

-- The messages that the program sent.
pub messages : List Event → List Bytes
messages [] = []
messages (sends m ∷ es) = m ∷ messages es
messages (succeeds ∷ es) = messages es
messages (fails ∷ es) = messages es
