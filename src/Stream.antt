-- ===== src/Stream.antt =====
-- src/core/StreamReceiver.cpp: the network thread, the decoder thread and `stop`, which share
-- `m_running` and the queue of NALUs. A thread's turn runs from one test of its loop head to the
-- next; it touches the queue in one critical section, so that turns are atomic.
pub mod Queue
pub mod Status
pub mod Delivery
pub mod Flip
pub mod Starts
use iriseus.Prelude.{
  ℕ, ◌+◌, ◌*◌, ◌≡◌, refl, Bytes, Bool, true, false, Option, none, some, List, [], ◌∷◌, ◌++◌, leb,
  length, if◌then◌else◌,
}
use iriseus.Net.{SocketLib}
use iriseus.Wire.{next_frame}

abbrev pub max_queue_depth : ℕ
max_queue_depth = 120

abbrev pub max_nalu_size : ℕ
max_nalu_size = 4 * 1024 * 1024

-- A queue that has piled up is dropped, so that the decoder catches up with the camera.
unfoldable pub enqueue : List Bytes → Bytes → List Bytes
enqueue q nalu = if leb max_queue_depth (length q) then nalu ∷ [] else q ++ nalu ∷ []

-- Where the network thread stands.
pub data NetThread (S : Type 0) : Type 0 where
  accepting : NetThread S
  receiving : S → NetThread S
  ended : NetThread S

-- `decoding` holds until the decoder thread leaves its loop. The last three fields record what the
-- threads have done: the NALUs read from clients, those given to the decoder, the status calls.
pub record Receiver (S : Type 0) : Type 0 where
  pub running : Bool
  pub thread : NetThread S
  pub decoding : Bool
  pub queue : List Bytes
  pub received : List Bytes
  pub decoded : List Bytes
  pub status : List Bool

-- `start`, once the port is bound.
pub start : (S : Type 0) → Receiver S
start S = record {
  running = true;
  thread = accepting;
  decoding = true;
  queue = [];
  received = [];
  decoded = [];
  status = [];
}

module _ {S : Type 0} where
  -- The end of `receiveLoop`, and the head of `acceptLoop` behind it.
  unfoldable pub disconnect : Receiver S → Receiver S
  disconnect r = record r {
    thread = if r.running then accepting else ended;
    status = r.status ++ false ∷ [];
  }

  -- The head of `receiveLoop`.
  unfoldable pub receive_head : S → Receiver S → Receiver S
  unfolding disconnect
  receive_head s r = if r.running then record r { thread = receiving s } else disconnect r

  -- `accept` fails, or gives a client.
  unfoldable pub connected : Option S → Receiver S → Receiver S
  unfolding receive_head
  connected none r = record r { thread = ended }
  connected (some s) r = receive_head s (record r { status = r.status ++ true ∷ [] })

  -- The body of `receiveLoop`, behind the two reads.
  unfoldable pub received_frame : Option (Bytes × S) → Receiver S → Receiver S
  unfolding receive_head enqueue
  received_frame none r = disconnect r
  received_frame (some (nalu, s)) r =
      receive_head s (record r { queue = enqueue r.queue nalu; received = r.received ++ nalu ∷ [] })

  -- The body of `decodeLoop`: it waits on an empty queue while the receiver runs.
  unfoldable pub decode_front : List Bytes → Receiver S → Receiver S
  decode_front [] r = if r.running then r else record r { decoding = false }
  decode_front (nalu ∷ rest) r = record r {
    queue = rest;
    decoded = r.decoded ++ nalu ∷ [];
    decoding = r.running;
  }

-- `halt` and `clear` are the two halves of `stop`.
pub data Turn (S : Type 0) : Type 0 where
  accept : Option S → Turn S
  receive decode halt clear : Turn S

module _ (net : SocketLib) where
  open net use {Sock}

  unfoldable pub receive_turn : NetThread Sock → Receiver Sock → Receiver Sock
  unfolding received_frame
  receive_turn accepting r = r
  receive_turn (receiving s) r = received_frame (next_frame net max_nalu_size s) r
  receive_turn ended r = r

  unfoldable pub accept_turn : NetThread Sock → Option Sock → Receiver Sock → Receiver Sock
  unfolding connected
  accept_turn accepting client r = connected client r
  accept_turn (receiving s) client r = r
  accept_turn ended client r = r

  unfoldable pub step : Receiver Sock → Turn Sock → Receiver Sock
  unfolding receive_turn accept_turn decode_front
  step r (accept client) = accept_turn r.thread client r
  step r receive = receive_turn r.thread r
  step r decode = if r.decoding then decode_front r.queue r else r
  step r halt = record r { running = false }
  step r clear = if r.running then r else record r { queue = [] }

  unfoldable pub run : Receiver Sock → List (Turn Sock) → Receiver Sock
  unfolding step
  run r [] = r
  run r (t ∷ ts) = run (step r t) ts
