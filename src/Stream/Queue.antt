-- ===== src/Stream/Queue.antt =====
-- The queue between the two threads of src/core/StreamReceiver.cpp.
use mathlib.Core.List.{Sublist, sublist-append_left}
use mathlib.Core.List.Sublist
use iriseus.Prelude.{
  ◌≤◌, ◌≡◌, refl, sym, ap, ◌∙◌, inl, inr, Bytes, Option, none, some, List, [], ◌∷◌, ◌++◌, true,
  Bool-cases, if_cases, leb, length, length-append, append_assoc, append-nil, arith,
}
use iriseus.Net.{SocketLib}
use iriseus.Wire.{next_frame}
use iriseus.Stream.{
  NetThread, accepting, receiving, ended, Receiver, Turn, accept, receive, decode, halt, clear,
  start, step, run, enqueue, max_queue_depth, max_nalu_size, receive_head, connected,
  received_frame, decode_front, receive_turn, accept_turn,
}

-- The NALUs that left the queue, decoded or dropped, are `gone`; the decoder got some of them, in
-- order, and the queue is all that came later.
pub record Flow (received decoded queue : List Bytes) : Type 0 where
  pub gone : List Bytes
  pub split : received ≡ gone ++ queue
  pub in_order : Sublist decoded gone
  pub bounded : length queue ≤ max_queue_depth

-- Everything received so far counts as gone.
all_gone : (rc d q : List Bytes) → Flow rc d q → Sublist d rc
all_gone rc d q f = rw f.split (Sublist.trans f.in_order (sublist-append_left f.gone q))

Flow-enqueue :
    (rc d q : List Bytes) (nalu : Bytes) → Flow rc d q → Flow (rc ++ nalu ∷ []) d (enqueue q nalu)
unfolding enqueue
Flow-enqueue rc d q nalu f = elim (Bool-cases (leb max_queue_depth (length q))) [
  | inl full ↦
      rw full
        (record { gone = rc; split = refl; in_order = all_gone rc d q f; bounded = omega arith })
  | inr room ↦ rw room (record {
    gone = f.gone;
    split = ap (λ l. l ++ nalu ∷ []) f.split ∙ append_assoc f.gone q (nalu ∷ []);
    in_order = f.in_order;
    bounded = ground (arith, length-append q (nalu ∷ []));
  })
]

Flow-pop : (rc d q : List Bytes) (nalu : Bytes) → Flow rc d (nalu ∷ q) → Flow rc (d ++ nalu ∷ []) q
Flow-pop rc d q nalu f = record {
  gone = f.gone ++ nalu ∷ [];
  split = f.split ∙ sym (append_assoc f.gone (nalu ∷ []) q);
  in_order = Sublist.append f.in_order (Sublist.refl (nalu ∷ []));
  bounded = omega (arith, f.bounded);
}

Flow-clear : (rc d q : List Bytes) → Flow rc d q → Flow rc d []
Flow-clear rc d q f = record {
  gone = rc;
  split = sym (append-nil rc);
  in_order = all_gone rc d q f;
  bounded = omega arith;
}

abbrev pub Ordered : {S : Type 0} → Receiver S → Type 0
Ordered r = Flow r.received r.decoded r.queue

module _ {S : Type 0} where
  receive_head-Ordered : (s : S) (r : Receiver S) → Ordered r → Ordered (receive_head s r)
  unfolding receive_head
  receive_head-Ordered s r f = elim (Bool-cases r.running) [
    | inl up ↦ rw up f
    | inr down ↦ rw down f
  ]

  connected-Ordered :
      (client : Option S) (r : Receiver S) → Ordered r → Ordered (connected client r)
  unfolding connected
  connected-Ordered none r f = f
  connected-Ordered (some s) r f =
      receive_head-Ordered s (record r { status = r.status ++ true ∷ [] }) f

  received_frame-Ordered :
      (x : Option (Bytes × S)) (r : Receiver S) → Ordered r → Ordered (received_frame x r)
  unfolding received_frame
  received_frame-Ordered none r f = f
  received_frame-Ordered (some (nalu, s)) r f =
      receive_head-Ordered s
        (record r { queue = enqueue r.queue nalu; received = r.received ++ nalu ∷ [] })
        (Flow-enqueue r.received r.decoded r.queue nalu f)

  decode_front-Ordered :
      (q : List Bytes) (r : Receiver S) → r.queue ≡ q → Ordered r → Ordered (decode_front q r)
  unfolding decode_front
  decode_front-Ordered [] r e f = elim (Bool-cases r.running) [
    | inl up ↦ rw up f
    | inr down ↦ rw down f
  ]
  decode_front-Ordered (nalu ∷ q) r e f = Flow-pop r.received r.decoded q nalu (rw e at f)

module _ (net : SocketLib) where
  open net use {Sock}

  receive_turn-Ordered :
      (t : NetThread Sock) (r : Receiver Sock) → Ordered r → Ordered (receive_turn net t r)
  unfolding receive_turn
  receive_turn-Ordered accepting r f = f
  receive_turn-Ordered (receiving s) r f =
      received_frame-Ordered (next_frame net max_nalu_size s) r f
  receive_turn-Ordered ended r f = f

  accept_turn-Ordered :
      (t : NetThread Sock) (client : Option Sock) (r : Receiver Sock)
      → Ordered r
      → Ordered (accept_turn net t client r)
  unfolding accept_turn
  accept_turn-Ordered accepting client r f = connected-Ordered client r f
  accept_turn-Ordered (receiving s) client r f = f
  accept_turn-Ordered ended client r f = f

  step-Ordered : (r : Receiver Sock) (t : Turn Sock) → Ordered r → Ordered (step net r t)
  unfolding step
  step-Ordered r (accept client) f = accept_turn-Ordered r.thread client r f
  step-Ordered r receive f = receive_turn-Ordered r.thread r f
  step-Ordered r decode f =
      if_cases Ordered r.decoding (decode_front r.queue r) r
        (λ _. (decode_front-Ordered r.queue r refl f)) (λ _. f)
  step-Ordered r halt f = f
  step-Ordered r clear f = elim (Bool-cases r.running) [
    | inl up ↦ rw up f
    | inr down ↦ rw down (Flow-clear r.received r.decoded r.queue f)
  ]

  run_from-Ordered :
      (r : Receiver Sock) (ts : List (Turn Sock)) → Ordered r → Ordered (run net r ts)
  unfolding run
  run_from-Ordered r [] f = f
  run_from-Ordered r (t ∷ ts) f = run_from-Ordered (step net r t) ts (step-Ordered r t f)

  -- After any turns of the two threads and of `stop`, in any order, from `start`: the queue holds at
  -- most 120 NALUs, what was received is what left the queue followed by what is in it, and the
  -- decoder was given some of what left it, in the order in which it came.
  pub run-start-Ordered : (ts : List (Turn Sock)) → Ordered (run net (start Sock) ts)
  unfolding start
  run-start-Ordered ts =
      run_from-Ordered (start Sock) ts
        (record { gone = []; split = refl; in_order = Sublist.refl []; bounded = omega arith })
