-- ===== src/Stream/Status.antt =====
-- The calls of the status callback of src/core/StreamReceiver.cpp.
use iriseus.Prelude.{
  ℕ, zero, suc, ◌≡◌, refl, sym, ap, ◌∙◌, inl, inr, Bytes, Bool, Option, none, some, List, [], ◌∷◌,
  ◌++◌, true, false, Bool-cases, if_cases, append-nil,
}
use iriseus.Net.{SocketLib}
use iriseus.Wire.{next_frame}
use iriseus.Stream.{
  NetThread, accepting, receiving, ended, Receiver, Turn, accept, receive, decode, halt, clear,
  start, step, run, enqueue, max_nalu_size, disconnect, receive_head, connected, received_frame,
  decode_front, receive_turn, accept_turn,
}

-- The calls for `n` clients that have come and gone.
abbrev pub visits : ℕ → List Bool
visits zero = []
visits (suc n) = true ∷ false ∷ visits n

-- The call for a client that is there.
abbrev pub visitor : {S : Type 0} → NetThread S → List Bool
visitor accepting = []
visitor (receiving s) = true ∷ []
visitor ended = []

abbrev pub Alternates : {S : Type 0} → Receiver S → Type 0
Alternates r = (n : ℕ) × (r.status ≡ visits n ++ visitor r.thread)

visits-append : (n : ℕ) → (visits n ++ true ∷ []) ++ false ∷ [] ≡ visits (suc n)
visits-append zero = refl
visits-append (suc n) = ap (λ l. true ∷ false ∷ l) (visits-append n)

module _ {S : Type 0} where
  disconnect-Alternates :
      (r : Receiver S) (n : ℕ) → r.status ≡ visits n ++ true ∷ [] → Alternates (disconnect r)
  unfolding disconnect
  disconnect-Alternates r n e =
      let left : r.status ++ false ∷ [] ≡ visits (suc n) ++ [] =
        ap (λ l. l ++ false ∷ []) e ∙ visits-append n ∙ sym (append-nil (visits (suc n))) in
      elim (Bool-cases r.running) [
        | inl up ↦ rw up (suc n, left)
        | inr down ↦ rw down (suc n, left)
      ]

  receive_head-Alternates :
      (s : S) (r : Receiver S) (n : ℕ)
      → r.status ≡ visits n ++ true ∷ []
      → Alternates (receive_head s r)
  unfolding receive_head
  receive_head-Alternates s r n e = elim (Bool-cases r.running) [
    | inl up ↦ rw up (n, e)
    | inr down ↦ rw down (rw down at (disconnect-Alternates r n e))
  ]

  received_frame-Alternates :
      (x : Option (Bytes × S)) (r : Receiver S) (n : ℕ)
      → r.status ≡ visits n ++ true ∷ []
      → Alternates (received_frame x r)
  unfolding received_frame
  received_frame-Alternates none r n e = disconnect-Alternates r n e
  received_frame-Alternates (some (nalu, s)) r n e =
      receive_head-Alternates s
        (record r { queue = enqueue r.queue nalu; received = r.received ++ nalu ∷ [] }) n e

  connected-Alternates :
      (client : Option S) (r : Receiver S) (n : ℕ)
      → r.status ≡ visits n ++ []
      → Alternates (connected client r)
  unfolding connected
  connected-Alternates none r n e = (n, e)
  connected-Alternates (some s) r n e =
      receive_head-Alternates s (record r { status = r.status ++ true ∷ [] }) n
        (ap (λ l. l ++ true ∷ []) (e ∙ append-nil (visits n)))

  decode_front-Alternates :
      (q : List Bytes) (r : Receiver S) → Alternates r → Alternates (decode_front q r)
  unfolding decode_front
  decode_front-Alternates [] r a = elim (Bool-cases r.running) [
    | inl up ↦ rw up a
    | inr down ↦ rw down a
  ]
  decode_front-Alternates (nalu ∷ q) r a = a

module _ (net : SocketLib) where
  open net use {Sock}

  receive_turn-Alternates :
      (t : NetThread Sock) (r : Receiver Sock)
      → r.thread ≡ t
      → Alternates r
      → Alternates (receive_turn net t r)
  unfolding receive_turn
  receive_turn-Alternates accepting r e a = a
  receive_turn-Alternates (receiving s) r e (n, a) =
      received_frame-Alternates (next_frame net max_nalu_size s) r n
        (a ∙ ap (λ t. visits n ++ visitor t) e)
  receive_turn-Alternates ended r e a = a

  accept_turn-Alternates :
      (t : NetThread Sock) (client : Option Sock) (r : Receiver Sock)
      → r.thread ≡ t
      → Alternates r
      → Alternates (accept_turn net t client r)
  unfolding accept_turn
  accept_turn-Alternates accepting client r e (n, a) =
      connected-Alternates client r n (a ∙ ap (λ t. visits n ++ visitor t) e)
  accept_turn-Alternates (receiving s) client r e a = a
  accept_turn-Alternates ended client r e a = a

  step-Alternates : (r : Receiver Sock) (t : Turn Sock) → Alternates r → Alternates (step net r t)
  unfolding step
  step-Alternates r (accept client) a = accept_turn-Alternates r.thread client r refl a
  step-Alternates r receive a = receive_turn-Alternates r.thread r refl a
  step-Alternates r decode a =
      if_cases Alternates r.decoding (decode_front r.queue r) r
        (λ _. (decode_front-Alternates r.queue r a)) (λ _. a)
  step-Alternates r halt a = a
  step-Alternates r clear a = elim (Bool-cases r.running) [
    | inl up ↦ rw up a
    | inr down ↦ rw down a
  ]

  run-Alternates :
      (r : Receiver Sock) (ts : List (Turn Sock)) → Alternates r → Alternates (run net r ts)
  unfolding run
  run-Alternates r [] a = a
  run-Alternates r (t ∷ ts) a = run-Alternates (step net r t) ts (step-Alternates r t a)

  -- After any turns from `start`, the status calls are `true`, `false` for each client that came and
  -- went, with one more `true` exactly while a client is being received.
  pub run-start-Alternates : (ts : List (Turn Sock)) → Alternates (run net (start Sock) ts)
  unfolding start
  run-start-Alternates ts = run-Alternates (start Sock) ts (0, refl)
