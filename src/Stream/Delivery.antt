-- ===== src/Stream/Delivery.antt =====
-- A burst of frames, from the connection to the decoder.
use mathlib.Core.Path.{ap₂}
use iriseus.Prelude.{
  ℕ, zero, suc, ◌+◌, ◌≤◌, ◌<◌, ◌≡◌, ap, ◌∙◌, Bytes, Bool, some, List, [], ◌∷◌, ◌++◌, true, false,
  leb, length, length-append, append_assoc, append-nil, All, arith, if◌then◌else◌,
}
use iriseus.Net.{SocketLib}
use iriseus.Wire.{next_frame, frame}
use iriseus.Wire.Frames.{next_frame-frame}
use iriseus.Stream.{
  receiving, Receiver, Turn, receive, decode, step, run, enqueue, max_queue_depth, max_nalu_size,
}

-- What the phone sends for some NALUs.
abbrev pub encode : List Bytes → Bytes
encode [] = []
encode (p ∷ ps) = frame p ++ encode ps

abbrev pub Sendable : Bytes → Type 0
Sendable p = (0 < length p) × (length p ≤ max_nalu_size)

-- A receiver that serves a client and has not been stopped.
abbrev pub serving :
    {S : Type 0} → S → List Bytes → List Bytes → List Bytes → List Bool → Receiver S
serving s queue received decoded status = record {
  running = true;
  thread = receiving s;
  decoding = true;
  queue = queue;
  received = received;
  decoded = decoded;
  status = status;
}

-- The same turn, `n` times.
abbrev pub turns : {S : Type 0} → ℕ → Turn S → List (Turn S)
turns zero t = []
turns (suc n) t = t ∷ turns n t

module _ (net : SocketLib) where
  open net use {Sock, pending}

  step-receive :
      (s s' : Sock) (p : Bytes) (q rc d : List Bytes) (st : List Bool)
      → next_frame net max_nalu_size s ≡ some (p, s')
      → length q < max_queue_depth
      → step net (serving s q rc d st) receive ≡ serving s' (q ++ p ∷ []) (rc ++ p ∷ []) d st
  unfolding step enqueue
  step-receive s s' p q rc d st e h = rw e (room (leb max_queue_depth (length q)) (ground arith))
    where
      room :
          (b : Bool)
          → b ≡ false
          → ◌≡◌ {A = Receiver Sock}
              (serving s' (if b then p ∷ [] else q ++ p ∷ []) (rc ++ p ∷ []) d st)
              (serving s' (q ++ p ∷ []) (rc ++ p ∷ []) d st)
      room b h = rw h

  run-receive :
      (ps : List Bytes) (s : Sock) (q rc d : List Bytes) (st : List Bool) (ts : List (Turn Sock))
      (rest : Bytes)
      → All Sendable ps
      → length q + length ps ≤ max_queue_depth
      → pending s ≡ encode ps ++ rest
      → (s' : Sock) × (run net (serving s q rc d st) (turns (length ps) receive ++ ts)
          ≡ run net (serving s' (q ++ ps) (rc ++ ps) d st) ts)
        × (pending s' ≡ rest)
  unfolding run
  run-receive [] s q rc d st ts rest ok h e = (s, rw (append-nil q, append-nil rc), e)
  run-receive (p ∷ ps) s q rc d st ts rest (ok, oks) h e =
      let (s1, r, k) =
        next_frame-frame net max_nalu_size s p (encode ps ++ rest) ok.0 ok.1 (omega arith)
          (e ∙ append_assoc (frame p) (encode ps) rest) in
      let (s2, r2, k2) =
        run-receive ps s1 (q ++ p ∷ []) (rc ++ p ∷ []) d st ts rest oks
          (omega (arith, length-append q (p ∷ []))) k in
      (
        s2,
        ap (λ x. run net x (turns (length ps) receive ++ ts))
              (step-receive s s1 p q rc d st r (omega arith))
            ∙ r2
            ∙ ap₂ (λ x y. run net (serving s2 x y d st) ts) (append_assoc q (p ∷ []) ps)
                (append_assoc rc (p ∷ []) ps),
        k2,
      )

  run-decode :
      (s : Sock) (q rc d : List Bytes) (st : List Bool)
      → run net (serving s q rc d st) (turns (length q) decode) ≡ serving s [] rc (d ++ q) st
  unfolding run step
  run-decode s [] rc d st = rw append-nil
  run-decode s (p ∷ q) rc d st =
      run-decode s q rc (d ++ p ∷ []) st
      ∙ ap (λ x. serving s [] rc x st) (append_assoc d (p ∷ []) q)

  -- A burst of NALUs of legal size that fits the free queue, read in one go and decoded afterwards,
  -- reaches the decoder whole, in order, and leaves the queue empty and the client being served.
  pub burst_decoded :
      (ps : List Bytes) (s : Sock) (rc d : List Bytes) (st : List Bool) (rest : Bytes)
      → All Sendable ps
      → length ps ≤ max_queue_depth
      → pending s ≡ encode ps ++ rest
      → (s' : Sock) × (run net
            (serving s [] rc d st)
            (turns (length ps) receive ++ turns (length ps) decode)
          ≡ serving s' [] (rc ++ ps) (d ++ ps) st)
        × (pending s' ≡ rest)
  burst_decoded ps s rc d st rest ok h e =
      let (s', r, k) =
        run-receive ps s [] rc d st (turns (length ps) decode) rest ok (omega arith) e in
      (s', r ∙ run-decode s' ps (rc ++ ps) d st, k)
