-- ===== src/Ws/Server/Starts.antt =====
-- `start` and `stop` of src/core/WsServer.cpp, with the acceptor that they share.
use iriseus.Prelude.{
  ℕ, ◌≡◌, refl, ap, ◌∙◌, Bool, true, false, List, [], ◌∷◌, All, if◌then◌else◌, Bool-cases, inl, inr,
  ◌⊎◌, arith,
}
use iriseus.Net.Acceptor.{AcceptorLib, Answers, try_listen, try_listen_open, try_listen_good}

module _ (asio : AcceptorLib) where
  open asio use {Acceptor, is_open}

  -- `m_port`, `m_running` and `m_acceptor`.
  pub record Listener : Type 0 where
    pub port : ℕ
    pub running : Bool
    pub acceptor : Acceptor

  abbrev pub new_listener : ℕ → Listener
  new_listener n = record { port = n; running = false; acceptor = asio.new }

  unfoldable pub start : Answers → Listener → Bool × Listener
  unfolding try_listen
  start a s =
      let (ok, acc) = try_listen asio a s.port s.acceptor in
      if ok
      then (true, record s { acceptor = acc; running = true })
      else (false, record s { acceptor = acc })

  -- The acceptor stays as it is.
  unfoldable pub stop : Listener → Listener
  stop s = if s.running then record s { running = false } else s

  pub data Event : Type 0 where
    starts : Answers → Event
    stops : Event

  -- What the starts return, and where they and the stops lead.
  unfoldable pub run : List Event → Listener → List Bool × Listener
  unfolding start stop
  run [] s = ([], s)
  run (starts a ∷ es) s = let (ok, s') = start a s in let (oks, s'') = run es s' in (ok ∷ oks, s'')
  run (stops ∷ es) s = run es (stop s)

  start_open : (a : Answers) (s : Listener) → is_open s.acceptor ≡ true → start a s ≡ (false, s)
  unfolding start
  start_open a s h = rw (try_listen_open asio a s.port s.acceptor h) refl

  stop_acceptor : (s : Listener) → (stop s).acceptor ≡ s.acceptor
  unfolding stop
  stop_acceptor s = ground arith

  run_open :
      (es : List Event) (s : Listener)
      → is_open s.acceptor ≡ true
      → All (λ ok. ok ≡ false) (run es s).0
  unfolding run
  run_open [] s h = tt
  run_open (starts a ∷ es) s h = rw (start_open a s h) (refl, run_open es s h)
  run_open (stops ∷ es) s h = run_open es (stop s) (ap is_open (stop_acceptor s) ∙ h)

  start_opens :
      (a : Answers) (s : Listener) → (start a s).0 ≡ true → is_open (start a s).1.acceptor ≡ true
  unfolding start
  start_opens a s e = by_answer (Bool-cases (try_listen asio a s.port s.acceptor).0)
    where
      by_answer :
          ((try_listen asio a s.port s.acceptor).0 ≡ true)
            ⊎ ((try_listen asio a s.port s.acceptor).0 ≡ false)
          → is_open (start a s).1.acceptor ≡ true
      by_answer (inl h) = rw h (try_listen_good asio a s.port s.acceptor h)
      by_answer (inr h) = absurd (ground arith)

  -- A server that has started never starts again: whatever starts and stops follow, and whatever
  -- the system answers, each further `start` returns false.
  pub started_once :
      (a : Answers) (es : List Event) (s : Listener)
      → (start a s).0 ≡ true
      → All (λ ok. ok ≡ false) (run es (start a s).1).0
  started_once a es s e = run_open es (start a s).1 (start_opens a s e)
