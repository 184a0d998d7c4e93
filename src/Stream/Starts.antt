-- ===== src/Stream/Starts.antt =====
-- `start` and `stop` of src/core/StreamReceiver.cpp, with the acceptor and the camera. The threads
-- are those of `Stream`.
use iriseus.Prelude.{
  ℕ, ◌≡◌, refl, sym, ap, ◌∙◌, Bool, true, false, ◌&&◌, Option, none, some, List, [], ◌∷◌, ◌++◌, not,
  if◌then◌else◌,
}
use iriseus.Net.Acceptor.{AcceptorLib, Answers, try_listen, try_listen_open, try_listen_shut}
use iriseus.Video.{positive_or}
use iriseus.Camera.{Camera, closed, close, Call}
use iriseus.Stream.Flip.{Flip, start_flip}

module _ (asio : AcceptorLib) where
  open asio use {Acceptor, is_open}

  -- `canvas` is the size that the decoder was set up for last.
  pub record Starter : Type 0 where
    pub port : ℕ
    pub width : ℕ
    pub height : ℕ
    pub running : Bool
    pub acceptor : Acceptor
    pub flip : Flip
    pub canvas : Option (ℕ × ℕ)
    pub camera : Option Camera
    pub calls : List Call

  abbrev pub new_starter : ℕ → ℕ → ℕ → Flip → Starter
  new_starter n w h flip = record {
    port = n;
    width = w;
    height = h;
    running = false;
    acceptor = asio.new;
    flip = flip;
    canvas = none;
    camera = none;
    calls = [];
  }

  -- `close` of a camera that is there, which its destructor calls too.
  abbrev pub close_calls : Option Camera → List Call
  close_calls none = []
  close_calls (some c) = (close c).1

  abbrev pub close_camera : Option Camera → Option Camera
  close_camera none = none
  close_camera (some c) = some (close c).0

  -- `codec` says whether the decoder's `init` succeeds.
  unfoldable pub start : Bool → Answers → Starter → Bool × Starter
  unfolding try_listen start_flip close
  start codec a r =
      let made = record r {
        flip = start_flip codec r.flip;
        canvas = some (positive_or r.width 1920, positive_or r.height 1080);
      } in
      let ready = record made { camera = some closed; calls = r.calls ++ close_calls r.camera } in
      let (ok, acc) = try_listen asio a r.port r.acceptor in
      if not codec
      then (false, made)
      else if ok
      then (true, record ready { acceptor = acc; running = true })
      else (false, record ready { acceptor = acc })

  unfoldable pub stop : Starter → Starter
  unfolding close
  stop r =
      if r.running
      then record r {
        running = false;
        acceptor = asio.close r.acceptor;
        camera = close_camera r.camera;
        calls = r.calls ++ close_calls r.camera;
      }
      else r

  pub data Event : Type 0 where
    starts : Bool → Answers → Event
    stops : Event

  -- What the starts return, and where they and the stops lead.
  unfoldable pub run : List Event → Starter → List Bool × Starter
  unfolding start stop
  run [] r = ([], r)
  run (starts codec a ∷ es) r =
      let (ok, r') = start codec a r in let (oks, r'') = run es r' in (ok ∷ oks, r'')
  run (stops ∷ es) r = run es (stop r)

  -- The receiver is stopped, serves, or has failed to get its port, which leaves the acceptor open.
  pub data Life : Type 0 where
    shut serving stuck : Life

  abbrev pub begun : Bool → Answers → Life
  begun codec a = if codec && a.socket then if a.port then serving else stuck else shut

  -- What the starts return, and where they and the stops lead, by the three states alone.
  abbrev pub lives : List Event → Life → List Bool × Life
  lives [] l = ([], l)
  lives (starts codec a ∷ es) shut =
      let (oks, l) = lives es (begun codec a) in ((codec && (a.socket && a.port)) ∷ oks, l)
  lives (starts codec a ∷ es) serving = let (oks, l) = lives es serving in (false ∷ oks, l)
  lives (starts codec a ∷ es) stuck = let (oks, l) = lives es stuck in (false ∷ oks, l)
  lives (stops ∷ es) shut = lives es shut
  lives (stops ∷ es) serving = lives es shut
  lives (stops ∷ es) stuck = lives es stuck

  abbrev pub is_serving : Life → Bool
  is_serving shut = false
  is_serving serving = true
  is_serving stuck = false

  abbrev pub has_socket : Life → Bool
  has_socket shut = false
  has_socket serving = true
  has_socket stuck = true

  abbrev pub Lives : Life → Starter → Type 0
  Lives l r = (r.running ≡ is_serving l) × (is_open r.acceptor ≡ has_socket l)

  start_open :
      (codec : Bool) (a : Answers) (r : Starter)
      → is_open r.acceptor ≡ true
      → let (ok, r') = start codec a r in
        (ok ≡ false) × (r'.running ≡ r.running) × (r'.acceptor ≡ r.acceptor)
  unfolding start
  start_open false a r h = (refl, refl, refl)
  start_open true a r h = rw (try_listen_open asio a r.port r.acceptor h) (refl, refl, refl)

  start_shut :
      (codec socket port : Bool) (r : Starter)
      → Lives shut r
      → let a : Answers = record { socket = socket; port = port } in
        let (ok, r') = start codec a r in
        (ok ≡ (codec && (socket && port))) × Lives (begun codec a) r'
  unfolding start
  start_shut false socket port r l = (refl, l)
  start_shut true false port r (idle, free) =
      let (answer, state) = try_listen_shut asio false port r.port r.acceptor free in
      rw answer (refl, (idle, state))
  start_shut true true false r (idle, free) =
      let (answer, state) = try_listen_shut asio true false r.port r.acceptor free in
      rw answer (refl, (idle, state))
  start_shut true true true r (idle, free) =
      let (answer, state) = try_listen_shut asio true true r.port r.acceptor free in
      rw answer (refl, (refl, state))

  stop_shuts : (r : Starter) → Lives serving r → Lives shut (stop r)
  unfolding stop
  stop_shuts r (on, in_use) = rw on (refl, asio.is_open-close r.acceptor)

  stop_idle : (l : Life) (r : Starter) → is_serving l ≡ false → Lives l r → Lives l (stop r)
  unfolding stop
  stop_idle l r idle (on, in_use) = rw (on ∙ idle) (sym idle, in_use)

  stays_open :
      (l : Life) (codec : Bool) (a : Answers) (r : Starter)
      → has_socket l ≡ true
      → Lives l r
      → ((start codec a r).0 ≡ false) × Lives l (start codec a r).1
  stays_open l codec a r socket (on, in_use) =
      let (answer, same, acc) = start_open codec a r (in_use ∙ socket) in
      (answer, (same ∙ on, ap is_open acc ∙ in_use))

  -- Whatever starts and stops follow on one of the three states, and whatever the system and the
  -- decoder answer: the starts return what the three states say, and lead to the state that they say.
  pub run-lives :
      (es : List Event) (l : Life) (r : Starter)
      → Lives l r
      → ((run es r).0 ≡ (lives es l).0) × Lives (lives es l).1 (run es r).1
  unfolding run
  run-lives [] l r i = (refl, i)
  run-lives (starts codec a ∷ es) shut r i =
      let (answer, i') = start_shut codec a.socket a.port r i in
      let (same, end) = run-lives es (begun codec a) (start codec a r).1 i' in
      ((λ k. answer k ∷ same k), end)
  run-lives (starts codec a ∷ es) serving r i =
      let (answer, i') = stays_open serving codec a r refl i in
      let (same, end) = run-lives es serving (start codec a r).1 i' in
      ((λ k. answer k ∷ same k), end)
  run-lives (starts codec a ∷ es) stuck r i =
      let (answer, i') = stays_open stuck codec a r refl i in
      let (same, end) = run-lives es stuck (start codec a r).1 i' in ((λ k. answer k ∷ same k), end)
  run-lives (stops ∷ es) shut r i = run-lives es shut (stop r) (stop_idle shut r refl i)
  run-lives (stops ∷ es) serving r i = run-lives es shut (stop r) (stop_shuts r i)
  run-lives (stops ∷ es) stuck r i = run-lives es stuck (stop r) (stop_idle stuck r refl i)
