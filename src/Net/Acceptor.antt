-- ===== src/Net/Acceptor.antt =====
-- `tcp::acceptor` of Boost.Asio (outside this repository), as an interface, and the `try` block with
-- which src/core/StreamReceiver.cpp and src/core/WsServer.cpp start to listen.
use iriseus.Prelude.{
  ℕ, ◌≡◌, refl, ◌∙◌, sym, Bool, true, false, Bool-cases, inl, inr, ◌⊎◌, ◌&&◌, Option, none, some,
}

-- `opened` and `listen` say by `none` and `false` that they throw; their first argument is whether the
-- system has a socket, and whether the port can be had. `listen` stands for the options, `bind` and
-- `listen`. An acceptor that is open cannot be opened again; `close` closes it even if it reports an
-- error.
pub record AcceptorLib : Type 1 where
  pub Acceptor : Type 0
  pub new : Acceptor
  pub is_open : Acceptor → Bool
  pub opened : Bool → Acceptor → Option Acceptor
  pub listen : Bool → ℕ → Acceptor → Bool × Acceptor
  pub close : Acceptor → Acceptor
  pub is_open-new : is_open new ≡ false
  pub open_twice : (socket : Bool) (a : Acceptor) → is_open a ≡ true → opened socket a ≡ none
  pub open_refused : (a : Acceptor) → opened false a ≡ none
  pub open_given :
      (a : Acceptor)
      → is_open a ≡ false
      → (a' : Acceptor) × (opened true a ≡ some a') × (is_open a' ≡ true)
  pub listen_given :
      (port : Bool) (n : ℕ) (a : Acceptor) → is_open a ≡ true → (listen port n a).0 ≡ port
  pub listen_open : (port : Bool) (n : ℕ) (a : Acceptor) → is_open (listen port n a).1 ≡ is_open a
  pub is_open-close : (a : Acceptor) → is_open (close a) ≡ false

-- What the system answers.
pub record Answers : Type 0 where
  pub socket : Bool
  pub port : Bool

module _ (asio : AcceptorLib) where
  open asio use {Acceptor, is_open, opened, listen}

  abbrev listened : Answers → ℕ → Acceptor → Option Acceptor → Bool × Acceptor
  listened a n acc none = (false, acc)
  listened a n acc (some acc') = listen a.port n acc'

  unfoldable pub try_listen : Answers → ℕ → Acceptor → Bool × Acceptor
  try_listen a n acc = listened a n acc (opened a.socket acc)

  pub try_listen_open :
      (a : Answers) (n : ℕ) (acc : Acceptor)
      → is_open acc ≡ true
      → try_listen a n acc ≡ (false, acc)
  unfolding try_listen
  try_listen_open a n acc h = rw (asio.open_twice a.socket acc h) refl

  pub try_listen_shut :
      (socket port : Bool) (n : ℕ) (acc : Acceptor)
      → is_open acc ≡ false
      → let r = try_listen (record { socket = socket; port = port }) n acc in
        (r.0 ≡ (socket && port)) × (is_open r.1 ≡ socket)
  unfolding try_listen
  try_listen_shut false port n acc h = rw (asio.open_refused acc) (refl, h)
  try_listen_shut true port n acc h =
      let (acc', e, o) = asio.open_given acc h in
      rw e (asio.listen_given port n acc' o, asio.listen_open port n acc' ∙ o)

  pub try_listen_good :
      (a : Answers) (n : ℕ) (acc : Acceptor)
      → (try_listen a n acc).0 ≡ true
      → is_open (try_listen a n acc).1 ≡ true
  try_listen_good a n acc e = by_state (Bool-cases (is_open acc))
    where
      by_state :
          (is_open acc ≡ true) ⊎ (is_open acc ≡ false) → is_open (try_listen a n acc).1 ≡ true
      by_state (inl h) = absurd (cc (e, try_listen_open a n acc h))
      by_state (inr h) =
          let (answer, state) = try_listen_shut a.socket a.port n acc h in
          state ∙ both a.socket a.port (sym answer ∙ e)
        where
          both : (x y : Bool) → (x && y) ≡ true → x ≡ true
          both true y q = refl
          both false y q = q
