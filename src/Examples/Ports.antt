-- ===== src/Examples/Ports.antt =====
-- An acceptor that is open or not, and servers that start and stop.
use iriseus.Prelude.{◌≡◌, refl, Bool, true, false, Option, none, some, List, [], ◌∷◌, All}
use iriseus.Net.Acceptor.{AcceptorLib, Answers}
use iriseus.Stream.Flip.{new_flip}
use iriseus.Stream.Starts as Receivers
use iriseus.Stream.Starts.{run-lives}
use iriseus.Ws.Server.Starts as Listeners
use iriseus.Ws.Server.Starts.{started_once}

abbrev opened : Bool → Bool → Option Bool
opened false a = none
opened true true = none
opened true false = some true

opened_twice : (socket a : Bool) → a ≡ true → opened socket a ≡ none
opened_twice false a h = refl
opened_twice true a h = rw h refl

opened_given : (a : Bool) → a ≡ false → (a' : Bool) × (opened true a ≡ some a') × (a' ≡ true)
opened_given a h = (true, rw h refl, refl)

abbrev flag : AcceptorLib
flag = record {
  Acceptor = Bool;
  new = false;
  is_open = λ a. a;
  opened = opened;
  listen = λ port n a. (port, a);
  close = λ a. false;
  is_open-new = refl;
  open_twice = opened_twice;
  open_refused = λ a. refl;
  open_given = opened_given;
  listen_given = λ port n a h. refl;
  listen_open = λ port n a. refl;
  is_open-close = λ a. refl;
}

abbrev granted : Answers
granted = record { socket = true; port = true }

-- The port is taken.
abbrev taken : Answers
taken = record { socket = true; port = false }

abbrev days : List (Receivers.Event flag)
days =
    Receivers.starts true granted
    ∷ Receivers.starts true granted
    ∷ Receivers.stops
    ∷ Receivers.starts false granted
    ∷ Receivers.starts true taken
    ∷ Receivers.stops
    ∷ Receivers.starts true granted
    ∷ []

run-lives_example :
    let r = Receivers.run flag days (Receivers.new_starter flag 45679 0 0 new_flip) in
    (r.0 ≡ true ∷ false ∷ false ∷ false ∷ false ∷ [])
    × ((r.1.running ≡ false) × (r.1.acceptor ≡ true))
run-lives_example =
    run-lives flag days Receivers.shut (Receivers.new_starter flag 45679 0 0 new_flip) (refl, refl)

started_once_example :
    All
      (λ ok. ok ≡ false)
      (Listeners.run flag
        (Listeners.stops ∷ Listeners.starts granted ∷ [])
        (Listeners.start flag granted (Listeners.new_listener flag 45678)).1).0
unfolding Listeners.start
started_once_example =
    started_once flag granted (Listeners.stops ∷ Listeners.starts granted ∷ [])
      (Listeners.new_listener flag 45678) refl
