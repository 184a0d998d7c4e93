-- ===== src/Ws/Life.antt =====
-- `start`, `doRead` and `onRead` of src/core/WsSession.cpp: a session from its handshake to the error
-- that ends it, and what src/core/WsServer.cpp makes of `onDisconnect`.
use iriseus.Prelude.{
  nat_eq, ℕ, zero, suc, ◌+◌, ◌≡◌, refl, ap, ◌∙◌, Bytes, Bool, true, Option, none, some, List, [],
  ◌∷◌, ◌++◌, if◌then◌else◌, append_assoc, append-nil,
}
use iriseus.Json.{JsonLib}
use iriseus.Ws.Dispatch.{Action, Getters, handle_message}
use iriseus.Ws.Server.{Server, remove_session}

-- Before the handshake of the WebSocket, in `async_read`, after an error, or after an exception,
-- which ends the thread of the executor.
pub data Phase : Type 0 where
  shaking reading over thrown : Phase

module _ (lib : JsonLib) where
  -- `lost` counts the calls of `onDisconnect`.
  pub record Life : Type 0 where
    pub phase : Phase
    pub actions : List (Action lib)
    pub lost : ℕ

  abbrev pub born : Life
  born = record { phase = shaking; actions = []; lost = 0 }

  -- `shakes` is the end of `async_accept`, `reads` of `async_read`: a message, or an error code,
  -- whichever it is.
  pub data Event : Type 0 where
    shakes : Bool → Event
    reads : Option Bytes → Event

  unfoldable pub handled : Option (List (Action lib)) → Life → Life
  handled none l = record l { phase = thrown }
  handled (some actions) l = record l { actions = l.actions ++ actions }

  unfoldable pub on_read : Getters lib → Option Bytes → Life → Life
  unfolding handled handle_message
  on_read g none l = record l { phase = over; lost = l.lost + 1 }
  on_read g (some raw) l = handled (handle_message lib g raw) l

  -- A handshake that fails returns without `onDisconnect`.
  unfoldable pub happens : Getters lib → Phase → Event → Life → Life
  unfolding on_read
  happens g shaking (shakes good) l = record l { phase = if good then reading else over }
  happens g shaking (reads message) l = l
  happens g reading (shakes good) l = l
  happens g reading (reads message) l = on_read g message l
  happens g over e l = l
  happens g thrown e l = l

  unfoldable pub live : Getters lib → List Event → Life → Life
  unfolding happens
  live g [] l = l
  live g (e ∷ es) l = live g es (happens g l.phase e l)

  -- What the server's callback does, once for each call.
  unfoldable pub disconnected : ℕ → ℕ → Server → Server
  unfolding remove_session
  disconnected id zero s = s
  disconnected id (suc n) s = disconnected id n (remove_session id s)

  -- The messages one by one; `none` if one of them throws.
  unfoldable pub joined :
      Option (List (Action lib)) → Option (List (Action lib)) → Option (List (Action lib))
  joined none rest = none
  joined (some actions) none = none
  joined (some actions) (some rest) = some (actions ++ rest)

  unfoldable pub all_handled : Getters lib → List Bytes → Option (List (Action lib))
  unfolding joined
  all_handled g [] = some []
  all_handled g (raw ∷ more) = joined (handle_message lib g raw) (all_handled g more)

  abbrev pub messages : List Bytes → List Event → List Event
  messages [] es = es
  messages (raw ∷ more) es = reads (some raw) ∷ messages more es

  over_stays :
      (g : Getters lib) (es : List Event) (acts : List (Action lib)) (n : ℕ)
      → live g es (record { phase = over; actions = acts; lost = n })
        ≡ record { phase = over; actions = acts; lost = n }
  unfolding live happens
  over_stays g [] acts n = refl
  over_stays g (e ∷ es) acts n = over_stays g es acts n

  joined-some :
      (a b : Option (List (Action lib))) (acts : List (Action lib))
      → joined a b ≡ some acts
      → (x y : List (Action lib)) × (a ≡ some x) × (b ≡ some y) × (x ++ y ≡ acts)
  unfolding joined
  joined-some none b acts h = absurd (cc)
  joined-some (some x) none acts h = absurd (cc)
  joined-some (some x) (some y) acts h = (x, y, refl, refl, cc)

  live_reading :
      (g : Getters lib) (raws : List Bytes) (es : List Event) (before acts : List (Action lib))
      → all_handled g raws ≡ some acts
      → live g
          (messages raws (reads none ∷ es))
          (record { phase = reading; actions = before; lost = 0 })
        ≡ record { phase = over; actions = before ++ acts; lost = 1 }
  unfolding all_handled live happens on_read handled
  live_reading g [] es before acts h =
      let e : acts ≡ [] = cc in rw (e, append-nil before) (over_stays g es before 1)
  live_reading g (raw ∷ raws) es before acts h =
      let (x, y, a, b, j) = joined-some (handle_message lib g raw) (all_handled g raws) acts h in
      ap
        (λ o.
          live g (messages raws (reads none ∷ es))
            (handled o (record { phase = reading; actions = before; lost = 0 })))
        a
      ∙ live_reading g raws es (before ++ x) y b
      ∙ ap (λ l. record { phase = over; actions = l; lost = 1 })
          (append_assoc before x y ∙ ap (λ l. before ++ l) j)

  -- A session whose handshake succeeds, that gets messages of which none throws and then an error,
  -- does for each message what `handleMessage` does, in order, and calls `onDisconnect` once,
  -- whatever comes behind the error.
  pub live-messages :
      (g : Getters lib) (raws : List Bytes) (es : List Event) (acts : List (Action lib))
      → all_handled g raws ≡ some acts
      → live g (shakes true ∷ messages raws (reads none ∷ es)) born
        ≡ record { phase = over; actions = acts; lost = 1 }
  unfolding live happens
  live-messages g raws es acts h = live_reading g raws es [] acts h
