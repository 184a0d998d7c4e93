-- ===== src/Ws/Writer/Order.antt =====
-- The order of the messages of a session of src/core/WsSession.cpp.
use iriseus.Prelude.{
  ◌≡◌, ◌≢◌, refl, ◌∙◌, inl, inr, Bytes, true, false, not, Bool, is_empty, List, [], ◌∷◌, ◌++◌,
  append_assoc, ap, append-nil, Bool-cases, if◌then◌else◌, arith,
}
use iriseus.Ws.Writer.{
  Writer, idle, send, completed, failed, ended, Event, sends, succeeds, fails, step, run, messages,
  pop_front, front,
}

-- While no write failed, one is in flight exactly when there is a message in the queue; after a
-- failure nothing is in flight and the queue is stuck behind the message whose write failed.
pub record Ordered (sent : List Bytes) (w : Writer) : Type 0 where
  pub all_there : w.popped ++ w.queue ≡ sent
  pub one_at_a_time : w.overlapped ≡ false
  pub in_turn : w.broken ≡ false → w.in_flight ≡ not (is_empty w.queue)
  pub stuck : w.broken ≡ true → (w.in_flight ≡ false) × (w.queue ≢ [])

Ordered-sends :
    (sent : List Bytes) (m : Bytes) (w : Writer)
    → Ordered sent w
    → Ordered (sent ++ m ∷ []) (send m w)
unfolding send
Ordered-sends sent m w o = ground (arith, append_assoc w.popped w.queue (m ∷ []))

front-append-pop_front : (q : List Bytes) → front q ++ pop_front q ≡ q
front-append-pop_front [] = refl
front-append-pop_front (x ∷ q) = refl

Ordered-completed :
    (sent : List Bytes) (w : Writer)
    → w.in_flight ≡ true
    → Ordered sent w
    → Ordered sent (completed w)
unfolding completed
Ordered-completed sent w e o = ground (
  arith,
  append_assoc w.popped (front w.queue) (pop_front w.queue),
  front-append-pop_front w.queue,
)

Ordered-failed :
    (sent : List Bytes) (w : Writer) → w.in_flight ≡ true → Ordered sent w → Ordered sent (failed w)
unfolding failed
Ordered-failed sent w e o = ground arith

ended_idle : (good : Bool) (w : Writer) → w.in_flight ≡ false → ended good w.in_flight w ≡ w
unfolding ended
ended_idle good w idles = ap (λ b. ended good b w) idles

ended_flying :
    (good : Bool) (w : Writer)
    → w.in_flight ≡ true
    → ended good w.in_flight w ≡ (if good then completed w else failed w)
unfolding ended
ended_flying good w flies = ap (λ b. ended good b w) flies

Ordered-step :
    (sent : List Bytes) (w : Writer) (e : Event)
    → Ordered sent w
    → Ordered (sent ++ messages (e ∷ [])) (step w e)
unfolding step messages ended
Ordered-step sent w (sends m) o = Ordered-sends sent m w o
Ordered-step sent w succeeds o = elim (Bool-cases w.in_flight) [
  | inr nothing ↦ rw (append-nil sent, ended_idle true w nothing) o
  | inl flies ↦ rw (append-nil sent, ended_flying true w flies) (Ordered-completed sent w flies o)
]
Ordered-step sent w fails o = elim (Bool-cases w.in_flight) [
  | inr nothing ↦ rw (append-nil sent, ended_idle false w nothing) o
  | inl flies ↦ rw (append-nil sent, ended_flying false w flies) (Ordered-failed sent w flies o)
]

messages-cons : (e : Event) (es : List Event) → messages (e ∷ es) ≡ messages (e ∷ []) ++ messages es
unfolding messages
messages-cons (sends m) es = refl
messages-cons succeeds es = refl
messages-cons fails es = refl

Ordered-run :
    (sent : List Bytes) (w : Writer) (es : List Event)
    → Ordered sent w
    → Ordered (sent ++ messages es) (run w es)
unfolding run
Ordered-run sent w [] o = unfold messages in rw (append-nil sent) o
Ordered-run sent w (e ∷ es) o =
    rw (messages-cons e es, ← append_assoc sent (messages (e ∷ [])) (messages es))
      (Ordered-run (sent ++ messages (e ∷ [])) (step w e) es (Ordered-step sent w e o))

-- After any sends and any completions, from a fresh session: the messages that have left the queue
-- followed by those in it are the messages sent, in order; no write was started during another;
-- unless a write failed, one is in flight exactly when the queue has a message, and after a failure
-- none is, though the queue has a message. Which bytes a write puts on the connection is left open.
pub run-Ordered : (es : List Event) → Ordered (messages es) (run idle es)
run-Ordered es = Ordered-run [] idle es (record {
  all_there = refl;
  one_at_a_time = refl;
  in_turn = λ _. refl;
  stuck = λ h. absurd (cc);
})

-- A session in which a write failed.
record Dead (w : Writer) : Type 0 where
  nothing : w.in_flight ≡ false
  waiting : w.queue ≢ []

Dead-step : (w : Writer) (e : Event) → Dead w → Dead (step w e) × ((step w e).popped ≡ w.popped)
unfolding step send ended
Dead-step w (sends m) d = ground arith
Dead-step w succeeds d = ground arith
Dead-step w fails d = ground arith

Dead-run : (w : Writer) (es : List Event) → Dead w → (run w es).popped ≡ w.popped
unfolding run
Dead-run w [] d = refl
Dead-run w (e ∷ es) d = let (d', same) = Dead-step w e d in Dead-run (step w e) es d' ∙ same

-- Once a write has failed, no message leaves the queue any more, whatever is sent and whatever completes.
pub popped_after_failure :
    (es more : List Event)
    → (run idle es).broken ≡ true
    → (run (run idle es) more).popped ≡ (run idle es).popped
popped_after_failure es more h =
    let (n, q) = (run-Ordered es).stuck h in
    Dead-run (run idle es) more (record { nothing = n; waiting = q })
