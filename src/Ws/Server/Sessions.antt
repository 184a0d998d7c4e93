-- ===== src/Ws/Server/Sessions.antt =====
-- The sessions of the server, each by itself.
use iriseus.Prelude.{
  ℕ, ◌+◌, ◌^◌, ◌<◌, ◌≡◌, ◌≢◌, refl, ap, ◌∙◌, Bytes, Bool, true, false, some, List, [], ◌∷◌, nat_eq,
  nat_beq, if◌then◌else◌, length, arith,
}
use iriseus.Prelude.Assoc.{Assoc, lookup, lookup-insert, lookup-erase}
use iriseus.Ws.Writer.{
  Writer, idle, send, ended, Event as WriterEvent, sends, step as write_step, run as write_run,
  succeeds, fails,
}
use iriseus.Ws.Server.{
  Server, accepted, remove_session, changed, send_to, sent_to_all, broadcast, Event, connects,
  disconnects, sends_to, broadcasts, writes, stops, step, run,
}

lookup-changed :
    (id j : ℕ) (f : Writer → Writer) (m : Assoc ℕ Writer) (w : Writer)
    → lookup j m ≡ some w
    → lookup j (changed id f m) ≡ some (if nat_beq id j then f w else w)
unfolding lookup changed
lookup-changed id j f [] w h = ground arith
lookup-changed id j f ((key, v) ∷ m) w h = ground (arith, lookup-changed id j f m w)

lookup-sent_to_all :
    (j : ℕ) (message : Bytes) (m : Assoc ℕ Writer) (w : Writer)
    → lookup j m ≡ some w
    → lookup j (sent_to_all message m) ≡ some (send message w)
unfolding lookup sent_to_all
lookup-sent_to_all j message [] w h = ground arith
lookup-sent_to_all j message ((key, v) ∷ m) w h = ground (arith, lookup-sent_to_all j message m w)

-- The end of a write.
abbrev pub own_write : Bool → WriterEvent
own_write true = succeeds
own_write false = fails

-- What the events of the server are for the session `j`.
abbrev pub seen_by : ℕ → List Event → List WriterEvent
seen_by j [] = []
seen_by j (sends_to i message ∷ es) =
    let rest = seen_by j es in if nat_beq i j then sends message ∷ rest else rest
seen_by j (broadcasts message ∷ es) = sends message ∷ seen_by j es
seen_by j (writes i good ∷ es) =
    let rest = seen_by j es in if nat_beq i j then own_write good ∷ rest else rest
seen_by j (connects ∷ es) = seen_by j es
seen_by j (disconnects i ∷ es) = seen_by j es
seen_by j (stops ∷ es) = seen_by j es

-- The session `j` is not disconnected and the server is not stopped.
abbrev pub Stays : ℕ → List Event → Type 0
Stays j [] = Unit
Stays j (disconnects i ∷ es) = (i ≢ j) × Stays j es
Stays j (stops ∷ es) = ⊥
Stays j (connects ∷ es) = Stays j es
Stays j (sends_to i message ∷ es) = Stays j es
Stays j (broadcasts message ∷ es) = Stays j es
Stays j (writes i good ∷ es) = Stays j es

run_if :
    (b : Bool) (w : Writer) (e : WriterEvent) (es : List WriterEvent)
    → write_run (if b then write_step w e else w) es ≡ write_run w (if b then e ∷ es else es)
unfolding write_run
run_if true w e es = refl
run_if false w e es = refl

accepted_lem :
    (j : ℕ) (s : Server)
    → s.running ≡ true
    → j < s.next_id
    → s.next_id + 1 < 2 ^ 64
    → ((accepted s).running ≡ true)
      × ((accepted s).next_id ≡ s.next_id + 1)
      × (lookup j (accepted s).sessions ≡ lookup j s.sessions)
unfolding accepted
accepted_lem j s r b n =
    rw (r, accepted) (refl, omega arith, ground (arith, lookup-insert s.next_id j idle s.sessions))

ended_step : (good : Bool) (w : Writer) → write_step w (own_write good) ≡ ended good w.in_flight w
unfolding write_step
ended_step true w = refl
ended_step false w = refl

-- On a running server, a session of the table that has a number below the next one, is not
-- disconnected, and sees no stop, is what a writer of its own becomes by the events that concern
-- it: the messages sent to it and to all, and the ends of its writes. The events of other sessions,
-- and connections, change nothing, as long as the next number and the number of events together
-- stay below 2 ^ 64.
pub lookup-run :
    (j : ℕ) (es : List Event) (s : Server) (w : Writer)
    → s.running ≡ true
    → j < s.next_id
    → s.next_id + length es < 2 ^ 64
    → lookup j s.sessions ≡ some w
    → Stays j es
    → lookup j (run s es).sessions ≡ some (write_run w (seen_by j es))
unfolding run step write_run write_step
lookup-run j [] s w r b n h y = h
lookup-run j (connects ∷ es) s w r b n h y =
    let (r', n', same) = accepted_lem j s r b (omega arith) in
    lookup-run j es (accepted s) w r' (omega arith) (omega arith) (same ∙ h) y
lookup-run j (disconnects i ∷ es) s w r b n h (d, y) =
    lookup-run j es (remove_session i s) w r b (omega arith)
      (ground (arith, lookup-erase i j s.sessions)) y
lookup-run j (sends_to i message ∷ es) s w r b n h y =
    lookup-run j es (send_to i message s) (if nat_beq i j then send message w else w) r b
      (omega arith) (lookup-changed i j (send message) s.sessions w h) y
    ∙ ap some (run_if (nat_beq i j) w (sends message) (seen_by j es))
lookup-run j (broadcasts message ∷ es) s w r b n h y =
    lookup-run j es (broadcast message s) (send message w) r b (omega arith)
      (lookup-sent_to_all j message s.sessions w h) y
lookup-run j (writes i good ∷ es) s w r b n h y =
    lookup-run j es (step s (writes i good))
      (if nat_beq i j then write_step w (own_write good) else w) r b (omega arith)
      (rw (ended_step good w) (lookup-changed i j (λ v. ended good v.in_flight v) s.sessions w h)) y
    ∙ ap some (run_if (nat_beq i j) w (own_write good) (seen_by j es))
lookup-run j (stops ∷ es) s w r b n h y = absurd y
