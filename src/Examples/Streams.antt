-- ===== src/Examples/Streams.antt =====
-- Two segments with two NALUs, and what the receiver makes of them; one session of the server.
use iriseus.Prelude.{◌≡◌, refl, Bytes, true, some, List, [], ◌∷◌, ◌++◌, arith, nat_eq}
use iriseus.Prelude.Assoc.{lookup}
use iriseus.Net.{read_exact}
use iriseus.Net.Exact.{ReadsExactly, read_exact-ReadsExactly}
use iriseus.Net.Segments.{segments, Segments, concat}
use iriseus.Wire.{frame, to_be32}
use iriseus.Stream.{
  Turn, accept, receive, decode, halt, clear, start, max_nalu_size, max_queue_depth,
}
use iriseus.Stream.Queue.{Ordered, run-start-Ordered}
use iriseus.Stream.Delivery.{burst_decoded, serving, turns}
use iriseus.Stream
use iriseus.Ws.Writer.{idle, send, do_write, sends, fails, messages, ended, failed}
use iriseus.Ws.Writer
use iriseus.Ws.Writer.Order
use iriseus.Ws.Server.{Server, connects, disconnects, sends_to, broadcasts, writes}
use iriseus.Ws.Server
use iriseus.Ws.Server.Sessions.{lookup-run, seen_by}

-- The NALUs 1, 2, 3 and 4, cut in the middle of the first length.
abbrev arriving : Segments
arriving = (0 ∷ 0 ∷ []) ∷ (0 ∷ 3 ∷ 1 ∷ 2 ∷ 3 ∷ 0 ∷ 0 ∷ 0 ∷ 1 ∷ 4 ∷ []) ∷ []

abbrev some_turns : List (Turn Segments)
some_turns = accept (some arriving) ∷ receive ∷ decode ∷ receive ∷ halt ∷ receive ∷ clear ∷ []

read_exact-ReadsExactly_example : ReadsExactly segments arriving 4 (read_exact segments arriving 4)
read_exact-ReadsExactly_example = read_exact-ReadsExactly segments arriving 4

run-start-Ordered_example : Ordered (Stream.run segments (start Segments) some_turns)
run-start-Ordered_example = run-start-Ordered segments some_turns

abbrev nalus : List Bytes
nalus = (1 ∷ 2 ∷ 3 ∷ []) ∷ (4 ∷ []) ∷ []

burst_decoded_example :
    (s : Segments) × (Stream.run segments
        (serving arriving [] [] [] (true ∷ []))
        (turns 2 receive ++ turns 2 decode)
      ≡ serving s [] nalus nalus (true ∷ []))
    × (concat s ≡ [])
unfolding frame to_be32
burst_decoded_example =
    burst_decoded segments nalus arriving [] [] (true ∷ []) []
      ((omega arith, omega arith), ((omega arith, omega arith), tt)) (omega arith) refl

run-Ordered_example :
    Order.Ordered
      (messages (sends (1 ∷ []) ∷ sends (2 ∷ []) ∷ []))
      (Writer.run idle (sends (1 ∷ []) ∷ sends (2 ∷ []) ∷ []))
run-Ordered_example = Order.run-Ordered (sends (1 ∷ []) ∷ sends (2 ∷ []) ∷ [])

-- Two sessions, of which the first is idle.
abbrev serving_two : Server
serving_two = record { running = true; next_id = 3; sessions = (2, idle) ∷ (1, idle) ∷ [] }

abbrev server_events : List Server.Event
server_events = sends_to 1 (7 ∷ []) ∷ connects ∷ broadcasts (8 ∷ []) ∷ disconnects 2 ∷ []

lookup-run_example :
    lookup 1 (Server.run serving_two server_events).sessions
    ≡ some (Writer.run idle (seen_by 1 server_events))
unfolding lookup
lookup-run_example =
    lookup-run 1 server_events serving_two idle refl (omega arith) (omega arith) refl
      ((λ e. absurd (omega arith)), tt)
