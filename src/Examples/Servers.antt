-- ===== src/Examples/Servers.antt =====
-- The server of files with its threads, on a disk with one file that is none of its business.
use iriseus.Prelude.{
  ℕ, zero, suc, ◌≡◌, refl, Bytes, true, false, some, List, [], ◌∷◌, codes, bytes_eq, bytes_beq, All,
}
use iriseus.Prelude.Assoc.{lookup}
use iriseus.Net.{read_exact, read_exact_loop}
use iriseus.Net.Segments.{segments, Segments}
use iriseus.Wire.{next_frame, be32}
use iriseus.Transfer.Hex.{uuid, to_hex}
use iriseus.Transfer.Sessions.{new_session, mobile_upload_to_pc, find_session}
use iriseus.Transfer.Upload.{done}
use iriseus.Transfer.Server.{Shared, Server, off, Stage, finished, testing, nothing_received}
use iriseus.Transfer.Server.Steps.{
  Step, starts, looks, accepts, registers, cancels, stop_begins, stop_ends, turns, run, get_elem?,
}
use iriseus.Transfer.Server.Unsaved.{Unsaved}
use iriseus.Transfer.Server.Settled.{Settled}
use iriseus.Transfer.Server.Told.{run-Settled}
use iriseus.Transfer.Server.Cancelled.{cancels-Unsaved}
use iriseus.Transfer.Server.OtherFiles.{Clear, Leaves, run-Held}
use iriseus.Transfer.Sessions.Every.{Every}
use iriseus.Transfer.Hex.{strip_dashes}
use iriseus.Transfer.Server.AllBut.{AllBut}
use iriseus.Transfer.Server.Owner.{Announced}
use iriseus.Transfer.Server.Alone.{Gone, Entry, Peaceful}
use iriseus.Transfer.Server.Saves.{run-Saves}
use iriseus.Transfer.Server.Bystander.{Away}
use iriseus.Examples.Entries.{entries-Appends, taken}
use iriseus.Prelude.{inl, false, none, arith}
use iriseus.Transfer.Server.Steps.{step}
use iriseus.Examples.Libraries.{plain_hash, flat_paths}
use iriseus.Examples.Places.{place_of, bytes_at, put, repath, hits}
use iriseus.Examples.Entries.{entries, opened, moved_to}

abbrev Machine : Type 0
Machine = Server segments entries plain_hash

abbrev Event : Type 0
Event = Step segments entries plain_hash flat_paths

abbrev still : Machine
still = record {
  running = false;
  stopping = false;
  acceptor = off;
  table = [];
  next = 0;
  cancelled = [];
  threads = [];
  disk = (some (codes "other"), 1 ∷ []) ∷ [];
  calls = [];
}

abbrev zeros : ℕ → Bytes
zeros zero = []
zeros (suc n) = 0 ∷ zeros n

abbrev some_id : Bytes
some_id = codes "00000000-0000-0000-0000-000000000000"

-- A handshake for this transfer, and two bytes in two frames.
abbrev sends_two : ℕ → ℕ → Segments
sends_two a b = zeros 49 ∷ (0 ∷ 0 ∷ 0 ∷ 1 ∷ a ∷ []) ∷ (0 ∷ 0 ∷ 0 ∷ 1 ∷ b ∷ []) ∷ []

abbrev waits_for : Bytes → Event
waits_for hash =
    registers some_id (codes "k") (codes "k") (codes "photo") 2 hash mobile_upload_to_pc

abbrev by : ℕ → Event
by i = turns i true true

-- Two connections for the same transfer; the first has the announced hash.
abbrev both : List Event
both =
    starts true
    ∷ waits_for (codes "0506")
    ∷ looks
    ∷ accepts (some (sends_two 5 6))
    ∷ looks
    ∷ accepts (some (sends_two 7 8))
    ∷ by 0
    ∷ by 0
    ∷ by 1
    ∷ by 1
    ∷ by 0
    ∷ by 0
    ∷ by 1
    ∷ by 1
    ∷ by 0
    ∷ by 0
    ∷ by 1
    ∷ by 1
    ∷ by 0
    ∷ by 0
    ∷ by 0
    ∷ by 0
    ∷ by 0
    ∷ []

after_both : Machine
unfolding run
after_both = run segments entries plain_hash flat_paths both still

-- The first connection received 5 and 6, checked their hash and reported that it is done: the saved
-- file holds what the second one wrote.
two_writers_first : get_elem? after_both.threads 0 ≡ some (finished (some done))
unfolding after_both read_exact read_exact_loop find_session bytes_beq uuid next_frame be32 place_of
    put opened moved_to
two_writers_first = refl

two_writers_saved :
    (place_of after_both.disk (codes "photo") ≡ some 1) × (bytes_at after_both.disk 1 ≡ 7 ∷ 8 ∷ [])
unfolding after_both place_of bytes_at read_exact read_exact_loop find_session bytes_beq uuid
    next_frame be32 put opened moved_to repath
two_writers_saved = (refl, refl)

still-Clear : Clear segments entries plain_hash flat_paths (codes "other") 0 (1 ∷ []) still
unfolding place_of hits bytes_at Every bytes_beq
still-Clear = record { held = record { name = refl; bytes = refl }; table = tt; threads = tt }

abbrev stopped : List Event
stopped =
    starts true
    ∷ waits_for (codes "0506")
    ∷ looks
    ∷ accepts (some (sends_two 5 6))
    ∷ by 0
    ∷ by 0
    ∷ cancels some_id
    ∷ stop_begins
    ∷ looks
    ∷ stop_ends
    ∷ []

stopped-Leaves :
    All (Leaves segments entries plain_hash flat_paths (codes "other") 0 (1 ∷ [])) stopped
unfolding Leaves bytes_beq
stopped-Leaves = (tt, (refl, (tt, (tt, (tt, (tt, (tt, (tt, (tt, (tt, tt))))))))))

run-Held_example :
    (place_of (run segments entries plain_hash flat_paths stopped still).disk (codes "other")
      ≡ some 0)
    × (bytes_at (run segments entries plain_hash flat_paths stopped still).disk 0 ≡ 1 ∷ [])
run-Held_example =
    run-Held segments entries plain_hash flat_paths (codes "other") 0 (1 ∷ []) stopped still
      stopped-Leaves still-Clear

abbrev expected : Shared
expected = record {
  number = 0;
  session =
      new_session some_id (codes "k") (codes "k") (codes "photo") 2 (codes "0506")
        mobile_upload_to_pc;
}

-- A connection in its loop.
abbrev serving : Machine
serving = record still {
  running = true;
  table = (some_id, expected) ∷ [];
  next = 1;
  threads = testing expected (sends_two 5 6) 0 (nothing_received segments entries plain_hash) ∷ [];
}

cancels-Unsaved_example :
    (st : Stage segments entries plain_hash) × (get_elem?
        (run segments entries plain_hash flat_paths
          (cancels some_id ∷ by 0 ∷ by 0 ∷ [])
          serving).threads
        0
      ≡ some st)
    × Unsaved segments entries plain_hash flat_paths 0 st
unfolding lookup Unsaved bytes_beq
cancels-Unsaved_example =
    cancels-Unsaved segments entries plain_hash flat_paths (by 0 ∷ by 0 ∷ []) expected 0
      (testing expected (sends_two 5 6) 0 (nothing_received segments entries plain_hash)) some_id
      serving refl refl refl

abbrev afterwards : List Event
afterwards = by 0 ∷ by 0 ∷ cancels some_id ∷ by 0 ∷ by 0 ∷ by 0 ∷ by 0 ∷ by 0 ∷ []

run-Settled_example :
    let w' = run segments entries plain_hash flat_paths afterwards serving in
    (st' : Stage segments entries plain_hash) × (get_elem? w'.threads 0 ≡ some st')
    × Settled segments entries plain_hash flat_paths expected w'.calls st'
unfolding Settled
run-Settled_example =
    run-Settled segments entries plain_hash flat_paths expected 0 afterwards serving
      (testing expected (sends_two 5 6) 0 (nothing_received segments entries plain_hash)) refl refl

-- The same connection with its empty file, and another one that is through.
abbrev part : Bytes
part = codes "photo.part"

abbrev receiving : Machine
receiving = record serving {
  threads =
      testing expected ((0 ∷ 0 ∷ 0 ∷ 1 ∷ 5 ∷ []) ∷ (0 ∷ 0 ∷ 0 ∷ 1 ∷ 6 ∷ []) ∷ []) 1
        (nothing_received segments entries plain_hash)
      ∷ finished none
      ∷ [];
  disk = (some (codes "other"), 1 ∷ []) ∷ (some part, []) ∷ [];
}

abbrev meanwhile : List Event
meanwhile =
    by 0
    ∷ by 0
    ∷ registers (codes "z") (codes "k") (codes "k") (codes "zoo") 2 [] mobile_upload_to_pc
    ∷ by 0
    ∷ by 0
    ∷ by 1
    ∷ by 0
    ∷ cancels (codes "z")
    ∷ by 0
    ∷ by 0
    ∷ []

receiving_others :
    AllBut (Gone segments entries plain_hash flat_paths part 1 some_id expected) 0 receiving.threads
unfolding AllBut Away
receiving_others = (tt, tt)

receiving_table :
    All (Entry segments entries plain_hash flat_paths part 1 some_id expected) receiving.table
unfolding Entry strip_dashes bytes_beq
receiving_table = (inl refl, tt)

meanwhile-Peaceful :
    All (Peaceful segments entries plain_hash flat_paths part 1 some_id expected) meanwhile
unfolding Peaceful strip_dashes bytes_beq
meanwhile-Peaceful = (tt, (tt, (refl, (tt, (tt, (tt, (tt, (refl, (tt, (tt, tt))))))))))

run-Saves_example :
    let w' = run segments entries plain_hash flat_paths meanwhile receiving in
    let w'' = step segments entries plain_hash flat_paths (by 0) w' in
    (taken w'.disk (codes "photo") ≡ false)
    × (place_of w''.disk (codes "photo") ≡ some 1)
    × Announced plain_hash expected.session (bytes_at w''.disk 1)
unfolding place_of bytes_at bytes_beq hits run next_frame read_exact read_exact_loop be32 to_hex
    repath put moved_to
run-Saves_example =
    run-Saves segments entries plain_hash flat_paths part 1 some_id expected entries-Appends 0 true
      true meanwhile ((0 ∷ 0 ∷ 0 ∷ 1 ∷ 5 ∷ []) ∷ (0 ∷ 0 ∷ 0 ∷ 1 ∷ 6 ∷ []) ∷ []) expected
      (codes "photo") receiving refl refl (omega arith) refl refl receiving_others receiving_table
      meanwhile-Peaceful refl refl
