-- ===== src/Transfer/Server/Unsaved.antt =====
-- The turns of a connection of src/core/FileTransferServer.cpp whose transfer has been cancelled.
use iriseus.Prelude.{
  ℕ, ◌≡◌, Bytes, Bool, true, Option, none, some, List, ◌||◌, not, bytes_eq, if_cases, is_empty,
  nat_beq, arith,
}
use iriseus.Net.{SocketLib}
use iriseus.Transfer.Files.{HashLib, PathLib}
use iriseus.Transfer.Disk.{DiskLib}
use iriseus.Transfer.Upload.{done, failed, send_interrupted}
use iriseus.Transfer.Server.{
  Shared, Received, Sent, Server, Stage, handshaking, opening, testing, reading, closing, giving_up,
  discarding, naming, moving, asking, serving, sending, served, reporting, finished, Turn, created,
  received, closes, asked, sends, send_verdict, turn, elem, goes_on, piece,
}

module _ (net : SocketLib) (disks : DiskLib) (sha : HashLib) (paths : PathLib) (n : ℕ) where
  open net use {Sock}
  open disks use {Disk, File}

  -- A connection that serves the object `n`, which has not passed the checks behind its loop, or
  -- one that has failed.
  unfoldable pub Unsaved : Stage net disks sha → Type 0
  Unsaved (handshaking s) = ⊥
  Unsaved (opening k s) = k.number ≡ n
  Unsaved (testing k s g v) = k.number ≡ n
  Unsaved (reading k s g v) = k.number ≡ n
  Unsaved (closing k v) = k.number ≡ n
  Unsaved (giving_up k) = k.number ≡ n
  Unsaved (discarding k why) = k.number ≡ n
  Unsaved (naming k path count) = ⊥
  Unsaved (moving k path) = ⊥
  Unsaved (asking k) = k.number ≡ n
  Unsaved (serving k g v) = k.number ≡ n
  Unsaved (sending k g v) = k.number ≡ n
  Unsaved (served k v) = k.number ≡ n
  Unsaved (reporting k done) = ⊥
  Unsaved (reporting k (failed why)) = k.number ≡ n
  Unsaved (finished none) = ⊥
  Unsaved (finished (some done)) = ⊥
  Unsaved (finished (some (failed why))) = Unit

  created-Unsaved :
      (k : Shared) (s : Sock) (d : Disk) (o : Option (File × Disk))
      → k.number ≡ n
      → Unsaved (created net disks sha k s d o).stage
  unfolding created Unsaved
  created-Unsaved k s d none a = a
  created-Unsaved k s d (some (g, d')) a = a

  received-Unsaved :
      (k : Shared) (g : File) (v : Received net disks sha) (o : Option (Bytes × Sock))
      (w : Server net disks sha)
      → k.number ≡ n
      → Unsaved (received net disks sha k g v o w).stage
  unfolding received Unsaved
  received-Unsaved k g v none w a = a
  received-Unsaved k g v (some (chunk, s)) w a = a

  asked-Unsaved : (k : Shared) (o : Option File) → k.number ≡ n → Unsaved (asked net disks sha k o)
  unfolding asked Unsaved
  asked-Unsaved k none a = a
  asked-Unsaved k (some g) a = a

  sends-Unsaved :
      (header payload : Bool) (k : Shared) (g : File) (v : Sent net disks sha) (chunk : Bytes)
      (w : Server net disks sha)
      → k.number ≡ n
      → Unsaved (sends net disks sha header payload k g v chunk w).stage
  unfolding sends Unsaved
  sends-Unsaved header payload k g v chunk w a =
      let P : Turn net disks sha → Type 0 = λ t. Unsaved t.stage in
      if_cases P (is_empty chunk) _ _ (λ e. a)
        (λ e.
          if_cases P (not header) _ _ (λ e. a)
            (λ e. if_cases P (not payload) _ _ (λ e. a) (λ e. a)))

  or_true : (a b : Bool) → (a || true || b) ≡ true
  or_true a b = ground arith

  closes_cancelled :
      (k : Shared) (v : Received net disks sha) → closes net disks sha k v true ≡ giving_up k
  unfolding closes
  closes_cancelled k v = rw (or_true v.error (not (nat_beq v.total k.session.expected_size)))

  send_verdict_cancelled :
      (k : Shared) (v : Sent net disks sha)
      → send_verdict net disks sha k v true ≡ failed send_interrupted
  unfolding send_verdict
  send_verdict_cancelled k v = rw (or_true v.error (not (nat_beq v.total k.session.expected_size)))

  flag_set : (k : Shared) (l : List ℕ) → k.number ≡ n → elem n l ≡ true → elem k.number l ≡ true
  flag_set k l e h = rw e h

  pub turn-Unsaved :
      (header payload : Bool) (w : Server net disks sha) (st : Stage net disks sha)
      → elem n w.cancelled ≡ true
      → Unsaved st
      → Unsaved (turn net disks sha paths header payload w st).stage
  unfolding turn Unsaved
  turn-Unsaved header payload w (handshaking s) h a = absurd a
  turn-Unsaved header payload w (opening k s) h a = created-Unsaved k s _ _ a
  turn-Unsaved header payload w (testing k s g v) h a =
      if_cases Unsaved (goes_on net disks sha k v.total w) _ _ (λ e. a) (λ e. a)
  turn-Unsaved header payload w (reading k s g v) h a = received-Unsaved k g v _ w a
  turn-Unsaved header payload w (closing k v) h a =
      rw (flag_set k w.cancelled a h, closes_cancelled k v) a
  turn-Unsaved header payload w (giving_up k) h a = a
  turn-Unsaved header payload w (discarding k why) h a = a
  turn-Unsaved header payload w (naming k path count) h a = absurd a
  turn-Unsaved header payload w (moving k path) h a = absurd a
  turn-Unsaved header payload w (asking k) h a = asked-Unsaved k _ a
  turn-Unsaved header payload w (serving k g v) h a =
      if_cases Unsaved (goes_on net disks sha k v.total w) _ _ (λ e. a) (λ e. a)
  turn-Unsaved header payload w (sending k g v) h a =
      sends-Unsaved header payload k g v (piece net disks sha k g v w.disk) w a
  turn-Unsaved header payload w (served k v) h a =
      rw (flag_set k w.cancelled a h, send_verdict_cancelled k v) a
  turn-Unsaved header payload w (reporting k done) h a = absurd a
  turn-Unsaved header payload w (reporting k (failed why)) h a = tt
  turn-Unsaved header payload w (finished none) h a = absurd a
  turn-Unsaved header payload w (finished (some done)) h a = absurd a
  turn-Unsaved header payload w (finished (some (failed why))) h a = tt
