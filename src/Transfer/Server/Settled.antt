-- ===== src/Transfer/Server/Settled.antt =====
-- The reports of src/core/FileTransferServer.cpp: a connection that serves a transfer reports its end.
use iriseus.Prelude.{
  ◌≡◌, refl, inl, inr, ◌⊎◌, Bytes, Bool, Option, none, some, List, [], ◌∷◌, ◌++◌, ◌&&◌, ◌||◌, not,
  bytes_eq, if_cases, is_empty, nat_beq, ◌==◌,
}
use iriseus.Net.{SocketLib}
use iriseus.Transfer.Hex.{to_hex}
use iriseus.Transfer.Files.{HashLib, PathLib}
use iriseus.Transfer.Disk.{DiskLib}
use iriseus.Transfer.Server.{
  Call, reported, Shared, Received, Sent, Server, Stage, handshaking, opening, testing, reading,
  closing, giving_up, discarding, naming, moving, asking, serving, sending, served, reporting,
  finished, Turn, created, received, closes, moved, asked, sends, turn, goes_on, piece,
}

abbrev pub Among : Call → List Call → Type 0
Among c [] = ⊥
Among c (x ∷ l) = (x ≡ c) ⊎ Among c l

pub Among-append : (c : Call) (l m : List Call) → Among c l → Among c (l ++ m)
Among-append c [] m h = absurd h
Among-append c (x ∷ l) m (inl e) = inl e
Among-append c (x ∷ l) m (inr h) = inr (Among-append c l m h)

Among-last : (c : Call) (l : List Call) → Among c (l ++ c ∷ [])
Among-last c [] = inl refl
Among-last c (x ∷ l) = inr (Among-last c l)

module _ (net : SocketLib) (disks : DiskLib) (sha : HashLib) (paths : PathLib) (k : Shared) where
  open net use {Sock}
  open disks use {Disk, File}

  -- A connection that serves `k`, or that is through with a verdict which is among the calls.
  unfoldable pub Settled : List Call → Stage net disks sha → Type 0
  Settled calls (handshaking s) = ⊥
  Settled calls (opening l s) = l ≡ k
  Settled calls (testing l s g v) = l ≡ k
  Settled calls (reading l s g v) = l ≡ k
  Settled calls (closing l v) = l ≡ k
  Settled calls (giving_up l) = l ≡ k
  Settled calls (discarding l why) = l ≡ k
  Settled calls (naming l path count) = l ≡ k
  Settled calls (moving l path) = l ≡ k
  Settled calls (asking l) = l ≡ k
  Settled calls (serving l g v) = l ≡ k
  Settled calls (sending l g v) = l ≡ k
  Settled calls (served l v) = l ≡ k
  Settled calls (reporting l v) = l ≡ k
  Settled calls (finished none) = ⊥
  Settled calls (finished (some v)) = Among (reported k.session.transfer_id v) calls

  pub Settled-more :
      (calls more : List Call)
      → ((c : Call) → Among c calls → Among c more)
      → (st : Stage net disks sha) → Settled calls st
      → Settled more st
  unfolding Settled
  Settled-more calls more m (handshaking s) h = h
  Settled-more calls more m (opening l s) h = h
  Settled-more calls more m (testing l s g v) h = h
  Settled-more calls more m (reading l s g v) h = h
  Settled-more calls more m (closing l v) h = h
  Settled-more calls more m (giving_up l) h = h
  Settled-more calls more m (discarding l why) h = h
  Settled-more calls more m (naming l path count) h = h
  Settled-more calls more m (moving l path) h = h
  Settled-more calls more m (asking l) h = h
  Settled-more calls more m (serving l g v) h = h
  Settled-more calls more m (sending l g v) h = h
  Settled-more calls more m (served l v) h = h
  Settled-more calls more m (reporting l v) h = h
  Settled-more calls more m (finished none) h = h
  Settled-more calls more m (finished (some v)) h = m (reported k.session.transfer_id v) h

  created-Settled :
      (calls : List Call) (l : Shared) (s : Sock) (d : Disk) (o : Option (File × Disk))
      → l ≡ k
      → Settled calls (created net disks sha l s d o).stage
  unfolding created Settled
  created-Settled calls l s d none a = a
  created-Settled calls l s d (some (g, d')) a = a

  received-Settled :
      (calls : List Call) (l : Shared) (g : File) (v : Received net disks sha)
      (o : Option (Bytes × Sock)) (w : Server net disks sha)
      → l ≡ k
      → Settled calls (received net disks sha l g v o w).stage
  unfolding received Settled
  received-Settled calls l g v none w a = a
  received-Settled calls l g v (some (chunk, s)) w a = a

  closes-Settled :
      (calls : List Call) (l : Shared) (v : Received net disks sha) (flag : Bool)
      → l ≡ k
      → Settled calls (closes net disks sha l v flag)
  unfolding closes Settled
  closes-Settled calls l v flag a =
      if_cases (Settled calls) (v.error || flag || not (nat_beq v.total l.session.expected_size)) _
        _ (λ e. a)
        (λ e.
          if_cases (Settled calls)
            (not (is_empty l.session.expected_sha256)
              && not (to_hex (sha.final v.hash) == l.session.expected_sha256))
            _ _ (λ _. a) (λ _. a))

  moved-Settled :
      (calls : List Call) (l : Shared) (w : Server net disks sha) (o : Option Disk)
      → l ≡ k
      → Settled calls (moved net disks sha l w o).stage
  unfolding moved Settled
  moved-Settled calls l w none a = a
  moved-Settled calls l w (some d) a = a

  asked-Settled :
      (calls : List Call) (l : Shared) (o : Option File)
      → l ≡ k
      → Settled calls (asked net disks sha l o)
  unfolding asked Settled
  asked-Settled calls l none a = a
  asked-Settled calls l (some g) a = a

  sends-Settled :
      (calls : List Call) (header payload : Bool) (l : Shared) (g : File) (v : Sent net disks sha)
      (chunk : Bytes) (w : Server net disks sha)
      → l ≡ k
      → Settled calls (sends net disks sha header payload l g v chunk w).stage
  unfolding sends Settled
  sends-Settled calls header payload l g v chunk w a =
      let P : Turn net disks sha → Type 0 = λ t. Settled calls t.stage in
      if_cases P (is_empty chunk) _ _ (λ e. a)
        (λ e.
          if_cases P (not header) _ _ (λ e. a)
            (λ e. if_cases P (not payload) _ _ (λ e. a) (λ e. a)))

  pub turn-Settled :
      (header payload : Bool) (w : Server net disks sha) (st : Stage net disks sha)
      → Settled w.calls st
      → let t = turn net disks sha paths header payload w st in Settled (w.calls ++ t.calls) t.stage
  unfolding turn Settled
  turn-Settled header payload w (handshaking s) a = absurd a
  turn-Settled header payload w (opening l s) a = created-Settled _ l s _ _ a
  turn-Settled header payload w (testing l s g v) a =
      if_cases (Settled _) (goes_on net disks sha l v.total w) _ _ (λ e. a) (λ e. a)
  turn-Settled header payload w (reading l s g v) a = received-Settled _ l g v _ w a
  turn-Settled header payload w (closing l v) a = closes-Settled _ l v _ a
  turn-Settled header payload w (giving_up l) a = a
  turn-Settled header payload w (discarding l why) a = a
  turn-Settled header payload w (naming l path count) a =
      if_cases (Settled _) (disks.exists w.disk path) _ _ (λ e. a) (λ e. a)
  turn-Settled header payload w (moving l path) a = moved-Settled _ l w _ a
  turn-Settled header payload w (asking l) a = asked-Settled _ l _ a
  turn-Settled header payload w (serving l g v) a =
      if_cases (Settled _) (goes_on net disks sha l v.total w) _ _ (λ e. a) (λ e. a)
  turn-Settled header payload w (sending l g v) a =
      sends-Settled _ header payload l g v (piece net disks sha l g v w.disk) w a
  turn-Settled header payload w (served l v) a = a
  turn-Settled header payload w (reporting l v) a =
      rw a (Among-last (reported k.session.transfer_id v) w.calls)
  turn-Settled header payload w (finished none) a = absurd a
  turn-Settled header payload w (finished (some v)) a =
      Among-append (reported k.session.transfer_id v) w.calls [] a
