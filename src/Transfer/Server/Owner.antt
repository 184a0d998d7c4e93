-- ===== src/Transfer/Server/Owner.antt =====
-- The turns of a connection of src/core/FileTransferServer.cpp that receives a file which nobody else
-- writes.
use iriseus.Prelude.{
  ℕ, ◌+◌, ◌^◌, ◌≤◌, ◌<◌, ◌≡◌, ◌≢◌, refl, sym, ap, subst, ◌∙◌, inl, inr, ◌⊎◌, Bytes, Bool, true,
  false, Option, none, some, [], ◌∷◌, ◌++◌, ◌==◌, ◌&&◌, ◌||◌, not, bytes_eq, bytes_beq_iff,
  if_cases, is_empty, nat_beq, length, length-append, arith,
}
use iriseus.Net.{SocketLib}
use iriseus.Wire.{next_frame}
use iriseus.Wire.Frames.{next_frame-IsCut}
use iriseus.Transfer.Hex.{to_hex}
use iriseus.Transfer.Files.{HashLib, PathLib}
use iriseus.Transfer.Disk.{DiskLib, Appends}
use iriseus.Transfer.Sessions.{Session}
use iriseus.Transfer.Upload.{max_chunk}
use iriseus.Transfer.Server.Held.{Held}
use iriseus.Transfer.Server.{
  Shared, Received, Server, Stage, handshaking, opening, testing, reading, closing, giving_up,
  discarding, naming, moving, asking, serving, sending, served, reporting, finished, received,
  closes, moved, turn, goes_on, took,
}

module _ (sha : HashLib) where
  open sha use {init, update, final}

  -- A file as it was announced.
  pub record Announced (session : Session) (body : Bytes) : Type 0 where
    pub whole : length body ≡ session.expected_size
    pub hashed :
        session.expected_sha256 ≢ [] → to_hex (final (update init body)) ≡ session.expected_sha256

module _ (net : SocketLib) (disks : DiskLib) (sha : HashLib) (paths : PathLib) (p : Bytes)
    (f : disks.File) (owner : Shared) where
  open net use {Sock}
  open disks use {Disk, File, named, inside, named-write}
  open sha use {init, update, final, update-append}

  -- What has been received so far is in the file.
  pub record Holds (body : Bytes) (v : Received net disks sha) (d : Disk) : Type 0 where
    pub held : Held disks p f body d
    pub hashed : v.hash ≡ update init body
    pub counted : v.total ≡ length body
    pub good : v.error ≡ false

  abbrev pub Received? : Received net disks sha → Disk → Type 0
  Received? v d = (body : Bytes) × Holds body v d

  abbrev pub Complete : Session → Disk → Type 0
  Complete session d = (body : Bytes) × Held disks p f body d × Announced sha session body

  -- The transfer is the owner's, has this temporary file, and its announced size leaves room for a
  -- chunk.
  abbrev pub Its : Shared → Type 0
  Its k = (k ≡ owner) × (k.session.temp_path ≡ p) × (k.session.expected_size + max_chunk ≤ 2 ^ 64)

  unfoldable pub Mine : Stage net disks sha → Disk → Type 0
  Mine (handshaking s) d = ⊥
  Mine (opening k s) d = ⊥
  Mine (testing k s g v) d = Its k × (g ≡ f) × Received? v d
  Mine (reading k s g v) d = Its k × (g ≡ f) × (v.total < k.session.expected_size) × Received? v d
  Mine (closing k v) d = Its k × ((v.error ≡ true) ⊎ Received? v d)
  Mine (giving_up k) d = Unit
  Mine (discarding k why) d = Unit
  Mine (naming k path count) d = Its k × Complete k.session d
  Mine (moving k path) d = Its k × Complete k.session d
  Mine (asking k) d = ⊥
  Mine (serving k g v) d = ⊥
  Mine (sending k g v) d = ⊥
  Mine (served k v) d = ⊥
  Mine (reporting k verdict) d = Unit
  Mine (finished verdict) d = Unit

  module _ (works : Appends disks) where
    Holds-took :
        (body chunk : Bytes) (v : Received net disks sha) (size : ℕ) (d : Disk)
        → size + max_chunk ≤ 2 ^ 64
        → v.total < size
        → length chunk ≤ max_chunk
        → Holds body v d
        → Holds (body ++ chunk) (took net disks sha chunk v) (disks.write d f v.total chunk)
    Holds-took body chunk v size d fits more small h = record {
      held = record {
        name = named-write d f v.total chunk p ∙ h.held.name;
        bytes =
            ap (λ n. inside (disks.write d f n chunk) f) h.counted
            ∙ works.inside-write d f p body chunk h.held.name h.held.bytes;
      };
      hashed = ap (λ x. update x chunk) h.hashed ∙ update-append init body chunk;
      counted = omega (arith, length-append body chunk, h.counted);
      good = h.good;
    }

    received-Mine :
        (k : Shared) (g : File) (v : Received net disks sha) (o : Option (Bytes × Sock))
        (w : Server net disks sha)
        → ((chunk : Bytes) (s : Sock) → o ≡ some (chunk, s) → length chunk ≤ max_chunk)
        → Its k × (g ≡ f) × (v.total < k.session.expected_size) × Received? v w.disk
        → Mine (received net disks sha k g v o w).stage (received net disks sha k g v o w).disk
    unfolding received Mine
    received-Mine k g v none w small (its, same, more, (body, h)) = (its, inl refl)
    received-Mine k g v (some (chunk, s)) w small (its, same, more, (body, h)) = (
      its,
      same,
      (
        body ++ chunk,
        subst
            (λ x.
              Holds (body ++ chunk) (took net disks sha chunk v)
                (disks.write w.disk x v.total chunk))
            (sym same)
            (Holds-took body chunk v k.session.expected_size w.disk its.2 more (small chunk s refl)
              h),
      ),
    )

    agreed :
        (expected x : Bytes)
        → (not (is_empty expected) && not (x == expected)) ≡ false
        → expected ≢ []
        → x ≡ expected
    agreed [] x h ne = absurd (ne refl)
    agreed (c ∷ expected) x h ne = ground (arith, bytes_beq_iff x (c ∷ expected))

    closes-Mine :
        (k : Shared) (v : Received net disks sha) (flag : Bool) (d : Disk)
        → Its k × ((v.error ≡ true) ⊎ Received? v d)
        → Mine (closes net disks sha k v flag) d
    unfolding closes Mine
    closes-Mine k v flag d (its, r) =
        let P : Stage net disks sha → Type 0 = λ st. Mine st d in
        if_cases P (v.error || flag || not (nat_beq v.total k.session.expected_size)) _ _ (λ e. tt)
          (λ e.
            if_cases P
              (not (is_empty k.session.expected_sha256)
                && not (to_hex (sha.final v.hash) == k.session.expected_sha256))
              _ _ (λ e. tt) (λ same. (its, kept r e same)))
      where
        kept :
            (v.error ≡ true) ⊎ Received? v d
            → (v.error || flag || not (nat_beq v.total k.session.expected_size)) ≡ false
            → (not (is_empty k.session.expected_sha256)
                && not (to_hex (sha.final v.hash) == k.session.expected_sha256))
              ≡ false
            → Complete k.session d
        kept (inl bad) e same = absurd (ground (arith, bad, e))
        kept (inr (body, h)) e same = (
          body,
          h.held,
          record {
            whole = ground (arith, e, h.counted);
            hashed = λ ne.
                ap (λ x. to_hex (final x)) (sym h.hashed)
                ∙ agreed k.session.expected_sha256 (to_hex (final v.hash)) same ne;
          },
        )

    moved-Mine :
        (k : Shared) (w : Server net disks sha) (o : Option Disk)
        → Mine (moved net disks sha k w o).stage (moved net disks sha k w o).disk
    unfolding moved Mine
    moved-Mine k w none = tt
    moved-Mine k w (some d) = tt

    goes_on-lt :
        (k : Shared) (n : ℕ) (w : Server net disks sha)
        → goes_on net disks sha k n w ≡ true
        → n < k.session.expected_size
    goes_on-lt k n w h = ground arith

    -- Its own turns.
    pub turn-Mine :
        (header payload : Bool) (w : Server net disks sha) (st : Stage net disks sha)
        → Mine st w.disk
        → Mine
            (turn net disks sha paths header payload w st).stage
            (turn net disks sha paths header payload w st).disk
    unfolding turn Mine
    turn-Mine header payload w (handshaking s) a = absurd a
    turn-Mine header payload w (opening k s) a = absurd a
    turn-Mine header payload w (testing k s g v) (its, same, r) =
        let P : Stage net disks sha → Type 0 = λ st. Mine st w.disk in
        if_cases P (goes_on net disks sha k v.total w) _ _
          (λ e. (its, same, goes_on-lt k v.total w e, r)) (λ e. (its, inr r))
    turn-Mine header payload w (reading k s g v) a =
        received-Mine k g v (next_frame net max_chunk s) w
          (λ chunk s' e. (next_frame-IsCut net max_chunk s chunk s' e).1) a
    turn-Mine header payload w (closing k v) a = closes-Mine k v _ w.disk a
    turn-Mine header payload w (giving_up k) a = tt
    turn-Mine header payload w (discarding k why) a = tt
    turn-Mine header payload w (naming k path count) a =
        let P : Stage net disks sha → Type 0 = λ st. Mine st w.disk in
        if_cases P (disks.exists w.disk path) _ _ (λ e. a) (λ e. a)
    turn-Mine header payload w (moving k path) a = moved-Mine k w _
    turn-Mine header payload w (asking k) a = absurd a
    turn-Mine header payload w (serving k g v) a = absurd a
    turn-Mine header payload w (sending k g v) a = absurd a
    turn-Mine header payload w (served k v) a = absurd a
    turn-Mine header payload w (reporting k verdict) a = tt
    turn-Mine header payload w (finished verdict) a = tt

  keeps_received :
      (d e : Disk) (v : Received net disks sha)
      → ((body : Bytes) → Held disks p f body d → Held disks p f body e)
      → Received? v d
      → Received? v e
  keeps_received d e v keep (body, h) = (
    body,
    record { held = keep body h.held; hashed = h.hashed; counted = h.counted; good = h.good },
  )

  -- What keeps the file, whatever is in it, keeps what the connection knows of it.
  pub Mine-Held :
      (d e : Disk) (st : Stage net disks sha)
      → ((body : Bytes) → Held disks p f body d → Held disks p f body e)
      → Mine st d
      → Mine st e
  unfolding Mine
  Mine-Held d e (handshaking s) keep a = a
  Mine-Held d e (opening k s) keep a = a
  Mine-Held d e (testing k s g v) keep (its, same, r) = (its, same, keeps_received d e v keep r)
  Mine-Held d e (reading k s g v) keep (its, same, more, r) =
      (its, same, more, keeps_received d e v keep r)
  Mine-Held d e (closing k v) keep (its, inl bad) = (its, inl bad)
  Mine-Held d e (closing k v) keep (its, inr r) = (its, inr (keeps_received d e v keep r))
  Mine-Held d e (giving_up k) keep a = tt
  Mine-Held d e (discarding k why) keep a = tt
  Mine-Held d e (naming k path count) keep (its, (body, h, ann)) = (its, (body, keep body h, ann))
  Mine-Held d e (moving k path) keep (its, (body, h, ann)) = (its, (body, keep body h, ann))
  Mine-Held d e (asking k) keep a = a
  Mine-Held d e (serving k g v) keep a = a
  Mine-Held d e (sending k g v) keep a = a
  Mine-Held d e (served k v) keep a = a
  Mine-Held d e (reporting k verdict) keep a = tt
  Mine-Held d e (finished verdict) keep a = tt
