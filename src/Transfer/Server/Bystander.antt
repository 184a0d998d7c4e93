-- ===== src/Transfer/Server/Bystander.antt =====
-- What the threads of src/core/FileTransferServer.cpp do to a file that none of them writes.
use iriseus.Prelude.{
  ◌≡◌, ◌≢◌, refl, Bytes, Bool, false, Option, none, some, [], ◌==◌, bytes_eq, nat_beq, not, ◌||◌,
  if_cases,
}
use iriseus.Prelude.Assoc.{Assoc}
use iriseus.Net.{SocketLib, read_exact}
use iriseus.Wire.{next_frame}
use iriseus.Transfer.Hex.{uuid}
use iriseus.Transfer.Files.{HashLib, PathLib}
use iriseus.Transfer.Disk.{DiskLib}
use iriseus.Transfer.Server.Held.{
  Held, Held-make_path, create_other, Held-create, Held-write, Held-remove, Held-rename,
}
use iriseus.Transfer.Sessions.{find_session}
use iriseus.Transfer.Upload.{max_chunk}
use iriseus.Transfer.Connection.{token_refused, direction_of, token_of, handshake_size, id_of}
use iriseus.Transfer.Server.{
  Shared, Received, Sent, goes_to, Stage, handshaking, opening, testing, reading, closing,
  giving_up, discarding, naming, moving, asking, serving, sending, served, reporting, finished,
  Server, Turn, greeted, greet, created, received, closes, moved, asked, sends, turn, goes_on,
}
use iriseus.Prelude.{is_empty, ◌&&◌, true}
use iriseus.Transfer.Hex.{to_hex}

module _ (net : SocketLib) (disks : DiskLib) (sha : HashLib) (paths : PathLib) (p : Bytes)
    (f : disks.File) (F : net.Sock → Type 0) where
  open net use {Sock}
  open disks use {Disk, File, make_path, create, remove, rename, exists}

  -- The temporary file of the transfer has another path.
  unfoldable pub Elsewhere : Shared → Type 0
  Elsewhere k = (k.session.temp_path == p) ≡ false

  -- A connection that removes or renames only other paths, and has another file open; `F` is what is
  -- known of one that has not sent its handshake.
  unfoldable pub Away : Stage net disks sha → Type 0
  Away (handshaking s) = F s
  Away (opening k s) = Elsewhere k
  Away (testing k s g v) = Elsewhere k × (g ≢ f)
  Away (reading k s g v) = Elsewhere k × (g ≢ f)
  Away (closing k v) = Elsewhere k
  Away (giving_up k) = Elsewhere k
  Away (discarding k why) = Elsewhere k
  Away (naming k path count) = Elsewhere k
  Away (moving k path) = Elsewhere k
  Away (asking k) = Unit
  Away (serving k g v) = Unit
  Away (sending k g v) = Unit
  Away (served k v) = Unit
  Away (reporting k verdict) = Unit
  Away (finished verdict) = Unit

  greeted-Away :
      (buf : Bytes) (s : Sock) (o : Option Shared)
      → ((k : Shared) → o ≡ some k → Elsewhere k)
      → Away (greeted net disks sha buf s o)
  unfolding greeted Away
  greeted-Away buf s none h = tt
  greeted-Away buf s (some k) h =
      if_cases Away (token_refused k.session (token_of buf)) _ _ (λ e. tt)
        (λ e.
          if_cases Away (nat_beq (direction_of buf) 0) _ _ (λ e. h k refl)
            (λ e. if_cases Away (nat_beq (direction_of buf) 1) _ _ (λ e. tt) (λ e. tt)))

  pub greet-Away :
      (o : Option (Bytes × Sock)) (m : Assoc Bytes Shared)
      → ((buf : Bytes) (s : Sock) (k : Shared)
          → o ≡ some (buf, s)
          → find_session (uuid (id_of buf)) m ≡ some k
          → Elsewhere k)
      → Away (greet net disks sha o m)
  unfolding greet Away
  greet-Away none m h = tt
  greet-Away (some (buf, s)) m h =
      greeted-Away buf s (find_session (uuid (id_of buf)) m) (λ k e. h buf s k refl e)

  closes-Away :
      (k : Shared) (v : Received net disks sha) (flag : Bool)
      → Elsewhere k
      → Away (closes net disks sha k v flag)
  unfolding closes Away
  closes-Away k v flag a =
      if_cases Away (v.error || flag || not (nat_beq v.total k.session.expected_size)) _ _ (λ e. a)
        (λ e.
          if_cases Away
            (not (is_empty k.session.expected_sha256)
              && not (to_hex (sha.final v.hash) == k.session.expected_sha256))
            _ _ (λ e. a) (λ e. a))

  asked-Away : (k : Shared) (o : Option File) → Away (asked net disks sha k o)
  unfolding asked Away
  asked-Away k none = tt
  asked-Away k (some g) = tt

  module _ (b : Bytes) where
    -- A turn that leaves the file alone.
    pub record Spares (t : Turn net disks sha) : Type 0 where
      pub held : Held disks p f b t.disk
      pub away : Away t.stage

    stays :
        (w : Server net disks sha) (st : Stage net disks sha)
        → Held disks p f b w.disk
        → Away st
        → Spares (goes_to net disks sha st w)
    stays w st h a = record { held = h; away = a }

    created-Spares :
        (k : Shared) (s : Sock) (d : Disk) (o : Option (File × Disk))
        → create d k.session.temp_path ≡ o
        → Elsewhere k
        → Held disks p f b d
        → Spares (created net disks sha k s d o)
    unfolding created Away Elsewhere
    created-Spares k s d none e a h = record { held = h; away = tt }
    created-Spares k s d (some (g, d')) e a h = record {
      held = Held-create disks p f b d d' k.session.temp_path g e a h;
      away = (a, create_other disks p f b d d' k.session.temp_path g e a h);
    }

    received-Spares :
        (k : Shared) (g : File) (v : Received net disks sha) (o : Option (Bytes × Sock))
        (w : Server net disks sha)
        → Elsewhere k × (g ≢ f)
        → Held disks p f b w.disk
        → Spares (received net disks sha k g v o w)
    unfolding received Away
    received-Spares k g v none w a h = record { held = h; away = a.0 }
    received-Spares k g v (some (chunk, s)) w a h = record {
      held = Held-write disks p f b w.disk g v.total chunk a.1 h;
      away = a;
    }

    moved-Spares :
        (k : Shared) (w : Server net disks sha) (path : Bytes) (o : Option Disk)
        → rename w.disk k.session.temp_path path ≡ o
        → Elsewhere k
        → Held disks p f b w.disk
        → Spares (moved net disks sha k w o)
    unfolding moved Away Elsewhere
    moved-Spares k w path none e a h = record { held = h; away = a }
    moved-Spares k w path (some d) e a h = record {
      held = Held-rename disks p f b w.disk d k.session.temp_path path e a h;
      away = tt;
    }

    sends-Spares :
        (header payload : Bool) (k : Shared) (g : File) (v : Sent net disks sha) (chunk : Bytes)
        (w : Server net disks sha)
        → Held disks p f b w.disk
        → Spares (sends net disks sha header payload k g v chunk w)
    unfolding sends Away
    sends-Spares header payload k g v chunk w h =
        if_cases Spares (is_empty chunk) _ _ (λ e. stays w (served k v) h tt)
          (λ e.
            if_cases Spares (not header) _ _
              (λ e. stays w (served k (record v { error = true })) h tt)
              (λ e.
                if_cases Spares (not payload) _ _ (λ e. record { held = h; away = tt })
                  (λ e. record { held = h; away = tt })))

    removed-Spares :
        (k : Shared) (d : Disk) (st : Stage net disks sha)
        → Elsewhere k
        → Held disks p f b d
        → Away st
        → Spares (record { stage = st; disk = remove d k.session.temp_path; calls = [] })
    unfolding Elsewhere
    removed-Spares k d st a h away = record {
      held = Held-remove disks p f b d k.session.temp_path a h;
      away = away;
    }

    -- Every turn.
    pub turn-Spares :
        (header payload : Bool) (w : Server net disks sha) (st : Stage net disks sha)
        → ((s : Sock) → F s → Away (greet net disks sha (read_exact net s handshake_size) w.table))
        → Held disks p f b w.disk
        → Away st
        → Spares (turn net disks sha paths header payload w st)
    unfolding turn Away
    turn-Spares header payload w (handshaking s) m h a = stays w _ h (m s a)
    turn-Spares header payload w (opening k s) m h a =
        created-Spares k s (make_path w.disk (paths.directory k.session.temp_path)) _ refl a
          (Held-make_path disks p f b w.disk _ h)
    turn-Spares header payload w (testing k s g v) m h a =
        stays w _ h (if_cases Away (goes_on net disks sha k v.total w) _ _ (λ e. a) (λ e. a.0))
    turn-Spares header payload w (reading k s g v) m h a =
        received-Spares k g v (next_frame net max_chunk s) w a h
    turn-Spares header payload w (closing k v) m h a = stays w _ h (closes-Away k v _ a)
    turn-Spares header payload w (giving_up k) m h a = removed-Spares k w.disk _ a h tt
    turn-Spares header payload w (discarding k why) m h a = removed-Spares k w.disk _ a h tt
    turn-Spares header payload w (naming k path count) m h a =
        stays w _ h (if_cases Away (exists w.disk path) _ _ (λ e. a) (λ e. a))
    turn-Spares header payload w (moving k path) m h a = moved-Spares k w path _ refl a h
    turn-Spares header payload w (asking k) m h a = stays w _ h (asked-Away k _)
    turn-Spares header payload w (serving k g v) m h a =
        stays w _ h (if_cases Away (goes_on net disks sha k v.total w) _ _ (λ e. tt) (λ e. tt))
    turn-Spares header payload w (sending k g v) m h a = sends-Spares header payload k g v _ w h
    turn-Spares header payload w (served k v) m h a = stays w _ h tt
    turn-Spares header payload w (reporting k verdict) m h a = record { held = h; away = tt }
    turn-Spares header payload w (finished verdict) m h a = stays w _ h tt
