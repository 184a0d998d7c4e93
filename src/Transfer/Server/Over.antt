-- ===== src/Transfer/Server/Over.antt =====
-- Where a connection of src/core/FileTransferServer.cpp no longer needs its temporary file.
use iriseus.Prelude.{◌≡◌, inl, inr, ◌⊎◌, Bytes, Bool, true, bytes_eq}
use iriseus.Net.{SocketLib}
use iriseus.Transfer.Files.{HashLib, PathLib}
use iriseus.Transfer.Disk.{DiskLib}
use iriseus.Transfer.Server.Held.{Held}
use iriseus.Transfer.Server.{
  Shared, Received, Server, Stage, handshaking, opening, testing, reading, closing, giving_up,
  discarding, naming, moving, asking, serving, sending, served, reporting, finished, closes, turn,
}
use iriseus.Transfer.Server.Owner.{Mine}

module _ (net : SocketLib) (disks : DiskLib) (sha : HashLib) (paths : PathLib) (p : Bytes)
    (f : disks.File) (owner : Shared) where
  open net use {Sock}
  open disks use {Disk, File, named, inside, named-write}
  open sha use {init, update, final, update-append}

  abbrev Own : Stage net disks sha → Disk → Type 0
  Own = Mine net disks sha paths p f owner

  -- The file is given up, or the connection is behind the renaming.
  unfoldable pub Over : Stage net disks sha → Type 0
  Over (handshaking s) = ⊥
  Over (opening k s) = ⊥
  Over (testing k s g v) = ⊥
  Over (reading k s g v) = ⊥
  Over (closing k v) = v.error ≡ true
  Over (giving_up k) = Unit
  Over (discarding k why) = Unit
  Over (naming k path count) = ⊥
  Over (moving k path) = ⊥
  Over (asking k) = ⊥
  Over (serving k g v) = ⊥
  Over (sending k g v) = ⊥
  Over (served k v) = ⊥
  Over (reporting k verdict) = Unit
  Over (finished verdict) = Unit

  -- Until then the connection knows what the file holds.
  pub Mine-cases :
      (st : Stage net disks sha) (d : Disk)
      → Own st d
      → Over st ⊎ ((body : Bytes) × Held disks p f body d)
  unfolding Mine Over
  Mine-cases (handshaking s) d a = absurd a
  Mine-cases (opening k s) d a = absurd a
  Mine-cases (testing k s g v) d (its, same, (body, h)) = inr (body, h.held)
  Mine-cases (reading k s g v) d (its, same, more, (body, h)) = inr (body, h.held)
  Mine-cases (closing k v) d (its, inl bad) = inl bad
  Mine-cases (closing k v) d (its, inr (body, h)) = inr (body, h.held)
  Mine-cases (giving_up k) d a = inl tt
  Mine-cases (discarding k why) d a = inl tt
  Mine-cases (naming k path count) d (its, (body, h, ann)) = inr (body, h)
  Mine-cases (moving k path) d (its, (body, h, ann)) = inr (body, h)
  Mine-cases (asking k) d a = absurd a
  Mine-cases (serving k g v) d a = absurd a
  Mine-cases (sending k g v) d a = absurd a
  Mine-cases (served k v) d a = absurd a
  Mine-cases (reporting k verdict) d a = inl tt
  Mine-cases (finished verdict) d a = inl tt

  closes_bad :
      (k : Shared) (v : Received net disks sha) (flag : Bool)
      → v.error ≡ true
      → Over (closes net disks sha k v flag)
  unfolding closes Over
  closes_bad k v flag bad = rw bad tt

  pub turn-Over :
      (header payload : Bool) (w : Server net disks sha) (st : Stage net disks sha)
      → Over st
      → Over (turn net disks sha paths header payload w st).stage
  unfolding turn Over
  turn-Over header payload w (handshaking s) a = absurd a
  turn-Over header payload w (opening k s) a = absurd a
  turn-Over header payload w (testing k s g v) a = absurd a
  turn-Over header payload w (reading k s g v) a = absurd a
  turn-Over header payload w (closing k v) a = closes_bad k v _ a
  turn-Over header payload w (giving_up k) a = tt
  turn-Over header payload w (discarding k why) a = tt
  turn-Over header payload w (naming k path count) a = absurd a
  turn-Over header payload w (moving k path) a = absurd a
  turn-Over header payload w (asking k) a = absurd a
  turn-Over header payload w (serving k g v) a = absurd a
  turn-Over header payload w (sending k g v) a = absurd a
  turn-Over header payload w (served k v) a = absurd a
  turn-Over header payload w (reporting k verdict) a = tt
  turn-Over header payload w (finished verdict) a = tt

  pub Mine-Over : (d e : Disk) (st : Stage net disks sha) → Over st → Own st d → Own st e
  unfolding Mine Over
  Mine-Over d e (handshaking s) o a = a
  Mine-Over d e (opening k s) o a = a
  Mine-Over d e (testing k s g v) o a = absurd o
  Mine-Over d e (reading k s g v) o a = absurd o
  Mine-Over d e (closing k v) o (its, r) = (its, inl o)
  Mine-Over d e (giving_up k) o a = tt
  Mine-Over d e (discarding k why) o a = tt
  Mine-Over d e (naming k path count) o a = absurd o
  Mine-Over d e (moving k path) o a = absurd o
  Mine-Over d e (asking k) o a = a
  Mine-Over d e (serving k g v) o a = a
  Mine-Over d e (sending k g v) o a = a
  Mine-Over d e (served k v) o a = a
  Mine-Over d e (reporting k verdict) o a = tt
  Mine-Over d e (finished verdict) o a = tt
