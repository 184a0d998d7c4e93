-- ===== src/Adb/Monitor.antt =====
-- Which devices a round of the monitor leaves active, and what it does with each.
use iriseus.Prelude.{
  ◌≡◌, refl, Bytes, Bool, true, false, List, [], ◌∷◌, ◌++◌, ◌||◌, ◌&&◌, ◌==◌, bytes_eq,
  bytes_beq_iff, codes, arith,
}
use iriseus.Adb.{AdbDevice, known, listed, attach_loop, detach_loop, poll, list_devices}

-- A device that is listed and ready.
abbrev pub ready : Bytes → List AdbDevice → Bool
ready serial [] = false
ready serial (d ∷ ds) = (d.serial == serial && d.state == codes "device") || ready serial ds

pub known-append : (s t : Bytes) (l : List Bytes) → known s (l ++ t ∷ []) ≡ (known s l || t == s)
known-append s t [] = ground arith
known-append s t (x ∷ l) = ground (arith, known-append s t l)

known-attach_loop :
    (ds : List AdbDevice) (active : List Bytes) (s : Bytes)
    → known s (attach_loop ds active).0 ≡ (known s active || ready s ds)
unfolding attach_loop
known-attach_loop [] active s = ground arith
known-attach_loop (d ∷ ds) active s = ground (
  arith,
  known-attach_loop ds active s,
  known-attach_loop ds (active ++ d.serial ∷ []) s,
  known-append s d.serial active,
  bytes_beq_iff d.serial s,
)

known-detach_loop :
    (ds : List AdbDevice) (active : List Bytes) (s : Bytes)
    → known s (detach_loop ds active).0 ≡ (known s active && listed s ds)
unfolding detach_loop
known-detach_loop ds [] s = ground arith
known-detach_loop ds (x ∷ active) s =
    ground (arith, known-detach_loop ds active s, bytes_beq_iff x s)

ready-listed : (s : Bytes) (ds : List AdbDevice) → ready s ds ≡ true → listed s ds ≡ true
ready-listed s [] h = ground arith
ready-listed s (d ∷ ds) h = ground (arith, ready-listed s ds)

-- After a round, a serial is active exactly when the list has it as ready, or it was active before
-- and the list still has it in any state.
pub known-poll :
    (output : Bytes) (active : List Bytes) (s : Bytes)
    → known s (poll output active).0
      ≡ (ready s (list_devices output) || (known s active && listed s (list_devices output)))
unfolding poll
known-poll output active s =
    let ds = list_devices output in
    rw (known-detach_loop ds (attach_loop ds active).0 s, known-attach_loop ds active s)
      (ground (arith, ready-listed s ds))

-- No serial is twice in the list.
abbrev pub Distinct : List Bytes → Type 0
Distinct [] = Unit
Distinct (s ∷ l) = (known s l ≡ false) × Distinct l

Distinct-append :
    (l : List Bytes) (s : Bytes) → Distinct l → known s l ≡ false → Distinct (l ++ s ∷ [])
Distinct-append [] s h n = (refl, tt)
Distinct-append (x ∷ l) s (m, h) n =
    ground (arith, Distinct-append l s h, known-append x s l, bytes_beq_iff x s, bytes_beq_iff s x)

pub Distinct-attach_loop :
    (ds : List AdbDevice) (active : List Bytes)
    → Distinct active
    → Distinct (attach_loop ds active).0
unfolding attach_loop
Distinct-attach_loop [] active h = h
Distinct-attach_loop (d ∷ ds) active h = ground (
  arith,
  Distinct-attach_loop ds active h,
  Distinct-attach_loop ds (active ++ d.serial ∷ []),
  Distinct-append active d.serial h,
)

Distinct-detach_loop :
    (ds : List AdbDevice) (active : List Bytes)
    → Distinct active
    → Distinct (detach_loop ds active).0
unfolding detach_loop
Distinct-detach_loop ds [] h = tt
Distinct-detach_loop ds (x ∷ active) (n, h) =
    ground (arith, Distinct-detach_loop ds active h, known-detach_loop ds active x)

-- If no serial was active twice before a round, none is after it, whatever `adb devices` prints.
pub Distinct-poll :
    (output : Bytes) (active : List Bytes) → Distinct active → Distinct (poll output active).0
unfolding poll
Distinct-poll output active h =
    let ds = list_devices output in
    Distinct-detach_loop ds (attach_loop ds active).0 (Distinct-attach_loop ds active h)
