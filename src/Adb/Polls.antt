-- ===== src/Adb/Polls.antt =====
-- `start`, `stop` and the rounds of `monitorLoop` of src/core/AdbManager.cpp, one after the other.
use iriseus.Prelude.{
  ◌≡◌, refl, ap, ◌∙◌, inl, inr, Bytes, Bool, true, false, Option, none, some, List, [], ◌∷◌, ◌++◌,
  ◌==◌, bytes_eq, bytes_beq_iff, if◌then◌else◌, Bool-cases, subst, if_cases, arith,
}
use iriseus.Adb.Monitor.{known-append, Distinct, Distinct-poll, Distinct-attach_loop}
use iriseus.Adb.{
  AdbDevice, Action, setup_reverse, attached, detached, known, listed, takes, attach_loop,
  detach_loop, list_devices, poll,
}

-- `m_running`, `m_activeSerials`, and what the thread has done.
pub record Monitor : Type 0 where
  pub running : Bool
  pub active : List Bytes
  pub actions : List Action

abbrev pub new_monitor : Monitor
new_monitor = record { running = false; active = []; actions = [] }

-- `polls` is a round of the loop, by what `adb devices` printed; `stop` comes between two tests of
-- the loop's head, and the thread is joined before it is started again.
pub data Event : Type 0 where
  starts stops : Event
  polls : Bytes → Event

unfoldable pub polled : Bytes → Monitor → Monitor
unfolding poll
polled output m =
    let (active, actions) = poll output m.active in
    record m { active = active; actions = m.actions ++ actions }

unfoldable pub step : Monitor → Event → Monitor
unfolding polled
step m starts = record m { running = true }
step m stops = record m { running = false }
step m (polls output) = if m.running then polled output m else m

unfoldable pub run : Monitor → List Event → Monitor
unfolding step
run m [] = m
run m (e ∷ es) = run (step m e) es

-- Whether a serial is attached, after one more action: it is attached only when it is not, and
-- detached only when it is; otherwise `none`.
unfoldable pub told : Bytes → Action → Bool → Option Bool
told serial (setup_reverse s) b = some b
told serial (attached d) b = if d.serial == serial then (if b then none else some true) else some b
told serial (detached s) b = if s == serial then (if b then some false else none) else some b

unfoldable pub replay : Bytes → List Action → Option Bool → Option Bool
unfolding told
replay serial [] b = b
replay serial (a ∷ more) none = none
replay serial (a ∷ more) (some b) = replay serial more (told serial a b)

replay-append :
    (serial : Bytes) (a c : List Action) (b : Option Bool)
    → replay serial (a ++ c) b ≡ replay serial c (replay serial a b)
unfolding replay
replay-append serial [] c b = refl
replay-append serial (x ∷ a) c (some b) = replay-append serial a c (told serial x b)
replay-append serial (x ∷ a) [] none = refl
replay-append serial (x ∷ a) (y ∷ c) none = refl

grows :
    (serial : Bytes) (d : AdbDevice) (active : List Bytes)
    → takes d active ≡ true
    → told serial (attached d) (known serial active) ≡ some (known serial (active ++ d.serial ∷ []))
unfolding told
grows serial d active h =
    ground (arith, known-append serial d.serial active, bytes_beq_iff d.serial serial)

replay-attach_loop :
    (serial : Bytes) (ds : List AdbDevice) (active : List Bytes)
    → replay serial (attach_loop ds active).1 (some (known serial active))
      ≡ some (known serial (attach_loop ds active).0)
unfolding attach_loop replay told
replay-attach_loop serial [] active = refl
replay-attach_loop serial (d ∷ ds) active = elim (Bool-cases (takes d active)) [
  | inr old ↦ rw old (replay-attach_loop serial ds active)
  | inl new ↦ rw new (
      ap (replay serial (attach_loop ds (active ++ d.serial ∷ [])).1) (grows serial d active new)
      ∙ replay-attach_loop serial ds (active ++ d.serial ∷ []))
]

told_other :
    (serial s : Bytes) (b : Bool) → (s == serial) ≡ false → told serial (detached s) b ≡ some b
unfolding told
told_other serial s b h = ground arith

told_detached :
    (serial s : Bytes) → (s == serial) ≡ true → told serial (detached s) true ≡ some false
unfolding told
told_detached serial s h = ground arith

detach_others :
    (serial : Bytes) (ds : List AdbDevice) (l : List Bytes) (b : Bool)
    → known serial l ≡ false
    → replay serial (detach_loop ds l).1 (some b) ≡ some b
unfolding detach_loop replay told
detach_others serial ds [] b h = refl
detach_others serial ds (s ∷ l) b h =
    let other : (s == serial) ≡ false = ground arith in
    elim (Bool-cases (listed s ds)) [
      | inl kept ↦ rw kept (detach_others serial ds l b (ground arith))
      | inr lost ↦ rw lost (
          ap (replay serial (detach_loop ds l).1) (told_other serial s b other)
          ∙ detach_others serial ds l b (ground arith))
    ]

only_one :
    (serial s : Bytes) (l : List Bytes)
    → (s == serial) ≡ true
    → known s l ≡ false
    → known serial l ≡ false
only_one serial s l same h =
    let e : s ≡ serial = (bytes_beq_iff s serial).0 same in subst (λ x. known x l ≡ false) e h

replay-detach_loop :
    (serial : Bytes) (ds : List AdbDevice) (l : List Bytes)
    → Distinct l
    → replay serial (detach_loop ds l).1 (some (known serial l))
      ≡ some (known serial (detach_loop ds l).0)
unfolding detach_loop replay told
replay-detach_loop serial ds [] h = refl
replay-detach_loop serial ds (s ∷ l) h =
    let rest = replay-detach_loop serial ds l h.1 in
    elim (Bool-cases (s == serial)) [
      | inl same ↦
          let alone = only_one serial s l same h.0 in
          elim (Bool-cases (listed s ds)) [
            | inl kept ↦ rw (kept, same) (detach_others serial ds l true alone)
            | inr lost ↦
                rw (lost, same)
                  (ap (replay serial (detach_loop ds l).1) (told_detached serial s same)
                    ∙ rw alone at rest)
          ]
      | inr other ↦ elim (Bool-cases (listed s ds)) [
        | inl kept ↦ rw (kept, other) rest
        | inr lost ↦
            rw (lost, other)
              (ap (replay serial (detach_loop ds l).1) (told_other serial s (known serial l) other)
                ∙ rest)
      ]
    ]

replay-poll :
    (serial output : Bytes) (active : List Bytes)
    → Distinct active
    → replay serial (poll output active).1 (some (known serial active))
      ≡ some (known serial (poll output active).0)
unfolding poll
replay-poll serial output active h =
    let ds = list_devices output in
    replay-append serial (attach_loop ds active).1 _ _
    ∙ ap (replay serial (detach_loop ds (attach_loop ds active).0).1)
        (replay-attach_loop serial ds active)
    ∙ replay-detach_loop serial ds (attach_loop ds active).0 (Distinct-attach_loop ds active h)

-- The callbacks so far, for every serial, and no serial twice.
record Told (m : Monitor) : Type 0 where
  each : (serial : Bytes) → replay serial m.actions (some false) ≡ some (known serial m.active)
  distinct : Distinct m.active

Told-step : (m : Monitor) (e : Event) → Told m → Told (step m e)
unfolding step polled
Told-step m starts t = record { each = t.each; distinct = t.distinct }
Told-step m stops t = record { each = t.each; distinct = t.distinct }
Told-step m (polls output) t =
    if_cases Told m.running _ _
      (λ up. record {
        each = λ serial.
            replay-append serial m.actions (poll output m.active).1 (some false)
            ∙ ap (replay serial (poll output m.active).1) (t.each serial)
            ∙ replay-poll serial output m.active t.distinct;
        distinct = Distinct-poll output m.active t.distinct;
      })
      (λ down. t)

Told-run : (m : Monitor) (es : List Event) → Told m → Told (run m es)
unfolding run
Told-run m [] t = t
Told-run m (e ∷ es) t = Told-run (step m e) es (Told-step m e t)

-- Whatever `adb devices` prints in however many rounds, between starts and stops in any order: the
-- callbacks for a serial are an attachment first and then detachments and attachments in turn, and
-- the last one is an attachment exactly when the serial is active.
pub run-Told :
    (es : List Event) (serial : Bytes)
    → let m = run new_monitor es in
      replay serial m.actions (some false) ≡ some (known serial m.active)
unfolding replay
run-Told es serial =
    (Told-run new_monitor es (record { each = λ serial. refl; distinct = tt })).each serial
