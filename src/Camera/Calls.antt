-- ===== src/Camera/Calls.antt =====
-- The calls of softcam.dll, by what a caller of it may do.
use iriseus.Prelude.{
  ℕ, ◌≡◌, refl, ◌∙◌, Bool, true, false, ◌&&◌, ◌||◌, not, nat_beq, Option, none, some, List, [], ◌∷◌,
  ◌++◌, if◌then◌else◌, arith, Bool-cases, Option-cases, inl, inr, if_cases, nat_eq,
}
use iriseus.Prelude.Assoc.{beq_refl}
use iriseus.Video.{Memory}
use iriseus.Camera.{
  Call, loads, unloads, creates, sends_frame, deletes, Answers, Camera, closed, load_dll, created,
  open_camera, send_frame, deletes_camera, close, is_open, on_frame, Event, shows, closes, step,
  run,
}

-- Whether the library is loaded, and the camera that exists.
abbrev pub Device : Type 0
Device = Bool × Option ℕ

-- A call in a state in which it may be made: the library is loaded once and given back when there
-- is no camera; there is one camera at a time, and no other is used or deleted.
abbrev pub allowed : Call → Device → Option Device
allowed loads (false, cam) = some (true, cam)
allowed loads (true, cam) = none
allowed unloads (true, none) = some (false, none)
allowed unloads d = none
allowed (creates w h new) (true, none) = some (true, new)
allowed (creates w h new) d = none
allowed (sends_frame i m) (true, some cam) = if nat_beq i cam then some (true, some cam) else none
allowed (sends_frame i m) d = none
allowed (deletes i) (true, some cam) = if nat_beq i cam then some (true, none) else none
allowed (deletes i) d = none

abbrev next : Option Device → (Device → Option Device) → Option Device
next none f = none
next (some d) f = f d

unfoldable pub all_allowed : List Call → Device → Option Device
all_allowed [] d = some d
all_allowed (call ∷ log) d = next (allowed call d) (λ e. all_allowed log e)

-- A camera is of the library that is loaded, and all functions are there.
record IsSound (c : Camera) : Type 0 where
  loaded : is_open c.cam ≡ true → c.dll ≡ true
  complete : c.dll ≡ true → (c.fn_create && c.fn_delete && c.fn_send) ≡ true

abbrev device : Camera → Device
device c = (c.dll, c.cam)

-- What a piece of code does to a camera `c`.
record Keeps (c : Camera) (r : Camera × List Call) : Type 0 where
  sound : IsSound r.0
  calls : all_allowed r.1 (device c) ≡ some (device r.0)

next_allowed :
    (o : Option Device) (e : Device) (f g : Device → Option Device) (r : Option Device)
    → next o f ≡ some e
    → ((d : Device) → f d ≡ some e → g d ≡ r)
    → next o g ≡ r
next_allowed none e f g r h k = absurd (let no : ⊥ = cc in no)
next_allowed (some d) e f g r h k = k d h

all_allowed-append :
    (l k : List Call) (d e : Device)
    → all_allowed l d ≡ some e
    → all_allowed (l ++ k) d ≡ all_allowed k e
unfolding all_allowed
all_allowed-append [] k d e h = let s : d ≡ e = cc in rw s refl
all_allowed-append (call ∷ l) k d e h =
    next_allowed (allowed call d) e _ _ (all_allowed k e) h (λ d' g. all_allowed-append l k d' e g)

Keeps-then :
    (c : Camera) (r s : Camera × List Call) → Keeps c r → Keeps r.0 s → Keeps c (s.0, r.1 ++ s.1)
Keeps-then c r s k l = record {
  sound = l.sound;
  calls = all_allowed-append r.1 s.1 (device c) (device r.0) k.calls ∙ l.calls;
}

has_functions : (c : Camera) → IsSound c → c.dll ≡ true → (c.fn_delete ≡ true) × (c.fn_send ≡ true)
has_functions c s on =
    let all : (c.fn_create && c.fn_delete && c.fn_send) ≡ true = s.complete on in
    (ground arith, ground arith)

-- Without the library there is no camera.
no_camera : (c : Camera) → IsSound c → c.dll ≡ false → c.cam ≡ none
no_camera c s h = elim (Option-cases c.cam) [
  | inl e ↦ e
  | inr (cam, e) ↦ absurd (let on : c.dll ≡ true = s.loaded (rw e refl) in let no : ⊥ = cc in no)
]

Keeps-nothing : (c : Camera) → IsSound c → Keeps c (c, [])
unfolding all_allowed
Keeps-nothing c s = record { sound = s; calls = refl }

-- The library was loaded, and given back or kept.
Keeps-loads :
    (c d : Camera)
    → IsSound c
    → c.dll ≡ false
    → d.cam ≡ c.cam
    → (d.dll ≡ true → (d.fn_create && d.fn_delete && d.fn_send) ≡ true)
    → Keeps c (d, if d.dll then loads ∷ [] else loads ∷ unloads ∷ [])
unfolding all_allowed
Keeps-loads c d s off same fns =
    let none_c = no_camera c s off in
    let none_d : d.cam ≡ none = same ∙ none_c in
    record {
      sound = record {
        loaded = λ h. absurd (let no : ⊥ = ground (arith, none_d, h) in no);
        complete = fns;
      };
      calls = elim (Bool-cases d.dll) [
        | inl e ↦ rw (e, off, none_c, none_d) refl
        | inr e ↦ rw (e, off, none_c, none_d) refl
      ];
    }

Loaded : Camera → Bool × Camera × List Call → Type 0
Loaded c (ok, d, log) = Keeps c (d, log) × (ok ≡ true → d.dll ≡ true)

load_dll-Keeps : (a : Answers) (c : Camera) → IsSound c → Loaded c (load_dll a c)
unfolding load_dll Loaded
load_dll-Keeps a c s =
    if_cases (Loaded c) c.dll _ _ (λ on. (Keeps-nothing c s, λ h. on))
      (λ off.
        if_cases (Loaded c) (not a.library) _ _
          (λ no. (Keeps-nothing c s, λ h. absurd (let no : ⊥ = cc in no)))
          (λ yes.
            if_cases (Loaded c) (not a.create || not a.delete || not a.send) _ _
              (λ missing. (
                Keeps-loads c _ s off refl (λ h. absurd (let no : ⊥ = cc in no)),
                λ h. absurd (let no : ⊥ = cc in no),
              ))
              (λ all. (Keeps-loads c _ s off refl (λ h. ground (arith, all)), λ h. refl))))

created-Keeps :
    (w h : ℕ) (o : Option ℕ) (c : Camera)
    → IsSound c
    → c.dll ≡ true
    → c.cam ≡ none
    → Keeps c ((created w h o c).1, (created w h o c).2)
unfolding created all_allowed
created-Keeps w h none c s on free = record {
  sound = record { loaded = λ e. on; complete = s.complete };
  calls = rw (on, free) refl;
}
created-Keeps w h (some cam) c s on free = record {
  sound = record { loaded = λ e. on; complete = s.complete };
  calls = rw (on, free) refl;
}

load_dll-cam : (a : Answers) (c : Camera) → (load_dll a c).1.cam ≡ c.cam
unfolding load_dll
load_dll-cam a c =
    if_cases (λ (r : Bool × Camera × List Call). r.1.cam ≡ c.cam) c.dll _ _ (λ e. refl)
      (λ e.
        if_cases (λ (r : Bool × Camera × List Call). r.1.cam ≡ c.cam) (not a.library) _ _
          (λ k. refl)
          (λ k.
            if_cases (λ (r : Bool × Camera × List Call). r.1.cam ≡ c.cam)
              (not a.create || not a.delete || not a.send) _ _ (λ l. refl) (λ l. refl)))

open_camera-Keeps :
    (a : Answers) (w h : ℕ) (c : Camera)
    → IsSound c
    → c.cam ≡ none
    → Keeps c ((open_camera a w h c).1, (open_camera a w h c).2)
unfolding open_camera Loaded
open_camera-Keeps a w h c s free =
    let (k, on) = load_dll-Keeps a c s in
    elim (Bool-cases (load_dll a c).0) [
      | inl e ↦
          rw (e, open_camera)
            (Keeps-then c _ _ k (
              created-Keeps w h a.handle (load_dll a c).1 k.sound (on e) (load_dll-cam a c ∙ free)))
      | inr e ↦ rw (e, open_camera) k
    ]

sends_allowed :
    (m : Memory) (dll fn : Bool) (cam : Option ℕ)
    → (is_open cam ≡ true → (dll ≡ true) × (fn ≡ true))
    → all_allowed (send_frame m fn cam) (dll, cam) ≡ some (dll, cam)
unfolding send_frame all_allowed
sends_allowed m dll fn none h = refl
sends_allowed m dll fn (some cam) h = let (on, f) = h refl in rw (f, on) (rw (beq_refl cam) refl)

send_frame-Keeps : (m : Memory) (c : Camera) → IsSound c → Keeps c (c, send_frame m c.fn_send c.cam)
send_frame-Keeps m c s = record {
  sound = s;
  calls =
      sends_allowed m c.dll c.fn_send c.cam
        (λ h. let on = s.loaded h in (on, (has_functions c s on).1));
}

not_open : (cam : Option ℕ) → not (is_open cam) ≡ true → cam ≡ none
not_open none h = refl
not_open (some cam) h = cc

on_frame-Keeps :
    (a : Answers) (w h : ℕ) (m : Memory) (c : Camera) → IsSound c → Keeps c (on_frame a w h m c)
unfolding on_frame
on_frame-Keeps a w h m c s =
    if_cases (Keeps c) (not (is_open c.cam)) _ _
      (λ e.
        let k = open_camera-Keeps a w h c s (not_open c.cam e) in
        if_cases (Keeps c) (not (open_camera a w h c).0) _ _ (λ bad. k)
          (λ good. Keeps-then c _ _ k (send_frame-Keeps m (open_camera a w h c).1 k.sound)))
      (λ e. send_frame-Keeps m c s)

closes_allowed :
    (dll fn : Bool) (cam : Option ℕ)
    → (is_open cam ≡ true → dll ≡ true)
    → (dll ≡ true → fn ≡ true)
    → all_allowed (deletes_camera fn cam ++ (if dll then unloads ∷ [] else [])) (dll, cam)
      ≡ some (false, if fn then none else cam)
unfolding all_allowed
closes_allowed true true none h k = refl
closes_allowed true true (some cam) h k = rw (beq_refl cam) refl
closes_allowed true false cam h k = absurd (let no = k refl in let no' : ⊥ = cc in no')
closes_allowed false true none h k = refl
closes_allowed false false none h k = refl
closes_allowed false fn (some cam) h k = absurd (let no = h refl in let no' : ⊥ = cc in no')

left_open :
    (fn : Bool) (cam : Option ℕ)
    → (is_open cam ≡ true → fn ≡ true)
    → is_open (if fn then none else cam) ≡ true
    → ⊥
left_open true cam h e = cc
left_open false cam h e = let no = h e in cc

close-Keeps : (c : Camera) → IsSound c → Keeps c (close c)
unfolding close
close-Keeps c s = record {
  sound = record {
    loaded = λ e. absurd (left_open c.fn_delete c.cam (λ h. (has_functions c s (s.loaded h)).0) e);
    complete = λ e. absurd (let no : ⊥ = cc in no);
  };
  calls = closes_allowed c.dll c.fn_delete c.cam s.loaded (λ on. (has_functions c s on).0);
}

run-Keeps : (es : List Event) (c : Camera) → IsSound c → Keeps c (run c es)
unfolding run step
run-Keeps [] c s = Keeps-nothing c s
run-Keeps (shows a w h m ∷ es) c s =
    let k = on_frame-Keeps a w h m c s in
    Keeps-then c _ _ k (run-Keeps es (on_frame a w h m c).0 k.sound)
run-Keeps (closes ∷ es) c s =
    let k = close-Keeps c s in Keeps-then c _ _ k (run-Keeps es (close c).0 k.sound)

-- From a camera that was never opened on, whatever frames come, whatever Windows and softcam.dll
-- answer, and whenever the receiver closes it, each call is allowed where it is made, and the
-- library and the camera that exist at the end are those that the object has.
pub run-allowed :
    (es : List Event)
    → all_allowed (run closed es).1 (false, none)
      ≡ some ((run closed es).0.dll, (run closed es).0.cam)
run-allowed es =
    (run-Keeps es closed (record {
      loaded = λ e. absurd (let no : ⊥ = cc in no);
      complete = λ e. absurd (let no : ⊥ = cc in no);
    })).calls
