-- ===== src/Camera/Shown.antt =====
-- The calls of softcam.dll for frames that are shown, when it works.
use iriseus.Prelude.{ℕ, ◌≡◌, refl, Bool, true, ◌&&◌, some, List, [], ◌∷◌, arith}
use iriseus.Video.{Memory}
use iriseus.Camera.{
  Call, loads, creates, sends_frame, Answers, Camera, closed, load_dll, created, open_camera,
  send_frame, on_frame, Event, shows, step, run,
}

abbrev pub all_shown : Answers → ℕ → ℕ → List Memory → List Event
all_shown a w h [] = []
all_shown a w h (m ∷ ms) = shows a w h m ∷ all_shown a w h ms

abbrev pub all_sent : ℕ → List Memory → List Call
all_sent cam [] = []
all_sent cam (m ∷ ms) = sends_frame cam m ∷ all_sent cam ms

on_frame-open :
    (a : Answers) (w h cam : ℕ) (m : Memory) (c : Camera)
    → c.cam ≡ some cam
    → c.fn_send ≡ true
    → on_frame a w h m c ≡ (c, sends_frame cam m ∷ [])
unfolding on_frame send_frame
on_frame-open a w h cam m c o f = simp (o, f)

run-open :
    (a : Answers) (w h cam : ℕ) (ms : List Memory) (c : Camera)
    → c.cam ≡ some cam
    → c.fn_send ≡ true
    → run c (all_shown a w h ms) ≡ (c, all_sent cam ms)
unfolding run step
run-open a w h cam [] c o f = refl
run-open a w h cam (m ∷ ms) c o f =
    rw (on_frame-open a w h cam m c o f) (rw (run-open a w h cam ms c o f) refl)

abbrev opened : ℕ → ℕ → ℕ → Camera
opened w h cam = record {
  dll = true;
  cam = some cam;
  fn_create = true;
  fn_delete = true;
  fn_send = true;
  width = w;
  height = h;
}

all_three : (x y z : Bool) → (x && y && z) ≡ true → (x ≡ true) × (y ≡ true) × (z ≡ true)
all_three x y z h = (ground arith, ground arith, ground arith)

on_frame-closed :
    (a : Answers) (w h cam : ℕ) (m : Memory)
    → a.library ≡ true
    → (a.create && a.delete && a.send) ≡ true
    → a.handle ≡ some cam
    → on_frame a w h m closed
      ≡ (opened w h cam, loads ∷ creates w h (some cam) ∷ sends_frame cam m ∷ [])
unfolding on_frame open_camera load_dll created send_frame
on_frame-closed a w h cam m l f c =
    let (x, y, z) = all_three a.create a.delete a.send f in simp (l, x, y, z, c)

-- When softcam.dll is there with its three functions and gives a camera, the first frame loads the
-- library and creates the camera in the canvas' size, and that frame and each one after it is sent
-- to the camera, in order.
pub all_shown-sent :
    (a : Answers) (w h cam : ℕ) (m : Memory) (ms : List Memory)
    → a.library ≡ true
    → (a.create && a.delete && a.send) ≡ true
    → a.handle ≡ some cam
    → (run closed (all_shown a w h (m ∷ ms))).1
      ≡ loads ∷ creates w h (some cam) ∷ all_sent cam (m ∷ ms)
unfolding run step
all_shown-sent a w h cam m ms l f c =
    rw (on_frame-closed a w h cam m l f c)
      (rw (run-open a w h cam ms (opened w h cam) refl refl) refl)
