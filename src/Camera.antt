-- ===== src/Camera.antt =====
-- src/core/VirtualCamera.cpp, and the callback for frames that src/core/StreamReceiver.cpp sets: the
-- camera of softcam.dll, which is opened with the first frame. A handle is a number.
pub mod Calls
pub mod Shown
use iriseus.Prelude.{
  ℕ, Bool, true, false, ◌&&◌, ◌||◌, not, Option, none, some, List, [], ◌∷◌, ◌++◌, if◌then◌else◌,
}
use iriseus.Video.{Memory}

-- What the program calls of Windows and of softcam.dll. `creates` has what the call returned.
pub data Call : Type 0 where
  loads unloads : Call
  creates : ℕ → ℕ → Option ℕ → Call
  sends_frame : ℕ → Memory → Call
  deletes : ℕ → Call

-- What Windows and softcam.dll answer: whether the file is there, which of its three functions are,
-- and the new camera.
pub record Answers : Type 0 where
  pub library : Bool
  pub create : Bool
  pub delete : Bool
  pub send : Bool
  pub handle : Option ℕ

-- The functions stay set when the library is given back.
pub record Camera : Type 0 where
  pub dll : Bool
  pub cam : Option ℕ
  pub fn_create : Bool
  pub fn_delete : Bool
  pub fn_send : Bool
  pub width : ℕ
  pub height : ℕ

abbrev pub closed : Camera
closed = record {
  dll = false;
  cam = none;
  fn_create = false;
  fn_delete = false;
  fn_send = false;
  width = 0;
  height = 0;
}

unfoldable pub load_dll : Answers → Camera → Bool × Camera × List Call
load_dll a c =
    let found = record c {
      dll = true;
      fn_create = a.create;
      fn_delete = a.delete;
      fn_send = a.send;
    } in
    if c.dll
    then (true, c, [])
    else if not a.library
    then (false, c, [])
    else if not a.create || not a.delete || not a.send
    then (false, record found { dll = false }, loads ∷ unloads ∷ [])
    else (true, found, loads ∷ [])

-- `scCreateCamera` and what follows.
unfoldable pub created : ℕ → ℕ → Option ℕ → Camera → Bool × Camera × List Call
created w h none c = (false, record c { cam = none }, creates w h none ∷ [])
created w h (some cam) c =
    (true, record c { cam = some cam; width = w; height = h }, creates w h (some cam) ∷ [])

unfoldable pub open_camera : Answers → ℕ → ℕ → Camera → Bool × Camera × List Call
unfolding load_dll created
open_camera a w h c =
    let (ok, c', log) = load_dll a c in
    let (ok', c'', log') = created w h a.handle c' in
    if not ok then (false, c', log) else (ok', c'', log ++ log')

unfoldable pub send_frame : Memory → Bool → Option ℕ → List Call
send_frame m fn_send none = []
send_frame m fn_send (some cam) = if not fn_send then [] else sends_frame cam m ∷ []

abbrev pub deletes_camera : Bool → Option ℕ → List Call
deletes_camera fn_delete none = []
deletes_camera fn_delete (some cam) = if fn_delete then deletes cam ∷ [] else []

unfoldable pub close : Camera → Camera × List Call
close c =
    let left = if c.fn_delete then none else c.cam in
    let freed = if c.dll then unloads ∷ [] else [] in
    (record c { cam = left; dll = false }, deletes_camera c.fn_delete c.cam ++ freed)

abbrev pub is_open : Option ℕ → Bool
is_open none = false
is_open (some cam) = true

-- The callback: `w` and `h` are those of the canvas.
unfoldable pub on_frame : Answers → ℕ → ℕ → Memory → Camera → Camera × List Call
unfolding open_camera send_frame
on_frame a w h m c =
    let (ok, c', log) = open_camera a w h c in
    if not (is_open c.cam)
    then if not ok then (c', log) else (c', log ++ send_frame m c'.fn_send c'.cam)
    else (c, send_frame m c.fn_send c.cam)

-- What the receiver does with its camera: a frame comes, or `stop` closes it.
pub data Event : Type 0 where
  shows : Answers → ℕ → ℕ → Memory → Event
  closes : Event

unfoldable pub step : Camera → Event → Camera × List Call
unfolding on_frame close
step c (shows a w h m) = on_frame a w h m c
step c closes = close c

unfoldable pub run : Camera → List Event → Camera × List Call
unfolding step
run c [] = (c, [])
run c (e ∷ es) = let (c', log) = step c e in let (c'', more) = run c' es in (c'', log ++ more)
