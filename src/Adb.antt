-- ===== src/Adb.antt =====
-- src/core/AdbManager.cpp: the list of attached devices, and one round of `monitorLoop`.
pub mod Devices
pub mod Monitor
pub mod Polls
pub mod Pipe
pub mod Commands
pub mod Extract
use iriseus.Prelude.{
  ℕ, Bytes, Bool, true, false, List, [], ◌∷◌, ◌++◌, ◌||◌, ◌==◌, bytes_eq, codes, nat_beq, leb, ltb,
  ◌&&◌, not, is_empty, if◌then◌else◌,
}

pub record AdbDevice : Type 0 where
  pub serial : Bytes
  pub state : Bytes

-- `std::getline` until the end: an empty rest is no line.
abbrev pub put_in : ℕ → List Bytes → List Bytes
put_in c [] = (c ∷ []) ∷ []
put_in c (l ∷ ls) = (c ∷ l) ∷ ls

unfoldable pub lines : Bytes → List Bytes
lines [] = []
lines (c ∷ s) = let rest = lines s in if nat_beq c 10 then [] ∷ rest else put_in c rest

-- `isspace` in the C locale.
abbrev pub is_space : ℕ → Bool
is_space c = nat_beq c 32 || (leb 9 c && leb c 13)

-- What `>>` of a string reads: the blanks before a word are skipped, the rest begins with a blank.
unfoldable pub word : Bytes → Bytes
word [] = []
word (c ∷ s) = let rest = word s in if is_space c then [] else c ∷ rest

unfoldable pub after_word : Bytes → Bytes
after_word [] = []
after_word (c ∷ s) = let rest = after_word s in if is_space c then c ∷ s else rest

unfoldable pub skip_spaces : Bytes → Bytes
skip_spaces [] = []
skip_spaces (c ∷ s) = let rest = skip_spaces s in if is_space c then rest else c ∷ s

unfoldable pub device_of : Bytes → AdbDevice
unfolding word after_word skip_spaces
device_of line =
    let start = skip_spaces line in
    record { serial = word start; state = word (skip_spaces (after_word start)) }

unfoldable pub devices_of : List Bytes → List AdbDevice
unfolding device_of
devices_of [] = []
devices_of (line ∷ ls) =
    let rest = devices_of ls in
    if is_empty line || line == 13 ∷ []
    then rest
    else if not (is_empty (device_of line).serial)
    then device_of line ∷ rest
    else rest

-- The first line is the title.
unfoldable pub list_devices : Bytes → List AdbDevice
unfolding lines devices_of
list_devices output = elim (lines output) [ [] ↦ [] | title ∷ ls ↦ devices_of ls ]

-- `adb -s serial reverse` for the three ports, and the two callbacks.
pub data Action : Type 0 where
  setup_reverse : Bytes → Action
  attached : AdbDevice → Action
  detached : Bytes → Action

abbrev pub known : Bytes → List Bytes → Bool
known serial [] = false
known serial (s ∷ l) = s == serial || known serial l

abbrev pub listed : Bytes → List AdbDevice → Bool
listed serial [] = false
listed serial (d ∷ ds) = d.serial == serial || listed serial ds

abbrev pub takes : AdbDevice → List Bytes → Bool
takes d active = d.state == codes "device" && not (known d.serial active)

-- The loop over the devices, by the active serials.
unfoldable pub attach_loop : List AdbDevice → List Bytes → List Bytes × List Action
attach_loop [] active = (active, [])
attach_loop (d ∷ ds) active =
    let (new_active, out) = attach_loop ds (active ++ d.serial ∷ []) in
    let old = attach_loop ds active in
    if takes d active then (new_active, setup_reverse d.serial ∷ attached d ∷ out) else old

-- The loop over the active serials.
unfoldable pub detach_loop : List AdbDevice → List Bytes → List Bytes × List Action
detach_loop devices [] = ([], [])
detach_loop devices (s ∷ active) =
    let (kept, out) = detach_loop devices active in
    if listed s devices then (s ∷ kept, out) else (kept, detached s ∷ out)

-- One round, by what `adb devices` printed.
unfoldable pub poll : Bytes → List Bytes → List Bytes × List Action
unfolding list_devices attach_loop detach_loop
poll output active =
    let devices = list_devices output in
    let (grown, arrivals) = attach_loop devices active in
    let (kept, departures) = detach_loop devices grown in (kept, arrivals ++ departures)
