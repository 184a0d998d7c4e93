-- ===== src/Adb/Pipe.antt =====
-- The output of a run of adb in src/core/AdbManager.cpp: `runAdb` reads it from a pipe, up to 255
-- bytes at a time, and appends each piece as a C string.
use iriseus.Prelude.{
  ◌≡◌, refl, ap, ◌∙◌, Bytes, Bool, true, false, Option, none, some, List, [], ◌∷◌, ◌++◌, nat_beq,
  is_empty, if◌then◌else◌, All,
}
use iriseus.Adb.{AdbDevice, list_devices}
use iriseus.Adb.Devices.{Printable, cr, printed, list_devices-printed}

-- `output += buf`: up to the first NUL.
unfoldable pub c_string : Bytes → Bytes
c_string [] = []
c_string (c ∷ s) = let rest = c_string s in if nat_beq c 0 then [] else c ∷ rest

-- What the calls of `ReadFile` gave, one after the other; `none` is a failed call. The loop ends
-- with the first that fails or gives nothing.
unfoldable pub read_pipe : List (Option Bytes) → Bytes
unfolding c_string
read_pipe [] = []
read_pipe (none ∷ reads) = []
read_pipe (some piece ∷ reads) =
    let rest = read_pipe reads in if is_empty piece then [] else c_string piece ++ rest

-- `runAdb`, by whether the process could be made.
unfoldable pub adb_output : Bool → List (Option Bytes) → Bytes
unfolding read_pipe
adb_output made reads = if made then read_pipe reads else []

abbrev pub all_of : List Bytes → Bytes
all_of [] = []
all_of (p ∷ ps) = p ++ all_of ps

abbrev pub reads_of : List Bytes → List (Option Bytes)
reads_of [] = none ∷ []
reads_of (p ∷ ps) = some p ∷ reads_of ps

-- A piece as the pipe gives it while there is output: not empty, and without NUL.
abbrev pub Plain : Bytes → Type 0
Plain p = (is_empty p ≡ false) × All (λ c. nat_beq c 0 ≡ false) p

c_string_plain : (p : Bytes) → All (λ c. nat_beq c 0 ≡ false) p → c_string p ≡ p
unfolding c_string
c_string_plain [] h = refl
c_string_plain (c ∷ p) h = rw h.0 (ap (λ l. c ∷ l) (c_string_plain p h.1))

adb_output_whole : (ps : List Bytes) → All Plain ps → adb_output true (reads_of ps) ≡ all_of ps
unfolding adb_output read_pipe
adb_output_whole [] h = refl
adb_output_whole (p ∷ ps) h =
    rw (h.0.0, c_string_plain p h.0.1) (ap (λ l. p ++ l) (adb_output_whole ps h.1))

-- However the pipe cuts what `adb devices` prints into pieces, the devices of the list are read, in
-- order, if the process could be made, no piece is empty, there is no NUL in what is printed, the
-- title is one line, the serials and states are words without blanks, and a blank line is behind the
-- last device. The lines end with LF, or, as on Windows, with CR and LF.
pub devices_through_pipe :
    (crlf : Bool) (title : Bytes) (ds : List AdbDevice) (ps : List Bytes)
    → All Plain ps
    → All (λ c. nat_beq c 10 ≡ false) title
    → All Printable ds
    → all_of ps ≡ (title ++ cr crlf) ++ 10 ∷ printed crlf ds
    → list_devices (adb_output true (reads_of ps)) ≡ ds
devices_through_pipe crlf title ds ps plain line words e =
    ap list_devices (adb_output_whole ps plain ∙ e) ∙ list_devices-printed crlf title ds line words
