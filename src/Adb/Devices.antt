-- ===== src/Adb/Devices.antt =====
-- What `listDevices` of src/core/AdbManager.cpp reads from what `adb devices` prints.
use iriseus.Prelude.{
  ◌≡◌, refl, ◌∙◌, ap, Bytes, Bool, true, false, List, [], ◌∷◌, ◌++◌, ◌==◌, bytes_eq, bytes_beq,
  nat_beq, is_empty, ◌||◌, All, All-append, arith,
}
use iriseus.Adb.{
  AdbDevice, lines, is_space, word, after_word, skip_spaces, device_of, devices_of, list_devices,
}

-- A word of the list: not empty and without blanks.
abbrev IsWord : Bytes → Type 0
IsWord s = All (λ c. is_space c ≡ false) s × (is_empty s ≡ false)

-- A line ends with CR and LF on Windows, and with LF elsewhere.
abbrev pub cr : Bool → Bytes
cr false = []
cr true = 13 ∷ []

-- The line of a device without its LF, and the lines of all with the blank one behind them.
abbrev pub line_of : Bool → AdbDevice → Bytes
line_of crlf d = d.serial ++ 9 ∷ (d.state ++ cr crlf)

abbrev pub printed : Bool → List AdbDevice → Bytes
printed crlf [] = cr crlf ++ 10 ∷ []
printed crlf (d ∷ ds) = line_of crlf d ++ 10 ∷ printed crlf ds

abbrev pub Printable : AdbDevice → Type 0
Printable d = IsWord d.serial × IsWord d.state

lines_line : (l s : Bytes) → All (λ c. nat_beq c 10 ≡ false) l → lines (l ++ 10 ∷ s) ≡ l ∷ lines s
unfolding lines
lines_line [] s h = refl
lines_line (c ∷ l) s (n, h) = rw (n, lines_line l s h) refl

no_newline : (s : Bytes) → All (λ c. is_space c ≡ false) s → All (λ c. nat_beq c 10 ≡ false) s
no_newline [] h = tt
no_newline (c ∷ s) (n, h) = (ground arith, no_newline s h)

word-cr : (crlf : Bool) (s : Bytes) → All (λ c. is_space c ≡ false) s → word (s ++ cr crlf) ≡ s
unfolding word
word-cr false [] h = refl
word-cr true [] h = refl
word-cr crlf (c ∷ s) (n, h) = rw (n, word-cr crlf s h) refl

word_stop : (s t : Bytes) → All (λ c. is_space c ≡ false) s → word (s ++ 9 ∷ t) ≡ s
unfolding word
word_stop [] t h = refl
word_stop (c ∷ s) t (n, h) = rw (n, word_stop s t h) refl

after_word_stop : (s t : Bytes) → All (λ c. is_space c ≡ false) s → after_word (s ++ 9 ∷ t) ≡ 9 ∷ t
unfolding after_word
after_word_stop [] t h = refl
after_word_stop (c ∷ s) t (n, h) = rw (n, after_word_stop s t h) refl

skip_spaces-append : (s t : Bytes) → IsWord s → skip_spaces (s ++ t) ≡ s ++ t
unfolding skip_spaces
skip_spaces-append [] t (h, e) = absurd (cc)
skip_spaces-append (c ∷ s) t ((n, h), e) = rw n refl

line_kept : (s t : Bytes) → IsWord s → (is_empty (s ++ 9 ∷ t) || (s ++ 9 ∷ t) == 13 ∷ []) ≡ false
unfolding bytes_beq
line_kept [] t (h, e) = absurd (cc)
line_kept (c ∷ s) t ((n, h), e) = ground arith

cr-Whole : (crlf : Bool) → All (λ c. nat_beq c 10 ≡ false) (cr crlf)
cr-Whole false = tt
cr-Whole true = (refl, tt)

line_of-Whole :
    (crlf : Bool) (d : AdbDevice) → Printable d → All (λ c. nat_beq c 10 ≡ false) (line_of crlf d)
line_of-Whole crlf d ((a, x), (b, y)) =
    All-append (λ c. nat_beq c 10 ≡ false) d.serial (9 ∷ (d.state ++ cr crlf))
      (no_newline d.serial a)
      (
        refl,
        All-append (λ c. nat_beq c 10 ≡ false) d.state (cr crlf) (no_newline d.state b)
            (cr-Whole crlf),
      )

device_of-line_of : (crlf : Bool) (d : AdbDevice) → Printable d → device_of (line_of crlf d) ≡ d
unfolding device_of skip_spaces
device_of-line_of crlf d (a, b) =
    rw
      (
        skip_spaces-append d.serial (9 ∷ (d.state ++ cr crlf)) a,
        word_stop d.serial (d.state ++ cr crlf) a.0,
        after_word_stop d.serial (d.state ++ cr crlf) a.0,
      )
      (rw (skip_spaces-append d.state (cr crlf) b, word-cr crlf d.state b.0) refl)

devices_of-lines :
    (crlf : Bool) (ds : List AdbDevice)
    → All Printable ds
    → devices_of (lines (printed crlf ds)) ≡ ds
unfolding devices_of bytes_beq lines
devices_of-lines false [] h = refl
devices_of-lines true [] h = refl
devices_of-lines crlf (d ∷ ds) (p, h) =
    let named : is_empty (device_of (line_of crlf d)).serial ≡ false =
      ap (λ v. is_empty v.serial) (device_of-line_of crlf d p) ∙ p.0.1 in
    rw
      (
        lines_line (line_of crlf d) (printed crlf ds) (line_of-Whole crlf d p),
        devices_of,
        line_kept d.serial (d.state ++ cr crlf) p.0,
        named,
      )
      (rw (device_of-line_of crlf d p, devices_of-lines crlf ds h) refl)

-- The devices of the list that `adb devices` prints are read back, in order, from between a title
-- line and a blank one: one line for each, with its serial, a tabulator and its state, which are
-- words without blanks. The lines end with LF, or all with CR and LF.
pub list_devices-printed :
    (crlf : Bool) (title : Bytes) (ds : List AdbDevice)
    → All (λ c. nat_beq c 10 ≡ false) title
    → All Printable ds
    → list_devices ((title ++ cr crlf) ++ 10 ∷ printed crlf ds) ≡ ds
unfolding list_devices
list_devices-printed crlf title ds h p =
    rw
      (
        list_devices,
        lines_line (title ++ cr crlf) (printed crlf ds)
            (All-append (λ c. nat_beq c 10 ≡ false) title (cr crlf) h (cr-Whole crlf)),
      )
      (devices_of-lines crlf ds p)
