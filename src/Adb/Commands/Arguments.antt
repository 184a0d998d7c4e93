-- ===== src/Adb/Commands/Arguments.antt =====
-- What adb.exe gets of a command line about a device.
use iriseus.Prelude.{
  ℕ, ◌≡◌, refl, ap, ◌∙◌, Bytes, Bool, true, ◌&&◌, ◌||◌, not, nat_beq, List, [], ◌∷◌, ◌++◌, is_empty,
  if◌then◌else◌, if_cases, arith, All, bytes_eq, ◌==◌, append-nil,
}
use iriseus.Adb.{AdbDevice, put_in, word, skip_spaces, device_of, devices_of, lines, list_devices}
use iriseus.Adb.Commands.{arguments, reverse_args, setup_reverse, remove_reverse}

-- A text cut at its blanks.
unfoldable pub cut : Bytes → List Bytes
cut [] = [] ∷ []
cut (c ∷ s) = if nat_beq c 32 then [] ∷ cut s else put_in c (cut s)

abbrev pub blank_free : Bytes → Bool
blank_free [] = true
blank_free (c ∷ s) = not (nat_beq c 32) && blank_free s

-- A text without blanks stays in one piece.
abbrev joined : Bytes → List Bytes → List Bytes
joined s [] = s ∷ []
joined s (p ∷ ps) = (s ++ p) ∷ ps

put_in-joined : (c : ℕ) (s : Bytes) (l : List Bytes) → put_in c (joined s l) ≡ joined (c ∷ s) l
put_in-joined c s [] = refl
put_in-joined c s (p ∷ ps) = refl

joined-put_in : (c : ℕ) (l : List Bytes) → put_in c l ≡ joined [] (put_in c l)
joined-put_in c [] = refl
joined-put_in c (p ∷ ps) = refl

joined-cut : (t : Bytes) → cut t ≡ joined [] (cut t)
unfolding cut
joined-cut [] = refl
joined-cut (c ∷ t) =
    if_cases (λ l. l ≡ joined [] l) (nat_beq c 32) _ _ (λ e. refl) (λ e. joined-put_in c (cut t))

cut-piece : (s t : Bytes) → blank_free s ≡ true → cut (s ++ t) ≡ joined s (cut t)
unfolding cut
cut-piece [] t h = joined-cut t
cut-piece (c ∷ s) t h =
    if_cases (λ l. l ≡ joined (c ∷ s) (cut t)) (nat_beq c 32) _ _
      (λ e. absurd (let no : ⊥ = ground (arith, e, h) in no))
      (λ e. ap (λ l. put_in c l) (cut-piece s t (ground (arith, h))) ∙ put_in-joined c s (cut t))

cut-arguments :
    (args : List Bytes) → All (λ a. blank_free a ≡ true) args → cut (arguments args) ≡ [] ∷ args
unfolding cut arguments
cut-arguments [] h = refl
cut-arguments (a ∷ args) (p, h) =
    ap (λ l. [] ∷ l) (cut-piece a (arguments args) p ∙ rw (cut-arguments args h, append-nil a) refl)

blank_free-word : (s : Bytes) → blank_free (word s) ≡ true
unfolding word
blank_free-word [] = refl
blank_free-word (c ∷ s) = ground (arith, blank_free-word s)

abbrev SerialsBlankFree : List AdbDevice → Type 0
SerialsBlankFree ds = All (λ (d : AdbDevice). blank_free d.serial ≡ true) ds

blank_free-devices : (ls : List Bytes) → SerialsBlankFree (devices_of ls)
unfolding devices_of device_of
blank_free-devices [] = tt
blank_free-devices (line ∷ ls) =
    if_cases SerialsBlankFree (is_empty line || line == 13 ∷ []) _ _ (λ e. blank_free-devices ls)
      (λ e.
        if_cases SerialsBlankFree (not (is_empty (device_of line).serial)) _ _
          (λ k. (blank_free-word (skip_spaces line), blank_free-devices ls))
          (λ k. blank_free-devices ls))

blank_free-list_devices : (output : Bytes) → SerialsBlankFree (list_devices output)
unfolding list_devices
blank_free-list_devices output = go (lines output)
  where
    go : (ls : List Bytes) → SerialsBlankFree (elim ls [ [] ↦ [] | title ∷ ls ↦ devices_of ls ])
    go [] = tt
    go (title ∷ ls) = blank_free-devices ls

All-each {ℓ κ κ'} :
    {A : Type ℓ} (P : A → Type κ) (Q : A → Type κ')
    → ((a : A) → P a → Q a)
    → (l : List A) → All P l
    → All Q l
All-each P Q f [] h = tt
All-each P Q f (a ∷ l) (p, h) = (f a p, All-each P Q f l h)

-- Whatever adb has printed, for each device of the list the command lines of `setupReverse` and
-- `removeReverse`, cut at their blanks, give the arguments that the code means, so that a
-- serial is one argument, if `to_string` gives no blanks.
pub cut-reverse :
    (to_string : ℕ → Bytes)
    → ((n : ℕ) → blank_free (to_string n) ≡ true)
    → (ws_port stream_port file_port : ℕ) (output : Bytes)
    → All
        (λ (d : AdbDevice).
          All
            (λ args. cut (arguments args) ≡ [] ∷ args)
            (remove_reverse d.serial
              ∷ setup_reverse to_string ws_port stream_port file_port d.serial))
        (list_devices output)
unfolding remove_reverse setup_reverse
cut-reverse to_string t ws_port stream_port file_port output =
    All-each (λ (d : AdbDevice). blank_free d.serial ≡ true) _
      (λ d b. (
        cut-arguments _ (refl, (b, (refl, (refl, tt)))),
        (
          reverse d.serial ws_port b,
          (reverse d.serial stream_port b, (reverse d.serial file_port b, tt)),
        ),
      ))
      (list_devices output) (blank_free-list_devices output)
  where
    reverse :
        (serial : Bytes) (port : ℕ)
        → blank_free serial ≡ true
        → cut (arguments (reverse_args to_string serial port))
          ≡ [] ∷ reverse_args to_string serial port
    reverse serial port b = cut-arguments _ (refl, (b, (refl, (t port, (t port, tt)))))
