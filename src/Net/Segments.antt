-- ===== src/Net/Segments.antt =====
-- A connection as the list of segments that arrive on it: a socket that meets the interface.
use iriseus.Prelude.{
  ℕ, zero, suc, ◌≤◌, ◌<◌, ◌≡◌, Bytes, Option, none, some, List, [], ◌∷◌, ◌++◌, leb, length, take,
  drop, take-append-drop, if◌then◌else◌, append_assoc, Bool-cases, inl, inr, arith,
}
use iriseus.Net.{SocketLib}

abbrev pub Segments : Type 0
Segments = List Bytes

abbrev pub concat : Segments → Bytes
concat [] = []
concat (b ∷ s) = b ++ concat s

-- The next segment that holds something is delivered up to the size asked for.
abbrev pub read : Segments → ℕ → Option (Bytes × Segments)
read [] n = none
read ([] ∷ s) n = read s n
read ((x ∷ b) ∷ s) n =
    if leb (length (x ∷ b)) n then some (x ∷ b, s) else some (take n (x ∷ b), drop n (x ∷ b) ∷ s)

length-take-le : (n : ℕ) (b : Bytes) → length (take n b) ≤ n
length-take-le zero b = omega arith
length-take-le (suc n) [] = omega arith
length-take-le (suc n) (x ∷ b) = omega (arith, length-take-le n b)

pub read_in_order :
    (s : Segments) (n : ℕ) (b : Bytes) (s' : Segments)
    → read s n ≡ some (b, s')
    → (length b ≤ n) × (concat s ≡ b ++ concat s')
read_in_order [] n b s' e = absurd (cc)
read_in_order ([] ∷ s) n b s' e = read_in_order s n b s' e
read_in_order ((x ∷ c) ∷ s) n b s' e = ground (
  arith,
  length-take-le n (x ∷ c),
  take-append-drop n (x ∷ c),
  append_assoc (take n (x ∷ c)) (drop n (x ∷ c)) (concat s),
)

pub read_progress :
    (s : Segments) (n : ℕ)
    → 0 < n
    → 0 < length (concat s)
    → (b : Bytes) × (s' : Segments) × (read s n ≡ some (b, s')) × (0 < length b)
read_progress [] n h k = absurd (omega arith)
read_progress ([] ∷ s) n h k = read_progress s n h k
read_progress ((x ∷ c) ∷ s) zero h k = absurd (omega arith)
read_progress ((x ∷ c) ∷ s) (suc n) h k = elim (Bool-cases (leb (length (x ∷ c)) (suc n))) [
  | inl e ↦ (x ∷ c, s, rw e, omega arith)
  | inr e ↦ (x ∷ take n c, drop n c ∷ s, rw e, omega arith)
]

abbrev pub segments : SocketLib
segments = record {
  Sock = Segments;
  read_some = read;
  pending = concat;
  read_some_in_order = read_in_order;
  read_some_progress = read_progress;
}
