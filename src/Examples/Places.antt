-- ===== src/Examples/Places.antt =====
-- A disk for several threads: a list of entries, each with its path,
-- if it still has one, and its bytes. A file is the place of its entry.
use iriseus.Prelude.{
  ℕ, zero, suc, ◌≡◌, ◌≢◌, refl, sym, ap, ◌∙◌, Bytes, Bool, true, false, Option, none, some, List,
  [], ◌∷◌, ◌++◌, ◌==◌, bytes_eq, bytes_beq_iff, length, if◌then◌else◌, arith,
}

abbrev pub Entries : Type 0
Entries = List (Option Bytes × Bytes)

unfoldable pub hits : Option Bytes → Bytes → Bool
hits none p = false
hits (some q) p = q == p

abbrev pub next_place : Option ℕ → Option ℕ
next_place none = none
next_place (some i) = some (suc i)

unfoldable pub place_of : Entries → Bytes → Option ℕ
unfolding hits
place_of [] p = none
place_of ((o, b) ∷ d) p = let rest = place_of d p in if hits o p then some 0 else next_place rest

unfoldable pub bytes_at : Entries → ℕ → Bytes
bytes_at [] i = []
bytes_at ((o, b) ∷ d) zero = b
bytes_at ((o, b) ∷ d) (suc i) = bytes_at d i

unfoldable pub put : ℕ → Bytes → Entries → Entries
put i x [] = []
put zero x ((o, b) ∷ d) = (o, x) ∷ d
put (suc i) x ((o, b) ∷ d) = (o, b) ∷ put i x d

-- Every entry with the path `p` gets another one, or none.
unfoldable pub repath : Bytes → Option Bytes → Entries → Entries
unfolding hits
repath p to [] = []
repath p to ((o, b) ∷ d) = let rest = repath p to d in (if hits o p then to else o, b) ∷ rest

pub place_of-put : (d : Entries) (i : ℕ) (x p : Bytes) → place_of (put i x d) p ≡ place_of d p
unfolding place_of put
place_of-put [] i x p = refl
place_of-put ((o, b) ∷ d) zero x p = refl
place_of-put ((o, b) ∷ d) (suc i) x p = rw (place_of-put d i x p) refl

pub bytes_at-put_ne :
    (d : Entries) (i j : ℕ) (x : Bytes) → i ≢ j → bytes_at (put i x d) j ≡ bytes_at d j
unfolding bytes_at put
bytes_at-put_ne [] i j x h = refl
bytes_at-put_ne ((o, b) ∷ d) zero zero x h = absurd (h refl)
bytes_at-put_ne ((o, b) ∷ d) zero (suc j) x h = refl
bytes_at-put_ne ((o, b) ∷ d) (suc i) zero x h = refl
bytes_at-put_ne ((o, b) ∷ d) (suc i) (suc j) x h = bytes_at-put_ne d i j x (λ e. h (ap suc e))

pub bytes_at-repath :
    (d : Entries) (p : Bytes) (to : Option Bytes) (i : ℕ)
    → bytes_at (repath p to d) i ≡ bytes_at d i
unfolding bytes_at repath
bytes_at-repath [] p to i = refl
bytes_at-repath ((o, b) ∷ d) p to zero = refl
bytes_at-repath ((o, b) ∷ d) p to (suc i) = bytes_at-repath d p to i

pub bytes_at-append_ne :
    (d : Entries) (e : Option Bytes × Bytes) (j : ℕ)
    → length d ≢ j
    → bytes_at (d ++ e ∷ []) j ≡ bytes_at d j
unfolding bytes_at
bytes_at-append_ne [] e zero h = absurd (h refl)
bytes_at-append_ne [] e (suc j) h = refl
bytes_at-append_ne ((o, b) ∷ d) e zero h = refl
bytes_at-append_ne ((o, b) ∷ d) e (suc j) h = bytes_at-append_ne d e j (λ k. h (ap suc k))

pub place_of-append :
    (d : Entries) (p q b : Bytes)
    → (p == q) ≡ false
    → place_of (d ++ (some p, b) ∷ []) q ≡ place_of d q
unfolding place_of hits
place_of-append [] p q b h = rw h refl
place_of-append ((o, x) ∷ d) p q b h = rw (place_of-append d p q b h) refl

pub hits_unique : (o : Option Bytes) (p q : Bytes) → hits o p ≡ true → hits o q ≡ true → p ≡ q
unfolding hits
hits_unique none p q h k = absurd (cc)
hits_unique (some r) p q h k = sym ((bytes_beq_iff r p).0 h) ∙ (bytes_beq_iff r q).0 k

pub next_place-some : (o : Option ℕ) (i : ℕ) → next_place o ≡ some (suc i) → o ≡ some i
next_place-some none i h = absurd (cc)
next_place-some (some j) i h = cc

next_place-zero : (o : Option ℕ) → next_place o ≢ some zero
next_place-zero none h = cc
next_place-zero (some j) h = let k : suc j ≡ zero = cc in omega (arith, k)

pub head_zero :
    (h : Bool) (o : Option ℕ) → (if h then some 0 else next_place o) ≡ some zero → h ≡ true
head_zero true o e = refl
head_zero false o e = absurd (next_place-zero o e)

pub head_suc :
    (h : Bool) (o : Option ℕ) (i : ℕ)
    → (if h then some 0 else next_place o) ≡ some (suc i)
    → o ≡ some i
head_suc true o i e = absurd (let k : 0 ≡ suc i = cc in omega (arith, k))
head_suc false o i e = next_place-some o i e

pub place_unique :
    (d : Entries) (p q : Bytes) (i : ℕ) → place_of d p ≡ some i → place_of d q ≡ some i → p ≡ q
unfolding place_of
place_unique [] p q i h k = absurd (cc)
place_unique ((o, b) ∷ d) p q zero h k =
    hits_unique o p q (head_zero (hits o p) (place_of d p) h)
      (head_zero (hits o q) (place_of d q) k)
place_unique ((o, b) ∷ d) p q (suc i) h k =
    place_unique d p q i (head_suc (hits o p) _ i h) (head_suc (hits o q) _ i k)

pub place_below : (d : Entries) (p : Bytes) (i : ℕ) → place_of d p ≡ some i → i ≢ length d
unfolding place_of
place_below [] p i h = absurd (cc)
place_below ((o, b) ∷ d) p zero h = λ e. omega (arith, e)
place_below ((o, b) ∷ d) p (suc i) h =
    λ e. place_below d p i (head_suc (hits o p) _ i h) (omega (arith, e))
