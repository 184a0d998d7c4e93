-- ===== src/Transfer/Files/FreeName.antt =====
-- The search for a free file name in src/core/FileTransferServer.cpp.
use mathlib.Core.List.{append_cancel_right}
use iriseus.Prelude.{
  ℕ, zero, suc, ◌+◌, ◌≤◌, ◌<◌, ◌≡◌, refl, sym, ap, ◌∙◌, ◌⊎◌, inl, inr, Bytes, true, false, List, [],
  ◌∷◌, ◌++◌, ◌==◌, bytes_eq, bytes_beq_iff, length, is_empty, Bool-cases, if_cases, All, codes,
  arith, if◌then◌else◌,
}
use iriseus.Transfer.Files.{
  contains, FilesLib, PathLib, has_slash, numbered_name, numbered, free_name_loop, free_name,
}

-- `l` without the first `p`.
without : Bytes → List Bytes → List Bytes
without p [] = []
without p (q ∷ l) = if p == q then l else q ∷ without p l

length-without :
    (p : Bytes) (l : List Bytes) → contains p l ≡ true → length l ≡ suc (length (without p l))
unfolding without
length-without p [] h = absurd (cc)
length-without p (q ∷ l) h = ground (arith, length-without p l)

contains-without :
    (p q : Bytes) (l : List Bytes)
    → (p == q) ≡ false
    → contains q l ≡ true
    → contains q (without p l) ≡ true
unfolding without
contains-without p q [] n h = absurd (cc)
contains-without p q (r ∷ l) n h =
    ground
      (arith, contains-without p q l n, bytes_beq_iff p r, bytes_beq_iff q r, bytes_beq_iff p q)

-- Different names, all on the list, are no more than the list has.
abbrev Distinct : List Bytes → Type 0
Distinct [] = Unit {0}
Distinct (p ∷ ps) = All (λ q. (p == q) ≡ false) ps × Distinct ps

All-without :
    (p : Bytes) (ps l : List Bytes)
    → All (λ q. (p == q) ≡ false) ps
    → All (λ q. contains q l ≡ true) ps
    → All (λ q. contains q (without p l) ≡ true) ps
All-without p [] l d h = tt
All-without p (q ∷ ps) l (n, d) (c, h) = (contains-without p q l n c, All-without p ps l d h)

length-le_of_Distinct :
    (ps l : List Bytes) → Distinct ps → All (λ q. contains q l ≡ true) ps → length ps ≤ length l
length-le_of_Distinct [] l d h = omega arith
length-le_of_Distinct (p ∷ ps) l (n, d) (c, h) =
    let shorter = length-le_of_Distinct ps (without p l) d (All-without p ps l n h) in
    omega (arith, length-without p l c)

module _ (paths : PathLib) where
  open paths use {
    base_name, suffix, number, base_name_flat, suffix_flat, number_flat, number-injective,
    file_path-injective,
  }

  has_slash-append :
      (a b : Bytes) → has_slash a ≡ false → has_slash b ≡ false → has_slash (a ++ b) ≡ false
  has_slash-append [] b h k = k
  has_slash-append (c ∷ a) b h k = ground (arith, has_slash-append a b)

  append_cancel_left : (a : Bytes) {b c : Bytes} → a ++ b ≡ a ++ c → b ≡ c
  append_cancel_left [] e = e
  append_cancel_left (x ∷ a) e = append_cancel_left a (cc)

  numbered_name_flat : (t : Bytes) (n : ℕ) → has_slash (numbered_name paths t n) ≡ false
  unfolding numbered_name
  numbered_name_flat t n =
      if_cases (λ s. has_slash s ≡ false) (is_empty (suffix t)) _ _
        (λ _.
          has_slash-append (base_name t) _ (base_name_flat t)
            (has_slash-append (number n) _ (number_flat n) refl))
        (λ _. has_slash-append (base_name t) _ (base_name_flat t) (
          has_slash-append (number n) _ (number_flat n)
            (has_slash-append (codes ").") (suffix t) refl (suffix_flat t))))

  numbered_name-injective :
      (t : Bytes) (m n : ℕ) → numbered_name paths t m ≡ numbered_name paths t n → m ≡ n
  unfolding numbered_name
  numbered_name-injective t m n e = number-injective m n (middle (Bool-cases (is_empty (suffix t))))
    where
      cut :
          (x : Bytes)
          → base_name t ++ (codes " (" ++ (number m ++ x))
            ≡ base_name t ++ (codes " (" ++ (number n ++ x))
          → number m ≡ number n
      cut x h =
          append_cancel_right (number m) (number n) x
            (append_cancel_left (codes " (") (append_cancel_left (base_name t) h))

      middle : (is_empty (suffix t) ≡ true) ⊎ (is_empty (suffix t) ≡ false) → number m ≡ number n
      middle (inl bare) = cut _ (rw bare at e)
      middle (inr ext) = cut _ (rw ext at e)

  numbered-injective : (t : Bytes) (m n : ℕ) → numbered paths t m ≡ numbered paths t n → m ≡ n
  unfolding numbered
  numbered-injective t m n e = numbered_name-injective t m n (
      file_path-injective t (numbered_name paths t m) (numbered_name paths t n)
        (numbered_name_flat t m) (numbered_name_flat t n) e)

  -- The names that the loop tries from `c` on.
  tried : Bytes → ℕ → ℕ → List Bytes
  tried t c zero = []
  tried t c (suc n) = numbered paths t c ∷ tried t (c + 1) n

  tried_ne :
      (t : Bytes) (c k n : ℕ) → c < k → All (λ q. (numbered paths t c == q) ≡ false) (tried t k n)
  unfolding tried
  tried_ne t c k zero h = tt
  tried_ne t c k (suc n) h = (
    ground
        (arith, bytes_beq_iff (numbered paths t c) (numbered paths t k), numbered-injective t c k),
    tried_ne t c (k + 1) n (omega arith),
  )

  tried-Distinct : (t : Bytes) (c n : ℕ) → Distinct (tried t c n)
  unfolding tried
  tried-Distinct t c zero = tt
  tried-Distinct t c (suc n) = (tried_ne t c (c + 1) n (omega arith), tried-Distinct t (c + 1) n)

  length-tried : (t : Bytes) (c n : ℕ) → length (tried t c n) ≡ n
  unfolding tried
  length-tried t c zero = refl
  length-tried t c (suc n) = ap suc (length-tried t (c + 1) n)

module _ (files : FilesLib) (paths : PathLib) where
  open files use {Disk, exists, listing, exists_listed}

  -- If the loop ends on a taken name, every name that it tried is taken.
  All-taken :
      (f : ℕ) (d : Disk) (t : Bytes) (c : ℕ)
      → exists d (free_name_loop files paths f d t (c + 1) (numbered paths t c)) ≡ true
      → All (λ q. contains q (listing d) ≡ true) (tried paths t c f)
  unfolding free_name_loop tried
  All-taken zero d t c h = tt
  All-taken (suc f) d t c h = elim (Bool-cases (exists d (numbered paths t c))) [
    | inl taken ↦
        (exists_listed d (numbered paths t c) taken, All-taken f d t (c + 1) (rw taken at h))
    | inr free ↦ absurd (cc (sym free ∙ rw free at h))
  ]

  loop_free :
      (d : Disk) (t : Bytes) (c : ℕ)
      → exists d
          (free_name_loop files paths (suc (length (listing d))) d t (c + 1) (numbered paths t c))
        ≡ false
  loop_free d t c = elim (Bool-cases (exists d (last (suc (length (listing d)))))) [
    | inr free ↦ free
    | inl taken ↦
        let few =
          length-le_of_Distinct (tried paths t c (suc (length (listing d)))) (listing d)
            (tried-Distinct paths t c (suc (length (listing d))))
            (All-taken (suc (length (listing d))) d t c taken) in
        absurd (omega (arith, few, length-tried paths t c (suc (length (listing d)))))
  ]
    where
      last : ℕ → Bytes
      last f = free_name_loop files paths f d t (c + 1) (numbered paths t c)

  -- The name under which an upload is saved is one that does not exist, whatever is on the disk.
  pub free_name_free :
      (d : Disk) (target : Bytes) → exists d (free_name files paths d target) ≡ false
  unfolding free_name
  free_name_free d target = elim (Bool-cases (exists d target)) [
    | inr free ↦ rw free free
    | inl taken ↦ rw taken (loop_free d target 1)
  ]
