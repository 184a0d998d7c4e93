-- ===== src/Examples/Entries.antt =====
-- The list of entries as the interface of the shared file system.
use iriseus.Prelude.{
  ℕ, ◌+◌, ◌≡◌, ◌≢◌, refl, sym, ap, ◌∙◌, inl, inr, Bytes, Bool, true, false, Option, none, some, [],
  ◌∷◌, ◌++◌, ◌==◌, bytes_eq, bytes_beq_iff, length, take, drop, take_all, suc, zero, append-nil,
  if◌then◌else◌, Option-cases, Bool-cases, subst, ◌||◌, not, none-ne-some, arith,
}
use iriseus.Transfer.Disk.{DiskLib, Appends}
use iriseus.Examples.Places.{
  head_suc, Entries, hits, next_place, place_of, bytes_at, put, repath, place_of-put,
  bytes_at-put_ne, bytes_at-repath, bytes_at-append_ne, place_of-append, place_unique, place_below,
}

abbrev pub taken : Entries → Bytes → Bool
taken d p = elim (place_of d p) [ none ↦ false | some i ↦ true ]

pub taken_lem : (d : Entries) (p : Bytes) (i : ℕ) → place_of d p ≡ some i → taken d p ≡ true
taken_lem d p i h = rw (h, taken)

-- `std::ofstream` with `trunc`.
unfoldable pub opened : Entries → Bytes → Option ℕ → ℕ × Entries
opened d p none = (length d, d ++ (some p, []) ∷ [])
opened d p (some i) = (i, put i [] d)

abbrev pub created : Entries → Bytes → Option (ℕ × Entries)
created d p = some (opened d p (place_of d p))

abbrev pub patched : ℕ → Bytes → Bytes → Bytes
patched n x b = take n b ++ (x ++ drop (n + length x) b)

abbrev pub written : Entries → ℕ → ℕ → Bytes → Entries
written d i n x = put i (patched n x (bytes_at d i)) d

unfoldable pub moved_to : Bool → Entries → Bytes → Bytes → Option Entries
moved_to true d p q = none
moved_to false d p q = some (repath p (some q) d)

abbrev pub renamed : Entries → Bytes → Bytes → Option Entries
renamed d p q = moved_to (taken d q || not (taken d p)) d p q

pub place_of-opened :
    (d : Entries) (p q : Bytes) (o : Option ℕ)
    → (p == q) ≡ false
    → place_of (opened d p o).1 q ≡ place_of d q
unfolding opened
place_of-opened d p q none h = place_of-append d p q [] h
place_of-opened d p q (some i) h = place_of-put d i [] q

pub bytes_at-opened :
    (d : Entries) (p : Bytes) (o : Option ℕ) (j : ℕ)
    → (opened d p o).0 ≢ j
    → bytes_at (opened d p o).1 j ≡ bytes_at d j
unfolding opened
bytes_at-opened d p none j h = bytes_at-append_ne d (some p, []) j h
bytes_at-opened d p (some i) j h = bytes_at-put_ne d i j [] h

pub opened_file :
    (d : Entries) (p q : Bytes) (o : Option ℕ)
    → place_of d p ≡ o
    → place_of d q ≡ some (opened d p o).0
    → p ≡ q
unfolding opened
opened_file d p q none e h = absurd (place_below d q (length d) h refl)
opened_file d p q (some i) e h = place_unique d p q i e h

hits-ne : (o : Option Bytes) (p q : Bytes) → (p == q) ≡ false → hits o p ≡ true → hits o q ≡ false
unfolding hits
hits-ne none p q h k = refl
hits-ne (some r) p q h k = ground (arith, bytes_beq_iff r p, bytes_beq_iff r q, bytes_beq_iff p q)

pub place_of-removed :
    (d : Entries) (p q : Bytes) → (p == q) ≡ false → place_of (repath p none d) q ≡ place_of d q
unfolding place_of repath hits
place_of-removed [] p q h = refl
place_of-removed ((o, b) ∷ d) p q h = elim (Bool-cases (hits o p)) [
  | inl hit ↦ rw (hit, place_of-removed d p q h, hits-ne o p q h hit) refl
  | inr miss ↦ rw (miss, place_of-removed d p q h) refl
]

-- The new path of an entry.
hits_new :
    (o : Option Bytes) (p q r : Bytes)
    → hits o q ≡ false
    → hits (if hits o p then some q else o) r
      ≡ (if q == r then hits o p else if p == r then false else hits o r)
unfolding hits
hits_new none p q r h = ground arith
hits_new (some s) p q r h = ground (
  arith,
  bytes_beq_iff s p,
  bytes_beq_iff s q,
  bytes_beq_iff s r,
  bytes_beq_iff q r,
  bytes_beq_iff p r,
)

next_place-none : (o : Option ℕ) → next_place o ≡ none → o ≡ none
next_place-none none h = refl
next_place-none (some i) h = absurd (cc)

head_none :
    (h : Bool) (o : Option ℕ)
    → (if h then some 0 else next_place o) ≡ none
    → (h ≡ false) × (o ≡ none)
head_none true o e = absurd (cc)
head_none false o e = (refl, next_place-none o e)

ifs :
    (a c h k : Bool) (x y : Option ℕ)
    → (if (if a then h else if c then false else k)
        then some 0
        else next_place (if a then x else if c then none else y))
      ≡ (if a
          then (if h then some 0 else next_place x)
          else if c
          then none
          else (if k then some 0 else next_place y))
ifs true c h k x y = refl
ifs false true h k x y = refl
ifs false false h k x y = refl

place_of-renamed :
    (d : Entries) (p q r : Bytes)
    → place_of d q ≡ none
    → place_of (repath p (some q) d) r
      ≡ (if q == r then place_of d p else if p == r then none else place_of d r)
unfolding place_of repath
place_of-renamed [] p q r h = ground arith
place_of-renamed ((o, b) ∷ d) p q r h =
    let (free, rest) = head_none (hits o q) (place_of d q) h in
    rw (hits_new o p q r free, place_of-renamed d p q r rest)
      (ifs (q == r) (p == r) (hits o p) (hits o r) (place_of d p) (place_of d r))

taken-none : (d : Entries) (q : Bytes) → taken d q ≡ false → place_of d q ≡ none
taken-none d q h = elim (Option-cases (place_of d q)) [
  | inl e ↦ e
  | inr (i, e) ↦ absurd (let k : true ≡ false = rw (e, taken) at h in cc)
]

pub moved_repath :
    (d d' : Entries) (p q : Bytes)
    → renamed d p q ≡ some d'
    → (taken d q ≡ false) × (repath p (some q) d ≡ d')
unfolding moved_to
moved_repath d d' p q h = elim (Bool-cases (taken d q)) [
  | inl e ↦ absurd (let k : none ≡ some d' = rw e at h in none-ne-some refl k)
  | inr e ↦ elim (Bool-cases (taken d p)) [
    | inl f ↦ (e, let k : some (repath p (some q) d) ≡ some d' = rw (e, f) at h in cc)
    | inr f ↦ absurd (let k : none ≡ some d' = rw (e, f) at h in none-ne-some refl k)
  ]
]

pub place_of-moved :
    (d d' : Entries) (p q r : Bytes)
    → renamed d p q ≡ some d'
    → place_of d' r ≡ (if q == r then place_of d p else if p == r then none else place_of d r)
place_of-moved d d' p q r h =
    let (free, e) = moved_repath d d' p q h in
    rw (← e) (place_of-renamed d p q r (taken-none d q free))

pub renamed_taken : (d : Entries) (p q : Bytes) → taken d q ≡ true → renamed d p q ≡ none
unfolding moved_to
renamed_taken d p q h = rw h refl

pub created-opened :
    (d d' : Entries) (p : Bytes) (i : ℕ)
    → created d p ≡ some (i, d')
    → opened d p (place_of d p) ≡ (i, d')
created-opened d d' p i h = cc

abbrev pub entries : DiskLib
entries = record {
  Disk = Entries;
  File = ℕ;
  named = place_of;
  inside = bytes_at;
  exists = taken;
  make_path = λ d p. d;
  create = created;
  write = written;
  remove = λ d p. repath p none d;
  rename = renamed;
  exists_named = taken_lem;
  named-make_path = λ d p q. refl;
  inside-make_path = λ d p i. refl;
  named-create_ne = λ d d' p q i e h.
      let k : opened d p (place_of d p) ≡ (i, d') = created-opened d d' p i e in
      subst (λ d''. place_of d'' q ≡ place_of d q) (ap (λ x. x.1) k)
        (place_of-opened d p q (place_of d p) h);
  inside-create_ne = λ d d' p i j e h.
      let k : opened d p (place_of d p) ≡ (i, d') = created-opened d d' p i e in
      subst (λ d''. bytes_at d'' j ≡ bytes_at d j) (ap (λ x. x.1) k)
        (bytes_at-opened d p (place_of d p) j (λ s. h (sym (ap (λ x. x.0) k) ∙ s)));
  create_file = λ d d' p q i e h.
      let k : opened d p (place_of d p) ≡ (i, d') = created-opened d d' p i e in
      opened_file d p q (place_of d p) refl (h ∙ ap (λ x. some x.0) (sym k));
  named-write = λ d i n x q. place_of-put d i (patched n x (bytes_at d i)) q;
  inside-write_ne = λ d i j n x h. bytes_at-put_ne d i j (patched n x (bytes_at d i)) h;
  named-remove_ne = place_of-removed;
  inside-remove_ne = λ d p q i h e. bytes_at-repath d p none i;
  named-rename = place_of-moved;
  inside-rename = λ d d' p q i h.
      subst (λ d''. bytes_at d'' i ≡ bytes_at d i) (moved_repath d d' p q h).1
        (bytes_at-repath d p (some q) i);
  rename_onto = renamed_taken;
}

bytes_at-put_self :
    (d : Entries) (p x : Bytes) (i : ℕ) → place_of d p ≡ some i → bytes_at (put i x d) i ≡ x
unfolding place_of bytes_at put
bytes_at-put_self [] p x i h = absurd (cc)
bytes_at-put_self ((o, b) ∷ d) p x zero h = refl
bytes_at-put_self ((o, b) ∷ d) p x (suc i) h = bytes_at-put_self d p x i (head_suc (hits o p) _ i h)

drop_past : (b : Bytes) (n : ℕ) → drop (length b + n) b ≡ []
drop_past [] zero = refl
drop_past [] (suc n) = let e : 0 + suc n ≡ suc n = omega arith in rw e refl
drop_past (x ∷ b) n =
    let e : suc (length b) + n ≡ suc (length b + n) = omega arith in rw e (drop_past b n)

patched_end : (b x : Bytes) → patched (length b) x b ≡ b ++ x
patched_end b x =
    rw (take_all (length b) b (omega arith), drop_past b (length x), append-nil x) refl

pub entries-Appends : Appends entries
entries-Appends = record {
  inside-write = λ d i p b x h e.
      bytes_at-put_self d p (patched (length b) x (bytes_at d i)) i h
      ∙ ap (patched (length b) x) e
      ∙ patched_end b x;
}
