-- ===== src/Examples/Libraries.antt =====
-- A disk, a hash, file names and keys that meet the interfaces: the disk is a table that never fills
-- up, the hash of some bytes is these bytes, and the keys are used as they are.
use iriseus.Prelude.{
  ℕ, zero, suc, ◌≡◌, refl, ap, ◌∙◌, Bytes, Bool, true, false, Option, none, some, List, [], ◌∷◌,
  ◌++◌, ◌==◌, bytes_eq, bytes_beq_iff, Option-cases, none-ne-some, inl, inr, nat_beq, append_assoc,
  append-nil, if◌then◌else◌, arith,
}
use iriseus.Prelude.Assoc.{
  Assoc, lookup, insert, erase, lookup-insert, lookup-erase, lookup-insert_self, lookup-erase_self,
}
use iriseus.Pairing.{CryptoLib}
use iriseus.Transfer.Files.{FilesLib, Works, HashLib, PathLib, contains, has_slash, slash}

abbrev pub Table : Type 0
Table = Assoc Bytes Bytes

abbrev pub keys : Table → List Bytes
keys [] = []
keys ((k, b) ∷ d) = k ∷ keys d

abbrev pub in_use : Table → Bytes → Bool
in_use d p = elim (lookup p d) [ none ↦ false | some b ↦ true ]

abbrev pub appended : Table → Bytes → Bytes → Table
appended d p x = elim (lookup p d) [ none ↦ d | some b ↦ insert p (b ++ x) d ]

abbrev pub renamed : Table → Bytes → Bytes → Option Table
renamed d p q = elim (lookup p d) [
  | none ↦ none
  | some b ↦ if in_use d q then none else some (insert q b (erase p d))
]

pub in_use_lem : (d : Table) (p b : Bytes) → lookup p d ≡ some b → in_use d p ≡ true
in_use_lem d p b e = rw (e, in_use)

pub in_use_listed : (d : Table) (p : Bytes) → in_use d p ≡ true → contains p (keys d) ≡ true
unfolding lookup
in_use_listed [] p h = ground arith
in_use_listed ((k, b) ∷ d) p h =
    ground (arith, in_use_listed d p, bytes_beq_iff k p, bytes_beq_iff p k)

pub lookup-appended :
    (d : Table) (p q x : Bytes) → (p == q) ≡ false → lookup q (appended d p x) ≡ lookup q d
lookup-appended d p q x h = elim (Option-cases (lookup p d)) [
  | inl e ↦ rw (e, appended)
  | inr (b, e) ↦ rw (e, appended) (lookup-insert p q (b ++ x) d ∙ rw h)
]

lookup-appended_self :
    (d : Table) (p b x : Bytes) → lookup p d ≡ some b → lookup p (appended d p x) ≡ some (b ++ x)
lookup-appended_self d p b x h = rw (h, appended) (lookup-insert_self p (b ++ x) d)

pub lookup-renamed :
    (d d' : Table) (p q r : Bytes)
    → renamed d p q ≡ some d'
    → lookup r d' ≡ (if q == r then lookup p d else if p == r then none else lookup r d)
lookup-renamed d d' p q r h = elim (Option-cases (lookup p d)) [
  | inl e ↦ absurd (let k : none ≡ some d' = rw (e, renamed) at h in none-ne-some refl k)
  | inr (b, e) ↦
      let k : (if in_use d q then none else some (insert q b (erase p d))) ≡ some d' =
        rw (e, renamed) at h in
      ground (arith, k, e, lookup-insert q r b (erase p d), lookup-erase p r d)
]

rename_free :
    (d : Table) (p q b : Bytes)
    → lookup p d ≡ some b
    → in_use d q ≡ false
    → (d' : Table) × (renamed d p q ≡ some d')
rename_free d p q b e h = (insert q b (erase p d), rw (e, renamed) (rw h))

rename_lost : (d : Table) (p q : Bytes) → lookup p d ≡ none → renamed d p q ≡ none
rename_lost d p q e = rw (e, renamed)

pub lookup-created :
    (d d' : Table) (p q : Bytes)
    → some (insert p [] d) ≡ some d'
    → lookup q d' ≡ (if p == q then some [] else lookup q d)
lookup-created d d' p q h = let k : insert p [] d ≡ d' = cc in rw (← k) (lookup-insert p q [] d)

pub lookup-removed :
    (d : Table) (p q : Bytes) → (p == q) ≡ false → lookup q (erase p d) ≡ lookup q d
lookup-removed d p q h = lookup-erase p q d ∙ rw h

pub rename_taken : (d : Table) (p q : Bytes) → in_use d q ≡ true → renamed d p q ≡ none
rename_taken d p q h = elim (Option-cases (lookup p d)) [
  | inl e ↦ rw (e, renamed)
  | inr (b, e) ↦ rw (e, renamed) (rw h)
]

abbrev pub table : FilesLib
table = record {
  Disk = Table;
  contents = λ d p. lookup p d;
  exists = in_use;
  listing = keys;
  make_path = λ d p. d;
  create = λ d p. some (insert p [] d);
  write = appended;
  remove = λ d p. erase p d;
  rename = renamed;
  exists_file = in_use_lem;
  exists_listed = in_use_listed;
  contents-make_path = λ d p q. refl;
  contents-create = lookup-created;
  contents-write_ne = lookup-appended;
  contents-remove_ne = lookup-removed;
  contents-rename = lookup-renamed;
  rename_onto = rename_taken;
}

pub table-Works : Works table
table-Works = record {
  contents-write = lookup-appended_self;
  contents-remove = λ d p. lookup-erase_self p d;
  creates = λ d p. (insert p [] d, refl);
  renames = rename_free;
  rename_missing = rename_lost;
}

abbrev pub plain_hash : HashLib
plain_hash = record {
  State = Bytes;
  init = [];
  update = λ h b. h ++ b;
  final = λ h. h;
  update_nil = append-nil;
  update-append = append_assoc;
}

abbrev pub flat : Bytes → Bytes
flat [] = []
flat (c ∷ s) = let rest = flat s in if nat_beq c slash then rest else c ∷ rest

pub flat_lem : (s : Bytes) → has_slash (flat s) ≡ false
flat_lem [] = refl
flat_lem (c ∷ s) = ground (arith, flat_lem s)

abbrev pub ones : ℕ → Bytes
ones zero = []
ones (suc n) = b'1' ∷ ones n

pub ones_flat : (n : ℕ) → has_slash (ones n) ≡ false
ones_flat zero = refl
ones_flat (suc n) = ones_flat n

pub ones-injective : (m n : ℕ) → ones m ≡ ones n → m ≡ n
ones-injective zero zero h = refl
ones-injective zero (suc n) h = cc
ones-injective (suc m) zero h = cc
ones-injective (suc m) (suc n) h = ap suc (ones-injective m n (cc))

abbrev pub flat_paths : PathLib
flat_paths = record {
  directory = λ t. [];
  base_name = flat;
  suffix = λ t. [];
  file_path = λ t n. n;
  number = ones;
  base_name_flat = flat_lem;
  suffix_flat = λ t. refl;
  number_flat = ones_flat;
  number-injective = ones-injective;
  file_path-injective = λ t a b x y e. e;
}

abbrev pub plain_keys : CryptoLib
plain_keys = record {
  session_keys = λ pair peer. some (peer, pair.private_key);
  encode = λ b. b;
  decode = λ b. some b;
  decode-encode = λ b. refl;
}
