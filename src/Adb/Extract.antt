-- ===== src/Adb/Extract.antt =====
-- `extractAdb` of src/core/AdbManager.cpp: the three files of adb that the program brings along. The
-- disk and the copying out of the program's resources are Qt's.
use iriseus.Prelude.{
  ◌≡◌, refl, ◌∙◌, ap, Bytes, Bool, true, false, Option, none, some, List, [], ◌∷◌, ◌++◌, codes,
  ◌==◌, bytes_eq, bytes_beq_iff, if◌then◌else◌, if_cases, inl, inr, Option-cases, Bool-cases, All,
  arith,
}
use iriseus.Prelude.Assoc.{beq_refl}
use iriseus.Adb.Commands.{start_server_args}

-- `copy` of a resource to a path fails for a path that is there.
pub record ResourceLib : Type 1 where
  pub Disk : Type 0
  pub contents : Disk → Bytes → Option Bytes
  pub resource : Bytes → Bytes
  pub mkpath : Disk → Bytes → Disk
  pub copy : Disk → Bytes → Bytes → Option Disk
  pub executable : Disk → Bytes → Disk
  pub contents-mkpath : (d : Disk) (p q : Bytes) → contents (mkpath d p) q ≡ contents d q
  pub contents-executable : (d : Disk) (p q : Bytes) → contents (executable d p) q ≡ contents d q
  pub contents-copy :
      (d e : Disk) (r p q : Bytes)
      → copy d r p ≡ some e
      → contents e q ≡ (if p == q then some (resource r) else contents d q)

abbrev pub is_file : Option Bytes → Bool
is_file none = false
is_file (some b) = true

-- Each resource with the name that `section('/', -1)` takes of it.
abbrev pub bundled : List (Bytes × Bytes)
bundled =
    (codes ":/adb/adb.exe", codes "adb.exe")
    ∷ (codes ":/adb/AdbWinApi.dll", codes "AdbWinApi.dll")
    ∷ (codes ":/adb/AdbWinUsbApi.dll", codes "AdbWinUsbApi.dll")
    ∷ []

module _ (lib : ResourceLib) where
  open lib use {Disk, contents, resource, mkpath, copy, executable}

  -- The copy of one file, if it succeeds.
  unfoldable pub copied : Bytes → Option Disk → Option Disk
  copied dest none = none
  copied dest (some d) = some (executable d dest)

  unfoldable pub extract_file : Bytes → Bytes × Bytes → Disk → Option Disk
  unfolding copied
  extract_file dir (path, name) d =
      let dest = dir ++ (codes "/" ++ name) in
      if is_file (contents d dest) then some d else copied dest (copy d path dest)

  -- The loop, which stops at the first file that cannot be copied: whether all went well.
  unfoldable pub extract_each : Bytes → List (Bytes × Bytes) → Disk → Bool × Disk
  unfolding extract_file
  extract_each dir [] d = (true, d)
  extract_each dir (f ∷ fs) d = elim (extract_file dir f d) [
    | none ↦ (false, d)
    | some e ↦ extract_each dir fs e
  ]

  unfoldable pub extract_adb : Bytes → Disk → Bool × Disk
  unfolding extract_each
  extract_adb dir d = extract_each dir bundled (mkpath d dir)

  -- Whether `init` succeeds, and what it runs: the answer of `start-server` is not looked at.
  unfoldable pub init : Bytes → Disk → Bool × Disk × List (List Bytes)
  unfolding extract_adb
  init dir d = let (ok, e) = extract_adb dir d in (ok, e, if ok then start_server_args ∷ [] else [])

  -- Nothing that was on the disk has changed.
  pub Kept : Disk → Disk → Type 0
  Kept d e = (q b : Bytes) → contents d q ≡ some b → contents e q ≡ some b

  -- The file that a resource is copied to.
  abbrev pub is_extracted : Bytes → Bytes × Bytes → Disk → Bool
  is_extracted dir f d = is_file (contents d (dir ++ (codes "/" ++ f.1)))

  -- What a step leaves, if it does not stop.
  Extracts : Bytes → Bytes × Bytes → Disk → Option Disk → Type 0
  Extracts dir f d none = Unit
  Extracts dir f d (some e) = Kept d e × (is_extracted dir f e ≡ true)

  copy-kept :
      (d e : Disk) (r dest q b : Bytes)
      → is_file (contents d dest) ≡ false
      → copy d r dest ≡ some e
      → contents d q ≡ some b
      → contents e q ≡ some b
  copy-kept d e r dest q b free h k = elim (Bool-cases (dest == q)) [
    | inl same ↦
        let p : dest ≡ q = (bytes_beq_iff dest q).0 same in
        let there : contents d dest ≡ some b = ap (λ (x : Bytes). contents d x) p ∙ k in
        let file : is_file (contents d dest) ≡ true = ap is_file there in
        absurd (let wrong : ⊥ = cc in wrong)
    | inr other ↦ lib.contents-copy d e r dest q h ∙ (rw other k)
  ]

  copied-Extracts :
      (dir : Bytes) (f : Bytes × Bytes) (d : Disk) (o : Option Disk)
      → is_extracted dir f d ≡ false
      → copy d f.0 (dir ++ (codes "/" ++ f.1)) ≡ o
      → Extracts dir f d (copied (dir ++ (codes "/" ++ f.1)) o)
  unfolding copied Kept Extracts
  copied-Extracts dir f d none free h = tt
  copied-Extracts dir f d (some e) free h =
      let dest = dir ++ (codes "/" ++ f.1) in
      (
        λ q b k. lib.contents-executable e dest q ∙ copy-kept d e f.0 dest q b free h k,
        ap is_file (lib.contents-executable e dest dest ∙ lib.contents-copy d e f.0 dest dest h)
            ∙ rw (beq_refl dest) refl,
      )

  file-Extracts :
      (dir : Bytes) (f : Bytes × Bytes) (d : Disk) → Extracts dir f d (extract_file dir f d)
  unfolding extract_file Kept Extracts
  file-Extracts dir f d =
      if_cases (Extracts dir f d) (is_extracted dir f d) _ _ (λ e. (λ q b k. k, e))
        (λ e. copied-Extracts dir f d _ e refl)

  is_file-Kept :
      (d e : Disk) (p : Bytes)
      → Kept d e
      → is_file (contents d p) ≡ true
      → is_file (contents e p) ≡ true
  unfolding Kept
  is_file-Kept d e p k h = elim (Option-cases (contents d p)) [
    | inl no_file ↦ absurd (let no : ⊥ = ground (arith, no_file, h) in no)
    | inr (b, has) ↦ rw (k p b has) refl
  ]

  -- What the loop leaves, and what it has done if it did not stop.
  pub Extracted : Bytes → List (Bytes × Bytes) → Disk → Bool × Disk → Type 0
  Extracted dir fs d (ok, e) = Kept d e × (ok ≡ true → All (λ f. is_extracted dir f e ≡ true) fs)

  step-Extracted :
      (dir : Bytes) (f : Bytes × Bytes) (fs : List (Bytes × Bytes)) (d : Disk)
      → ((e : Disk) → Extracted dir fs e (extract_each dir fs e))
      → (o : Option Disk) → Extracts dir f d o
      → Extracted dir (f ∷ fs) d (elim o [ none ↦ (false, d) | some e ↦ extract_each dir fs e ])
  unfolding Extracts Extracted Kept
  step-Extracted dir f fs d ih none x = (λ q b k. k, λ h. absurd (let no : ⊥ = cc in no))
  step-Extracted dir f fs d ih (some e) (kept, there) =
      let (more, all) = ih e in
      (
        λ q b k. more q b (kept q b k),
        λ h. (
          is_file-Kept e (extract_each dir fs e).1 (dir ++ (codes "/" ++ f.1)) more there,
          all h,
        ),
      )

  extract_each-Extracted :
      (dir : Bytes) (fs : List (Bytes × Bytes)) (d : Disk)
      → Extracted dir fs d (extract_each dir fs d)
  unfolding extract_each Extracted Kept
  extract_each-Extracted dir [] d = (λ q b k. k, λ h. tt)
  extract_each-Extracted dir (f ∷ fs) d =
      step-Extracted dir f fs d (λ e. extract_each-Extracted dir fs e) (extract_file dir f d)
        (file-Extracts dir f d)

  -- Every file that was on the disk keeps its contents, also those of an adb that was extracted
  -- before; and if the extraction reports success, the three files of adb are there.
  pub extract_adb-Extracted : (dir : Bytes) (d : Disk) → Extracted dir bundled d (extract_adb dir d)
  unfolding extract_adb Extracted Kept
  extract_adb-Extracted dir d =
      let (kept, all) = extract_each-Extracted dir bundled (mkpath d dir) in
      (λ q b k. kept q b (lib.contents-mkpath d dir q ∙ k), all)
