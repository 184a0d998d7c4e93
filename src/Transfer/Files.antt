-- ===== src/Transfer/Files.antt =====
-- What the transfers use of the file system (`QFile`, `QDir`, `std::ofstream`, `std::ifstream`), of
-- file names (`QFileInfo`, `QString`) and of SHA-256 (libsodium): libraries outside this
-- repository, as interfaces with the documented behaviour that the code relies on.
pub mod FreeName
use iriseus.Prelude.{
  ℕ, zero, suc, ◌+◌, ◌≡◌, Bytes, Bool, true, false, Option, none, some, List, [], ◌∷◌, ◌++◌, ◌==◌,
  ◌||◌, bytes_eq, nat_beq, length, is_empty, if◌then◌else◌, codes,
}

abbrev pub contains : Bytes → List Bytes → Bool
contains p [] = false
contains p (q ∷ l) = p == q || contains p l

-- `contents d p` is what a reader of the file `p` gets, `none` if there is no such file. A failed
-- `create` or `rename` is `none`; `write` and `remove` do not say whether they worked.
pub record FilesLib : Type 1 where
  pub Disk : Type 0
  pub contents : Disk → Bytes → Option Bytes
  pub exists : Disk → Bytes → Bool
  pub listing : Disk → List Bytes
  pub make_path : Disk → Bytes → Disk
  pub create : Disk → Bytes → Option Disk
  pub write : Disk → Bytes → Bytes → Disk
  pub remove : Disk → Bytes → Disk
  pub rename : Disk → Bytes → Bytes → Option Disk
  pub exists_file : (d : Disk) (p b : Bytes) → contents d p ≡ some b → exists d p ≡ true
  pub exists_listed : (d : Disk) (p : Bytes) → exists d p ≡ true → contains p (listing d) ≡ true
  pub contents-make_path : (d : Disk) (p q : Bytes) → contents (make_path d p) q ≡ contents d q
  pub contents-create :
      (d d' : Disk) (p q : Bytes)
      → create d p ≡ some d'
      → contents d' q ≡ (if p == q then some [] else contents d q)
  pub contents-write_ne :
      (d : Disk) (p q x : Bytes) → (p == q) ≡ false → contents (write d p x) q ≡ contents d q
  pub contents-remove_ne :
      (d : Disk) (p q : Bytes) → (p == q) ≡ false → contents (remove d p) q ≡ contents d q
  pub contents-rename :
      (d d' : Disk) (p q r : Bytes)
      → rename d p q ≡ some d'
      → contents d' r ≡ (if q == r then contents d p else if p == r then none else contents d r)
  pub rename_onto : (d : Disk) (p q : Bytes) → exists d q ≡ true → rename d p q ≡ none

-- A disk on which the operations work: it is not full, the files are not locked, and the paths are
-- in folders that can be written.
pub record Works (files : FilesLib) : Type 0 where
  pub contents-write :
      (d : files.Disk) (p b x : Bytes)
      → files.contents d p ≡ some b
      → files.contents (files.write d p x) p ≡ some (b ++ x)
  pub contents-remove : (d : files.Disk) (p : Bytes) → files.contents (files.remove d p) p ≡ none
  pub creates : (d : files.Disk) (p : Bytes) → (d' : files.Disk) × (files.create d p ≡ some d')
  pub renames :
      (d : files.Disk) (p q b : Bytes)
      → files.contents d p ≡ some b
      → files.exists d q ≡ false
      → (d' : files.Disk) × (files.rename d p q ≡ some d')
  pub rename_missing :
      (d : files.Disk) (p q : Bytes) → files.contents d p ≡ none → files.rename d p q ≡ none

-- The incremental hash: feeding pieces is feeding them joined.
pub record HashLib : Type 1 where
  pub State : Type 0
  pub init : State
  pub update : State → Bytes → State
  pub final : State → Bytes
  pub update_nil : (h : State) → update h [] ≡ h
  pub update-append : (h : State) (a b : Bytes) → update (update h a) b ≡ update h (a ++ b)

abbrev pub slash : ℕ
slash = b'/'

abbrev pub has_slash : Bytes → Bool
has_slash [] = false
has_slash (c ∷ s) = nat_beq c slash || has_slash s

-- `file_path t n` is the name `n` in the directory of `t`; `number` is how a count is spelled. Names
-- with place markers such as `%1` in them, which `QString::arg` would expand, are left out.
pub record PathLib : Type 0 where
  pub directory : Bytes → Bytes
  pub base_name : Bytes → Bytes
  pub suffix : Bytes → Bytes
  pub file_path : Bytes → Bytes → Bytes
  pub number : ℕ → Bytes
  pub base_name_flat : (t : Bytes) → has_slash (base_name t) ≡ false
  pub suffix_flat : (t : Bytes) → has_slash (suffix t) ≡ false
  pub number_flat : (n : ℕ) → has_slash (number n) ≡ false
  pub number-injective : (m n : ℕ) → number m ≡ number n → m ≡ n
  pub file_path-injective :
      (t a b : Bytes)
      → has_slash a ≡ false
      → has_slash b ≡ false
      → file_path t a ≡ file_path t b
      → a ≡ b

module _ (paths : PathLib) where
  open paths use {base_name, suffix, file_path, number}

  -- `%1 (%2).%3`, or `%1 (%2)` without an extension.
  unfoldable pub numbered_name : Bytes → ℕ → Bytes
  numbered_name target count =
      if is_empty (suffix target)
      then base_name target ++ (codes " (" ++ (number count ++ codes ")"))
      else base_name target ++ (codes " (" ++ (number count ++ (codes ")." ++ suffix target)))

  unfoldable pub numbered : Bytes → ℕ → Bytes
  unfolding numbered_name
  numbered target count = file_path target (numbered_name target count)

module _ (files : FilesLib) (paths : PathLib) where
  open files use {Disk, exists, listing}

  pub free_name_loop : ℕ → Disk → Bytes → ℕ → Bytes → Bytes
  free_name_loop zero d target count path = path
  free_name_loop (suc fuel) d target count path =
      let next = free_name_loop fuel d target (count + 1) (numbered paths target count) in
      if exists d path then next else path

  -- `finalPath`: one more round than there are files is enough.
  unfoldable pub free_name : Disk → Bytes → Bytes
  unfolding free_name_loop
  free_name d target = free_name_loop (suc (suc (length (listing d)))) d target 1 target
