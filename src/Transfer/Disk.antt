-- ===== src/Transfer/Disk.antt =====
-- The file system as several threads share it, for src/core/FileTransferServer.cpp: a path names a
-- file, and a stream (`std::ofstream`, `std::ifstream`) keeps the file that it opened, whatever
-- becomes of the path. A library outside this repository, as an interface with the documented
-- behaviour.
use iriseus.Prelude.{
  ℕ, ◌≡◌, ◌≢◌, Bytes, Bool, true, false, Option, none, some, ◌++◌, length, ◌==◌, bytes_eq,
  if◌then◌else◌,
}

-- `named d p` is the file at the path `p`, `inside d f` what is in the file `f`. `write d f n x` puts
-- `x` at the place `n`; like `remove` it does not say whether it worked. A path names a file of its
-- own: there are no links.
pub record DiskLib : Type 1 where
  pub Disk : Type 0
  pub File : Type 0
  pub named : Disk → Bytes → Option File
  pub inside : Disk → File → Bytes
  pub exists : Disk → Bytes → Bool
  pub make_path : Disk → Bytes → Disk
  pub create : Disk → Bytes → Option (File × Disk)
  pub write : Disk → File → ℕ → Bytes → Disk
  pub remove : Disk → Bytes → Disk
  pub rename : Disk → Bytes → Bytes → Option Disk
  pub exists_named : (d : Disk) (p : Bytes) (f : File) → named d p ≡ some f → exists d p ≡ true
  pub named-make_path : (d : Disk) (p q : Bytes) → named (make_path d p) q ≡ named d q
  pub inside-make_path : (d : Disk) (p : Bytes) (f : File) → inside (make_path d p) f ≡ inside d f
  pub named-create_ne :
      (d d' : Disk) (p q : Bytes) (f : File)
      → create d p ≡ some (f, d')
      → (p == q) ≡ false
      → named d' q ≡ named d q
  pub inside-create_ne :
      (d d' : Disk) (p : Bytes) (f g : File)
      → create d p ≡ some (f, d')
      → f ≢ g
      → inside d' g ≡ inside d g
  -- The file that is opened is the one of the path, or a new one.
  pub create_file :
      (d d' : Disk) (p q : Bytes) (f : File)
      → create d p ≡ some (f, d')
      → named d q ≡ some f
      → p ≡ q
  pub named-write :
      (d : Disk) (f : File) (n : ℕ) (x q : Bytes) → named (write d f n x) q ≡ named d q
  pub inside-write_ne :
      (d : Disk) (f g : File) (n : ℕ) (x : Bytes) → f ≢ g → inside (write d f n x) g ≡ inside d g
  pub named-remove_ne :
      (d : Disk) (p q : Bytes) → (p == q) ≡ false → named (remove d p) q ≡ named d q
  pub inside-remove_ne :
      (d : Disk) (p q : Bytes) (f : File)
      → (p == q) ≡ false
      → named d q ≡ some f
      → inside (remove d p) f ≡ inside d f
  pub named-rename :
      (d d' : Disk) (p q r : Bytes)
      → rename d p q ≡ some d'
      → named d' r ≡ (if q == r then named d p else if p == r then none else named d r)
  pub inside-rename :
      (d d' : Disk) (p q : Bytes) (f : File) → rename d p q ≡ some d' → inside d' f ≡ inside d f
  pub rename_onto : (d : Disk) (p q : Bytes) → exists d q ≡ true → rename d p q ≡ none

-- A disk on which writing at the end of a file that has a path works.
pub record Appends (disks : DiskLib) : Type 0 where
  pub inside-write :
      (d : disks.Disk) (f : disks.File) (p b x : Bytes)
      → disks.named d p ≡ some f
      → disks.inside d f ≡ b
      → disks.inside (disks.write d f (length b) x) f ≡ b ++ x
