-- ===== src/Transfer/Server/Held.antt =====
-- What the operations of the file system do to a file that is not the one they are given.
use iriseus.Prelude.{
  ℕ, ◌≡◌, ◌≢◌, refl, ◌∙◌, inl, inr, Bytes, true, false, some, ◌==◌, bytes_eq, bytes_beq_iff,
  Bool-cases, none-ne-some, arith,
}
use iriseus.Transfer.Disk.{DiskLib}

module _ (disks : DiskLib) (p : Bytes) (f : disks.File) (b : Bytes) where
  open disks use {
    Disk, File, named, inside, exists, make_path, create, write, remove, rename, exists_named,
    named-make_path, inside-make_path, named-create_ne, inside-create_ne, create_file, named-write,
    inside-write_ne, named-remove_ne, inside-remove_ne, named-rename, inside-rename, rename_onto,
  }

  -- The path still names the file, with the same bytes in it.
  pub record Held (d : Disk) : Type 0 where
    pub name : named d p ≡ some f
    pub bytes : inside d f ≡ b

  pub Held-make_path : (d : Disk) (q : Bytes) → Held d → Held (make_path d q)
  Held-make_path d q h = record {
    name = named-make_path d q p ∙ h.name;
    bytes = inside-make_path d q f ∙ h.bytes;
  }

  -- A path other than `p` never opens the file of `p`.
  pub create_other :
      (d d' : Disk) (q : Bytes) (g : File)
      → create d q ≡ some (g, d')
      → (q == p) ≡ false
      → Held d
      → g ≢ f
  create_other d d' q g e ne h same =
      let k : q ≡ p = create_file d d' q p g e (h.name ∙ rw same refl) in
      ground (arith, k, ne, bytes_beq_iff q p)

  pub Held-create :
      (d d' : Disk) (q : Bytes) (g : File)
      → create d q ≡ some (g, d')
      → (q == p) ≡ false
      → Held d
      → Held d'
  Held-create d d' q g e ne h = record {
    name = named-create_ne d d' q p g e ne ∙ h.name;
    bytes = inside-create_ne d d' q g f e (create_other d d' q g e ne h) ∙ h.bytes;
  }

  pub Held-write : (d : Disk) (g : File) (n : ℕ) (x : Bytes) → g ≢ f → Held d → Held (write d g n x)
  Held-write d g n x ne h = record {
    name = named-write d g n x p ∙ h.name;
    bytes = inside-write_ne d g f n x ne ∙ h.bytes;
  }

  pub Held-remove : (d : Disk) (q : Bytes) → (q == p) ≡ false → Held d → Held (remove d q)
  Held-remove d q ne h = record {
    name = named-remove_ne d q p ne ∙ h.name;
    bytes = inside-remove_ne d q p f ne h.name ∙ h.bytes;
  }

  -- Nothing is renamed onto a file that is there.
  rename_elsewhere :
      (d d' : Disk) (q r : Bytes) → rename d q r ≡ some d' → Held d → (r == p) ≡ false
  rename_elsewhere d d' q r e h = elim (Bool-cases (r == p)) [
    | inr other ↦ other
    | inl same ↦
        let k : r ≡ p = (bytes_beq_iff r p).0 same in
        let taken : exists d r ≡ true = rw k (exists_named d p f h.name) in
        absurd (none-ne-some (rename_onto d q r taken) e)
  ]

  pub Held-rename :
      (d d' : Disk) (q r : Bytes) → rename d q r ≡ some d' → (q == p) ≡ false → Held d → Held d'
  Held-rename d d' q r e ne h = record {
    name = named-rename d d' q r p e ∙ rw (rename_elsewhere d d' q r e h, ne) h.name;
    bytes = inside-rename d d' q r f e ∙ h.bytes;
  }
