-- ===== src/Transfer/Server/Saves.antt =====
-- What a connection of src/core/FileTransferServer.cpp saves that nobody else serves.
use iriseus.Prelude.{
  ℕ, ◌+◌, ◌^◌, ◌≤◌, ◌≡◌, refl, sym, ap, subst, ◌∙◌, inl, inr, ◌⊎◌, Bytes, Bool, true, false, Option,
  none, some, List, [], bytes_eq, Bool-cases, All, none-ne-some,
}
use iriseus.Prelude.Assoc.{beq_refl}
use iriseus.Net.{SocketLib}
use iriseus.Transfer.Files.{HashLib, PathLib}
use iriseus.Transfer.Disk.{DiskLib, Appends}
use iriseus.Transfer.Sessions.Every.{some_eq}
use iriseus.Transfer.Upload.{done, max_chunk}
use iriseus.Transfer.Server.{
  Shared, Server, Stage, moving, reporting, turn, moved, testing, nothing_received,
}
use iriseus.Transfer.Server.Steps.{Step, turns, turned, turn_of, step, run, get_elem?}
use iriseus.Transfer.Server.Held.{Held}
use iriseus.Transfer.Server.Bystander.{Elsewhere}
use iriseus.Transfer.Server.AllBut.{AllBut}
use iriseus.Transfer.Server.Owner.{Announced, Mine}
use iriseus.Transfer.Server.Cancelled.{get_elem?-replace_self}
use iriseus.Transfer.Server.Alone.{Foreign, Gone, Entry, Peaceful, Alone}
use iriseus.Transfer.Server.Peace.{run-Alone}

module _ (net : SocketLib) (disks : DiskLib) (sha : HashLib) (paths : PathLib) (p : Bytes)
    (f : disks.File) (id : Bytes) (owner : Shared) where
  open net use {Sock}
  open disks use {Disk, named, inside}

  module _ (works : Appends disks) (i : ℕ) where
    abbrev Lone : Server net disks sha → Type 0
    Lone = Alone net disks sha paths p f id owner i

    abbrev Others : List (Stage net disks sha) → Type 0
    Others = AllBut (Gone net disks sha paths p f id owner) i

    abbrev Entries : Bytes × Shared → Type 0
    Entries = Entry net disks sha paths p f id owner

    abbrev Spared : Shared → Type 0
    Spared = Elsewhere net disks sha paths p f (Foreign net disks sha paths p f id owner)

    abbrev Calm : Step net disks sha paths → Type 0
    Calm = Peaceful net disks sha paths p f id owner

    renamed_whole :
        (k : Shared) (path body : Bytes) (w : Server net disks sha) (o : Option Disk)
        → disks.rename w.disk k.session.temp_path path ≡ o
        → k.session.temp_path ≡ p
        → Held disks p f body w.disk
        → (moved net disks sha k w o).stage ≡ reporting k done
        → (named (moved net disks sha k w o).disk path ≡ some f)
          × (inside (moved net disks sha k w o).disk f ≡ body)
          × (disks.exists w.disk path ≡ false)
    unfolding moved
    renamed_whole k path body w none e t h r = absurd (cc)
    renamed_whole k path body w (some d) e t h r = (
      disks.named-rename w.disk d k.session.temp_path path path e
          ∙ rw (beq_refl path) (rw t h.name),
      disks.inside-rename w.disk d k.session.temp_path path f e ∙ h.bytes,
      free (Bool-cases (disks.exists w.disk path)),
    )
      where
        free :
            (disks.exists w.disk path ≡ true) ⊎ (disks.exists w.disk path ≡ false)
            → disks.exists w.disk path ≡ false
        free (inr no_file) = no_file
        free (inl taken) =
            absurd (none-ne-some (disks.rename_onto w.disk k.session.temp_path path taken) e)

    step-moving :
        (header payload : Bool) (k : Shared) (path : Bytes) (w : Server net disks sha)
        → get_elem? w.threads i ≡ some (moving k path)
        → step net disks sha paths (turns i header payload) w
          ≡ turned net disks sha paths i
              (moved net disks sha k w (disks.rename w.disk k.session.temp_path path))
              w
    unfolding step turn_of turn
    step-moving header payload k path w e = rw e refl

    begins-Alone :
        (s : Sock) (w : Server net disks sha)
        → get_elem? w.threads i ≡ some (testing owner s f (nothing_received net disks sha))
        → owner.session.temp_path ≡ p
        → owner.session.expected_size + max_chunk ≤ 2 ^ 64
        → named w.disk p ≡ some f
        → inside w.disk f ≡ []
        → Others w.threads
        → All Entries w.table
        → Lone w
    unfolding Mine
    begins-Alone s w e temp fits name empty others table = record {
      stage = testing owner s f (nothing_received net disks sha);
      thread = e;
      mine = (
        (refl, temp, fits),
        refl,
        (
          [],
          record {
            held = record { name = name; bytes = empty };
            hashed = sym (sha.update_nil sha.init);
            counted = refl;
            good = refl;
          },
        ),
      );
      others = inr others;
      table = table;
    }

    moving-Mine :
        (k : Shared) (path : Bytes) (d : Disk)
        → Mine net disks sha paths p f owner (moving k path) d
        → (k ≡ owner)
          × (k.session.temp_path ≡ p)
          × ((body : Bytes) × Held disks p f body d × Announced sha k.session body)
    unfolding Mine
    moving-Mine k path d (its, complete) = (its.0, its.1, complete)

    -- A connection that receives a file and whose temporary file nobody else uses saves what was
    -- announced. It starts with the empty file open; other connections do not present the transfer's
    -- identifier and do not have the file open, and other transfers, now and later, have other
    -- temporary files. Whatever they do meanwhile, in whatever order, with cancellations of other
    -- transfers and the first half of `stop` among it: if the connection then renames the file and
    -- goes on to report that it is done, the new path was free, and it names the file, with the
    -- announced size and the announced hash, if there was one. The disk appends what is written,
    -- and the announced size leaves room for a chunk below 2 ^ 64.
    pub run-Saves :
        (header payload : Bool) (es : List (Step net disks sha paths)) (s : Sock) (k : Shared)
        (path : Bytes) (w : Server net disks sha)
        → get_elem? w.threads i ≡ some (testing owner s f (nothing_received net disks sha))
        → owner.session.temp_path ≡ p
        → owner.session.expected_size + max_chunk ≤ 2 ^ 64
        → named w.disk p ≡ some f
        → inside w.disk f ≡ []
        → Others w.threads
        → All Entries w.table
        → All Calm es
        → get_elem? (run net disks sha paths es w).threads i ≡ some (moving k path)
        → get_elem?
            (step net disks sha paths
              (turns i header payload)
              (run net disks sha paths es w)).threads
            i
          ≡ some (reporting k done)
        → let w' = run net disks sha paths es w in
          let w'' = step net disks sha paths (turns i header payload) w' in
          (disks.exists w'.disk path ≡ false)
          × (named w''.disk path ≡ some f)
          × Announced sha owner.session (inside w''.disk f)
    run-Saves header payload es s k path w e temp fits name empty others table q now then =
        let w' = run net disks sha paths es w in
        let a =
          run-Alone net disks sha paths p f id owner works i es w q
            (begins-Alone s w e temp fits name empty others table) in
        let here : a.stage ≡ moving k path = some_eq a.stage (moving k path) (sym a.thread ∙ now) in
        let (mine, its, (body, h, ann)) =
          moving-Mine k path w'.disk
            (subst (λ x. Mine net disks sha paths p f owner x w'.disk) here a.mine) in
        let t = moved net disks sha k w' (disks.rename w'.disk k.session.temp_path path) in
        let after = step-moving header payload k path w' now in
        let reports : t.stage ≡ reporting k done = some_eq t.stage (reporting k done) (
          sym (get_elem?-replace_self w'.threads i (moving k path) t.stage now)
          ∙ sym (ap (λ x. get_elem? x.threads i) after)
          ∙ then) in
        let (names, bytes, free) =
          renamed_whole k path body w' (disks.rename w'.disk k.session.temp_path path) refl its h
            reports in
        (
          free,
          ap (λ x. named x.disk path) after ∙ names,
          subst (λ x. Announced sha owner.session x) (sym (ap (λ x. inside x.disk f) after ∙ bytes))
              (subst (λ x. Announced sha x.session body) mine ann),
        )
