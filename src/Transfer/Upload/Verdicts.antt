-- ===== src/Transfer/Upload/Verdicts.antt =====
-- What the report of an upload says about the disk.
use iriseus.Prelude.{
  suc, ◌≡◌, ◌≢◌, refl, sym, ◌∙◌, Bytes, false, none, some, [], ◌∷◌, ◌==◌, ◌&&◌, ◌||◌, not, bytes_eq,
  bytes_beq_iff, nat_beq, length, is_empty, if_cases, arith, inl, inr, Bool-cases, none-ne-some,
  subst,
}
use iriseus.Prelude.Assoc.{beq_refl}
use iriseus.Net.{SocketLib}
use iriseus.Transfer.Hex.{to_hex}
use iriseus.Transfer.Files.{FilesLib, HashLib, PathLib, Works, free_name}
use iriseus.Transfer.Sessions.{Session}
use iriseus.Transfer.Upload.{
  Control, Upload, Outcome, done, Failure, discard, save, sweep, finish, upload,
}
use iriseus.Transfer.Files.FreeName.{free_name_free}
use iriseus.Transfer.Upload.Loop.{upload_cases}
use iriseus.Transfer.Upload.Body.{Body, Fits, HasBody, HasBody-begun, Body-receive_chunks}

module _ (net : SocketLib) (files : FilesLib) (sha : HashLib) (paths : PathLib) where
  open net use {Sock, pending}
  open files use {Disk, contents, create, make_path, remove, rename, contents-rename, exists_file}
  open sha use {init, update, final}

  beq_ne : (p q : Bytes) → p ≢ q → (p == q) ≡ false
  beq_ne p q h = ground (arith, h, bytes_beq_iff p q)

  -- A file of the announced size and, if one was announced, of the announced hash.
  pub record IsAnnounced (session : Session) (b : Bytes) : Type 0 where
    pub sized : length b ≡ session.expected_size
    pub checked :
        session.expected_sha256 ≢ [] → to_hex (final (update init b)) ≡ session.expected_sha256

  -- The report of success passed every test.
  record Passed (ctl : Control) (session : Session) (u : Upload net files sha) (o : Outcome Disk)
      : Type 0 where
    sized : u.total ≡ session.expected_size
    checked : session.expected_sha256 ≢ [] → to_hex (final u.hash) ≡ session.expected_sha256
    renamed :
        let v : Upload net files sha = sweep net files sha paths ctl session u in
        rename v.disk session.temp_path (free_name files paths v.disk session.target_path)
        ≡ some o.disk

  hash_agrees :
      (expected x : Bytes)
      → (not (is_empty expected) && not (x == expected)) ≡ false
      → expected ≢ []
      → x ≡ expected
  hash_agrees [] x e h = absurd (h refl)
  hash_agrees (c ∷ expected) x e h = ground (arith, bytes_beq_iff x (c ∷ expected))

  save_done :
      (session : Session) (u : Upload net files sha)
      → (save net files sha paths session u).verdict ≡ some done
      → rename u.disk session.temp_path (free_name files paths u.disk session.target_path)
        ≡ some (save net files sha paths session u).disk
  unfolding save
  save_done session u e = ground arith

  finish_done :
      (ctl : Control) (session : Session) (u : Upload net files sha)
      → (finish net files sha paths ctl session u).verdict ≡ some done
      → Passed ctl session u (finish net files sha paths ctl session u)
  unfolding finish
  finish_done ctl session u =
      if_cases (λ (o : Outcome Disk). o.verdict ≡ some done → Passed ctl session u o)
        (u.error || ctl.cancelled_after || not (nat_beq u.total session.expected_size)) _ _
        (λ _ e. absurd (cc))
        (λ whole.
          if_cases (λ (o : Outcome Disk). o.verdict ≡ some done → Passed ctl session u o)
            (not (is_empty session.expected_sha256)
              && not (to_hex (final u.hash) == session.expected_sha256))
            _ _ (λ _ e. absurd (cc))
            (λ same e. record {
              sized = ground arith;
              checked = hash_agrees session.expected_sha256 (to_hex (final u.hash)) same;
              renamed = save_done session (sweep net files sha paths ctl session u) e;
            }))

  -- Where the report of success finds the file: under another name than before.
  abbrev pub Stored : Session → Disk → Type 0
  Stored session d =
      (path b : Bytes) × (contents d path ≡ some b)
      × IsAnnounced session b
      × (path ≢ session.temp_path)
      × (contents d session.temp_path ≡ none)

  -- A temporary file that another thread has removed cannot be renamed.
  sweep_renamed :
      (works : Works files) (ctl : Control) (session : Session) (u : Upload net files sha)
      (q : Bytes) (d : Disk)
      → rename (sweep net files sha paths ctl session u).disk session.temp_path q ≡ some d
      → sweep net files sha paths ctl session u ≡ u
  unfolding sweep
  sweep_renamed works ctl session u q d = elim (Bool-cases ctl.swept) [
    | inr kept ↦ rw kept (λ e. refl)
    | inl gone ↦ rw gone (λ e. absurd (
        none-ne-some
          (works.rename_missing (remove u.disk session.temp_path) session.temp_path q
            (works.contents-remove u.disk session.temp_path))
          e))
  ]

  renamed_saved :
      (session : Session) (u : Upload net files sha) (body : Bytes) (d : Disk)
      → HasBody net files sha session u body
      → IsAnnounced session body
      → rename u.disk session.temp_path (free_name files paths u.disk session.target_path) ≡ some d
      → Stored session d
  renamed_saved session u body d b announced e =
      let path = free_name files paths u.disk session.target_path in
      let there = exists_file u.disk session.temp_path body b.written in
      let free = free_name_free files paths u.disk session.target_path in
      let other : path ≢ session.temp_path = λ same. absurd (cc (same, there, free)) in
      (
        path,
        body,
        contents-rename u.disk d session.temp_path path path e ∙ rw (beq_refl path) b.written,
        announced,
        other,
        contents-rename u.disk d session.temp_path path session.temp_path e
            ∙ rw (beq_ne path session.temp_path other, beq_refl session.temp_path) refl,
      )

  -- Behind the loop, a report of success means that the file is there under its final name.
  finish_saved :
      (works : Works files) (ctl : Control) (session : Session) (u : Upload net files sha)
      → Body net files sha session u
      → (finish net files sha paths ctl session u).verdict ≡ some done
      → Stored session (finish net files sha paths ctl session u).disk
  finish_saved works ctl session u (body, b) e =
      let p = finish_done ctl session u e in
      renamed_saved session u body _ b
        (record { sized = sym b.counted ∙ p.sized; checked = λ h. rw b.hashed at (p.checked h) })
        (subst
          (λ (v : Upload net files sha).
            rename v.disk session.temp_path (free_name files paths v.disk session.target_path)
            ≡ some (finish net files sha paths ctl session u).disk)
          (sweep_renamed works ctl session u _ _ p.renamed) p.renamed)

  -- When an upload is reported as done, its temporary file has got another name, under which there
  -- is a file with all the announced bytes, and with the announced SHA-256 if there was one, and
  -- nothing is left under the temporary name. This is so whatever the phone sends and whenever the
  -- server is stopped or the transfer cancelled, on a disk on which the operations work and which
  -- nobody else uses but those who stop and cancel, for an announced size that leaves room for a
  -- chunk below 2 ^ 64.
  pub upload_saved :
      (works : Works files) (ctl : Control) (session : Session) (s : Sock) (d : Disk)
      → Fits net files sha session
      → (upload net files sha paths ctl session s d).verdict ≡ some done
      → Stored session (upload net files sha paths ctl session s d).disk
  upload_saved works ctl session s d fits =
      upload_cases net files sha paths ctl session
        (λ o. o.verdict ≡ some done → Stored session o.disk) s d (λ _ e. absurd (cc))
        (λ d' e. finish_saved works ctl session _ (
          Body-receive_chunks net files sha works ctl session fits (suc (length (pending s))) 0 s _
            ([], HasBody-begun net files sha session _ d' e)))

  discarded :
      (works : Works files) (session : Session) (u : Upload net files sha) (why : Failure)
      → contents (discard net files sha paths session u why).disk session.temp_path ≡ none
  discarded works session u why = works.contents-remove u.disk session.temp_path
