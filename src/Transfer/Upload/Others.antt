-- ===== src/Transfer/Upload/Others.antt =====
-- The other files on the disk during an upload.
use iriseus.Prelude.{
  ℕ, suc, ◌≡◌, ◌≢◌, ◌∙◌, inl, inr, Bytes, false, some, ◌==◌, ◌&&◌, ◌||◌, not, bytes_eq,
  bytes_beq_iff, nat_beq, length, is_empty, if_cases, Option-cases, arith,
}
use iriseus.Net.{SocketLib}
use iriseus.Transfer.Hex.{to_hex}
use iriseus.Transfer.Files.{FilesLib, HashLib, PathLib, free_name}
use iriseus.Transfer.Files.FreeName.{free_name_free}
use iriseus.Transfer.Sessions.{Session}
use iriseus.Transfer.Upload.{
  Control, Upload, Outcome, absorb, receive_chunks, save, sweep, finish, begun, upload,
}
use iriseus.Transfer.Upload.Loop.{receive_inv, upload_cases}

module _ (net : SocketLib) (files : FilesLib) (sha : HashLib) (paths : PathLib) where
  open net use {Sock, pending}
  open files use {
    Disk, contents, exists, exists_file, create, make_path, write, remove, rename,
    contents-make_path, contents-create, contents-write_ne, contents-remove_ne, contents-rename,
  }

  module _ (session : Session) (q b : Bytes) (other : (session.temp_path == q) ≡ false) where
    abbrev Kept : Disk → Type 0
    Kept d = contents d q ≡ some b

    Kept-discard : (d : Disk) → Kept d → Kept (remove d session.temp_path)
    Kept-discard d k = contents-remove_ne d session.temp_path q other ∙ k

    -- The new name was free, so that it is not `q`.
    Kept-rename :
        (d d' : Disk)
        → rename d session.temp_path (free_name files paths d session.target_path) ≡ some d'
        → Kept d
        → Kept d'
    Kept-rename d d' e k =
        let path = free_name files paths d session.target_path in
        contents-rename d d' session.temp_path path q e
        ∙ ground (
          arith,
          other,
          bytes_beq_iff path q,
          free_name_free files paths d session.target_path,
          exists_file d q b k,
        )

    Kept-save :
        (u : Upload net files sha) → Kept u.disk → Kept (save net files sha paths session u).disk
    unfolding save
    Kept-save u k =
        elim (Option-cases
          (rename u.disk session.temp_path (free_name files paths u.disk session.target_path))) [
            | inl e ↦ rw (e, save) (Kept-discard u.disk k)
            | inr (d', e) ↦ rw (e, save) (Kept-rename u.disk d' e k)
          ]

    Kept-sweep :
        (ctl : Control) (u : Upload net files sha)
        → Kept u.disk
        → Kept (sweep net files sha paths ctl session u).disk
    unfolding sweep
    Kept-sweep ctl u k =
        if_cases (λ (v : Upload net files sha). Kept v.disk) ctl.swept _ _
          (λ _. contents-remove_ne u.disk session.temp_path q other ∙ k) (λ _. k)

    Kept-finish :
        (ctl : Control) (u : Upload net files sha)
        → Kept u.disk
        → Kept (finish net files sha paths ctl session u).disk
    unfolding finish
    Kept-finish ctl u k =
        if_cases (λ (o : Outcome Disk). Kept o.disk)
          (u.error || ctl.cancelled_after || not (nat_beq u.total session.expected_size)) _ _
          (λ _. Kept-discard u.disk k)
          (λ _.
            if_cases (λ (o : Outcome Disk). Kept o.disk)
              (not (is_empty session.expected_sha256)
                && not (to_hex (sha.final u.hash) == session.expected_sha256))
              _ _ (λ _. Kept-discard u.disk k)
              (λ _. Kept-save (sweep net files sha paths ctl session u) (Kept-sweep ctl u k)))

    Kept-receive_chunks :
        (ctl : Control) (fuel i : ℕ) (s : Sock) (u : Upload net files sha)
        → Kept u.disk
        → Kept (receive_chunks net files sha fuel ctl session i s u).disk
    unfolding absorb
    Kept-receive_chunks ctl =
        receive_inv net files sha ctl session (λ u. Kept u.disk)
          (λ i s u chunk s' _ _ k. contents-write_ne u.disk session.temp_path q chunk other ∙ k)
          (λ u k. k)

    Kept-upload :
        (ctl : Control) (s : Sock) (d : Disk)
        → Kept d
        → Kept (upload net files sha paths ctl session s d).disk
    Kept-upload ctl s d k =
        upload_cases net files sha paths ctl session (λ o. Kept o.disk) s d
          (λ _. contents-make_path d _ q ∙ k)
          (λ d' e. Kept-finish ctl _ (
            Kept-receive_chunks ctl (suc (length (pending s))) 0 s (begun net files sha d') (
              contents-create _ d' session.temp_path q e
              ∙ rw other (contents-make_path d _ q ∙ k))))

  -- A file that was on the disk before an upload, other than the temporary file of that upload, is
  -- there afterwards with the same contents, however the upload ends.
  pub contents-upload :
      (ctl : Control) (session : Session) (s : Sock) (d : Disk) (q b : Bytes)
      → session.temp_path ≢ q
      → contents d q ≡ some b
      → contents (upload net files sha paths ctl session s d).disk q ≡ some b
  contents-upload ctl session s d q b h k =
      Kept-upload session q b (ground (arith, bytes_beq_iff session.temp_path q)) ctl s d k
