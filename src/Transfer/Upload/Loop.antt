-- ===== src/Transfer/Upload/Loop.antt =====
-- The receiving loop by its three kinds of round, and its invariant rule.
use iriseus.Prelude.{
  ℕ, zero, suc, length, [], ◌+◌, ◌≡◌, inl, inr, Bytes, true, false, none, some, Option-cases,
  Bool-cases,
}
use iriseus.Net.{SocketLib}
use iriseus.Wire.{next_frame}
use iriseus.Transfer.Files.{FilesLib, HashLib, PathLib}
use iriseus.Transfer.Sessions.{Session}
use iriseus.Transfer.Upload.{
  Control, Upload, absorb, goes_on, receive_chunks, max_chunk, Outcome, failed, create_failed,
  begun, finish, upload,
}

module _ (net : SocketLib) (files : FilesLib) (sha : HashLib) (ctl : Control)
    (session : Session) where
  open net use {Sock}

  abbrev chunks : ℕ → ℕ → Sock → Upload net files sha → Upload net files sha
  chunks fuel = receive_chunks net files sha fuel ctl session

  pub receive_stops :
      (fuel i : ℕ) (s : Sock) (u : Upload net files sha)
      → goes_on net files sha ctl session i u ≡ false
      → chunks (suc fuel) i s u ≡ u
  unfolding receive_chunks
  receive_stops fuel i s u h = rw (h, receive_chunks)

  pub receive_breaks :
      (fuel i : ℕ) (s : Sock) (u : Upload net files sha)
      → goes_on net files sha ctl session i u ≡ true
      → next_frame net max_chunk s ≡ none
      → chunks (suc fuel) i s u ≡ record u { error = true }
  unfolding receive_chunks
  receive_breaks fuel i s u h e = rw (h, receive_chunks) (rw e)

  pub receive_goes_on :
      (fuel i : ℕ) (s : Sock) (u : Upload net files sha) (chunk : Bytes) (s' : Sock)
      → goes_on net files sha ctl session i u ≡ true
      → next_frame net max_chunk s ≡ some (chunk, s')
      → chunks (suc fuel) i s u ≡ chunks fuel (i + 1) s' (absorb net files sha session chunk u)
  unfolding receive_chunks
  receive_goes_on fuel i s u chunk s' h e = rw (h, receive_chunks) (rw e)

  module _ {ℓ} (P : Upload net files sha → Type ℓ) where
    -- What a chunk and an error keep holds at the end of the loop.
    pub receive_inv :
        ((i : ℕ) (s : Sock) (u : Upload net files sha) (chunk : Bytes) (s' : Sock)
          → goes_on net files sha ctl session i u ≡ true
          → next_frame net max_chunk s ≡ some (chunk, s')
          → P u
          → P (absorb net files sha session chunk u))
        → ((u : Upload net files sha) → P u → P (record u { error = true }))
        → (fuel i : ℕ) (s : Sock) (u : Upload net files sha) → P u
        → P (chunks fuel i s u)
    unfolding receive_chunks
    receive_inv keep fail zero i s u p = p
    receive_inv keep fail (suc fuel) i s u p =
        elim (Bool-cases (goes_on net files sha ctl session i u)) [
          | inr stop ↦ rw (receive_stops fuel i s u stop) p
          | inl go ↦ elim (Option-cases (next_frame net max_chunk s)) [
            | inl cut ↦ rw (receive_breaks fuel i s u go cut) (fail u p)
            | inr ((chunk, s'), e) ↦ rw (receive_goes_on fuel i s u chunk s' go e) (
                receive_inv keep fail fuel (i + 1) s' (absorb net files sha session chunk u)
                  (keep i s u chunk s' go e p))
          ]
        ]

module _ (net : SocketLib) (files : FilesLib) (sha : HashLib) (paths : PathLib) (ctl : Control)
    (session : Session) where
  open net use {Sock, pending}
  open files use {Disk, create, make_path}

  abbrev made : Disk → Disk
  made d = make_path d (paths.directory session.temp_path)

  -- The file is not created, or what is behind the loop decides.
  pub upload_cases {ℓ} :
      (P : Outcome Disk → Type ℓ) (s : Sock) (d : Disk)
      → (create (made d) session.temp_path ≡ none
          → P (record {
            disk = made d;
            progress = [];
            verdict = some (failed create_failed);
            sent = [];
          }))
      → ((d' : Disk)
          → create (made d) session.temp_path ≡ some d'
          → P (
              finish net files sha paths ctl session (
                receive_chunks net files sha
                  (suc (length (pending s)))
                  ctl
                  session
                  0
                  s
                  (begun net files sha d'))))
      → P (upload net files sha paths ctl session s d)
  unfolding upload
  upload_cases P s d refused created = elim (Option-cases (create (made d) session.temp_path)) [
    | inl e ↦ rw (e, upload) (refused e)
    | inr (d', e) ↦ rw (e, upload) (created d' e)
  ]
