-- ===== src/Transfer/Upload/Body.antt =====
-- What the loop of an upload has written, hashed and counted.
use iriseus.Prelude.{
  ℕ, zero, suc, ◌+◌, ◌^◌, ◌≤◌, ◌<◌, ◌≡◌, refl, sym, ap, ◌∙◌, ◌⊎◌, inl, inr, Bytes, true, false,
  some, [], ◌++◌, bytes_eq, length, length-append, Bool-cases, Option-cases, arith,
}
use iriseus.Prelude.Assoc.{beq_refl}
use iriseus.Net.{SocketLib}
use iriseus.Wire.{next_frame}
use iriseus.Wire.Frames.{next_frame-IsCut}
use iriseus.Transfer.Files.{FilesLib, HashLib, Works}
use iriseus.Transfer.Sessions.{Session}
use iriseus.Transfer.Upload.Loop.{receive_inv, receive_stops, receive_breaks, receive_goes_on}
use iriseus.Transfer.Upload.{Control, Upload, absorb, goes_on, receive_chunks, max_chunk, begun}

module _ (net : SocketLib) (files : FilesLib) (sha : HashLib) where
  open net use {Sock, pending}
  open files use {Disk, contents, write}
  open sha use {init, update, update_nil, update-append}

  pub record HasBody (session : Session) (u : Upload net files sha) (body : Bytes) : Type 0 where
    pub written : contents u.disk session.temp_path ≡ some body
    pub hashed : u.hash ≡ update init body
    pub counted : u.total ≡ length body

  abbrev pub Body : Session → Upload net files sha → Type 0
  Body session u = (body : Bytes) × HasBody session u body

  -- The size that the offer announced leaves room for a chunk below 2 ^ 64.
  abbrev pub Fits : Session → Type 0
  Fits session = session.expected_size + max_chunk ≤ 2 ^ 64

  goes_on-lt :
      (ctl : Control) (session : Session) (i : ℕ) (u : Upload net files sha)
      → goes_on net files sha ctl session i u ≡ true
      → u.total < session.expected_size
  goes_on-lt ctl session i u h = ground arith

  pub HasBody-absorb :
      (works : Works files) (session : Session) (chunk : Bytes) (u : Upload net files sha)
      (body : Bytes)
      → Fits session
      → u.total < session.expected_size
      → length chunk ≤ max_chunk
      → HasBody session u body
      → HasBody session (absorb net files sha session chunk u) (body ++ chunk)
  unfolding absorb
  HasBody-absorb works session chunk u body fits more small b = record {
    written = works.contents-write u.disk session.temp_path body chunk b.written;
    hashed = ap (λ h. update h chunk) b.hashed ∙ update-append init body chunk;
    counted = omega (arith, length-append body chunk, b.counted);
  }

  module _ (works : Works files) (ctl : Control) (session : Session) (fits : Fits session) where
    pub Body-receive_chunks :
        (fuel i : ℕ) (s : Sock) (u : Upload net files sha)
        → Body session u
        → Body session (receive_chunks net files sha fuel ctl session i s u)
    Body-receive_chunks =
        receive_inv net files sha ctl session (Body session)
          (λ i s u chunk s' go e (body, b). (
            body ++ chunk,
            HasBody-absorb works session chunk u body fits (goes_on-lt ctl session i u go)
                (next_frame-IsCut net max_chunk s chunk s' e).1 b,
          ))
          (λ u (body, b).
            (body, record { written = b.written; hashed = b.hashed; counted = b.counted }))

  -- The loop starts on the empty file that was just created.
  pub HasBody-begun :
      (session : Session) (made d : Disk)
      → files.create made session.temp_path ≡ some d
      → HasBody session (begun net files sha d) []
  HasBody-begun session made d e = record {
    written =
        files.contents-create made d session.temp_path session.temp_path e
        ∙ rw (beq_refl session.temp_path);
    hashed = sym (update_nil init);
    counted = refl;
  }

  -- With more rounds than bytes are to come, the loop ends by one of its own exits: a failed read,
  -- or a condition of its head that does not hold. The rounds of the model do not run out.
  pub receive_chunks_ends :
      (ctl : Control) (session : Session) (fuel i : ℕ) (s : Sock) (u : Upload net files sha)
      → length (pending s) < fuel
      → ((receive_chunks net files sha fuel ctl session i s u).error ≡ true)
        ⊎ ((j : ℕ) × (goes_on net files sha ctl session j
                (receive_chunks net files sha fuel ctl session i s u)
              ≡ false))
  receive_chunks_ends ctl session zero i s u h = absurd (omega arith)
  receive_chunks_ends ctl session (suc fuel) i s u h =
      elim (Bool-cases (goes_on net files sha ctl session i u)) [
        | inr stop ↦ rw (receive_stops net files sha ctl session fuel i s u stop) (inr (i, stop))
        | inl go ↦ elim (Option-cases (next_frame net max_chunk s)) [
          | inl cut ↦ rw (receive_breaks net files sha ctl session fuel i s u go cut) (inl refl)
          | inr ((chunk, s'), e) ↦
              rw (receive_goes_on net files sha ctl session fuel i s u chunk s' go e) (
                receive_chunks_ends ctl session fuel (i + 1) s'
                  (absorb net files sha session chunk u)
                  (omega (arith, next_frame-IsCut net max_chunk s chunk s' e)))
        ]
      ]
