-- ===== src/Transfer/Upload/Delivery.antt =====
-- Uploads of src/core/FileTransferServer.cpp that nobody disturbs.
use iriseus.Prelude.{
  ℕ, zero, suc, ◌+◌, ◌≤◌, ◌<◌, ◌≡◌, ◌≢◌, refl, ◌∙◌, Bytes, true, false, some, List, [], ◌∷◌, ◌++◌,
  ◌==◌, ◌&&◌, not, bytes_eq, bytes_beq_iff, length, length-append, append_assoc, append-nil,
  none-ne-some, is_empty, All, arith,
}
use iriseus.Prelude.Assoc.{beq_refl}
use iriseus.Net.{SocketLib}
use iriseus.Wire.{frame}
use iriseus.Wire.Frames.{next_frame-frame, next_frame-IsCut}
use iriseus.Transfer.Hex.{to_hex}
use iriseus.Transfer.Files.{FilesLib, HashLib, PathLib, Works, free_name}
use iriseus.Transfer.Files.FreeName.{free_name_free}
use iriseus.Transfer.Sessions.{Session}
use iriseus.Transfer.Upload.{
  Control, Upload, done, absorb, goes_on, receive_chunks, save, sweep, finish, begun, upload,
  max_chunk,
}
use iriseus.Transfer.Upload.Loop.{receive_stops, receive_goes_on, upload_cases}
use iriseus.Transfer.Upload.Body.{HasBody, HasBody-absorb, HasBody-begun, Fits}

-- What the phone sends for a file that it cuts into chunks.
abbrev pub encode : List Bytes → Bytes
encode [] = []
encode (p ∷ ps) = frame p ++ encode ps

abbrev pub joined : List Bytes → Bytes
joined [] = []
joined (p ∷ ps) = p ++ joined ps

abbrev pub Legal : Bytes → Type 0
Legal p = (0 < length p) × (length p ≤ max_chunk)

-- Nobody stops the server or cancels the transfer.
pub record Undisturbed (ctl : Control) : Type 0 where
  pub runs : (i : ℕ) → ctl.running i ≡ true
  pub keeps : (i : ℕ) → ctl.cancelled i ≡ false
  pub kept : ctl.cancelled_after ≡ false
  pub unswept : ctl.swept ≡ false

agrees :
    (expected x : Bytes)
    → (expected ≢ [] → x ≡ expected)
    → (not (is_empty expected) && not (x == expected)) ≡ false
agrees [] x h = refl
agrees (c ∷ expected) x h = ground (arith, bytes_beq_iff x (c ∷ expected), h (cc))

module _ (net : SocketLib) (files : FilesLib) (sha : HashLib) (paths : PathLib) where
  open net use {Sock, pending}
  open files use {Disk, contents, create, make_path, rename, exists, contents-rename}
  open sha use {init, update, final}

  module _ (works : Works files) (ctl : Control) (calm : Undisturbed ctl) (session : Session) where
    goes_on_calm :
        (i : ℕ) (u : Upload net files sha)
        → u.total < session.expected_size
        → goes_on net files sha ctl session i u ≡ true
    goes_on_calm i u h = ground (arith, calm.runs i, calm.keeps i)

    stops_full :
        (i : ℕ) (u : Upload net files sha)
        → u.total ≡ session.expected_size
        → goes_on net files sha ctl session i u ≡ false
    stops_full i u h = ground arith

    error-absorb :
        (c : Bytes) (u : Upload net files sha) → (absorb net files sha session c u).error ≡ u.error
    unfolding absorb
    error-absorb c u = refl

    receive-All :
        (fits : Fits net files sha session) (fuel i : ℕ) (s : Sock) (u : Upload net files sha)
        (cs : List Bytes) (rest body : Bytes)
        → length (pending s) < fuel
        → All Legal cs
        → pending s ≡ encode cs ++ rest
        → HasBody net files sha session u body
        → length body + length (joined cs) ≡ session.expected_size
        → HasBody net files sha session
            (receive_chunks net files sha fuel ctl session i s u)
            (body ++ joined cs)
          × ((receive_chunks net files sha fuel ctl session i s u).error ≡ u.error)
    receive-All fits zero i s u cs rest body f ok e b h = absurd (omega arith)
    receive-All fits (suc fuel) i s u [] rest body f ok e b h =
        rw
          (
            receive_stops net files sha ctl session fuel i s u
                (stops_full i u (omega (arith, b.counted))),
            append-nil body,
          )
          (b, refl)
    receive-All fits (suc fuel) i s u (c ∷ cs) rest body f (ok, oks) e b h =
        let more : u.total < session.expected_size =
          omega (arith, b.counted, length-append c (joined cs)) in
        let (s', r, k) =
          next_frame-frame net max_chunk s c (encode cs ++ rest) ok.0 ok.1 (omega arith)
            (e ∙ append_assoc (frame c) (encode cs) rest) in
        let smaller = next_frame-IsCut net max_chunk s c s' r in
        let next =
          receive-All fits fuel (i + 1) s' (absorb net files sha session c u) cs rest (body ++ c)
            (omega (arith, smaller)) oks k
            (HasBody-absorb net files sha works session c u body fits more ok.1 b)
            (omega (arith, length-append body c, length-append c (joined cs))) in
        rw (receive_goes_on net files sha ctl session fuel i s u c s' (goes_on_calm i u more) r)
          (rw (append_assoc body c (joined cs)) at next.0, next.1 ∙ error-absorb c u)

    -- Behind the loop: the file is complete, has the announced hash, and gets a free name.
    finish_whole :
        (u : Upload net files sha) (body : Bytes)
        → HasBody net files sha session u body
        → u.error ≡ false
        → length body ≡ session.expected_size
        → (session.expected_sha256 ≢ []
            → to_hex (final (update init body)) ≡ session.expected_sha256)
        → finish net files sha paths ctl session u ≡ save net files sha paths session u
    unfolding finish sweep
    finish_whole u body b e l h =
        let hash : session.expected_sha256 ≢ [] → to_hex (final u.hash) ≡ session.expected_sha256 =
          rw b.hashed h in
        let total : u.total ≡ session.expected_size = b.counted ∙ l in
        ground (
          arith,
          calm.kept,
          calm.unswept,
          agrees session.expected_sha256 (to_hex (final u.hash)) hash,
        )

    save_whole :
        (u : Upload net files sha) (body : Bytes)
        → HasBody net files sha session u body
        → ((save net files sha paths session u).verdict ≡ some done)
          × (contents
                (save net files sha paths session u).disk
                (free_name files paths u.disk session.target_path)
              ≡ some body)
    unfolding save
    save_whole u body b =
        let path = free_name files paths u.disk session.target_path in
        let (d', e) =
          works.renames u.disk session.temp_path path body b.written
            (free_name_free files paths u.disk session.target_path) in
        rw (e, save)
          (
            refl,
            contents-rename u.disk d' session.temp_path path path e ∙ rw (beq_refl path) b.written,
          )

    pub upload_delivers :
        (s : Sock) (d : Disk) (cs : List Bytes) (rest : Bytes)
        → Fits net files sha session
        → All Legal cs
        → pending s ≡ encode cs ++ rest
        → length (joined cs) ≡ session.expected_size
        → (session.expected_sha256 ≢ []
            → to_hex (final (update init (joined cs))) ≡ session.expected_sha256)
        → ((upload net files sha paths ctl session s d).verdict ≡ some done)
          × ((path : Bytes) × (contents (upload net files sha paths ctl session s d).disk path
                ≡ some (joined cs)))
    upload_delivers s d cs rest fits ok e l h =
        upload_cases net files sha paths ctl session
          (λ o.
            (o.verdict ≡ some done) × ((path : Bytes) × (contents o.disk path ≡ some (joined cs))))
          s d (λ c. absurd (none-ne-some c (works.creates _ session.temp_path).1))
          (λ d' c. whole d' c (
            receive-All fits (suc (length (pending s))) 0 s (begun net files sha d') cs rest []
              (omega arith) ok e (HasBody-begun net files sha session _ d' c) (omega arith)))
      where
        received : Disk → Upload net files sha
        received d' =
            receive_chunks net files sha (suc (length (pending s))) ctl session 0 s
              (begun net files sha d')

        whole :
            (d' : Disk)
            → create (make_path d (paths.directory session.temp_path)) session.temp_path ≡ some d'
            → HasBody net files sha session (received d') (joined cs)
              × ((received d').error ≡ false)
            → ((finish net files sha paths ctl session (received d')).verdict ≡ some done)
              × ((path : Bytes) × (contents
                      (finish net files sha paths ctl session (received d')).disk
                      path
                    ≡ some (joined cs)))
        whole d' c (b, err) =
            let (v, k) = save_whole (received d') (joined cs) b in
            rw (finish_whole (received d') (joined cs) b err l h) (v, (_, k))
