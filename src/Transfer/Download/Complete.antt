-- ===== src/Transfer/Download/Complete.antt =====
-- Downloads of src/core/FileTransferServer.cpp that nobody disturbs.
use iriseus.Prelude.{
  ℕ, zero, suc, ◌+◌, ◌-◌, ◌^◌, ◌≤◌, ◌<◌, ◌≡◌, refl, ap, ◌∙◌, subst, Bytes, inl, inr, true, false,
  some, [], ◌∷◌, ltb, ltb→lt, length, take, is_empty, length-drop, Bool-cases, arith,
}
use iriseus.Transfer.Sessions.{Session}
use iriseus.Transfer.Files.{FilesLib}
use iriseus.Transfer.Upload.{Control, done}
use iriseus.Transfer.Upload.Delivery.{Undisturbed}
use iriseus.Transfer.Download.{
  Download, chunk_size, smaller, next_chunk, sent_chunk, send_chunks, opened, send_verdict,
  download,
}
use iriseus.Transfer.Download.Stream.{error-sent_chunk, is_empty-pos, Delivered, download-Delivered}

pos-is_empty : (b : Bytes) → 0 < length b → is_empty b ≡ false
pos-is_empty [] h = absurd (omega arith)
pos-is_empty (x ∷ b) h = refl

take_some :
    (n : ℕ) (b : Bytes)
    → 0 < n
    → 0 < length b
    → (0 < length (take n b)) × (length (take n b) ≤ length b) × (length (take n b) ≤ n)
take_some zero b h k = absurd (omega arith)
take_some (suc n) [] h k = absurd (omega arith)
take_some (suc zero) (x ∷ b) h k = (omega arith, omega arith, omega arith)
take_some (suc (suc n)) (x ∷ []) h k = (omega arith, omega arith, omega arith)
take_some (suc (suc n)) (x ∷ y ∷ b) h k =
    let (_, l, m) = take_some (suc n) (y ∷ b) (omega arith) (omega arith) in
    (omega arith, omega arith, omega arith)

sent_sizes :
    (c : Bytes) (v : Download)
    → v.total + length c < 2 ^ 64
    → ((sent_chunk c v).total ≡ v.total + length c)
      × (length (sent_chunk c v).rest ≡ length v.rest - length c)
unfolding sent_chunk
sent_sizes c v h = (omega arith, length-drop (length c) v.rest)

-- Nobody disturbs the sender, and the peer takes all that is written.
pub record Smooth (ctl : Control) : Type 0 where
  pub calm : Undisturbed ctl
  pub headers : (i : ℕ) → ctl.header_sent i ≡ true
  pub payloads : (i : ℕ) → ctl.payload_sent i ≡ true

module _ (ctl : Control) (smooth : Smooth ctl) (session : Session) where
  send_round :
      (fuel i : ℕ) (v : Download)
      → v.total < session.expected_size
      → is_empty (next_chunk session v) ≡ false
      → send_chunks (suc fuel) ctl session i v
        ≡ send_chunks fuel ctl session (i + 1) (sent_chunk (next_chunk session v) v)
  unfolding send_chunks
  send_round fuel i v more some_left =
      ground (arith, smooth.calm.runs i, smooth.calm.keeps i, smooth.headers i, smooth.payloads i)

  send_full :
      (fuel i : ℕ) (v : Download)
      → v.total ≡ session.expected_size
      → send_chunks (suc fuel) ctl session i v ≡ v
  unfolding send_chunks
  send_full fuel i v full = ground arith

  next_chunk_pos :
      (v : Download)
      → v.total < session.expected_size
      → session.expected_size ≤ v.total + length v.rest
      → (is_empty (next_chunk session v) ≡ false)
        × (length (next_chunk session v) ≤ session.expected_size - v.total)
        × (length (next_chunk session v) ≤ length v.rest)
  next_chunk_pos v more enough =
      let n = smaller chunk_size (session.expected_size - v.total) in
      let some_left = take_some n v.rest (ground arith) (omega arith) in
      (pos-is_empty (next_chunk session v) some_left.0, ground arith, some_left.1)

  send_all :
      (fuel i : ℕ) (v : Download)
      → session.expected_size < 2 ^ 64
      → session.expected_size - v.total < fuel
      → v.total ≤ session.expected_size
      → session.expected_size ≤ v.total + length v.rest
      → ((send_chunks fuel ctl session i v).total ≡ session.expected_size)
        × ((send_chunks fuel ctl session i v).error ≡ v.error)
  send_all zero i v fits f small enough = absurd (omega arith)
  send_all (suc fuel) i v fits f small enough =
      elim (Bool-cases (ltb v.total session.expected_size)) [
        | inr full ↦ rw (send_full fuel i v (ground arith)) (ground arith, refl)
        | inl more ↦
            let lt = ltb→lt _ _ more in
            let (some_left, l, m) = next_chunk_pos v lt enough in
            let c = next_chunk session v in
            let pos = is_empty-pos c some_left in
            let (t, r) = sent_sizes c v (omega arith) in
            let (done_total, same) =
              send_all fuel (i + 1) (sent_chunk c v) fits (omega arith) (omega arith)
                (omega arith) in
            rw (send_round fuel i v lt some_left) (done_total, same ∙ error-sent_chunk c v)
      ]

  download_told :
      (files : FilesLib) (d : files.Disk) (content : Bytes)
      → files.contents d session.target_path ≡ some content
      → session.expected_size < 2 ^ 64
      → session.expected_size ≤ length content
      → (download files ctl session d).verdict ≡ some done
  unfolding download
  download_told files d content found fits long =
      let (full, ok) =
        send_all (suc (length content)) 0 (opened content) fits (omega arith) (omega arith)
          (omega arith) in
      rw (found, download)
        (ap some
          (agreed (send_chunks (suc (length content)) ctl session 0 (opened content)) full ok))
    where
      agreed :
          (v : Download)
          → v.total ≡ session.expected_size
          → v.error ≡ false
          → send_verdict ctl session v ≡ done
      agreed v full ok = ground (arith, smooth.calm.kept)

  -- A file that is at least as long as announced, with an announced size below 2 ^ 64, is sent to
  -- the end and reported as done: the peer gets the announced number of first bytes in frames of
  -- legal size, when nobody stops the server or cancels the transfer and the peer takes what is
  -- written.
  pub download_done :
      (files : FilesLib) (d : files.Disk) (content : Bytes)
      → files.contents d session.target_path ≡ some content
      → session.expected_size < 2 ^ 64
      → session.expected_size ≤ length content
      → ((download files ctl session d).verdict ≡ some done)
        × Delivered session.expected_size content (download files ctl session d).sent
  download_done files d content found fits long =
      let told = download_told files d content found fits long in
      let (other, there, given) = download-Delivered files ctl session d fits told in
      let same : other ≡ content = cc (there, found) in
      (
        told,
        subst (λ c. Delivered session.expected_size c (download files ctl session d).sent) same
            given,
      )
