-- ===== src/Transfer/Download/Stream.antt =====
-- The bytes that a download of src/core/FileTransferServer.cpp sends.
use iriseus.Prelude.{
  ℕ, zero, suc, ◌+◌, ◌-◌, ◌^◌, ◌≤◌, ◌<◌, ◌≡◌, refl, sym, ap, ◌∙◌, inl, inr, Bytes, false, some,
  List, [], ◌∷◌, ◌++◌, length, take, drop, is_empty, length-append, take-append-drop, append_assoc,
  append-nil, All, All-append, take_part, Bool-cases, Option-cases, arith,
}
use iriseus.Wire.{frame}
use iriseus.Transfer.Sessions.{Session}
use iriseus.Transfer.Upload.{Control, Verdict, done}
use iriseus.Transfer.Upload.Delivery.{encode, joined, Legal}
use iriseus.Transfer.Files.{FilesLib}
use iriseus.Transfer.Download.{
  Download, chunk_size, smaller, goes_on, next_chunk, sent_chunk, send_chunks, opened, send_verdict,
  download,
}

encode-append : (cs ds : List Bytes) → encode (cs ++ ds) ≡ encode cs ++ encode ds
encode-append [] ds = refl
encode-append (c ∷ cs) ds =
    ap (λ l. frame c ++ l) (encode-append cs ds)
    ∙ sym (append_assoc (frame c) (encode cs) (encode ds))

joined-append : (cs ds : List Bytes) → joined (cs ++ ds) ≡ joined cs ++ joined ds
joined-append [] ds = refl
joined-append (c ∷ cs) ds =
    ap (λ l. c ++ l) (joined-append cs ds) ∙ sym (append_assoc c (joined cs) (joined ds))

-- The chunks sent so far: legal, framed on the wire, and the front of the file.
pub record Sends (content : Bytes) (v : Download) : Type 0 where
  pub chunks : List Bytes
  pub legal : All Legal chunks
  pub framed : v.sent ≡ encode chunks
  pub front : joined chunks ++ v.rest ≡ content
  pub counted : v.total ≡ length (joined chunks)

-- Unless a write failed, in which case nothing more is promised.
abbrev SendsOrFails : Bytes → Download → Type 0
SendsOrFails content v = v.error ≡ false → Sends content v

pub length-take-le : (n : ℕ) (b : Bytes) → length (take n b) ≤ n
length-take-le zero b = omega arith
length-take-le (suc n) [] = omega arith
length-take-le (suc n) (x ∷ b) = omega (arith, length-take-le n b)

pub is_empty-pos : (b : Bytes) → is_empty b ≡ false → 0 < length b
is_empty-pos [] h = absurd (cc)
is_empty-pos (x ∷ b) h = omega arith

pub drop-length-take : (n : ℕ) (b : Bytes) → drop (length (take n b)) b ≡ drop n b
drop-length-take zero b = refl
drop-length-take (suc n) [] = refl
drop-length-take (suc n) (x ∷ b) = drop-length-take n b

Sends-sent_chunk :
    (session : Session) (content : Bytes) (v : Download)
    → session.expected_size < 2 ^ 64
    → v.total < session.expected_size
    → is_empty (next_chunk session v) ≡ false
    → Sends content v
    → Sends content (sent_chunk (next_chunk session v) v)
unfolding sent_chunk frame
Sends-sent_chunk session content v fits more some_left w =
    let n = smaller chunk_size (session.expected_size - v.total) in
    let c = next_chunk session v in
    let small : length c ≤ n = length-take-le n v.rest in
    let pos : 0 < length c = is_empty-pos c some_left in
    let fits_chunk : length c ≤ chunk_size = ground arith in
    let fits_rest : length c ≤ session.expected_size - v.total = ground arith in
    let split = joined-append w.chunks (c ∷ []) in
    record {
      chunks = w.chunks ++ c ∷ [];
      legal = All-append Legal w.chunks (c ∷ []) w.legal ((pos, omega arith), tt);
      framed =
          ap (λ l. l ++ frame c) w.framed
          ∙ ap (λ l. encode w.chunks ++ l) (sym (append-nil (frame c)))
          ∙ sym (encode-append w.chunks (c ∷ []));
      front =
          rw (split, drop-length-take n v.rest, append-nil c)
            (append_assoc (joined w.chunks) c (drop n v.rest)
              ∙ ap (λ l. joined w.chunks ++ l) (take-append-drop n v.rest)
              ∙ w.front);
      counted =
          rw split (
            omega
              (arith, w.counted, length-append (joined w.chunks) (c ++ []), length-append c []));
    }

pub error-sent_chunk : (c : Bytes) (v : Download) → (sent_chunk c v).error ≡ v.error
unfolding sent_chunk
error-sent_chunk c v = refl

module _ (ctl : Control) (session : Session) (content : Bytes) where
  SendsOrFails-send_chunks :
      (fuel i : ℕ) (v : Download)
      → session.expected_size < 2 ^ 64
      → SendsOrFails content v
      → SendsOrFails content (send_chunks fuel ctl session i v)
  unfolding send_chunks
  SendsOrFails-send_chunks zero i v fits w = w
  SendsOrFails-send_chunks (suc fuel) i v fits w = elim (Bool-cases (goes_on ctl session i v)) [
    | inr stop ↦ rw (stop, send_chunks) w
    | inl go ↦ elim (Bool-cases (is_empty (next_chunk session v))) [
      | inl empty ↦ rw (go, send_chunks) (rw empty w)
      | inr more ↦ elim (Bool-cases (ctl.header_sent i)) [
        | inr cut ↦ rw (go, send_chunks) (rw more (rw cut (λ e. absurd (cc))))
        | inl header ↦ elim (Bool-cases (ctl.payload_sent i)) [
          | inr cut ↦ rw (go, send_chunks) (rw more (rw header (rw cut (λ e. absurd (cc)))))
          | inl payload ↦
              rw (go, send_chunks)
                (rw more (
                  rw header (
                    rw payload (
                      SendsOrFails-send_chunks fuel (i + 1) (sent_chunk (next_chunk session v) v)
                        fits
                        (λ e.
                          Sends-sent_chunk session content v fits (ground arith) more
                            (w (sym (error-sent_chunk (next_chunk session v) v) ∙ e)))))))
        ]
      ]
    ]
  ]

send_verdict_done :
    (ctl : Control) (session : Session) (v : Download)
    → send_verdict ctl session v ≡ done
    → (v.error ≡ false) × (v.total ≡ session.expected_size)
send_verdict_done ctl session v h = ground arith

-- What a peer got of a file: frames of legal size that hold its first `size` bytes.
pub record Delivered (size : ℕ) (content sent : Bytes) : Type 0 where
  pub chunks : List Bytes
  pub legal : All Legal chunks
  pub framed : sent ≡ encode chunks
  pub whole : joined chunks ≡ take size content
  pub long_enough : size ≤ length content

Delivered-Sends :
    (session : Session) (content : Bytes) (v : Download)
    → v.total ≡ session.expected_size
    → Sends content v
    → Delivered session.expected_size content v.sent
Delivered-Sends session content v full w =
    let l : length (joined w.chunks) ≡ session.expected_size = sym w.counted ∙ full in
    record {
      chunks = w.chunks;
      legal = w.legal;
      framed = w.framed;
      whole = sym (take_part (joined w.chunks) v.rest content session.expected_size w.front l);
      long_enough =
          omega (arith, l, sym (ap length w.front) ∙ length-append (joined w.chunks) v.rest);
    }

module _ (files : FilesLib) where
  open files use {Disk, contents}

  -- When a download with an announced size below 2 ^ 64 is reported as done, the file could be
  -- read, and the peer got exactly its announced number of first bytes, in frames that a receiver
  -- of this protocol accepts.
  pub download-Delivered :
      (ctl : Control) (session : Session) (d : Disk)
      → session.expected_size < 2 ^ 64
      → (download files ctl session d).verdict ≡ some done
      → (content : Bytes) × (contents d session.target_path ≡ some content)
        × Delivered session.expected_size content (download files ctl session d).sent
  unfolding download
  download-Delivered ctl session d fits = elim (Option-cases (contents d session.target_path)) [
    | inl missing ↦ rw (missing, download) (λ e. absurd (cc))
    | inr (content, found) ↦
        rw (found, download) (λ e. (content, refl, delivered content (some-done _ e)))
  ]
    where
      final : Bytes → Download
      final content = send_chunks (suc (length content)) ctl session 0 (opened content)

      some-done : (x : Verdict) → some x ≡ some done → x ≡ done
      some-done x e = cc

      delivered :
          (content : Bytes)
          → send_verdict ctl session (final content) ≡ done
          → Delivered session.expected_size content (final content).sent
      delivered content h =
          let (ok, full) = send_verdict_done ctl session (final content) h in
          Delivered-Sends session content (final content) full (
            SendsOrFails-send_chunks ctl session content (suc (length content)) 0 (opened content)
              fits
              (λ _. record { chunks = []; legal = tt; framed = refl; front = refl; counted = refl })
              ok)
