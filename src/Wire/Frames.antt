-- ===== src/Wire/Frames.antt =====
-- Frames read from a connection, against the bytes to come.
use iriseus.Prelude.{
  ℕ, ◌+◌, ◌≤◌, ◌<◌, ◌^◌, ◌≡◌, refl, sym, ap, ◌∙◌, ◌⊎◌, inl, inr, Bytes, Option, none, some, ◌++◌,
  false, Bool-cases, Option-cases, ltb, ltb→lt, ltb_false→le, length, take, drop, length-append,
  take-append_self, drop-append_self, length-drop, length-take, append_assoc, arith, if◌then◌else◌,
}
use iriseus.Net.{SocketLib, read_exact}
use iriseus.Net.Exact.{read_exact-ReadsExactly}
use iriseus.Wire.{be32, to_be32, be32-to_be32, frame, bad_size, next_frame, deframe}

take_header : (n : ℕ) (b : Bytes) → take 4 (to_be32 n ++ b) ≡ to_be32 n
unfolding to_be32
take_header n b = refl

drop_header : (n : ℕ) (b : Bytes) → drop 4 (to_be32 n ++ b) ≡ b
unfolding to_be32
drop_header n b = refl

length_header : (n : ℕ) (b : Bytes) → length (to_be32 n ++ b) ≡ 4 + length b
unfolding to_be32
length_header n b = omega arith

-- Cutting a frame off what was framed.
pub deframe-frame :
    (limit : ℕ) (p rest : Bytes)
    → 0 < length p
    → length p ≤ limit
    → limit < 2 ^ 32
    → deframe limit (frame p ++ rest) ≡ some (p, rest)
unfolding deframe frame
deframe-frame limit p rest h k m =
    rw
      (
        append_assoc (to_be32 (length p)) p rest,
        take_header,
        drop_header,
        be32-to_be32 (length p) (omega arith),
        take-append_self p rest,
        drop-append_self p rest,
      )
      (ground (arith, length-append p rest, length_header (length p) (p ++ rest)))

-- What a cut gives: a payload of legal size, which stood behind its header.
abbrev pub IsCut : ℕ → Bytes → Bytes → Bytes → Type 0
IsCut limit b p rest = (0 < length p) × (length p ≤ limit) × (length b ≡ 4 + length p + length rest)

IsCut-sizes :
    (limit n : ℕ) (b : Bytes)
    → bad_size limit n ≡ false
    → 4 ≤ length b
    → n ≤ length (drop 4 b)
    → IsCut limit b (take n (drop 4 b)) (drop n (drop 4 b))
IsCut-sizes limit n b good long fits =
    let l = length-take n (drop 4 b) fits in
    let m = length-drop n (drop 4 b) in let k = length-drop 4 b in ground arith

deframe-IsCut :
    (limit : ℕ) (b p rest : Bytes) → deframe limit b ≡ some (p, rest) → IsCut limit b p rest
unfolding deframe
deframe-IsCut limit b p rest e = ground (
  arith,
  IsCut-sizes limit (be32 (take 4 b)) b,
  ltb_false→le (length b) 4,
  ltb_false→le (length (drop 4 b)) (be32 (take 4 b)),
)

module _ (net : SocketLib) where
  open net use {Sock, pending}

  -- A reader of connections does to the bytes to come what a function on bytes says.
  abbrev pub Follows : Option (Bytes × Bytes) → Option (Bytes × Sock) → Type 0
  Follows none r = r ≡ none
  Follows (some (p, rest)) r = (s' : Sock) × (r ≡ some (p, s')) × (pending s' ≡ rest)

  next_frame_short : (limit : ℕ) (s : Sock) → length (pending s) < 4 → next_frame net limit s ≡ none
  unfolding next_frame
  next_frame_short limit s h = ground (arith, (read_exact-ReadsExactly net s 4).starved h)

  next_frame_long :
      (limit : ℕ) (s s' : Sock)
      → read_exact net s 4 ≡ some (take 4 (pending s), s')
      → next_frame net limit s ≡ (
          if bad_size limit (be32 (take 4 (pending s)))
          then none
          else read_exact net s' (be32 (take 4 (pending s))))
  unfolding next_frame
  next_frame_long limit s s' e = ground arith

  Follows-none :
      {o : Option (Bytes × Bytes)} {r : Option (Bytes × Sock)} → o ≡ none → r ≡ none → Follows o r
  Follows-none {o} {r} e h = rw e h

  Follows-some :
      {o : Option (Bytes × Bytes)} {r : Option (Bytes × Sock)} (p rest : Bytes) (s' : Sock)
      → o ≡ some (p, rest)
      → r ≡ some (p, s')
      → pending s' ≡ rest
      → Follows o r
  Follows-some p rest s' e h k = rw e (s', h, k)

  -- The second read, of as many bytes as the header says.
  payload-Follows :
      (limit : ℕ) (s s' : Sock) (b : Bytes)
      → pending s ≡ b
      → ltb (length b) 4 ≡ false
      → bad_size limit (be32 (take 4 b)) ≡ false
      → pending s' ≡ drop 4 b
      → next_frame net limit s ≡ read_exact net s' (be32 (take 4 b))
      → Follows (deframe limit b) (next_frame net limit s)
  unfolding deframe
  payload-Follows limit s s' b es long good q e =
      let reads = read_exact-ReadsExactly net s' (be32 (take 4 b)) in
      elim (Bool-cases (ltb (length (drop 4 b)) (be32 (take 4 b)))) [
        | inl cut ↦ Follows-none (ground arith) (e ∙ reads.starved (rw q (ltb→lt _ _ cut)))
        | inr fits ↦
            let (t, r, k) = reads.enough (rw q (ltb_false→le _ _ fits)) in
            Follows-some (take (be32 (take 4 b)) (drop 4 b)) (drop (be32 (take 4 b)) (drop 4 b)) t
              (ground arith) (e ∙ rw q at r) (rw q at k)
      ]

  -- Reading a frame from a connection gives what cutting it off the bytes to come gives.
  pub next_frame-Follows :
      (limit : ℕ) (s : Sock) → Follows (deframe limit (pending s)) (next_frame net limit s)
  unfolding deframe
  next_frame-Follows limit s = elim (Bool-cases (ltb (length (pending s)) 4)) [
    | inl short ↦ Follows-none (ground arith) (next_frame_short limit s (ltb→lt _ _ short))
    | inr long ↦
        let (s', e, q) = (read_exact-ReadsExactly net s 4).enough (ltb_false→le _ _ long) in
        let next = next_frame_long limit s s' e in
        elim (Bool-cases (bad_size limit (be32 (take 4 (pending s))))) [
          | inl bad ↦ Follows-none (ground arith) (
              next
              ∙ ap (λ c. if c then none else read_exact net s' (be32 (take 4 (pending s)))) bad)
          | inr good ↦ payload-Follows limit s s' (pending s) refl long good q (
              next
              ∙ ap (λ c. if c then none else read_exact net s' (be32 (take 4 (pending s)))) good)
        ]
  ]

  -- A payload that is not empty and within a limit below 2 ^ 32, as the sender frames it, comes out
  -- whole, and the bytes behind it are left.
  pub next_frame-frame :
      (limit : ℕ) (s : Sock) (p rest : Bytes)
      → 0 < length p
      → length p ≤ limit
      → limit < 2 ^ 32
      → pending s ≡ frame p ++ rest
      → (s' : Sock) × (next_frame net limit s ≡ some (p, s')) × (pending s' ≡ rest)
  next_frame-frame limit s p rest h k m e =
      rw (ap (deframe limit) e ∙ deframe-frame limit p rest h k m) at (next_frame-Follows limit s)

  -- A frame that was read has a payload of legal size, and less is to come than before.
  pub next_frame-IsCut :
      (limit : ℕ) (s : Sock) (p : Bytes) (s' : Sock)
      → next_frame net limit s ≡ some (p, s')
      → IsCut limit (pending s) p (pending s')
  next_frame-IsCut limit s p s' e = go (Option-cases (deframe limit (pending s)))
    where
      go :
          (deframe limit (pending s) ≡ none)
            ⊎ ((x : Bytes × Bytes) × (deframe limit (pending s) ≡ some x))
          → IsCut limit (pending s) p (pending s')
      go (inl cut) =
          let h : next_frame net limit s ≡ none = rw cut at (next_frame-Follows limit s) in
          absurd (cc)
      go (inr ((b, rest), cut)) =
          let (t, h, k) : (t : Sock) × (next_frame net limit s ≡ some (b, t)) × (pending t ≡ rest) =
            rw cut at (next_frame-Follows limit s) in
          let same : ◌≡◌ {A = Option (Bytes × Sock)} (some (b, t)) (some (p, s')) = sym h ∙ e in
          let eb : b ≡ p = cc in
          let et : t ≡ s' = cc in rw (← eb, ← et, k) (deframe-IsCut limit (pending s) b rest cut)
