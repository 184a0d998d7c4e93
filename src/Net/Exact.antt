-- ===== src/Net/Exact.antt =====
-- `readExact` against the bytes to come on the connection.
use iriseus.Prelude.{
  ℕ, zero, suc, ◌+◌, ◌-◌, ◌≤◌, ◌<◌, ◌≡◌, refl, sym, ap, ◌∙◌, inl, inr, Bytes, Option, none, some,
  [], ◌++◌, true, false, Bool-cases, Option-cases, ltb, ltb→lt, nat_beq, length, length-append,
  take, drop, take_part, drop_part, append_assoc, arith,
}
use iriseus.Net.{SocketLib, read_exact_loop, read_exact}

module _ (net : SocketLib) where
  open net use {Sock, read_some, pending, read_some_in_order, read_some_progress}

  loop_full :
      (fuel : ℕ) (s : Sock) (size : ℕ) (got : Bytes)
      → ltb (length got) size ≡ false
      → read_exact_loop net (suc fuel) s size got ≡ some (got, s)
  unfolding read_exact_loop
  loop_full fuel s size got e = ground arith

  loop_more :
      (fuel : ℕ) (s : Sock) (size : ℕ) (got b : Bytes) (s' : Sock)
      → ltb (length got) size ≡ true
      → read_some s (size - length got) ≡ some (b, s')
      → nat_beq (length b) 0 ≡ false
      → read_exact_loop net (suc fuel) s size got ≡ read_exact_loop net fuel s' size (got ++ b)
  unfolding read_exact_loop
  loop_more fuel s size got b s' e r p = ground arith

  -- The read took its bytes from the front of what was pending.
  abbrev pub Took : Sock → ℕ → Bytes → Option (Bytes × Sock) → Type 0
  Took s size got r =
      (b : Bytes) × (s' : Sock) × (r ≡ some (b, s'))
      × (length b ≡ size)
      × (b ++ pending s' ≡ got ++ pending s)

  -- One more read keeps what is needed for the rounds left.
  Took-more :
      (fuel : ℕ) (s : Sock) (size : ℕ) (got b : Bytes) (s' : Sock)
      → ltb (length got) size ≡ true
      → read_some s (size - length got) ≡ some (b, s')
      → 0 < length b
      → Took s' size (got ++ b) (read_exact_loop net fuel s' size (got ++ b))
      → Took s size got (read_exact_loop net (suc fuel) s size got)
  Took-more fuel s size got b s' short r pos (c, t, e, l, p) =
      let (fits, front) = read_some_in_order s (size - length got) b s' r in
      (
        c,
        t,
        loop_more fuel s size got b s' short r (ground arith) ∙ e,
        l,
        p ∙ append_assoc got b (pending s') ∙ ap (λ x. got ++ x) (sym front),
      )

  -- The bounds of the next round.
  grown :
      (s : Sock) (size : ℕ) (got b : Bytes) (s' : Sock)
      → read_some s (size - length got) ≡ some (b, s')
      → (length (got ++ b) ≡ length got + length b)
        × (length (pending s) ≡ length b + length (pending s'))
        × (length b ≤ size - length got)
  grown s size got b s' r =
      let (fits, front) = read_some_in_order s (size - length got) b s' r in
      (length-append got b, ap length front ∙ length-append b (pending s'), fits)

  Took-loop :
      (fuel : ℕ) (s : Sock) (size : ℕ) (got : Bytes)
      → size - length got < fuel
      → length got ≤ size
      → size ≤ length got + length (pending s)
      → Took s size got (read_exact_loop net fuel s size got)
  Took-loop zero s size got f h k = absurd (omega arith)
  Took-loop (suc fuel) s size got f h k = elim (Bool-cases (ltb (length got) size)) [
    | inr full ↦ (got, s, loop_full fuel s size got full, ground arith, refl)
    | inl short ↦
        let lt = ltb→lt _ _ short in
        let (b, s', r, pos) =
          read_some_progress s (size - length got) (omega arith) (omega arith) in
        let (l, m, n) = grown s size got b s' r in
        Took-more fuel s size got b s' short r pos
          (Took-loop fuel s' size (got ++ b) (omega arith) (omega arith) (omega arith))
  ]

  loop_starved :
      (fuel : ℕ) (s : Sock) (size : ℕ) (got : Bytes)
      → length got + length (pending s) < size
      → read_exact_loop net fuel s size got ≡ none
  unfolding read_exact_loop
  loop_starved zero s size got h = refl
  loop_starved (suc fuel) s size got h = elim (Option-cases (read_some s (size - length got))) [
    | inl failed ↦ ground arith
    | inr ((b, s'), r) ↦
        let (l, m, n) = grown s size got b s' r in
        ground (arith, loop_starved fuel s' size (got ++ b) (omega arith))
  ]

  -- What a read of `size` bytes promises: with that many to come it gives exactly the next `size`
  -- and leaves the rest, and with fewer it fails.
  pub record ReadsExactly (s : Sock) (size : ℕ) (r : Option (Bytes × Sock)) : Type 0 where
    pub enough :
        size ≤ length (pending s)
        → (s' : Sock) × (r ≡ some (take size (pending s), s'))
          × (pending s' ≡ drop size (pending s))
    pub starved : length (pending s) < size → r ≡ none

  -- `readExact` on a connection with `size` bytes or more to come succeeds with exactly the next
  -- `size` of them and leaves the rest, whatever pieces the reads return; with fewer to come it fails.
  pub read_exact-ReadsExactly : (s : Sock) (size : ℕ) → ReadsExactly s size (read_exact net s size)
  unfolding read_exact
  read_exact-ReadsExactly s size = record {
    enough = λ h.
        let (b, s', e, l, p) =
          Took-loop (suc size) s size [] (omega arith) (omega arith) (omega arith) in
        (
          s',
          rw (take_part b (pending s') (pending s) size p l) e,
          sym (drop_part b (pending s') (pending s) size p l),
        );
    starved = λ h. loop_starved (suc size) s size [] (omega arith);
  }
