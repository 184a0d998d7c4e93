-- ===== src/Mdns/Address.antt =====
-- Which of the host's addresses is announced.
use iriseus.Prelude.{
  ℕ, ◌≡◌, ◌≢◌, refl, sym, ap, ◌∙◌, inl, inr, Bool, true, false, ◌&&◌, not, nat_beq, Option, none,
  some, List, [], ◌∷◌, if◌then◌else◌, arith, Bool-cases, Option-cases,
}
use iriseus.Mdns.{HostLib, is_loopback, is_local, local_ip_loop, get_local_ip}

abbrev pub address_or : Option ℕ → ℕ → ℕ
address_or none d = d
address_or (some s) d = s

abbrev pub is_private : ℕ → Bool
is_private ip = not (is_loopback ip) && is_local ip

abbrev pub is_public : ℕ → Bool
is_public ip = not (is_loopback ip) && not (is_local ip) && not (nat_beq ip 0)

-- What has been found counts before what is still to come.
abbrev found_or : ℕ → ℕ → ℕ
found_or n d = if nat_beq n 0 then d else n

module _ (host : HostLib) where
  open host use {ntohl, htonl}

  -- The first address of a list that passes a test.
  abbrev pub first : (ℕ → Bool) → List ℕ → Option ℕ
  first p [] = none
  first p (s ∷ l) = let rest = first p l in if p (ntohl s) then some s else rest

  abbrev chosen : List ℕ → ℕ → ℕ → ℕ
  chosen l preferred fallback = found_or preferred (
      found_or (address_or (first is_private l) 0)
        (found_or fallback (address_or (first is_public l) 0)))

  zero_ip : ntohl 0 ≡ 0
  zero_ip = sym (ap ntohl host.htonl_zero) ∙ host.ntohl-htonl 0

  nonzero : (s : ℕ) → ntohl s ≢ 0 → s ≢ 0
  nonzero s h e = h (ap ntohl e ∙ zero_ip)

  zero_is : (s : ℕ) → ntohl s ≡ 0 → s ≡ 0
  zero_is s h = sym (host.htonl-ntohl s) ∙ (ap htonl h ∙ host.htonl_zero)

  local_zero : (ip : ℕ) → is_local ip ≡ true → ip ≢ 0
  local_zero ip h e =
      let z : is_local 0 ≡ false = refl in
      let k : is_local ip ≡ is_local 0 = ap (λ (n : ℕ). is_local n) e in let no : ⊥ = cc in no

  zero_iff : (s : ℕ) → nat_beq (ntohl s) 0 ≡ nat_beq s 0
  zero_iff s = let a = zero_is s in let b = nonzero s in ground arith

  -- One address, by what it is.
  chosen-step :
      (s p f ip : ℕ) (lo lc : Bool) (a b : ℕ)
      → (lc ≡ true → s ≢ 0)
      → (nat_beq ip 0 ≡ nat_beq s 0)
      → (if lo
          then found_or p (found_or a (found_or f b))
          else found_or
              (if lc && nat_beq p 0 then s else p)
              (found_or a (found_or (if not lc && nat_beq f 0 then s else f) b)))
        ≡ found_or p (
            found_or
              (if not lo && lc then s else a)
              (found_or f (if not lo && not lc && not (nat_beq ip 0) then s else b)))
  chosen-step s p f ip true lc a b h z = refl
  chosen-step s p f ip false true a b h z = let n = h refl in ground arith
  chosen-step s p f ip false false a b h z = ground arith

  address_or-if :
      (b : Bool) (s d : ℕ) (r : Option ℕ)
      → address_or (if b then some s else r) d ≡ (if b then s else address_or r d)
  address_or-if true s d r = refl
  address_or-if false s d r = refl

  first-nonzero : (l : List ℕ) (t : ℕ) → first is_private l ≡ some t → t ≢ 0
  first-nonzero [] t h = ground arith
  first-nonzero (s ∷ l) t h = elim (Bool-cases (is_private (ntohl s))) [
    | inl e ↦
        let same : s ≡ t = ground (arith, e) in
        λ z. local_zero (ntohl s) (ground (arith, e)) (ap ntohl (same ∙ z) ∙ zero_ip)
    | inr e ↦ first-nonzero l t (let k : first is_private l ≡ some t = ground (arith, e) in k)
  ]

  local_ip_loop_lem : (l : List ℕ) (p f : ℕ) → local_ip_loop host l p f ≡ chosen l p f
  unfolding local_ip_loop
  local_ip_loop_lem [] p f = ground arith
  local_ip_loop_lem (s ∷ l) p f = rw (host.htonl-ntohl s) (
      rw
        (
          local_ip_loop_lem l p f,
          local_ip_loop_lem l (if is_local (ntohl s) && nat_beq p 0 then s else p)
              (if not (is_local (ntohl s)) && nat_beq f 0 then s else f),
          address_or-if (is_private (ntohl s)) s 0 (first is_private l),
          address_or-if (is_public (ntohl s)) s 0 (first is_public l),
        )
        (chosen-step s p f (ntohl s) (is_loopback (ntohl s)) (is_local (ntohl s))
          (address_or (first is_private l) 0) (address_or (first is_public l) 0)
          (λ h. let n = local_zero (ntohl s) h in λ e. n (ap ntohl e ∙ zero_ip)) (zero_iff s)))

  -- The address is the first private one of the host that is no loopback address, else the first
  -- other one that is neither a loopback address nor 0.0.0.0, and 0 when there is none or the host
  -- has no list.
  pub get_local_ip_lem :
      (addresses : Option (List ℕ))
      → get_local_ip host addresses ≡ elim addresses [
        | none ↦ 0
        | some l ↦ address_or (first is_private l) (address_or (first is_public l) 0)
      ]
  unfolding get_local_ip
  get_local_ip_lem none = refl
  get_local_ip_lem (some l) = local_ip_loop_lem l 0 0 ∙ elim (Option-cases (first is_private l)) [
    | inl e ↦ rw e (ground arith)
    | inr (t, e) ↦ rw e (let n = first-nonzero l t e in ground arith)
  ]
