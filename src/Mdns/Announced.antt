-- ===== src/Mdns/Announced.antt =====
-- What src/core/MdnsService.cpp announces, and what it takes back at its end.
use iriseus.Prelude.{
  ℕ, ◌≡◌, refl, sym, inl, inr, ◌⊎◌, Bytes, Bool, true, false, ◌&&◌, not, nat_beq, Option, none,
  some, List, [], ◌∷◌, ◌++◌, if◌then◌else◌, All, All-append, subst, append_assoc,
}
use iriseus.Mdns.{
  HostLib, get_local_ip, RecordType, ptr_type, srv_type, txt_type, a_type, other_type, Record, Sent,
  announces, answers, goodbyes, ServiceContext, mdns_callback, listen, poll, context, own_ptr,
  own_additional, run_loop,
}

abbrev pub records : List Sent → List Record
records [] = []
records (announces r rs ∷ l) = r ∷ rs ++ records l
records (answers r rs ∷ l) = r ∷ rs ++ records l
records (goodbyes r rs ∷ l) = r ∷ rs ++ records l

-- The records of the first thing sent, if it is an announcement.
abbrev pub first_words : List Sent → List Record
first_words [] = []
first_words (announces r rs ∷ l) = r ∷ rs
first_words (answers r rs ∷ l) = []
first_words (goodbyes r rs ∷ l) = []

-- The records of the last thing sent, if it is a goodbye.
abbrev pub last_words : List Sent → List Record
last_words [] = []
last_words (announces r rs ∷ []) = []
last_words (answers r rs ∷ []) = []
last_words (goodbyes r rs ∷ []) = r ∷ rs
last_words (x ∷ y ∷ l) = last_words (y ∷ l)

abbrev pub Listed : Record → List Record → Type 0
Listed r [] = ⊥
Listed r (x ∷ l) = (x ≡ r) ⊎ Listed r l

-- Each record that was sent is taken back by the last thing sent.
abbrev pub Withdrawn : List Sent → Type 0
Withdrawn l = All (λ r. Listed (record r { ttl = 0 }) (last_words l)) (records l)

abbrev pub own_records : ServiceContext → ℕ → List Record
own_records c n = own_ptr c n ∷ own_additional c n

records-append : (l m : List Sent) → records (l ++ m) ≡ records l ++ records m
records-append [] m = refl
records-append (announces r rs ∷ l) m =
    rw (records-append l m, append_assoc rs (records l) (records m)) refl
records-append (answers r rs ∷ l) m =
    rw (records-append l m, append_assoc rs (records l) (records m)) refl
records-append (goodbyes r rs ∷ l) m =
    rw (records-append l m, append_assoc rs (records l) (records m)) refl

last_words-append :
    (l : List Sent) (r : Record) (rs : List Record) → last_words (l ++ goodbyes r rs ∷ []) ≡ r ∷ rs
last_words-append [] r rs = refl
last_words-append (x ∷ []) r rs = refl
last_words-append (x ∷ y ∷ l) r rs = last_words-append (y ∷ l) r rs

module _ (c : ServiceContext) where
  abbrev Own : Record → Type 0
  Own r = Listed (record r { ttl = 0 }) (own_records c 0)

  own_records-Own : (n : ℕ) → All Own (own_records c n)
  own_records-Own n =
      (inl refl, (inr (inl refl), (inr (inr (inl refl)), (inr (inr (inr (inl refl))), tt))))

  callback-Own : (entry : Bool) (t : RecordType) → All Own (records (mdns_callback c entry t))
  unfolding mdns_callback
  callback-Own false t = tt
  callback-Own true ptr_type = own_records-Own 120
  callback-Own true srv_type = (inr (inl refl), tt)
  callback-Own true txt_type = tt
  callback-Own true a_type = (inr (inr (inr (inl refl))), tt)
  callback-Own true other_type = tt

  both-Own :
      (l m : List Sent) → All Own (records l) → All Own (records m) → All Own (records (l ++ m))
  both-Own l m a b =
      subst (All Own) (sym (records-append l m)) (All-append Own (records l) (records m) a b)

  listen-Own : (es : List (Bool × RecordType)) → All Own (records (listen c es))
  unfolding listen
  listen-Own [] = tt
  listen-Own ((entry, t) ∷ es) =
      both-Own (mdns_callback c entry t) (listen c es) (callback-Own entry t) (listen-Own es)

  poll-Own : (rounds : List (Option (List (Bool × RecordType)))) → All Own (records (poll c rounds))
  unfolding poll
  poll-Own [] = tt
  poll-Own (none ∷ rounds) = poll-Own rounds
  poll-Own (some es ∷ rounds) =
      both-Own (listen c es) (poll c rounds) (listen-Own es) (poll-Own rounds)

  service-Withdrawn :
      (rounds : List (Option (List (Bool × RecordType))))
      → Withdrawn (
          announces (own_ptr c 120) (own_additional c 120) ∷ poll c rounds
          ++ goodbyes (own_ptr c 0) (own_additional c 0) ∷ [])
  service-Withdrawn rounds =
      let hello : List Sent = announces (own_ptr c 120) (own_additional c 120) ∷ [] in
      let bye : List Sent = goodbyes (own_ptr c 0) (own_additional c 0) ∷ [] in
      subst
        (λ l. All (λ r. Listed (record r { ttl = 0 }) l) (records (hello ++ poll c rounds ++ bye)))
        (sym (last_words-append (hello ++ poll c rounds) (own_ptr c 0) (own_additional c 0)))
        (both-Own hello (poll c rounds ++ bye) (own_records-Own 120)
          (both-Own (poll c rounds) bye (poll-Own rounds) (own_records-Own 0)))

-- What the service sends, whatever entries come: each record that it has sent, in the announcement
-- or in an answer, is in the goodbye, which is the last thing sent, with a time to live of 0. On a
-- host with an address, and with a socket, the first thing sent announces the four records of the
-- service, with the address, the port and a time to live of 120.
pub run_loop-Withdrawn :
    (host : HostLib) (name : Bytes) (port : ℕ) (addresses : Option (List ℕ)) (opens : Bool)
    (rounds : List (Option (List (Bool × RecordType))))
    → let ip = get_local_ip host addresses in
      let l = run_loop host name port addresses opens rounds in
      Withdrawn l
      × ((opens && not (nat_beq ip 0)) ≡ true
          → first_words l ≡ own_records (context name port ip) 120)
unfolding run_loop
run_loop-Withdrawn host name port addresses opens rounds =
    guarded (nat_beq (get_local_ip host addresses) 0) opens
  where
    service : List Sent
    service =
        let c = context name port (get_local_ip host addresses) in
        announces (own_ptr c 120) (own_additional c 120) ∷ poll c rounds
        ++ goodbyes (own_ptr c 0) (own_additional c 0) ∷ []

    guarded :
        (no_address open_socket : Bool)
        → let l = if no_address then [] else if not open_socket then [] else service in
          Withdrawn l
          × ((open_socket && not no_address) ≡ true
              → first_words l ≡ own_records (context name port (get_local_ip host addresses)) 120)
    guarded true true = (tt, λ e. absurd (cc))
    guarded true false = (tt, λ e. absurd (cc))
    guarded false false = (tt, λ e. absurd (cc))
    guarded false true =
        (service-Withdrawn (context name port (get_local_ip host addresses)) rounds, λ e. refl)
