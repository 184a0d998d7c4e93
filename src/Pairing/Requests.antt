-- ===== src/Pairing/Requests.antt =====
-- Which pair requests are accepted, and what they leave behind.
use iriseus.Prelude.{
  ◌≤◌, ◌≡◌, ◌≢◌, ◌↔◌, refl, sym, ap, ◌∙◌, inl, inr, Bytes, true, false, some, [], ◌==◌, bytes_eq,
  bytes_beq_iff, not, nat_beq, length, take, take_all, if_cases, Option-cases, arith,
}
use iriseus.Prelude.Assoc.{beq_refl, lookup-insert}
use iriseus.Pairing.{
  CryptoLib, Device, Pairing, Answer, accepted, rejected, threw, derive_shared, store_device,
  pair_with_key, handle_pair_request, get_device,
}

module _ (crypto : CryptoLib) where
  open crypto use {decode}

  -- A request with the current PIN and a key of 32 bytes that the key exchange takes.
  pub record Granted (pin peer_base64 : Bytes) (m : Pairing) : Type 0 where
    pub peer : Bytes
    pub secret : Bytes
    pub right_pin : pin ≡ m.active_pin
    pub decoded : decode peer_base64 ≡ some peer
    pub sized : length peer ≡ 32
    pub derived : derive_shared crypto m.active_key_pair peer ≡ some secret

  abbrev pub new_device : Bytes → Bytes → Bytes → Bytes → Device
  new_device device_id device_name peer secret = record {
    device_id = device_id;
    device_name = device_name;
    peer_public_key = peer;
    shared_secret = secret;
  }

  -- The two PIN tests together are equality.
  pin_tests :
      (pin active : Bytes)
      → pin ≡ active
      → (nat_beq (length pin) (length active) ≡ true) × ((pin == take (length pin) active) ≡ true)
  pin_tests pin active e = rw e (
    ground arith,
    (bytes_beq_iff active (take (length active) active)).1
        (sym (take_all (length active) active (omega arith))),
  )

  pin_tests_sound :
      (pin active : Bytes)
      → not (nat_beq (length pin) (length active)) ≡ false
      → not (pin == take (length pin) active) ≡ false
      → pin ≡ active
  pin_tests_sound pin active n t =
      let l : length active ≤ length pin = ground arith in
      let b : (pin == take (length pin) active) ≡ true = ground arith in
      (bytes_beq_iff pin (take (length pin) active)).0 b ∙ take_all (length pin) active l

  pub granted_lem :
      (pin pk id name : Bytes) (m : Pairing) (g : Granted pin pk m)
      → handle_pair_request crypto pin pk id name m
        ≡ (accepted, store_device crypto (new_device id name g.peer g.secret) m)
  unfolding handle_pair_request
  granted_lem pin pk id name m g =
      let (n, t) = pin_tests pin m.active_pin g.right_pin in
      rw (n, handle_pair_request)
        (rw t (rw g.decoded (rw (g.sized, pair_with_key) (rw (g.derived, pair_with_key) refl))))

  -- Acceptance was granted, and nothing else changes the state.
  abbrev Sound : Bytes → Bytes → Pairing → Answer × Pairing → Type 0
  Sound pin pk m x = (x.0 ≡ accepted → Granted pin pk m) × (x.0 ≢ accepted → x.1 ≡ m)

  Sound-refused : (pin pk : Bytes) (m : Pairing) (a : Answer) → a ≢ accepted → Sound pin pk m (a, m)
  Sound-refused pin pk m a h = (λ e. absurd (h e), λ _. refl)

  Sound-pair_with_key :
      (pin pk id name peer : Bytes) (m : Pairing)
      → pin ≡ m.active_pin
      → decode pk ≡ some peer
      → Sound pin pk m (pair_with_key crypto peer id name m)
  unfolding pair_with_key
  Sound-pair_with_key pin pk id name peer m p d =
      if_cases (Sound pin pk m) (not (nat_beq (length peer) 32)) _ _
        (λ _. Sound-refused pin pk m rejected (λ e. cc))
        (λ sized. elim (Option-cases (derive_shared crypto m.active_key_pair peer)) [
          | inl refused ↦ rw (refused, pair_with_key) (Sound-refused pin pk m threw (λ e. cc))
          | inr (secret, derived) ↦
              rw (derived, pair_with_key)
                (
                  λ _. record {
                    peer = peer;
                    secret = secret;
                    right_pin = p;
                    decoded = d;
                    sized = ground arith;
                    derived = derived;
                  },
                  λ h. absurd (h refl),
                )
        ])

  Sound-request :
      (pin pk id name : Bytes) (m : Pairing)
      → Sound pin pk m (handle_pair_request crypto pin pk id name m)
  unfolding handle_pair_request
  Sound-request pin pk id name m =
      if_cases (Sound pin pk m) (not (nat_beq (length pin) (length m.active_pin))) _ _
        (λ _. Sound-refused pin pk m rejected (λ e. cc))
        (λ n.
          if_cases (Sound pin pk m) (not (pin == take (length pin) m.active_pin)) _ _
            (λ _. Sound-refused pin pk m rejected (λ e. cc))
            (λ t. elim (Option-cases (decode pk)) [
              | inl bad ↦ rw (bad, handle_pair_request) (Sound-refused pin pk m threw (λ e. cc))
              | inr (peer, good) ↦
                  rw (good, handle_pair_request)
                    (Sound-pair_with_key pin pk id name peer m
                      (pin_tests_sound pin m.active_pin n t) good)
            ]))

  -- A pair request is accepted exactly when it has the current PIN and its key decodes to 32 bytes
  -- that the key exchange takes; a request that is not accepted changes nothing.
  pub pair_request_accepted_iff :
      (pin pk id name : Bytes) (m : Pairing)
      → (((handle_pair_request crypto pin pk id name m).0 ≡ accepted) ↔ Granted pin pk m)
        × ((handle_pair_request crypto pin pk id name m).0 ≢ accepted
            → (handle_pair_request crypto pin pk id name m).1 ≡ m)
  pair_request_accepted_iff pin pk id name m =
      let (sound, same) = Sound-request pin pk id name m in
      ((sound, λ g. ap (λ (x : Answer × Pairing). x.0) (granted_lem pin pk id name m g)), same)

  -- How the table after a request, `m'`, differs from the table before it.
  pub record Stored (id name pk : Bytes) (m m' : Pairing) : Type 0 where
    pub device : Device
    pub found : get_device id m' ≡ some device
    pub named : device.device_name ≡ name
    pub keyed : decode pk ≡ some device.peer_public_key
    pub others : (j : Bytes) → id ≢ j → get_device j m' ≡ get_device j m
    pub pin_gone : m'.active_pin ≡ []

  Stored-store_device :
      (pin pk id name : Bytes) (m : Pairing) (g : Granted pin pk m)
      → Stored id name pk m (store_device crypto (new_device id name g.peer g.secret) m)
  unfolding store_device get_device
  Stored-store_device pin pk id name m g =
      let device = new_device id name g.peer g.secret in
      record {
        device = device;
        found = lookup-insert id id device m.devices ∙ rw (beq_refl id);
        named = refl;
        keyed = g.decoded;
        others = λ j h.
            lookup-insert id j device m.devices
            ∙ (let n : (id == j) ≡ false = ground (arith, bytes_beq_iff id j) in rw n);
        pin_gone = refl;
      }

  -- After a request that was accepted the device is stored under its identifier, with the name and
  -- the key that were sent; every other device is as it was, and the PIN is the empty text.
  pub accepted-Stored :
      (pin pk id name : Bytes) (m : Pairing)
      → (handle_pair_request crypto pin pk id name m).0 ≡ accepted
      → Stored id name pk m (handle_pair_request crypto pin pk id name m).1
  accepted-Stored pin pk id name m e =
      let g = (Sound-request pin pk id name m).0 e in
      rw (granted_lem pin pk id name m g) (Stored-store_device pin pk id name m g)
