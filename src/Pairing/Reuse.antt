-- ===== src/Pairing/Reuse.antt =====
-- The PIN over an offer and two requests.
use iriseus.Prelude.{ℕ, ◌≡◌, ◌≢◌, ◌↔◌, refl, sym, ◌∙◌, Bytes, some, [], length}
use iriseus.Pairing.{
  CryptoLib, Pairing, accepted, derive_shared, handle_pair_request, create_offer, store_device,
  pin_text,
}
use iriseus.Pairing.Requests.{pair_request_accepted_iff, accepted-Stored, granted_lem}

module _ (crypto : CryptoLib) where
  open crypto use {decode}

  -- A key that pairs, given the PIN.
  pub record GoodKey (pk : Bytes) (m : Pairing) : Type 0 where
    pub peer : Bytes
    pub secret : Bytes
    pub decoded : decode pk ≡ some peer
    pub sized : length peer ≡ 32
    pub derived : derive_shared crypto m.active_key_pair peer ≡ some secret

  good_pin :
      (pin pk id name : Bytes) (m : Pairing)
      → GoodKey pk m
      → pin ≡ m.active_pin
      → (handle_pair_request crypto pin pk id name m).0 ≡ accepted
  good_pin pin pk id name m k e = (pair_request_accepted_iff crypto pin pk id name m).0.1 (record {
    peer = k.peer;
    secret = k.secret;
    right_pin = e;
    decoded = k.decoded;
    sized = k.sized;
    derived = k.derived;
  })

  wrong_pin :
      (pin pk id name : Bytes) (m : Pairing)
      → pin ≢ m.active_pin
      → (handle_pair_request crypto pin pk id name m).0 ≢ accepted
  wrong_pin pin pk id name m h e =
      h ((pair_request_accepted_iff crypto pin pk id name m).0.0 e).right_pin

  -- Right after an offer with the number `n`, a request with a good key is accepted exactly when
  -- its PIN is the six digits that spell `n`.
  pub offer_accepts_pin :
      (ip pin pk id name : Bytes) (n : ℕ) (m : Pairing)
      → GoodKey pk m
      → ((handle_pair_request crypto pin pk id name (create_offer crypto ip n m)).0 ≡ accepted)
        ↔ (pin ≡ pin_text n)
  unfolding create_offer
  offer_accepts_pin ip pin pk id name n m k =
      let m' = create_offer crypto ip n m in
      (
        λ e. ((pair_request_accepted_iff crypto pin pk id name m').0.0 e).right_pin,
        λ e.
            good_pin pin pk id name m'
              (record {
                peer = k.peer;
                secret = k.secret;
                decoded = k.decoded;
                sized = k.sized;
                derived = k.derived;
              })
              e,
      )

  key_pair_kept :
      (pin pk id name : Bytes) (m : Pairing)
      → (handle_pair_request crypto pin pk id name m).0 ≡ accepted
      → (handle_pair_request crypto pin pk id name m).1.active_key_pair ≡ m.active_key_pair
  unfolding store_device
  key_pair_kept pin pk id name m e =
      let g = (pair_request_accepted_iff crypto pin pk id name m).0.0 e in
      rw (granted_lem crypto pin pk id name m g) refl

  -- Once a request was accepted, a next request whose key is good is accepted exactly when its PIN
  -- is the empty text: the PIN that was used is refused like every other one, and no PIN at all is
  -- taken for right.
  pub accepted_once :
      (pin pk id name pin2 pk2 id2 name2 : Bytes) (m : Pairing)
      → (handle_pair_request crypto pin pk id name m).0 ≡ accepted
      → GoodKey pk2 m
      → ((handle_pair_request crypto pin2 pk2 id2 name2
            (handle_pair_request crypto pin pk id name m).1).0
          ≡ accepted)
        ↔ (pin2 ≡ [])
  accepted_once pin pk id name pin2 pk2 id2 name2 m e k =
      let m' = (handle_pair_request crypto pin pk id name m).1 in
      let gone = (accepted-Stored crypto pin pk id name m e).pin_gone in
      (
        λ e2. ((pair_request_accepted_iff crypto pin2 pk2 id2 name2 m').0.0 e2).right_pin ∙ gone,
        λ empty.
            good_pin pin2 pk2 id2 name2 m'
              (record {
                peer = k.peer;
                secret = k.secret;
                decoded = k.decoded;
                sized = k.sized;
                derived = rw (key_pair_kept pin pk id name m e) k.derived;
              })
              (empty ∙ sym gone),
      )
