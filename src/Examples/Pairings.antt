-- ===== src/Examples/Pairings.antt =====
-- A phone pairs with the program.
use iriseus.Prelude.{◌≡◌, ◌≢◌, refl, ◌↔◌, Bytes, [], ◌∷◌, codes, bytes_eq, bytes_beq}
use iriseus.Prelude.Assoc.{insert, erase}
use iriseus.Pairing.{
  Pairing, KeyPair, accepted, handle_pair_request, pair_with_key, store_device, derive_shared,
  xor_bytes,
}
use iriseus.Pairing.Requests.{Granted, pair_request_accepted_iff}
use iriseus.Pairing.Reuse.{GoodKey, accepted_once}
use iriseus.Examples.Libraries.{plain_keys}

abbrev pub own_keys : KeyPair
own_keys = record { public_key = 1 ∷ []; private_key = 2 ∷ [] }

abbrev pub waiting : Pairing
waiting = record {
  ws_port = 45678;
  devices = [];
  active_pin = codes "012345";
  active_key_pair = own_keys;
  current_offer = record {
    pc_ip = [];
    ws_port = 0;
    pin = codes "012345";
    public_key_base64 = 1 ∷ [];
    local_key_pair = own_keys;
  };
}

abbrev pub phone_key : Bytes
phone_key =
    1 ∷ 2 ∷ 3 ∷ 4 ∷ 5 ∷ 6 ∷ 7 ∷ 8 ∷ 1 ∷ 2 ∷ 3 ∷ 4 ∷ 5 ∷ 6 ∷ 7 ∷ 8 ∷ 1 ∷ 2 ∷ 3 ∷ 4 ∷ 5 ∷ 6 ∷ 7 ∷ 8
    ∷ 1 ∷ 2 ∷ 3 ∷ 4 ∷ 5 ∷ 6 ∷ 7 ∷ 8 ∷ []

pub phone_key-GoodKey : GoodKey plain_keys phone_key waiting
unfolding derive_shared xor_bytes
phone_key-GoodKey = record {
  peer = phone_key;
  secret = 3 ∷ [];
  decoded = refl;
  sized = refl;
  derived = refl;
}

pairs :
    (handle_pair_request plain_keys (codes "012345") phone_key (codes "i") (codes "n") waiting).0
    ≡ accepted
unfolding handle_pair_request pair_with_key derive_shared xor_bytes bytes_beq store_device insert
    erase
pairs = refl

pair_request_accepted_iff_example :
    (((handle_pair_request plain_keys (codes "1") phone_key (codes "i") (codes "n") waiting).0
        ≡ accepted)
      ↔ Granted plain_keys (codes "1") phone_key waiting)
    × ((handle_pair_request plain_keys (codes "1") phone_key (codes "i") (codes "n") waiting).0
          ≢ accepted
        → (handle_pair_request plain_keys (codes "1") phone_key (codes "i") (codes "n") waiting).1
          ≡ waiting)
pair_request_accepted_iff_example =
    pair_request_accepted_iff plain_keys (codes "1") phone_key (codes "i") (codes "n") waiting

accepted_once_example :
    ((handle_pair_request plain_keys [] phone_key
        (codes "j")
        (codes "o")
        (handle_pair_request plain_keys
          (codes "012345")
          phone_key
          (codes "i")
          (codes "n")
          waiting).1).0
      ≡ accepted)
    ↔ (◌≡◌ {A = Bytes} [] [])
accepted_once_example =
    accepted_once plain_keys (codes "012345") phone_key (codes "i") (codes "n") [] phone_key
      (codes "j") (codes "o") waiting pairs phone_key-GoodKey
