-- ===== src/Pairing.antt =====
-- src/core/PairingManager.cpp and src/core/PairingCrypto.cpp: the offer with its PIN, the check of a
-- pair request, and the table of paired devices.
pub mod Pin
pub mod Requests
pub mod Reuse
use iriseus.Prelude.{
  ℕ, zero, suc, ◌+◌, ◌/◌, ◌%◌, ◌≡◌, Bytes, Bool, true, false, Option, none, some, List, [], ◌∷◌,
  ◌++◌, ◌==◌, bytes_eq, not, nat_beq, length, take, drop, if◌then◌else◌, codes,
}
use iriseus.Prelude.Assoc.{Assoc, lookup, insert}
use iriseus.Json.{JsonLib}
use Prim.Native.Nat.{bit_xor}

pub record KeyPair : Type 0 where
  pub public_key : Bytes
  pub private_key : Bytes

-- libsodium: `session_keys` is `crypto_kx_server_session_keys`, `none` if it refuses the peer's key;
-- `decode` is `sodium_base642bin`, `none` if the text is no base64.
pub record CryptoLib : Type 0 where
  pub session_keys : KeyPair → Bytes → Option (Bytes × Bytes)
  pub encode : Bytes → Bytes
  pub decode : Bytes → Option Bytes
  pub decode-encode : (b : Bytes) → decode (encode b) ≡ some b

pub record Device : Type 0 where
  pub device_id : Bytes
  pub device_name : Bytes
  pub peer_public_key : Bytes
  pub shared_secret : Bytes

pub record Offer : Type 0 where
  pub pc_ip : Bytes
  pub ws_port : ℕ
  pub pin : Bytes
  pub public_key_base64 : Bytes
  pub local_key_pair : KeyPair

pub record Pairing : Type 0 where
  pub ws_port : ℕ
  pub devices : Assoc Bytes Device
  pub active_pin : Bytes
  pub active_key_pair : KeyPair
  pub current_offer : Offer

-- `setw(6)` with `setfill('0')` of a number below a million.
unfoldable pub pin_text : ℕ → Bytes
pin_text n =
    (b'0' + n / 100000 % 10)
    ∷ (b'0' + n / 10000 % 10)
    ∷ (b'0' + n / 1000 % 10)
    ∷ (b'0' + n / 100 % 10)
    ∷ (b'0' + n / 10 % 10)
    ∷ (b'0' + n % 10)
    ∷ []

-- `formatPin` of src/ui/PairingDialog.cpp.
unfoldable pub format_pin : Bytes → Bytes
format_pin pin =
    if nat_beq (length pin) 6 then take 3 pin ++ (codes " " ++ take 3 (drop 3 pin)) else pin

-- The XOR of the two session keys.
unfoldable pub xor_bytes : Bytes → Bytes → Bytes
xor_bytes [] b = []
xor_bytes (x ∷ a) [] = []
xor_bytes (x ∷ a) (y ∷ b) = bit_xor x y ∷ xor_bytes a b

-- The addresses of the host's own name, as `getaddrinfo` lists them; none if it fails.
unfoldable pub local_address : List Bytes → Bytes
local_address [] = codes "127.0.0.1"
local_address (address ∷ addresses) = address

-- How `handlePairRequest` ends; `threw` is an exception of `fromBase64` or `deriveShared`.
pub data Answer : Type 0 where
  accepted rejected threw : Answer

module _ (crypto : CryptoLib) where
  open crypto use {session_keys, encode, decode}

  unfoldable pub derive_shared : KeyPair → Bytes → Option Bytes
  unfolding xor_bytes
  derive_shared pair peer = elim (session_keys pair peer) [
    | none ↦ none
    | some (rx, tx) ↦ some (xor_bytes rx tx)
  ]

  -- The key pair is that of libsodium; the other two stand for fields that are not set yet.
  unfoldable pub new_pairing : ℕ → KeyPair → ℕ → KeyPair → Pairing
  new_pairing port pair unset_port unset = record {
    ws_port = port;
    devices = [];
    active_pin = [];
    active_key_pair = pair;
    current_offer = record {
      pc_ip = [];
      ws_port = unset_port;
      pin = [];
      public_key_base64 = encode pair.public_key;
      local_key_pair = unset;
    };
  }

  -- `n` is what the random generator gave, `ip` what the host gave.
  unfoldable pub create_offer : Bytes → ℕ → Pairing → Pairing
  unfolding pin_text
  create_offer ip n m = record m {
    active_pin = pin_text n;
    current_offer = record {
      pc_ip = ip;
      ws_port = m.ws_port;
      pin = pin_text n;
      public_key_base64 = encode m.active_key_pair.public_key;
      local_key_pair = m.active_key_pair;
    };
  }

  -- The device is stored and the PIN is taken back.
  unfoldable pub store_device : Device → Pairing → Pairing
  unfolding insert
  store_device device m = record m {
    devices = insert device.device_id device m.devices;
    active_pin = [];
  }

  unfoldable pub pair_with_key : Bytes → Bytes → Bytes → Pairing → Answer × Pairing
  unfolding derive_shared store_device
  pair_with_key peer device_id device_name m =
      if not (nat_beq (length peer) 32)
      then (rejected, m)
      else elim (derive_shared m.active_key_pair peer) [
        | none ↦ (threw, m)
        | some secret ↦ (
          accepted,
          store_device
              (record {
                device_id = device_id;
                device_name = device_name;
                peer_public_key = peer;
                shared_secret = secret;
              })
              m,
        )
      ]

  -- `sodium_memcmp` compares as many bytes as the PIN that was sent has.
  unfoldable pub handle_pair_request : Bytes → Bytes → Bytes → Bytes → Pairing → Answer × Pairing
  unfolding pair_with_key
  handle_pair_request pin peer_base64 device_id device_name m =
      if not (nat_beq (length pin) (length m.active_pin))
      then (rejected, m)
      else if not (pin == take (length pin) m.active_pin)
      then (rejected, m)
      else elim (decode peer_base64) [
        | none ↦ (threw, m)
        | some peer ↦ pair_with_key peer device_id device_name m
      ]

unfoldable pub is_paired : Bytes → Pairing → Bool
unfolding lookup
is_paired device_id m = elim (lookup device_id m.devices) [ none ↦ false | some device ↦ true ]

unfoldable pub get_device : Bytes → Pairing → Option Device
unfolding lookup
get_device device_id m = lookup device_id m.devices

-- The keys of a restored device are not set.
unfoldable pub restore_device : Bytes → Bytes → Bytes → Bytes → Pairing → Pairing
unfolding insert
restore_device unset_key unset_secret device_id device_name m = record m {
  devices =
      insert device_id
        (record {
          device_id = device_id;
          device_name = device_name;
          peer_public_key = unset_key;
          shared_secret = unset_secret;
        })
        m.devices;
}

module _ (lib : JsonLib) where
  open lib use {object, string, number, dump}

  unfoldable pub build_qr_payload : Offer → Bytes
  build_qr_payload offer = dump (
      object (
        (codes "v", number 1)
        ∷ (codes "ip", string offer.pc_ip)
        ∷ (codes "port", number offer.ws_port)
        ∷ (codes "pin", string offer.pin)
        ∷ (codes "pk", string offer.public_key_base64)
        ∷ []))
