-- ===== src/App/Paired.antt =====
-- What a pair request of a session leads to, and what is left of it when the program starts again.
use iriseus.Prelude.{
  ℕ, ◌≡◌, refl, sym, ap, ◌∙◌, Bytes, Bool, true, false, Option, none, some, [], codes, is_empty,
  bytes_eq, if◌then◌else◌,
}
use iriseus.Prelude.Assoc.{lookup-insert_self}
use iriseus.Json.{JsonLib}
use iriseus.Transfer.Files.{FilesLib}
use iriseus.Pairing.{
  CryptoLib, Pairing, Device, Answer, accepted, rejected, threw, handle_pair_request, get_device,
  restore_device,
}
use iriseus.Pairing.Requests.{Granted, pair_request_accepted_iff}
use iriseus.Ws.Server.{send_to}
use iriseus.Ws.Dispatch.{field_string}
use iriseus.App.{App, Settings, new_app, init_pairing}
use iriseus.App.Calls.{pair_reply, on_paired, paired, pair_request}

module _ (files : FilesLib) (lib : JsonLib) (crypto : CryptoLib) where
  open lib use {Json}

  -- The fields of a pair request.
  pub record Asks (payload : Option Json) (pin peer id name : Bytes) : Type 0 where
    pub pin_field : field_string lib payload (codes "pin") [] ≡ some pin
    pub peer_field : field_string lib payload (codes "pk") [] ≡ some peer
    pub id_field : field_string lib payload (codes "deviceId") [] ≡ some id
    pub name_field : field_string lib payload (codes "deviceName") [] ≡ some name

  pub request-paired :
      (session : ℕ) (payload : Option Json) (pin peer id name : Bytes) (p : Pairing) (a : App files)
      → Asks payload pin peer id name
      → pair_request files lib crypto session payload (some p) a
        ≡ paired files lib crypto session id name (handle_pair_request crypto pin peer id name p) a
  unfolding pair_request
  request-paired session payload pin peer id name p a asks =
      rw (asks.pin_field, pair_request)
        (rw asks.peer_field (rw asks.id_field (rw asks.name_field refl)))

  -- What the program is after an answer: the session that asked is told, and the settings have the
  -- device exactly if it was accepted.
  pub record Answered (ok : Bool) (session : ℕ) (id name : Bytes) (a a' : App files) : Type 0 where
    pub told : a'.server ≡ send_to session (pair_reply files lib crypto ok) a.server
    pub kept : a'.settings ≡ (
        if ok
        then record a.settings { paired_device_id = id; paired_device_name = name }
        else a.settings)

  -- How `handlePairRequest` ends, and what the program does with it.
  pub data Outcome (session : ℕ) (pin peer id name : Bytes) (p : Pairing) (a : App files)
      : Option (App files) → Type 0 where
    grants :
        {a' : App files}
        → Granted crypto pin peer p
        → Answered true session id name a a'
        → Outcome session pin peer id name p a (some a')
    refuses :
        {a' : App files}
        → ¬ Granted crypto pin peer p
        → Answered false session id name a a'
        → a'.pairing ≡ some p
        → Outcome session pin peer id name p a (some a')
    ends :
        (handle_pair_request crypto pin peer id name p).0 ≡ threw
        → Outcome session pin peer id name p a none

  outcome :
      (session : ℕ) (pin peer id name : Bytes) (p : Pairing) (a : App files) (r : Answer × Pairing)
      → handle_pair_request crypto pin peer id name p ≡ r
      → Outcome session pin peer id name p a (paired files lib crypto session id name r a)
  unfolding paired on_paired
  outcome session pin peer id name p a (accepted, p') e =
      grants
        ((pair_request_accepted_iff crypto pin peer id name p).0.0
          (ap (λ (x : Answer × Pairing). x.0) e))
        (record { told = refl; kept = refl })
  outcome session pin peer id name p a (rejected, p') e =
      let ((sound, complete), same) = pair_request_accepted_iff crypto pin peer id name p in
      let ans : (handle_pair_request crypto pin peer id name p).0 ≡ rejected =
        ap (λ (x : Answer × Pairing). x.0) e in
      refuses (λ g. let yes = complete g in let no : ⊥ = cc in no)
        (record { told = refl; kept = refl })
        (ap some (sym (ap (λ (x : Answer × Pairing). x.1) e) ∙ same (λ yes. let no : ⊥ = cc in no)))
  outcome session pin peer id name p a (threw, p') e = ends (ap (λ (x : Answer × Pairing). x.0) e)

  -- A pair request whose four fields are texts or missing, once the manager of pairings is there:
  -- the session that sent it gets `pair_accepted`, and the settings the device, if the request
  -- is granted, that is, has the current PIN and a good key; it gets `pair_rejected` and nothing is
  -- changed in settings and pairings if it is not granted, unless the handling throws, which ends
  -- the program.
  pub pair_request-Outcome :
      (session : ℕ) (payload : Option Json) (pin peer id name : Bytes) (p : Pairing) (a : App files)
      → Asks payload pin peer id name
      → Outcome session pin peer id name p a
          (pair_request files lib crypto session payload (some p) a)
  pair_request-Outcome session payload pin peer id name p a asks =
      rw (request-paired session payload pin peer id name p a asks)
        (outcome session pin peer id name p a _ refl)

  -- A granted request leaves the device in the settings.
  Granted-settings :
      (session : ℕ) (pin peer id name : Bytes) (p : Pairing) (a a' : App files)
      (o : Option (App files))
      → Outcome session pin peer id name p a o
      → Granted crypto pin peer p
      → o ≡ some a'
      → (a'.settings.paired_device_id ≡ id) × (a'.settings.paired_device_name ≡ name)
  Granted-settings session pin peer id name p a a' (some b) (grants g ans) h e =
      let same : b ≡ a' = cc in
      let kept = sym (ap (λ (x : App files). x.settings) same) ∙ ans.kept in
      (
        ap (λ (x : Settings). x.paired_device_id) kept,
        ap (λ (x : Settings). x.paired_device_name) kept,
      )
  Granted-settings session pin peer id name p a a' (some b) (refuses g ans k) h e = absurd (g h)
  Granted-settings session pin peer id name p a a' none (ends t) h e =
      absurd (let no : ⊥ = cc in no)

  restored :
      (key secret : Bytes) (fresh : Pairing) (settings : Settings) (disk : files.Disk)
      → is_empty settings.paired_device_id ≡ false
      → (p : Pairing) × (device : Device) × ((init_pairing files key secret fresh
            (new_app files settings disk)).pairing
          ≡ some p)
        × (get_device settings.paired_device_id p ≡ some device)
        × (device.device_name ≡ settings.paired_device_name)
  unfolding init_pairing new_app restore_device get_device
  restored key secret fresh settings disk h = (
    restore_device key secret settings.paired_device_id settings.paired_device_name fresh,
    _,
    rw (h, init_pairing) refl,
    lookup-insert_self settings.paired_device_id _ fresh.devices,
    refl,
  )

  -- When a request is granted for a device whose identifier is not empty, and does not throw, the
  -- program that starts with the settings that it leaves has the device in its table, under its
  -- identifier and with its name, whatever keys and random bytes it starts with.
  pub restart-remembers :
      (session : ℕ) (payload : Option Json) (pin peer id name : Bytes) (p : Pairing)
      (a a' : App files)
      → Asks payload pin peer id name
      → Granted crypto pin peer p
      → pair_request files lib crypto session payload (some p) a ≡ some a'
      → is_empty id ≡ false
      → (key secret : Bytes) (fresh : Pairing) (disk : files.Disk)
      → (q : Pairing) × (device : Device) × ((init_pairing files key secret fresh
            (new_app files a'.settings disk)).pairing
          ≡ some q)
        × (get_device id q ≡ some device)
        × (device.device_name ≡ name)
  restart-remembers session payload pin peer id name p a a' asks g e n key secret fresh disk =
      let (i, m) =
        Granted-settings session pin peer id name p a a' _
          (pair_request-Outcome session payload pin peer id name p a asks) g e in
      let (q, device, made, found, named) =
        restored key secret fresh a'.settings disk (ap (λ (x : Bytes). is_empty x) i ∙ n) in
      (q, device, made, ap (λ (x : Bytes). get_device x q) (sym i) ∙ found, named ∙ m)
