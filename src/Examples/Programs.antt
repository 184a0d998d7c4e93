-- ===== src/Examples/Programs.antt =====
-- The program with one phone, its camera, its tray icon and its announcement.
use iriseus.Prelude.{
  ℕ, ◌≡◌, refl, Bytes, Bool, true, false, ◌&&◌, not, nat_beq, Option, none, some, List, [], ◌∷◌,
  codes, bytes_eq, nat_eq, bytes_beq,
}
use iriseus.Prelude.Assoc.{lookup}
use iriseus.Video.{black, Memory}
use iriseus.Camera.{Answers, closed, Event as CameraEvent, shows, closes, run as camera_run}
use iriseus.Camera.Calls.{all_allowed, run-allowed}
use iriseus.Tray.{starts_camera, updates_status, toggles, Event as TrayEvent}
use iriseus.Mdns.{HostLib, get_local_ip, run_loop, ptr_type, txt_type, RecordType, context}
use iriseus.Mdns.Address.{first, is_private, is_public, address_or, get_local_ip_lem}
use iriseus.Mdns.Announced.{Withdrawn, first_words, own_records, run_loop-Withdrawn}
use iriseus.Pairing.{
  Pairing, Device, handle_pair_request, pair_with_key, derive_shared, xor_bytes, store_device,
  get_device,
}
use iriseus.Pairing.Requests.{Granted}
use iriseus.App.{App, Settings, new_app, init_pairing}
use iriseus.App.Calls.{Given, pair_request, pair_reply, paired, on_paired}
use iriseus.Ws.Server.{send_to}
use iriseus.App.Steps.{
  Event, connects, receives, disconnects, broadcasts, inits_pairing, inits_stream, inits_manager,
  inits_tray, runs_task, toggles_flip, step, run,
}
use iriseus.App.Views.{Ensures, flip_view, session_view}
use iriseus.App.Agreement.{Agreed, Told, run-Agreed, step-Told}
use iriseus.App.Current.{IsValid, run-IsValid}
use iriseus.App.Paired.{Asks, Outcome, pair_request-Outcome, restart-remembers}
use iriseus.Examples.Libraries.{table, plain_hash, plain_keys}
use iriseus.Examples.JsonText.{values, Value, fields, text}
use iriseus.Examples.Pairings.{waiting, phone_key, phone_key-GoodKey}
use iriseus.Pairing.{pin_text}
use iriseus.App.Steps.{ask_pairing, new_dialog}
use iriseus.App.Shown.{Completes, asked-Completes}

abbrev works : Answers
works = record { library = true; create = true; delete = true; send = true; handle = some 9 }

abbrev picture : Memory
picture = λ i. black

abbrev watched : List CameraEvent
watched = shows works 4 2 picture ∷ closes ∷ shows works 4 2 picture ∷ []

run-allowed_example :
    all_allowed (camera_run closed watched).1 (false, none)
    ≡ some ((camera_run closed watched).0.dll, (camera_run closed watched).0.cam)
run-allowed_example = run-allowed watched

abbrev clicks : List TrayEvent
clicks = starts_camera ∷ toggles ∷ updates_status false ∷ []

-- A host with the byte order of the network.
abbrev big_endian : HostLib
big_endian = record {
  ntohl = λ n. n;
  htonl = λ n. n;
  htonl-ntohl = λ n. refl;
  ntohl-htonl = λ n. refl;
  htonl_zero = refl;
}

-- 127.0.0.1, 8.8.8.8 and 192.168.0.5.
abbrev addresses : List ℕ
addresses = 2130706433 ∷ 134744072 ∷ 3232235525 ∷ []

get_local_ip_lem_example :
    get_local_ip big_endian (some addresses)
    ≡ address_or
        (first big_endian is_private addresses)
        (address_or (first big_endian is_public addresses) 0)
get_local_ip_lem_example = get_local_ip_lem big_endian (some addresses)

abbrev rounds : List (Option (List (Bool × RecordType)))
rounds = none ∷ some ((true, ptr_type) ∷ (false, ptr_type) ∷ (true, txt_type) ∷ []) ∷ []

run_loop-Withdrawn_example :
    let ip = get_local_ip big_endian (some addresses) in
    let l = run_loop big_endian (codes "pc") 45678 (some addresses) true rounds in
    Withdrawn l
    × ((true && not (nat_beq ip 0)) ≡ true
        → first_words l ≡ own_records (context (codes "pc") 45678 ip) 120)
run_loop-Withdrawn_example =
    run_loop-Withdrawn big_endian (codes "pc") 45678 (some addresses) true rounds

abbrev empty_settings : Settings
empty_settings = record { paired_device_id = []; paired_device_name = []; flip_horizontal = true }

abbrev given : Given
given = record { base = λ p. p; folder = codes "d"; token = 1 ∷ 2 ∷ [] }

abbrev hello_message : Bytes
hello_message = codes "hello"

abbrev day : List Event
day =
    inits_pairing [] [] waiting
    ∷ inits_stream true
    ∷ connects
    ∷ inits_manager
    ∷ inits_tray
    ∷ receives given 1 hello_message
    ∷ toggles_flip
    ∷ broadcasts
    ∷ runs_task
    ∷ disconnects 1
    ∷ []

run-Agreed_example :
    Ensures
      (λ (a : App table). Agreed table values (flip_view table a))
      (run table values plain_keys plain_hash (new_app table empty_settings []) day)
run-Agreed_example =
    run-Agreed table values plain_keys plain_hash empty_settings [] day
      (tt, (refl, (tt, (tt, (tt, (tt, (tt, (tt, (tt, (tt, tt))))))))))

run-IsValid_example :
    Ensures
      (λ (a : App table). IsValid (session_view table a))
      (run table values plain_keys plain_hash (new_app table empty_settings []) day)
run-IsValid_example = run-IsValid table values plain_keys plain_hash empty_settings [] day

step-Told_example :
    Ensures
      (Told table values (new_app table empty_settings []))
      (step table values plain_keys plain_hash (new_app table empty_settings []) toggles_flip)
step-Told_example =
    step-Told table values plain_keys plain_hash (new_app table empty_settings []) toggles_flip

abbrev request : Value
request = fields (
    (codes "pin", text (codes "012345"))
    ∷ (codes "pk", text phone_key)
    ∷ (codes "deviceId", text (codes "i"))
    ∷ (codes "deviceName", text (codes "n"))
    ∷ [])

request-Asks :
    Asks table values plain_keys (some request) (codes "012345") phone_key (codes "i") (codes "n")
unfolding lookup bytes_beq
request-Asks = record { pin_field = refl; peer_field = refl; id_field = refl; name_field = refl }

request-Granted : Granted plain_keys (codes "012345") phone_key waiting
unfolding derive_shared xor_bytes
request-Granted = record {
  peer = phone_key;
  secret = 3 ∷ [];
  right_pin = refl;
  decoded = refl;
  sized = refl;
  derived = refl;
}

abbrev before : App table
before = new_app table empty_settings []

abbrev after : App table
after =
    let a = on_paired table values plain_keys (codes "i") (codes "n") (record before {
      pairing =
          some
            (handle_pair_request plain_keys (codes "012345") phone_key (codes "i") (codes "n")
              waiting).1;
    }) in
    record a { server = send_to 1 (pair_reply table values plain_keys true) a.server }

request-after :
    pair_request table values plain_keys 1 (some request) (some waiting) before ≡ some after
unfolding pair_request paired lookup bytes_beq handle_pair_request pair_with_key derive_shared
    xor_bytes store_device
request-after = refl

pair_request-Outcome_example :
    Outcome table values plain_keys 1
      (codes "012345")
      phone_key
      (codes "i")
      (codes "n")
      waiting
      before
      (pair_request table values plain_keys 1 (some request) (some waiting) before)
pair_request-Outcome_example =
    pair_request-Outcome table values plain_keys 1 (some request) (codes "012345") phone_key
      (codes "i") (codes "n") waiting before request-Asks

restart-remembers_example :
    (q : Pairing) × (device : Device) × ((init_pairing table [] [] waiting
        (new_app table after.settings [])).pairing
      ≡ some q)
    × (get_device (codes "i") q ≡ some device)
    × (device.device_name ≡ codes "n")
restart-remembers_example =
    restart-remembers table values plain_keys 1 (some request) (codes "012345") phone_key
      (codes "i") (codes "n") waiting before after request-Asks request-Granted request-after refl
      [] [] waiting []

abbrev request_again : Value
request_again = fields (
    (codes "pin", text (pin_text 7))
    ∷ (codes "pk", text phone_key)
    ∷ (codes "deviceId", text (codes "i"))
    ∷ (codes "deviceName", text (codes "n"))
    ∷ [])

request_again-Asks :
    Asks table values plain_keys (some request_again) (pin_text 7) phone_key (codes "i") (codes "n")
unfolding lookup bytes_beq
request_again-Asks = record {
  pin_field = refl;
  peer_field = refl;
  id_field = refl;
  name_field = refl;
}

asked-Completes_example :
    ((ask_pairing table values plain_keys plain_hash [] 7 (some waiting) before).dialog
      ≡ some (new_dialog (pin_text 7)))
    × ((b : App table) × (pair_request table values plain_keys 1
            (some request_again)
            (ask_pairing table values plain_keys plain_hash [] 7 (some waiting) before).pairing
            (ask_pairing table values plain_keys plain_hash [] 7 (some waiting) before)
          ≡ some b)
        × Completes table values plain_keys plain_hash 1
            (codes "n")
            7
            (ask_pairing table values plain_keys plain_hash [] 7 (some waiting) before)
            b)
unfolding new_app
asked-Completes_example =
    asked-Completes table values plain_keys plain_hash 1 (some request_again) [] phone_key
      (codes "i") (codes "n") 7 waiting before refl request_again-Asks phone_key-GoodKey
