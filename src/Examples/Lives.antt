-- ===== src/Examples/Lives.antt =====
-- Two phones that come and go.
use iriseus.Prelude.{
  ◌≡◌, refl, true, false, some, List, [], ◌∷◌, ◌++◌, codes, bytes_eq, nat_eq, arith,
}
use iriseus.Adb.{AdbDevice, known, list_devices}
use iriseus.Adb.Devices.{printed}
use iriseus.Adb.Pipe.{adb_output, reads_of, devices_through_pipe}
use iriseus.Adb.Polls.{new_monitor, starts, stops, polls, run, replay, run-Told}

abbrev phones : List AdbDevice
phones =
    (record { serial = codes "A1"; state = codes "device" })
    ∷ (record { serial = codes "B2"; state = codes "offline" })
    ∷ []

devices_through_pipe_example :
    list_devices (
      adb_output true (reads_of ((codes "List" ++ 13 ∷ []) ∷ (10 ∷ []) ∷ printed true phones ∷ [])))
    ≡ phones
devices_through_pipe_example =
    devices_through_pipe true (codes "List") phones
      ((codes "List" ++ 13 ∷ []) ∷ (10 ∷ []) ∷ printed true phones ∷ []) (ground arith)
      (ground arith) (ground arith) refl

run-Told_example :
    let m =
      run new_monitor
        (starts ∷ polls (codes "List" ++ 10 ∷ printed false phones) ∷ polls [] ∷ stops ∷ []) in
    replay (codes "A1") m.actions (some false) ≡ some (known (codes "A1") m.active)
run-Told_example =
    run-Told (starts ∷ polls (codes "List" ++ 10 ∷ printed false phones) ∷ polls [] ∷ stops ∷ [])
      (codes "A1")
