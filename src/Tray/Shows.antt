-- ===== src/Tray/Shows.antt =====
-- The icon and the two camera entries of the menu.
use iriseus.Prelude.{◌≡◌, refl, true, false, not, List, [], ◌∷◌}
use iriseus.Tray.{
  Tray, new_tray, Event, shows, starts_camera, stops_camera, quits, toggles, notifies,
  updates_status, updates_mode, sets_flip, step, run,
}

-- The menu offers the other state of the camera than the one that the icon shows.
pub IsConsistent : Tray → Type 0
IsConsistent t = (t.start_visible ≡ not t.camera_active) × (t.stop_visible ≡ t.camera_active)

step-IsConsistent : (e : Event) (t : Tray) → IsConsistent t → IsConsistent (step t e)
unfolding step IsConsistent
step-IsConsistent shows t c = c
step-IsConsistent starts_camera t c = (refl, refl)
step-IsConsistent stops_camera t c = (refl, refl)
step-IsConsistent quits t c = c
step-IsConsistent toggles t c = c
step-IsConsistent (notifies title message) t c = c
step-IsConsistent (updates_status active) t c = (refl, refl)
step-IsConsistent (updates_mode true) t c = c
step-IsConsistent (updates_mode false) t c = c
step-IsConsistent (sets_flip flip) t c = c

run-keeps : (es : List Event) (t : Tray) → IsConsistent t → IsConsistent (run t es)
unfolding run
run-keeps [] t c = c
run-keeps (e ∷ es) t c = run-keeps es (step t e) (step-IsConsistent e t c)

-- After any events on a new icon, the menu has exactly one of the two camera entries: the one to
-- stop the camera when the icon shows it active, else the one to start it.
pub run-IsConsistent : (es : List Event) → IsConsistent (run new_tray es)
unfolding new_tray IsConsistent
run-IsConsistent es = run-keeps es new_tray (refl, refl)
