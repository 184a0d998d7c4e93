-- ===== src/App/Shown.antt =====
-- The window of the pairing, from the click in the menu to the phone that has paired.
use iriseus.Prelude.{
  ℕ, ◌≡◌, refl, ap, ◌∙◌, Bytes, true, false, Option, some, List, [], ◌∷◌, ◌++◌, codes,
}
use iriseus.Json.{JsonLib}
use iriseus.Transfer.Files.{FilesLib, HashLib}
use iriseus.Pairing.{CryptoLib, Pairing, pin_text, format_pin, create_offer, store_device}
use iriseus.Pairing.Requests.{Granted, granted_lem, new_device}
use iriseus.Pairing.Reuse.{GoodKey}
use iriseus.Ws.Server.{send_to}
use iriseus.App.{App, Task, pairing_complete}
use iriseus.App.Calls.{pair_reply, on_paired, paired, pair_request}
use iriseus.App.Steps.{new_dialog, on_pairing_complete, run_task, next_task, ask_pairing}
use iriseus.App.Paired.{Asks, request-paired}

module _ (files : FilesLib) (lib : JsonLib) (crypto : CryptoLib) (sha : HashLib) where
  open lib use {Json}

  -- The only task is the next one.
  only_task :
      (tasks : List Task) (task : Task) (a : App files)
      → tasks ≡ []
      → (next_task files lib (tasks ++ task ∷ []) a).dialog
        ≡ (run_task files lib task (record a { tasks = [] })).dialog
  unfolding next_task
  only_task [] task a e = refl
  only_task (t ∷ tasks) task a e = absurd (let no : ⊥ = cc in no)

  offered-Granted :
      (ip peer : Bytes) (n : ℕ) (p : Pairing)
      → GoodKey crypto peer p
      → Granted crypto (pin_text n) peer (create_offer crypto ip n p)
  unfolding create_offer
  offered-Granted ip peer n p k = record {
    peer = k.peer;
    secret = k.secret;
    right_pin = refl;
    decoded = k.decoded;
    sized = k.sized;
    derived = k.derived;
  }

  -- What the window shows, and what the phone is told.
  pub record Completes (session : ℕ) (name : Bytes) (n : ℕ) (a b : App files) : Type 0 where
    pub told : b.server ≡ send_to session (pair_reply files lib crypto true) a.server
    pub shown :
        (next_task files lib b.tasks b).dialog
        ≡ some (record {
          pin_label = format_pin (pin_text n);
          pin_enabled = false;
          status_label = codes "✓ Pareado com " ++ name;
          cancel_label = codes "Fechar";
        })

  -- When the user asks for a pairing with the random number `n`, the window shows its last six digits,
  -- and a pair request with these digits and a good key, whose four fields are texts, is
  -- answered with `pair_accepted`; when no other task was waiting, the next one has the window
  -- say that the device, by the name that was sent, has paired.
  pub asked-Completes :
      (session : ℕ) (payload : Option Json) (ip peer id name : Bytes) (n : ℕ) (p : Pairing)
      (a : App files)
      → a.tasks ≡ []
      → Asks files lib crypto payload (pin_text n) peer id name
      → GoodKey crypto peer p
      → let asked = ask_pairing files lib crypto sha ip n (some p) a in
        (asked.dialog ≡ some (new_dialog (pin_text n)))
        × ((b : App files) × (pair_request files lib crypto session payload asked.pairing asked
              ≡ some b)
            × Completes session name n asked b)
  unfolding ask_pairing new_dialog on_pairing_complete run_task paired on_paired create_offer
  asked-Completes session payload ip peer id name n p a idle asks k =
      let asked = ask_pairing files lib crypto sha ip n (some p) a in
      let g = offered-Granted ip peer n p k in
      let stored =
        store_device crypto (new_device crypto id name g.peer g.secret)
          (create_offer crypto ip n p) in
      let paid = on_paired files lib crypto id name (record asked { pairing = some stored }) in
      (
        refl,
        (
          record paid { server = send_to session (pair_reply files lib crypto true) paid.server },
          request-paired files lib crypto session payload (pin_text n) peer id name
                (create_offer crypto ip n p) asked asks
              ∙ ap (λ r. paired files lib crypto session id name r asked)
                  (granted_lem crypto (pin_text n) peer id name (create_offer crypto ip n p) g),
          record { told = refl; shown = only_task a.tasks (pairing_complete name) _ idle },
        ),
      )
