-- ===== src/App/Quiet.antt =====
-- Which handlers of messages leave alone what the parts of the program have to agree on.
use iriseus.Prelude.{
  ℕ, ◌≡◌, refl, sym, ap, ◌∙◌, Bytes, false, Option, none, some, List, [], is_empty, nat_eq,
  if_cases, option_cases, bytes_eq, codes,
}
use iriseus.Prelude.Assoc.{lookup}
use iriseus.Json.{JsonLib}
use iriseus.Transfer.Files.{FilesLib}
use iriseus.Pairing.{CryptoLib, Pairing, Answer, accepted, rejected, threw}
use iriseus.Manager.{Manager, Output, TransferMeta, offer_from_json}
use iriseus.Manager.Handlers.{
  id_field, handle_file_offer, accepted_offer, handle_file_accept, handle_file_complete,
  handle_file_cancel,
}
use iriseus.App.{App}
use iriseus.Ws.Dispatch.{field_string}
use iriseus.App.Calls.{
  Given, managed, paired, on_paired, pair_request, file_offer, file_accept, file_complete,
  file_cancel,
}
use iriseus.App.Views.{
  Ensures, Ensures-bind, Ensures-any, current_of, ids, Quiet, Quiet-refl, Quiet-trans, Quiet-sent,
  emits-Quiet,
}

module _ (files : FilesLib) (lib : JsonLib) (crypto : CryptoLib) where
  -- The current session is as it was.
  abbrev KeepsSession : Manager → Manager × List Output → Type 0
  KeepsSession m r = r.0.current_session ≡ m.current_session

  -- A handler that leaves the current session alone.
  pub managed-Quiet :
      (a : App files) (m : Manager) (r : Manager × List Output)
      → a.manager ≡ some m
      → r.0.current_session ≡ m.current_session
      → Quiet files a (managed files lib crypto a r)
  managed-Quiet a m (m', out) e k =
      Quiet-trans files a _ _
        (record {
          flip = refl;
          session =
              ap (λ (n : ℕ). (a.server.running, n, ids a.server.sessions))
                (k ∙ sym (ap current_of e));
          posted = refl;
        })
        (emits-Quiet files out _)

  pub file_offer-Quiet :
      (g : Given) (id : ℕ) (payload : Option lib.Json) (o : Option Manager) (a : App files)
      → a.manager ≡ o
      → Quiet files a (file_offer files lib crypto g id payload o a)
  unfolding file_offer handle_file_offer
  file_offer-Quiet g id payload none a e = Quiet-refl files a
  file_offer-Quiet g id none (some m) a e = managed-Quiet a m _ e refl
  file_offer-Quiet g id (some j) (some m) a e =
      managed-Quiet a m _ e
        (option_cases (KeepsSession m) (offer_from_json lib j) _ _ refl (λ offer. refl))

  accepted_offer-session :
      (token : Bytes) (session : ℕ) (key : Bytes) (o : Option TransferMeta) (m : Manager)
      → (accepted_offer lib crypto token session key o m).0.current_session ≡ m.current_session
  unfolding accepted_offer
  accepted_offer-session token session key none m = refl
  accepted_offer-session token session key (some meta) m = refl

  handle_file_accept-session :
      (token : Bytes) (id : ℕ) (payload : Option lib.Json) (m : Manager)
      → Ensures (KeepsSession m) (handle_file_accept lib crypto token id payload m)
  unfolding handle_file_accept
  handle_file_accept-session token id payload m =
      option_cases (Ensures (KeepsSession m)) (id_field lib payload) _ _ tt (λ key.
        if_cases (Ensures (KeepsSession m)) (is_empty key) _ _ (λ e. refl)
          (λ e. accepted_offer-session token id key (lookup key m.offers) m))

  handle_file_complete-session :
      (payload : Option lib.Json) (m : Manager)
      → Ensures (KeepsSession m) (handle_file_complete lib payload m)
  unfolding handle_file_complete
  handle_file_complete-session none m = tt
  handle_file_complete-session (some j) m =
      Ensures-any (KeepsSession m) (lib.value_string j (codes "transferId") []) _ (λ id.
        Ensures-any (KeepsSession m) (lib.value_bool j (codes "ok") false) _ (λ ok.
          Ensures-any (KeepsSession m) (lib.value_string j (codes "error") []) _ (λ error.
            option_cases (Ensures (KeepsSession m)) (lookup id m.offers) _ _ refl (λ meta. refl))))

  abbrev KeepsCurrent : Manager → Manager × files.Disk → Type 0
  KeepsCurrent m r = r.0.current_session ≡ m.current_session

  handle_file_cancel-session :
      (payload : Option lib.Json) (m : Manager) (d : files.Disk)
      → Ensures (KeepsCurrent m) (handle_file_cancel lib files payload m d)
  unfolding handle_file_cancel
  handle_file_cancel-session payload m d =
      option_cases (Ensures (KeepsCurrent m)) (id_field lib payload) _ _ tt
        (λ key. if_cases (Ensures (KeepsCurrent m)) (is_empty key) _ _ (λ e. refl) (λ e. refl))

  pub file_accept-Quiet :
      (g : Given) (id : ℕ) (payload : Option lib.Json) (o : Option Manager) (a : App files)
      → a.manager ≡ o
      → Ensures (Quiet files a) (file_accept files lib crypto g id payload o a)
  unfolding file_accept
  file_accept-Quiet g id payload none a e = Quiet-refl files a
  file_accept-Quiet g id payload (some m) a e =
      Ensures-bind (KeepsSession m) (Quiet files a) _ _
        (handle_file_accept-session g.token id payload m) (λ r k. managed-Quiet a m r e k)

  pub file_complete-Quiet :
      (payload : Option lib.Json) (o : Option Manager) (a : App files)
      → a.manager ≡ o
      → Ensures (Quiet files a) (file_complete files lib crypto payload o a)
  unfolding file_complete
  file_complete-Quiet payload none a e = Quiet-refl files a
  file_complete-Quiet payload (some m) a e =
      Ensures-bind (KeepsSession m) (Quiet files a) _ _ (handle_file_complete-session payload m)
        (λ r k. managed-Quiet a m r e k)

  pub file_cancel-Quiet :
      (payload : Option lib.Json) (o : Option Manager) (a : App files)
      → a.manager ≡ o
      → Ensures (Quiet files a) (file_cancel files lib crypto payload o a)
  unfolding file_cancel
  file_cancel-Quiet payload none a e = Quiet-refl files a
  file_cancel-Quiet payload (some m) a e =
      Ensures-bind (KeepsCurrent m) (Quiet files a) _ _
        (handle_file_cancel-session payload m a.disk)
        (λ r k. record {
          flip = refl;
          session =
              ap (λ (n : ℕ). (a.server.running, n, ids a.server.sessions))
                (k ∙ sym (ap current_of e));
          posted = refl;
        })

  paired-Quiet :
      (id : ℕ) (device_id device_name : Bytes) (r : Answer × Pairing) (a : App files)
      → Ensures (Quiet files a) (paired files lib crypto id device_id device_name r a)
  unfolding paired on_paired
  paired-Quiet id device_id device_name (accepted, p) a =
      Quiet-trans files a _ _ (record { flip = refl; session = refl; posted = refl })
        (Quiet-sent files id _ _)
  paired-Quiet id device_id device_name (rejected, p) a =
      Quiet-trans files a (record a { pairing = some p }) _
        (record { flip = refl; session = refl; posted = refl }) (Quiet-sent files id _ _)
  paired-Quiet id device_id device_name (threw, p) a = tt

  pub pair_request-Quiet :
      (id : ℕ) (payload : Option lib.Json) (o : Option Pairing) (a : App files)
      → Ensures (Quiet files a) (pair_request files lib crypto id payload o a)
  unfolding pair_request
  pair_request-Quiet id payload o a =
      let text : Bytes → Option Bytes = λ key. field_string lib payload key [] in
      Ensures-any (Quiet files a) (text (codes "pin")) _ (λ pin.
        Ensures-any (Quiet files a) (text (codes "pk")) _ (λ peer.
          Ensures-any (Quiet files a) (text (codes "deviceId")) _ (λ device_id.
            Ensures-any (Quiet files a) (text (codes "deviceName")) _ (λ device_name.
              Ensures-any (Quiet files a) o _
                (λ pairing. paired-Quiet id device_id device_name _ a)))))
