-- ===== src/App/Heard.antt =====
-- What a message of a session changes of what the parts agree on.
use iriseus.Prelude.{
  ℕ, ◌≡◌, refl, ap, ◌∙◌, ◌⊎◌, inl, inr, Bytes, Bool, Option, none, some, List, [], ◌∷◌, nat_eq,
}
use iriseus.Json.{JsonLib}
use iriseus.Transfer.Files.{FilesLib}
use iriseus.Pairing.{CryptoLib}
use iriseus.Manager.{Manager}
use iriseus.Ws.Server.{send_to}
use iriseus.Ws.Dispatch.{
  Callback, on_hello, on_start_camera, on_stop_camera, on_start_screen, on_stop_screen, on_set_flip,
  on_pair_request, on_file_offer, on_file_accept, on_file_reject, on_file_complete, on_file_cancel,
  Action, calls, sends, handle_message,
}
use iriseus.App.{App}
use iriseus.App.Calls.{Given, device_connected, callback, performs, getters, received}
use iriseus.App.Quiet.{
  file_offer-Quiet, file_accept-Quiet, file_complete-Quiet, file_cancel-Quiet, pair_request-Quiet,
}
use iriseus.App.Views.{
  Ensures, Ensures-bind, Ensures-any, flip_view, session_view, ids, Quiet, Quiet-sent,
}

module _ (files : FilesLib) where
  -- Nothing has changed but that the session `id` may have become the current one.
  pub record Heard (id : ℕ) (a a' : App files) : Type 0 where
    pub flip : flip_view files a' ≡ flip_view files a
    pub posted : a'.posted ≡ a.posted
    pub session :
        (session_view files a' ≡ session_view files a)
        ⊎ (session_view files a' ≡ (a.server.running, id, ids a.server.sessions))

  Heard-refl : (id : ℕ) (a : App files) → Heard id a a
  Heard-refl id a = record { flip = refl; posted = refl; session = inl refl }

  Heard-Quiet : (id : ℕ) (a a' : App files) → Quiet files a a' → Heard id a a'
  Heard-Quiet id a a' q = record { flip = q.flip; posted = q.posted; session = inl q.session }

  -- The running flag and the sessions stay, whichever it was.
  around :
      (id : ℕ) (a a' : App files)
      → Heard id a a'
      → ◌≡◌ {A = Bool × ℕ × List ℕ}
          (a'.server.running, id, ids a'.server.sessions)
          (a.server.running, id, ids a.server.sessions)
  around id a a' h = elim h.session [
    | inl e ↦ ap (λ (v : Bool × ℕ × List ℕ). (v.0, id, v.2)) e
    | inr e ↦ ap (λ (v : Bool × ℕ × List ℕ). (v.0, id, v.2)) e
  ]

  Heard-trans : (id : ℕ) (a b c : App files) → Heard id a b → Heard id b c → Heard id a c
  Heard-trans id a b c p q = record {
    flip = q.flip ∙ p.flip;
    posted = q.posted ∙ p.posted;
    session = elim q.session [
      | inl e ↦ elim p.session [ inl k ↦ inl (e ∙ k) | inr k ↦ inr (e ∙ k) ]
      | inr e ↦ inr (e ∙ around id a b p)
    ];
  }

  device_connected-Heard :
      (lib : JsonLib) (crypto : CryptoLib) (id : ℕ) (o : Option Manager) (a : App files)
      → Heard id a (device_connected files lib crypto id o a)
  unfolding device_connected
  device_connected-Heard lib crypto id none a = Heard-refl id a
  device_connected-Heard lib crypto id (some m) a = record {
    flip = refl;
    posted = refl;
    session = inr refl;
  }

  module _ (lib : JsonLib) (crypto : CryptoLib) where
    -- A callback that the session `id` reaches.
    abbrev Allows : ℕ → App files → Option (App files) → Type 0
    Allows id a o = Ensures (Heard id a) o

    quietly :
        (id : ℕ) (a : App files) (o : Option (App files))
        → Ensures (Quiet files a) o
        → Allows id a o
    quietly id a none q = tt
    quietly id a (some a') q = Heard-Quiet id a a' q

    queued : (id : ℕ) (a a' : App files) → Quiet files a a' → Heard id a a'
    queued id a a' q = Heard-Quiet id a a' q

    callback-Heard :
        (g : Given) (id : ℕ) (c : Callback lib) (a : App files)
        → Allows id a (callback files lib crypto g id c a)
    unfolding callback
    callback-Heard g id (on_hello name) a = device_connected-Heard lib crypto id a.manager a
    callback-Heard g id on_start_camera a = record {
      flip = refl;
      posted = refl;
      session = inl refl;
    }
    callback-Heard g id on_stop_camera a = Heard-refl id a
    callback-Heard g id on_start_screen a = record {
      flip = refl;
      posted = refl;
      session = inl refl;
    }
    callback-Heard g id on_stop_screen a = record { flip = refl; posted = refl; session = inl refl }
    callback-Heard g id (on_set_flip flip) a = record {
      flip = refl;
      posted = refl;
      session = inl refl;
    }
    callback-Heard g id (on_pair_request payload) a =
        quietly id a _ (pair_request-Quiet files lib crypto id payload a.pairing a)
    callback-Heard g id (on_file_offer payload) a =
        Heard-Quiet id a _ (file_offer-Quiet files lib crypto g id payload a.manager a refl)
    callback-Heard g id (on_file_accept payload) a =
        quietly id a _ (file_accept-Quiet files lib crypto g id payload a.manager a refl)
    callback-Heard g id (on_file_reject payload) a =
        quietly id a _ (file_cancel-Quiet files lib crypto payload a.manager a refl)
    callback-Heard g id (on_file_complete payload) a =
        quietly id a _ (file_complete-Quiet files lib crypto payload a.manager a refl)
    callback-Heard g id (on_file_cancel payload) a =
        quietly id a _ (file_cancel-Quiet files lib crypto payload a.manager a refl)

    Allows-trans :
        (id : ℕ) (a b : App files) (o : Option (App files))
        → Heard id a b
        → Allows id b o
        → Allows id a o
    Allows-trans id a b none h k = tt
    Allows-trans id a b (some c) h k = Heard-trans id a b c h k

    performs-Heard :
        (g : Given) (id : ℕ) (actions : List (Action lib)) (a : App files)
        → Allows id a (performs files lib crypto g id actions a)
    unfolding performs
    performs-Heard g id [] a = Heard-refl id a
    performs-Heard g id (calls c ∷ actions) a =
        Ensures-bind (Heard id a) (Heard id a) (callback files lib crypto g id c a) _
          (callback-Heard g id c a) (λ b h. Allows-trans id a b _ h (performs-Heard g id actions b))
    performs-Heard g id (sends message ∷ actions) a =
        Allows-trans id a (record a { server = send_to id message a.server }) _
          (Heard-Quiet id a _ (Quiet-sent files id message a))
          (performs-Heard g id actions (record a { server = send_to id message a.server }))

    pub received-Heard :
        (g : Given) (id : ℕ) (raw : Bytes) (a : App files)
        → Ensures (Heard id a) (received files lib crypto g id raw a)
    unfolding received
    received-Heard g id raw a =
        Ensures-any (Heard id a) (handle_message lib (getters files lib crypto g id a) raw) _
          (λ actions. performs-Heard g id actions a)
