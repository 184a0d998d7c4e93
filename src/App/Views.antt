-- ===== src/App/Views.antt =====
-- What the parts of the program have to agree on, and which calls leave it alone.
use iriseus.Prelude.{
  ◌>>=◌, ℕ, ◌≡◌, refl, ap, ◌∙◌, Bytes, Bool, Option, none, some, List, [], ◌∷◌, nat_eq, nat_beq,
  if_cases, bytes_eq,
}
use iriseus.Prelude.Assoc.{Assoc}
use iriseus.Transfer.Files.{FilesLib}
use iriseus.Manager.{Manager, Output, makes_folder, sends, finished}
use iriseus.Ws.Writer.{Writer, send}
use iriseus.Ws.Server.{changed, send_to, sent_to_all}
use iriseus.Stream.Flip.{Flip}
use iriseus.Tray.{Tray}
use iriseus.App.{App, emits}

-- A property of a result, if there is one.
abbrev pub Ensures {ℓ κ} : {A : Type ℓ} → (A → Type κ) → Option A → Type κ
Ensures P none = Unit
Ensures P (some x) = P x

pub Ensures-bind {ℓ κ ℓ' κ'} :
    {A : Type ℓ} {B : Type ℓ'} (P : A → Type κ) (Q : B → Type κ') (o : Option A) (f : A → Option B)
    → Ensures P o
    → ((x : A) → P x → Ensures Q (f x))
    → Ensures Q (o >>= f)
Ensures-bind P Q none f h k = tt
Ensures-bind P Q (some x) f h k = k x h

-- The result may be any.
pub Ensures-any {ℓ κ ℓ'} :
    {A : Type ℓ} {B : Type ℓ'} (Q : B → Type κ) (o : Option A) (f : A → Option B)
    → ((x : A) → Ensures Q (f x))
    → Ensures Q (o >>= f)
Ensures-any Q none f k = tt
Ensures-any Q (some x) f k = k x

abbrev pub current_of : Option Manager → ℕ
current_of none = 0
current_of (some m) = m.current_session

abbrev pub checked_of : Option Tray → Option Bool
checked_of none = none
checked_of (some t) = some t.flip_checked

-- The numbers of the sessions.
abbrev pub ids : Assoc ℕ Writer → List ℕ
ids [] = []
ids ((id, w) ∷ m) = id ∷ ids m

pub ids-changed : (id : ℕ) (f : Writer → Writer) (m : Assoc ℕ Writer) → ids (changed id f m) ≡ ids m
unfolding changed
ids-changed id f [] = refl
ids-changed id f ((key, w) ∷ m) =
    if_cases (λ (l : Assoc ℕ Writer). ids l ≡ key ∷ ids m) (nat_beq key id) _ _
      (λ e. ap (λ l. key ∷ l) (ids-changed id f m)) (λ e. ap (λ l. key ∷ l) (ids-changed id f m))

pub ids-sent_to_all : (message : Bytes) (m : Assoc ℕ Writer) → ids (sent_to_all message m) ≡ ids m
unfolding sent_to_all
ids-sent_to_all message [] = refl
ids-sent_to_all message ((key, w) ∷ m) = ap (λ l. key ∷ l) (ids-sent_to_all message m)

module _ (files : FilesLib) where
  -- Which way the picture is turned, as the settings, the stream and the menu have it.
  abbrev pub FlipView : Type 0
  FlipView = Bool × Option Flip × Option Bool

  abbrev pub flip_view : App files → FlipView
  flip_view a = (a.settings.flip_horizontal, a.stream, checked_of a.tray)

  abbrev pub SessionView : Type 0
  SessionView = Bool × ℕ × List ℕ

  -- Whether the server runs, the session that files are sent to, and the sessions.
  abbrev pub session_view : App files → SessionView
  session_view a = (a.server.running, current_of a.manager, ids a.server.sessions)

  -- Neither view has changed, and no broadcast was posted.
  pub record Quiet (a a' : App files) : Type 0 where
    pub flip : flip_view a' ≡ flip_view a
    pub session : session_view a' ≡ session_view a
    pub posted : a'.posted ≡ a.posted

  pub Quiet-refl : (a : App files) → Quiet a a
  Quiet-refl a = record { flip = refl; session = refl; posted = refl }

  pub Quiet-trans : (a b c : App files) → Quiet a b → Quiet b c → Quiet a c
  Quiet-trans a b c p q = record {
    flip = q.flip ∙ p.flip;
    session = q.session ∙ p.session;
    posted = q.posted ∙ p.posted;
  }

  pub Quiet-sent :
      (id : ℕ) (message : Bytes) (a : App files)
      → Quiet a (record a { server = send_to id message a.server })
  unfolding send_to
  Quiet-sent id message a = record {
    flip = refl;
    session =
        ap (λ (l : List ℕ). (a.server.running, current_of a.manager, l))
          (ids-changed id (send message) a.server.sessions);
    posted = refl;
  }

  pub emits-Quiet : (out : List Output) (a : App files) → Quiet a (emits files out a)
  unfolding emits
  emits-Quiet [] a = Quiet-refl a
  emits-Quiet (sends id message ∷ out) a =
      Quiet-trans a _ _ (Quiet-sent id message a) (emits-Quiet out _)
  emits-Quiet (makes_folder folder ∷ out) a =
      Quiet-trans a _ _ (record { flip = refl; session = refl; posted = refl }) (emits-Quiet out _)
  emits-Quiet (finished id name ok error ∷ out) a =
      Quiet-trans a _ _ (record { flip = refl; session = refl; posted = refl }) (emits-Quiet out _)
