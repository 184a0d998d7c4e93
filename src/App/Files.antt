-- ===== src/App/Files.antt =====
-- What the end of a transfer and files that are sent change of what the parts agree on.
use iriseus.Prelude.{
  ℕ, ◌≡◌, refl, sym, ap, Bytes, Bool, Option, none, some, List, [], ◌∷◌, is_empty, if◌then◌else◌,
  nat_beq, if_cases, option_cases, bytes_eq,
}
use iriseus.Prelude.Assoc.{lookup}
use iriseus.Json.{JsonLib}
use iriseus.Transfer.Files.{FilesLib, HashLib}
use iriseus.Pairing.{CryptoLib}
use iriseus.Manager.{Manager, Output}
use iriseus.Manager.Handlers.{on_finished, send_file, send_each, send_files}
use iriseus.App.{App}
use iriseus.App.Steps.{finish, drop_files, stop_transfers}
use iriseus.App.Quiet.{managed-Quiet}
use iriseus.App.Views.{Quiet, Quiet-refl, current_of, ids}

-- The current session is as it was.
abbrev KeepsSession : Manager → Manager × List Output → Type 0
KeepsSession m r = r.0.current_session ≡ m.current_session

module _ (files : FilesLib) (lib : JsonLib) (crypto : CryptoLib) (sha : HashLib) where
  on_finished-session :
      (id : Bytes) (ok : Bool) (error : Bytes) (m : Manager)
      → KeepsSession m (on_finished lib id ok error m)
  unfolding on_finished
  on_finished-session id ok error m =
      option_cases (KeepsSession m) (lookup id m.offers) _ _ refl (λ meta. refl)

  pub finish-Quiet :
      (id : Bytes) (ok : Bool) (error : Bytes) (o : Option Manager) (a : App files)
      → a.manager ≡ o
      → Quiet files a (finish files lib crypto sha id ok error o a)
  unfolding finish
  finish-Quiet id ok error none a e = Quiet-refl files a
  finish-Quiet id ok error (some m) a e =
      managed-Quiet files lib crypto a m _ e (on_finished-session id ok error m)

  send_each-session :
      (base : Bytes → Bytes) (session : ℕ) (paths : List (Bytes × Bytes × Bytes × Option Bytes))
      (m : Manager)
      → KeepsSession m (send_each lib crypto sha base session paths m)
  unfolding send_each send_file
  send_each-session base session [] m = refl
  send_each-session base session ((path, uuid_bytes, token, none) ∷ paths) m =
      send_each-session base session paths m
  send_each-session base session ((path, uuid_bytes, token, some content) ∷ paths) m =
      send_each-session base session paths
        (send_file lib crypto sha base uuid_bytes token session path (some content) m).0

  send_files-session :
      (base : Bytes → Bytes) (session : ℕ) (paths : List (Bytes × Bytes × Bytes × Option Bytes))
      (m : Manager)
      → KeepsSession m (send_files lib crypto sha base session paths m)
  unfolding send_files
  send_files-session base session paths m =
      let chosen = if nat_beq session 0 then m.current_session else session in
      if_cases (KeepsSession m) (nat_beq chosen 0) _ _ (λ e. refl)
        (λ e. send_each-session base chosen paths m)

  pub drop_files-Quiet :
      (base : Bytes → Bytes) (paths : List (Bytes × Bytes × Bytes × Option Bytes))
      (o : Option Manager) (a : App files)
      → a.manager ≡ o
      → Quiet files a (drop_files files lib crypto sha base paths o a)
  unfolding drop_files
  drop_files-Quiet base paths none a e = Quiet-refl files a
  drop_files-Quiet base paths (some m) a e =
      if_cases (Quiet files a) (is_empty paths) _ _ (λ k. Quiet-refl files a)
        (λ k. managed-Quiet files lib crypto a m _ e (send_files-session base 0 paths m))

  pub stop_transfers-Quiet :
      (o : Option Manager) (a : App files)
      → a.manager ≡ o
      → Quiet files a (stop_transfers files lib o a)
  unfolding stop_transfers
  stop_transfers-Quiet none a e = Quiet-refl files a
  stop_transfers-Quiet (some m) a e = record {
    flip = refl;
    session = ap (λ (n : ℕ). (a.server.running, n, ids a.server.sessions)) (ap current_of (sym e));
    posted = refl;
  }
