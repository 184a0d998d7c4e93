-- ===== src/Transfer/Sessions/Every.antt =====
-- What holds of every session of the table of src/core/FileTransferServer.cpp holds of one that a
-- search finds.
use iriseus.Prelude.{
  ◌≡◌, true, ap, bytes_beq_iff, inl, inr, subst, Bytes, some, [], ◌∷◌, ◌==◌, bytes_eq, Bool-cases,
  Option-cases, All,
}
use iriseus.Prelude.Assoc.{Assoc, lookup, insert, erase}
use iriseus.Transfer.Hex.{strip_dashes}
use iriseus.Transfer.Sessions.{find_stripped, find_session}

module _ {ℓ} {A : Type ℓ} where
  pub some_eq : (x y : A) → some x ≡ some y → x ≡ y
  some_eq x y e = cc

module _ {ℓ κ} {A : Type ℓ} (P : A → Type κ) where
  unfoldable pub Every : Assoc Bytes A → Type κ
  Every m = All (λ e. P e.1) m

  some_hit : (x y : A) → some x ≡ some y → P x → P y
  some_hit x y e h = let same : x ≡ y = cc in subst P same h

  pub Every-lookup : (m : Assoc Bytes A) (id : Bytes) (k : A) → Every m → lookup id m ≡ some k → P k
  unfolding lookup Every
  Every-lookup [] id k h e = absurd (cc)
  Every-lookup ((j, x) ∷ m) id k h e = elim (Bool-cases (j == id)) [
    | inl hit ↦ some_hit x k (rw hit at e) h.0
    | inr miss ↦ Every-lookup m id k h.1 (rw miss at e)
  ]

  Every-find_stripped :
      (m : Assoc Bytes A) (id : Bytes) (k : A) → Every m → find_stripped id m ≡ some k → P k
  unfolding find_stripped Every
  Every-find_stripped [] id k h e = absurd (cc)
  Every-find_stripped ((j, x) ∷ m) id k h e = elim (Bool-cases (strip_dashes j == id)) [
    | inl hit ↦ some_hit x k (rw hit at e) h.0
    | inr miss ↦ Every-find_stripped m id k h.1 (rw miss at e)
  ]

  pub Every-find_session :
      (m : Assoc Bytes A) (id : Bytes) (k : A) → Every m → find_session id m ≡ some k → P k
  unfolding find_session
  Every-find_session m id k h e = elim (Option-cases (lookup id m)) [
    | inl miss ↦ Every-find_stripped m (strip_dashes id) k h (rw (miss, find_session) at e)
    | inr (x, hit) ↦ some_hit x k (rw (hit, find_session) at e) (Every-lookup m id x h hit)
  ]

  pub Every-erase : (m : Assoc Bytes A) (id : Bytes) → Every m → Every (erase id m)
  unfolding erase Every
  Every-erase [] id h = tt
  Every-erase ((j, x) ∷ m) id h = elim (Bool-cases (j == id)) [
    | inl hit ↦ rw hit (Every-erase m id h.1)
    | inr miss ↦ rw miss (h.0, Every-erase m id h.1)
  ]

  pub Every-insert :
      (m : Assoc Bytes A) (id : Bytes) (k : A) → P k → Every m → Every (insert id k m)
  unfolding insert Every
  Every-insert m id k p h = (p, Every-erase m id h)

-- The same for what is known of an entry with its key.
module _ {ℓ κ} {A : Type ℓ} (P : Bytes × A → Type κ) where
  pub All-lookup :
      (m : Assoc Bytes A) (id : Bytes) (k : A)
      → All P m
      → lookup id m ≡ some k
      → (key : Bytes) × P (key, k) × ((key == id) ≡ true)
  unfolding lookup
  All-lookup [] id k h e = absurd (cc)
  All-lookup ((j, x) ∷ m) id k h e = elim (Bool-cases (j == id)) [
    | inl hit ↦ (j, some_hit (λ y. P (j, y)) x k (rw hit at e) h.0, hit)
    | inr miss ↦ All-lookup m id k h.1 (rw miss at e)
  ]

  All-find_stripped :
      (m : Assoc Bytes A) (id : Bytes) (k : A)
      → All P m
      → find_stripped id m ≡ some k
      → (key : Bytes) × P (key, k) × ((strip_dashes key == id) ≡ true)
  unfolding find_stripped
  All-find_stripped [] id k h e = absurd (cc)
  All-find_stripped ((j, x) ∷ m) id k h e = elim (Bool-cases (strip_dashes j == id)) [
    | inl hit ↦ (j, some_hit (λ y. P (j, y)) x k (rw hit at e) h.0, hit)
    | inr miss ↦ All-find_stripped m id k h.1 (rw miss at e)
  ]

  -- A search finds an entry whose key is the identifier up to dashes.
  pub All-find_session :
      (m : Assoc Bytes A) (id : Bytes) (k : A)
      → All P m
      → find_session id m ≡ some k
      → (key : Bytes) × P (key, k) × (strip_dashes key ≡ strip_dashes id)
  unfolding find_session
  All-find_session m id k h e = elim (Option-cases (lookup id m)) [
    | inl miss ↦
        let (key, q, s) =
          All-find_stripped m (strip_dashes id) k h (rw (miss, find_session) at e) in
        (key, q, (bytes_beq_iff _ _).0 s)
    | inr (x, hit) ↦
        let same : x ≡ k = some_eq x k (rw (hit, find_session) at e) in
        let (key, q, s) = All-lookup m id x h hit in
        (key, subst (λ y. P (key, y)) same q, ap strip_dashes ((bytes_beq_iff _ _).0 s))
  ]

  pub All-erase : (m : Assoc Bytes A) (id : Bytes) → All P m → All P (erase id m)
  unfolding erase
  All-erase [] id h = tt
  All-erase ((j, x) ∷ m) id h = elim (Bool-cases (j == id)) [
    | inl hit ↦ rw hit (All-erase m id h.1)
    | inr miss ↦ rw miss (h.0, All-erase m id h.1)
  ]

  pub All-insert :
      (m : Assoc Bytes A) (id : Bytes) (k : A) → P (id, k) → All P m → All P (insert id k m)
  unfolding insert
  All-insert m id k p h = (p, All-erase m id h)
