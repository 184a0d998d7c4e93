-- ===== src/Transfer/Sessions/Search.antt =====
-- Which session a handshake finds.
use iriseus.Prelude.{
  ℕ, ◌≡◌, refl, ap, ◌∙◌, ◌⊎◌, inl, inr, Bytes, true, false, some, [], ◌∷◌, ◌==◌, bytes_eq,
  bytes_beq_iff, length, All, Bool-cases, Option-cases, arith, if◌then◌else◌,
}
use iriseus.Prelude.Assoc.{lookup, lookup-insert}
use iriseus.Transfer.Hex.{uuid, to_hex, strip_dashes}
use iriseus.Transfer.Hex.Injective.{IsByte, strip-uuid, uuid-injective}
use iriseus.Transfer.Sessions.{
  Session, Sessions, Direction, new_session, register_transfer, find_stripped, find_session,
}

-- The entries of the table that a search may return.
abbrev pub Holds : Sessions → Bytes → Session → Type 0
Holds [] key x = ⊥
Holds ((j, v) ∷ m) key x = ((j ≡ key) × (v ≡ x)) ⊎ Holds m key x

Holds-lookup : (m : Sessions) (key : Bytes) (x : Session) → lookup key m ≡ some x → Holds m key x
unfolding lookup
Holds-lookup [] key x e = absurd (cc)
Holds-lookup ((j, v) ∷ m) key x e = ground (arith, bytes_beq_iff j key, Holds-lookup m key x)

Holds-find_stripped :
    (m : Sessions) (s : Bytes) (x : Session)
    → find_stripped s m ≡ some x
    → (key : Bytes) × Holds m key x × (strip_dashes key ≡ s)
unfolding find_stripped
Holds-find_stripped [] s x e = absurd (cc)
Holds-find_stripped ((j, v) ∷ m) s x e = elim (Bool-cases (strip_dashes j == s)) [
  | inl hit ↦
      let same : some v ≡ some x = rw hit at e in (j, inl (refl, cc), (bytes_beq_iff _ _).0 hit)
  | inr miss ↦ let (key, h, k) = Holds-find_stripped m s x (rw miss at e) in (key, inr h, k)
]

-- A session that the sixteen bytes of a handshake find is in the table, under a key that spells
-- these bytes up to dashes.
pub Holds-find_session :
    (m : Sessions) (b : Bytes) (x : Session)
    → length b ≡ 16
    → find_session (uuid b) m ≡ some x
    → (key : Bytes) × Holds m key x × (strip_dashes key ≡ to_hex b)
unfolding find_session
Holds-find_session m b x h e = elim (Option-cases (lookup (uuid b) m)) [
  | inl miss ↦
      let (key, k, q) =
        Holds-find_stripped m (strip_dashes (uuid b)) x (rw (miss, find_session) at e) in
      (key, k, q ∙ strip-uuid b h)
  | inr (y, hit) ↦
      (uuid b, Holds-lookup m (uuid b) x (hit ∙ rw (hit, find_session) at e), strip-uuid b h)
]

pub find_session-hit :
    (m : Sessions) (c : Bytes) (x : Session) → lookup c m ≡ some x → find_session c m ≡ some x
unfolding find_session
find_session-hit m c x e = rw (e, find_session)

-- For identifiers of sixteen bytes: after a transfer is registered under the UUID of `b`, the
-- handshake of `a` finds it if `a` is `b`, and otherwise the session that is registered under the
-- UUID of `a`, of which there is one.
pub find_session-register :
    (a b token_base64 token target sha256 : Bytes) (size : ℕ) (dir : Direction) (m : Sessions)
    (x : Session)
    → All IsByte a
    → All IsByte b
    → length a ≡ 16
    → length b ≡ 16
    → lookup (uuid a) m ≡ some x
    → find_session (uuid a) (register_transfer (uuid b) token_base64 token target size sha256 dir m)
      ≡ some (if b == a then new_session (uuid b) token_base64 token target size sha256 dir else x)
unfolding register_transfer
find_session-register a b token_base64 token target sha256 size dir m x ha hb la lb e =
    find_session-hit _ (uuid a) _
      (lookup-insert (uuid b) (uuid a) new m ∙ pick (Bool-cases (b == a)))
  where
    new : Session
    new = new_session (uuid b) token_base64 token target size sha256 dir

    pick :
        ((b == a) ≡ true) ⊎ ((b == a) ≡ false)
        → (if uuid b == uuid a then some new else lookup (uuid a) m)
          ≡ some (if b == a then new else x)
    pick (inl same) =
        let k : (uuid b == uuid a) ≡ true =
          (bytes_beq_iff (uuid b) (uuid a)).1 (ap uuid ((bytes_beq_iff b a).0 same)) in
        rw (same, k)
    pick (inr other) =
        let k : (uuid b == uuid a) ≡ false = ground (
          arith,
          bytes_beq_iff (uuid b) (uuid a),
          bytes_beq_iff b a,
          uuid-injective b a hb ha lb la,
        ) in
        rw (other, k) e
