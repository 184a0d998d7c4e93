-- ===== src/Transfer/Server/AllBut.antt =====
-- What holds of every thread but one: for src/core/FileTransferServer.cpp.
use iriseus.Prelude.{
  ℕ, zero, suc, ◌≡◌, subst, false, some, List, [], ◌∷◌, ◌++◌, nat_beq, All, All-append, arith,
}
use iriseus.Transfer.Server.Steps.{get_elem?, replace, All-get_elem?, All-replace}

-- All entries but one.
module _ {ℓ κ} {A : Type ℓ} (P : A → Type κ) where
  some_is : (y x : A) → some y ≡ some x → P y → P x
  some_is y x e h = let same : y ≡ x = cc in subst P same h

  unfoldable pub AllBut : ℕ → List A → Type κ
  AllBut i [] = Unit
  AllBut zero (x ∷ l) = All P l
  AllBut (suc i) (x ∷ l) = P x × AllBut i l

  pub AllBut-append : (i : ℕ) (l : List A) (x : A) → P x → AllBut i l → AllBut i (l ++ x ∷ [])
  unfolding AllBut
  AllBut-append zero [] x p h = tt
  AllBut-append (suc i) [] x p h = (p, tt)
  AllBut-append zero (y ∷ l) x p h = All-append P l (x ∷ []) h (p, tt)
  AllBut-append (suc i) (y ∷ l) x p h = (h.0, AllBut-append i l x p h.1)

  pub AllBut-get_elem? :
      (i j : ℕ) (l : List A) (x : A)
      → AllBut i l
      → nat_beq j i ≡ false
      → get_elem? l j ≡ some x
      → P x
  unfolding AllBut
  AllBut-get_elem? i j [] x h ne e = absurd (cc)
  AllBut-get_elem? zero zero (y ∷ l) x h ne e = absurd (ground (arith, ne))
  AllBut-get_elem? zero (suc j) (y ∷ l) x h ne e = All-get_elem? P l j x h e
  AllBut-get_elem? (suc i) zero (y ∷ l) x h ne e = some_is y x e h.0
  AllBut-get_elem? (suc i) (suc j) (y ∷ l) x h ne e = AllBut-get_elem? i j l x h.1 (ground arith) e

  pub AllBut-replace :
      (i j : ℕ) (l : List A) (x : A)
      → AllBut i l
      → nat_beq j i ≡ false
      → P x
      → AllBut i (replace j x l)
  unfolding AllBut
  AllBut-replace i j [] x h ne p = tt
  AllBut-replace zero zero (y ∷ l) x h ne p = absurd (ground (arith, ne))
  AllBut-replace zero (suc j) (y ∷ l) x h ne p = All-replace P l j x h p
  AllBut-replace (suc i) zero (y ∷ l) x h ne p = (p, h.1)
  AllBut-replace (suc i) (suc j) (y ∷ l) x h ne p =
      (h.0, AllBut-replace i j l x h.1 (ground arith) p)

  pub AllBut-replace_self : (i : ℕ) (l : List A) (x : A) → AllBut i l → AllBut i (replace i x l)
  unfolding AllBut
  AllBut-replace_self i [] x h = tt
  AllBut-replace_self zero (y ∷ l) x h = h
  AllBut-replace_self (suc i) (y ∷ l) x h = (h.0, AllBut-replace_self i l x h.1)
