-- ===== src/Prelude/Rows.antt =====
-- Writes into a list and into the rows of a list of lists.
use Prim.Native.Nat.{ℕ, zero, suc}
use mathlib.Core.Path.{◌≡◌, refl, ap}
use mathlib.Core.Logic.{◌⊎◌, inl, inr}
use mathlib.Core.List.{List, [], ◌∷◌, ◌++◌}
use native.Mathlib.Omega.{arith}
use sentilyzer.Prelude.Lists.{length, set, get_or}

module _ {ℓ} {A : Type ℓ} where
  pub set-get_or : (out : List A) (i : ℕ) (d : A) → set out i (get_or out i d) ≡ out
  set-get_or [] i d = refl
  set-get_or (x ∷ xs) zero d = refl
  set-get_or (x ∷ xs) (suc i) d = ap (λ r. x ∷ r) (set-get_or xs i d)

  pub set-set : (out : List A) (i : ℕ) (v w : A) → set (set out i v) i w ≡ set out i w
  set-set [] i v w = refl
  set-set (x ∷ xs) zero v w = refl
  set-set (x ∷ xs) (suc i) v w = ap (λ r. x ∷ r) (set-set xs i v w)

  pub set-middle :
      (pre : List A) (x : A) (post : List A) (v : A)
      → set (pre ++ x ∷ post) (length pre) v ≡ pre ++ v ∷ post
  set-middle [] x post v = refl
  set-middle (p ∷ pre) x post v = ap (λ r. p ∷ r) (set-middle pre x post v)

  pub get_or-middle :
      (pre : List A) (x : A) (post : List A) (d : A) → get_or (pre ++ x ∷ post) (length pre) d ≡ x
  get_or-middle [] x post d = refl
  get_or-middle (p ∷ pre) x post d = get_or-middle pre x post d

  pub append-snoc :
      (pre : List A) (v : A) (post : List A) → (pre ++ v ∷ []) ++ post ≡ pre ++ v ∷ post
  append-snoc [] v post = refl
  append-snoc (p ∷ pre) v post = ap (λ r. p ∷ r) (append-snoc pre v post)

  -- A row that is there is read back after a write.
  pub get_or-set_row :
      (out : List (List A)) (i : ℕ) (x : A) (row new : List A) (pre : List A)
      → get_or out i [] ≡ pre ++ x ∷ row
      → get_or (set out i new) i [] ≡ new
  get_or-set_row [] i x row new [] h = absurd (ground arith)
  get_or-set_row [] i x row new (p ∷ pre) h = absurd (ground arith)
  get_or-set_row (y ∷ ys) zero x row new pre h = refl
  get_or-set_row (y ∷ ys) (suc i) x row new pre h = get_or-set_row ys i x row new pre h

  pub get_or-set_cases :
      (out : List (List A)) (i j : ℕ) (v : List A)
      → (get_or (set out i v) j [] ≡ get_or out j []) ⊎ ((i ≡ j) × (get_or (set out i v) j [] ≡ v))
  get_or-set_cases [] i j v = inl refl
  get_or-set_cases (x ∷ xs) zero zero v = inr (refl, refl)
  get_or-set_cases (x ∷ xs) zero (suc j) v = inl refl
  get_or-set_cases (x ∷ xs) (suc i) zero v = inl refl
  get_or-set_cases (x ∷ xs) (suc i) (suc j) v = elim (get_or-set_cases xs i j v) [
    | inl same ↦ inl same
    | inr (e, new) ↦ inr (ap suc e, new)
  ]
