-- ===== src/Prelude/Sort.antt =====
-- sort.SliceStable, as insertion from the right. A stable sort by a strict weak order has one
-- result, and so has an unstable one where no two items tie (sort.Strings, sort.Slice by unique
-- ids), so it stands for those too.
use mathlib.Core.Path.{◌≡◌, refl, ◌∙◌}
use mathlib.Core.Bool.{Bool, true, false}
use mathlib.Core.List.{List, [], ◌∷◌, Perm, Permᴰ}
use mathlib.Core.List.Perm
use native.Mathlib.Omega.{arith}
use mathlib.Core.Logic.{inl, inr, ∥∥₁_elim}
use sentilyzer.Prelude.Tests.{if◌then◌else◌, Bool-cases}

module _ {ℓ} {A : Type ℓ} (lt : A → A → Bool) where
  unfoldable pub insert : A → List A → List A
  insert x [] = x ∷ []
  insert x (y ∷ ys) = if lt y x then y ∷ insert x ys else x ∷ y ∷ ys

  unfoldable pub sort : List A → List A
  unfolding insert
  sort [] = []
  sort (x ∷ xs) = insert x (sort xs)

  pub insert-perm : (x : A) (ys : List A) → Perm (insert x ys) (x ∷ ys)
  unfolding insert
  insert-perm x [] = Perm.refl (x ∷ [])
  insert-perm x (y ∷ ys) = elim (Bool-cases (lt y x)) [
    | inl below ↦ rw below (Perm.trans (Perm.cons y (insert-perm x ys)) (Perm.swap x y ys))
    | inr above ↦ rw above (Perm.refl (x ∷ y ∷ ys))
  ]

  -- A sorted list has the items that it was given.
  pub sort-perm : (xs : List A) → Perm (sort xs) xs
  unfolding sort
  sort-perm [] = Perm.refl []
  sort-perm (x ∷ xs) = Perm.trans (insert-perm x (sort xs)) (Perm.cons x (sort-perm xs))

pub record IsStrictTotal {ℓ} {A : Type ℓ} (lt : A → A → Bool) : Type ℓ where
  pub asym : (x y : A) → lt x y ≡ true → lt y x ≡ false
  pub trans : (x y z : A) → lt x y ≡ true → lt y z ≡ true → lt x z ≡ true
  pub connex : (x y : A) → lt x y ≡ false → lt y x ≡ false → x ≡ y

module _ {ℓ} {A : Type ℓ} {lt : A → A → Bool} (o : IsStrictTotal lt) where
  -- a < b fails on equal items, and between two that tie nothing is in between
  insert_comm : (x y : A) (l : List A) → insert lt x (insert lt y l) ≡ insert lt y (insert lt x l)
  unfolding insert
  insert_comm x y [] = ground (arith, o.asym x y, o.connex x y)
  insert_comm x y (z ∷ l) = ground (
    arith,
    o.asym x y,
    o.connex x y,
    o.trans z x y,
    o.trans z y x,
    o.trans x y z,
    insert_comm x y l,
  )

  sort-eq : {xs ys : List A} → Permᴰ xs ys → sort lt xs ≡ sort lt ys
  unfolding sort
  sort-eq Permᴰ.nil = refl
  sort-eq (Permᴰ.cons e p) = cc (e, sort-eq p)
  sort-eq (Permᴰ.swap {a = a} {b = b} {l = l} e f) = cc (e, f, insert_comm a b (sort lt l))
  sort-eq (Permᴰ.trans p q) = sort-eq p ∙ sort-eq q

  -- By a total order, sorting forgets the order of its input.
  pub sort-eq_of_perm : IsSet (List A) → {xs ys : List A} → Perm xs ys → sort lt xs ≡ sort lt ys
  sort-eq_of_perm set {xs} {ys} p = ∥∥₁_elim p (set (sort lt xs) (sort lt ys)) (λ d. sort-eq d)
