-- ===== src/Prelude/Members.antt =====
-- Membership and filters by a Boolean test.

use mathlib.Core.Path.{◌≡◌, sym, subst}
use mathlib.Core.Logic.{◌↔◌, ◌⊎◌, inl, inr}
use mathlib.Core.Bool.{Bool, true}
use mathlib.Core.List.{List, [], ◌∷◌}
use sentilyzer.Prelude.Tests.{if◌then◌else◌, Bool-cases}

module _ {A : Type 0} where
  abbrev pub In : A → List A → Type 0
  In a [] = ⊥
  In a (x ∷ xs) = (x ≡ a) ⊎ In a xs

  -- Some of the items of a list, in their order.
  pub data SubList : List A → List A → Type 0 where
    none_left : SubList [] []
    skip : {x : A} {xs ys : List A} → SubList xs ys → SubList xs (x ∷ ys)
    keep : {x : A} {xs ys : List A} → SubList xs ys → SubList (x ∷ xs) (x ∷ ys)

  unfoldable pub keep_if : (A → Bool) → List A → List A
  keep_if p [] = []
  keep_if p (x ∷ xs) = let rest = keep_if p xs in if p x then x ∷ rest else rest

  pub keep_if-SubList : (p : A → Bool) (xs : List A) → SubList (keep_if p xs) xs
  unfolding keep_if
  keep_if-SubList p [] = none_left
  keep_if-SubList p (x ∷ xs) = elim (Bool-cases (p x)) [
    | inl in' ↦ rw in' (keep (keep_if-SubList p xs))
    | inr out ↦ rw out (skip (keep_if-SubList p xs))
  ]

  In-keep_if_sound :
      (p : A → Bool) (a : A) (xs : List A) → In a (keep_if p xs) → In a xs × (p a ≡ true)
  unfolding keep_if
  In-keep_if_sound p a [] m = elim m [ ]
  In-keep_if_sound p a (x ∷ xs) m = elim (Bool-cases (p x)) [
    | inl in' ↦ first in' (λ i. later (In-keep_if_sound p a xs i)) (rw in' at m)
    | inr out ↦ later (In-keep_if_sound p a xs (rw out at m))
  ]
    where
      later : In a xs × (p a ≡ true) → In a (x ∷ xs) × (p a ≡ true)
      later (i, h) = (inr i, h)

      first :
          p x ≡ true
          → (In a (keep_if p xs) → In a (x ∷ xs) × (p a ≡ true))
          → (x ≡ a) ⊎ In a (keep_if p xs)
          → In a (x ∷ xs) × (p a ≡ true)
      first h rest (inl e) = (inl e, subst (λ y. p y ≡ true) e h)
      first h rest (inr i) = rest i

  keep_if_of_In : (p : A → Bool) (a : A) (xs : List A) → In a xs → p a ≡ true → In a (keep_if p xs)
  unfolding keep_if
  keep_if_of_In p a [] m h = elim m [ ]
  keep_if_of_In p a (x ∷ xs) (inl e) h = rw (subst (λ y. p y ≡ true) (sym e) h) (inl e)
  keep_if_of_In p a (x ∷ xs) (inr i) h = elim (Bool-cases (p x)) [
    | inl in' ↦ rw in' (inr (keep_if_of_In p a xs i h))
    | inr out ↦ rw out (keep_if_of_In p a xs i h)
  ]

  -- An item is kept exactly if it is there and passes the test.
  pub In-keep_if :
      (p : A → Bool) (a : A) (xs : List A) → In a (keep_if p xs) ↔ (In a xs × (p a ≡ true))
  In-keep_if p a xs = (In-keep_if_sound p a xs, λ m. keep_if_of_In p a xs m.0 m.1)
