-- ===== src/Prelude/Slices.antt =====
-- Indices, slices and writes at indices: the idioms of Go's loops over slices.
use Prim.Native.Nat.{ℕ, zero, suc, ◌+◌, ◌-◌, ◌≤◌, ◌<◌}
use mathlib.Core.Path.{◌≡◌, refl, ap, ◌∙◌, sym}
use mathlib.Core.Bool.{Bool, true, false, ◌||◌}
use mathlib.Core.List.{List, [], ◌∷◌, ◌++◌, map}
use mathlib.Core.Option.{some}
use native.Mathlib.Omega.{arith}
use sentilyzer.Prelude.Tests.{◌==◌, if◌then◌else◌}
use sentilyzer.Prelude.Lists.{length, get_elem?, get_or, set, take, drop, length-set, length-map}
use sentilyzer.Prelude.Sort.{insert, sort}

-- start, start + 1, … (n numbers)
unfoldable pub range_from : ℕ → ℕ → List ℕ
range_from start zero = []
range_from start (suc n) = start ∷ range_from (start + 1) n

pub length-range_from : (start n : ℕ) → length (range_from start n) ≡ n
unfolding range_from
length-range_from start zero = refl
length-range_from start (suc n) = ap suc (length-range_from (start + 1) n)

abbrev pub elem : ℕ → List ℕ → Bool
elem j [] = false
elem j (i ∷ is) = (i == j) || elem j is

pub elem-range_from :
    (j start n : ℕ) → start ≤ j → j < start + n → elem j (range_from start n) ≡ true
unfolding range_from
elem-range_from j start zero h k = absurd (omega arith)
elem-range_from j start (suc n) h k = ground (arith, elem-range_from j (start + 1) n)

module _ {ℓ} {A : Type ℓ} (lt : A → A → Bool) where
  length-insert : (x : A) (ys : List A) → length (insert lt x ys) ≡ suc (length ys)
  unfolding insert
  length-insert x [] = refl
  length-insert x (y ∷ ys) = ground (arith, length-insert x ys)

  pub length-sort : (xs : List A) → length (sort lt xs) ≡ length xs
  unfolding sort
  length-sort [] = refl
  length-sort (x ∷ xs) = length-insert x (sort lt xs) ∙ ap suc (length-sort xs)

module _ (lt : ℕ → ℕ → Bool) where
  pub elem-insert : (j x : ℕ) (ys : List ℕ) → elem j (insert lt x ys) ≡ ((x == j) || elem j ys)
  unfolding insert
  elem-insert j x [] = refl
  elem-insert j x (y ∷ ys) = ground (arith, elem-insert j x ys)

  pub elem-sort : (j : ℕ) (xs : List ℕ) → elem j (sort lt xs) ≡ elem j xs
  unfolding sort
  elem-sort j [] = refl
  elem-sort j (x ∷ xs) = ground (arith, elem-insert j x (sort lt xs), elem-sort j xs)

module _ {ℓ} {A : Type ℓ} where
  -- xs[from:to]
  abbrev pub slice : ℕ → ℕ → List A → List A
  slice from to xs = take (to - from) (drop from xs)

  -- The same value at each index of `is`.
  unfoldable pub scatter : List ℕ → (ℕ → A) → List A → List A
  scatter [] g out = out
  scatter (i ∷ is) g out = scatter is g (set out i (g i))

  pub scatter-append :
      (is js : List ℕ) (g : ℕ → A) (out : List A)
      → scatter (is ++ js) g out ≡ scatter js g (scatter is g out)
  unfolding scatter
  scatter-append [] js g out = refl
  scatter-append (i ∷ is) js g out = scatter-append is js g (set out i (g i))

  pub length-scatter :
      (is : List ℕ) (g : ℕ → A) (out : List A) → length (scatter is g out) ≡ length out
  unfolding scatter
  length-scatter [] g out = refl
  length-scatter (i ∷ is) g out = length-scatter is g (set out i (g i)) ∙ length-set out i (g i)

  pub get_elem?-set :
      (out : List A) (i j : ℕ) (v : A)
      → j < length out
      → get_elem? (set out i v) j ≡ (if i == j then some v else get_elem? out j)
  get_elem?-set [] i j v h = elim h [ ]
  get_elem?-set (x ∷ xs) zero zero v h = refl
  get_elem?-set (x ∷ xs) zero (suc j) v h = ground arith
  get_elem?-set (x ∷ xs) (suc i) zero v h = ground arith
  get_elem?-set (x ∷ xs) (suc i) (suc j) v h = ground (arith, get_elem?-set xs i j v (omega arith))

  pub get_elem?-scatter :
      (is : List ℕ) (g : ℕ → A) (out : List A) (j : ℕ)
      → j < length out
      → get_elem? (scatter is g out) j ≡ (if elem j is then some (g j) else get_elem? out j)
  unfolding scatter
  get_elem?-scatter [] g out j h = refl
  get_elem?-scatter (i ∷ is) g out j h = ground (
    arith,
    get_elem?-scatter is g (set out i (g i)) j,
    get_elem?-set out i j (g i) h,
    length-set out i (g i),
  )

  pub list_ext :
      (xs ys : List A)
      → length xs ≡ length ys
      → ((j : ℕ) → j < length xs → get_elem? xs j ≡ get_elem? ys j)
      → xs ≡ ys
  list_ext [] [] e h = refl
  list_ext [] (y ∷ ys) e h = absurd (omega arith)
  list_ext (x ∷ xs) [] e h = absurd (omega arith)
  list_ext (x ∷ xs) (y ∷ ys) e h =
      cc (list_ext xs ys (omega arith) (λ j k. h (suc j) (omega arith)), h zero (omega arith))

module _ {ℓ} {B : Type ℓ} where
  -- Slots written in any order that misses none.
  pub scatter-eq :
      (order : List ℕ) (g : ℕ → B) (ys out : List B)
      → ((j : ℕ) → j < length ys → elem j order ≡ true)
      → length out ≡ length ys
      → ((j : ℕ) → j < length ys → get_elem? ys j ≡ some (g j))
      → scatter order g out ≡ ys
  scatter-eq order g ys out all e at =
      list_ext (scatter order g out) ys (length-scatter order g out ∙ e)
        (λ j k. inside j (length-scatter order g out) k)
    where
      inside :
          (j : ℕ)
          → length (scatter order g out) ≡ length out
          → j < length (scatter order g out)
          → get_elem? (scatter order g out) j ≡ get_elem? ys j
      inside j size k =
          get_elem?-scatter order g out j (omega arith)
          ∙ rw (all j (omega arith)) (sym (at j (omega arith)))

module _ {ℓ κ} {A : Type ℓ} {B : Type κ} (h : A → B) (d : A) where
  pub get_elem?-map :
      (xs : List A) (j : ℕ) → j < length xs → get_elem? (map h xs) j ≡ some (h (get_or xs j d))
  get_elem?-map [] j k = elim k [ ]
  get_elem?-map (x ∷ xs) zero k = refl
  get_elem?-map (x ∷ xs) (suc j) k = get_elem?-map xs j (omega arith)

  -- Slots that are written from the items at their indices, in any order that misses none, hold
  -- what a `map` over the items holds.
  pub scatter-map :
      (order : List ℕ) (xs : List A) (out : List B)
      → ((j : ℕ) → j < length xs → elem j order ≡ true)
      → length out ≡ length xs
      → scatter order (λ i. h (get_or xs i d)) out ≡ map h xs
  scatter-map order xs out all e =
      scatter-eq order (λ i. h (get_or xs i d)) (map h xs) out
        (λ j k. all j (omega (arith, length-map xs h))) (e ∙ sym (length-map xs h))
        (λ j k. get_elem?-map xs j (omega (arith, length-map xs h)))
