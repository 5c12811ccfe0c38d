-- ===== src/Inference/Chunks.antt =====
-- The chunks of api/internal/inference/batch.go tile the items, and none is too large.
use sentilyzer.Prelude.{
  ℕ, zero, suc, ◌+◌, ◌-◌, ◌≤◌, ◌<◌, ◌≡◌, refl, min, List, [], ◌∷◌, ◌++◌, length, take, drop, ltb,
  arith, if◌then◌else◌, Bool-cases, inl, inr, length-drop, length-take, take-append-drop,
}
use sentilyzer.Prelude.Slices.{slice}
use sentilyzer.Inference.Batch.{ranges_from, chunk_ranges}

-- From `start` on the ranges are adjacent, each is not empty and as long as `max` and the end `n`
-- allow, and they end at `n`.
abbrev pub Tiles : ℕ → ℕ → ℕ → List (ℕ × ℕ) → Type 0
Tiles max n start [] = start ≡ n
Tiles max n start ((from, to) ∷ ranges) =
    (from ≡ start) × (from < to) × (to ≡ min (from + max) n) × Tiles max n to ranges

ranges_from-Tiles :
    (fuel n max start : ℕ)
    → 0 < max
    → n ≤ start + fuel
    → Tiles max n (min start n) (ranges_from fuel n max start)
unfolding ranges_from
ranges_from-Tiles zero n max start pos enough = omega arith
ranges_from-Tiles (suc fuel) n max start pos enough = elim (Bool-cases (ltb start n)) [
  | inl more ↦ rw more (
    ground arith,
    ground arith,
    refl,
    ranges_from-Tiles fuel n max (start + max) pos (omega arith),
  )
  | inr stop ↦ rw stop (ground arith)
]

-- The ranges cover 0 to n without gap or overlap, in order; each is not empty, is as long as the
-- maximum wherever that fits, and never longer. A maximum of 0 counts as 1.
pub chunk_ranges-Tiles : (n max : ℕ) → Tiles (if ltb max 1 then 1 else max) n 0 (chunk_ranges n max)
unfolding chunk_ranges
chunk_ranges-Tiles n max =
    let width = if ltb max 1 then 1 else max in
    let zero_start : min 0 n ≡ 0 = omega arith in
    rw zero_start at (ranges_from-Tiles n n width 0 (ground arith) (omega arith))

pub drop-length {ℓ} : {A : Type ℓ} (xs : List A) → drop (length xs) xs ≡ []
drop-length [] = refl
drop-length (x ∷ xs) = drop-length xs

take-nil {ℓ} : {A : Type ℓ} (n : ℕ) → take {A = A} n [] ≡ []
take-nil zero = refl
take-nil (suc n) = refl

-- A slice and what follows it.
pub slice-append-drop {ℓ} :
    {A : Type ℓ} (from to : ℕ) (xs : List A)
    → from ≤ to
    → slice from to xs ++ drop to xs ≡ drop from xs
slice-append-drop zero to xs h =
    let e : to - zero ≡ to = omega arith in rw e (take-append-drop to xs)
slice-append-drop (suc from) zero xs h = absurd (omega arith)
slice-append-drop (suc from) (suc to) [] h = rw take-nil
slice-append-drop (suc from) (suc to) (x ∷ xs) h =
    let e : suc to - suc from ≡ to - from = omega arith in
    rw e (slice-append-drop from to xs (omega arith))

pub length-slice {ℓ} :
    {A : Type ℓ} (from to : ℕ) (xs : List A)
    → from ≤ to
    → to ≤ length xs
    → length (slice from to xs) ≡ to - from
length-slice from to xs h k =
    omega (arith, length-take (to - from) (drop from xs), length-drop from xs)
