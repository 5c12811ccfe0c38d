-- ===== src/Connectors/Gdelt/Timespan.antt =====
-- api/internal/connectors/gdelt.go, gdeltTimespan: a window of seconds in GDELT's syntax.
use sentilyzer.Prelude.{
  ℕ, zero, suc, ◌+◌, ◌-◌, ◌*◌, ◌/◌, ◌%◌, ◌^◌, ◌≤◌, ◌<◌, ◌≡◌, refl, ◌⊎◌, inl, inr, ◌++◌, Str, ltb,
  if◌then◌else◌, Bool-cases, arith,
}
use sentilyzer.Prelude.Int.{ℤ, pos, negsuc, int_str}
use sentilyzer.Prelude.Text.{codes, itoa}

abbrev pub negated : ℕ → ℤ
negated zero = pos 0
negated (suc n) = negsuc n

-- `(n + k - 1) / k` on int64, for n that is not negative: the sum may wrap, and the quotient is rounded
-- to 0
unfoldable pub round_up : ℕ → ℕ → ℤ
round_up n k =
    let sum = (n + (k - 1)) % 2 ^ 64 in
    if ltb sum (2 ^ 63) then pos (sum / k) else negated ((2 ^ 64 - sum) / k)

-- the minutes, at least 15
unfoldable pub minutes_of : ℕ → ℕ
minutes_of secs = let m = (secs + 59) / 60 in if ltb m 15 then 15 else m

unfoldable pub gdelt_timespan : ℤ → Str
unfolding minutes_of round_up int_str
gdelt_timespan (negsuc n) = itoa 15 ++ codes "min"
gdelt_timespan (pos secs) =
    if ltb secs 7200
    then itoa (minutes_of secs) ++ codes "min"
    else if ltb secs 259_200
    then int_str (round_up secs 3600) ++ codes "h"
    else int_str (round_up secs 86_400) ++ codes "d"

-- A name that GDELT gives to a number of seconds.
abbrev pub IsUnit : Str → ℕ → Type 0
IsUnit name k =
    ((name ≡ codes "min") × (k ≡ 60))
    ⊎ (((name ≡ codes "h") × (k ≡ 3600)) ⊎ ((name ≡ codes "d") × (k ≡ 86_400)))

round_up-pos : (n k : ℕ) → n + (k - 1) < 2 ^ 63 → round_up n k ≡ pos ((n + (k - 1)) / k)
unfolding round_up
round_up-pos n k h = ground arith

minutes_of-covers :
    (secs : ℕ)
    → (secs ≤ minutes_of secs * 60)
      × ((minutes_of secs * 60 < secs + 60) ⊎ (minutes_of secs * 60 ≡ 900))
unfolding minutes_of
minutes_of-covers secs = ground arith

-- A window of less than 2^63 - 86399 seconds is rendered as a number of minutes, hours or days that covers it, and
-- that is longer by less than one such unit, or is the minimum of 15 minutes.
pub gdelt_timespan-covers :
    (secs : ℕ)
    → secs < 2 ^ 63 - 86_399
    → (n : ℕ) × (k : ℕ) × (name : Str) × IsUnit name k
      × (gdelt_timespan (pos secs) ≡ itoa n ++ name)
      × (secs ≤ n * k)
      × ((n * k < secs + k) ⊎ (n * k ≡ 900))
unfolding gdelt_timespan int_str
gdelt_timespan-covers secs h = elim (Bool-cases (ltb secs 7200)) [
  | inl short ↦ rw short (
    minutes_of secs,
    60,
    codes "min",
    inl (refl, refl),
    refl,
    (minutes_of-covers secs).0,
    (minutes_of-covers secs).1,
  )
  | inr longer ↦ elim (Bool-cases (ltb secs 259_200)) [
    | inl hours ↦
        rw (longer, hours, round_up-pos secs 3600 (omega arith))
          (
            (secs + 3599) / 3600,
            3600,
            codes "h",
            inr (inl (refl, refl)),
            refl,
            omega arith,
            inl (omega arith),
          )
    | inr days ↦
        rw (longer, days, round_up-pos secs 86_400 (omega arith))
          (
            (secs + 86_399) / 86_400,
            86_400,
            codes "d",
            inr (inr (refl, refl)),
            refl,
            omega arith,
            inl (omega arith),
          )
  ]
]
