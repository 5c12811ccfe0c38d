-- ===== src/Connectors/Gdelt/Slots.antt =====
-- The slots that throttle reserves (api/internal/connectors/gdelt.go). The mutex makes a reservation one
-- step, so any interleaving of callers is one sequence of clock readings.
use sentilyzer.Prelude.{ℕ, ◌+◌, ◌-◌, ◌≤◌, ◌≡◌, List, [], ◌∷◌, arith}
use sentilyzer.Connectors.Gdelt.{reserve}

-- When each call may go out: after its wait.
unfoldable pub slots : ℕ → ℕ → List ℕ → List ℕ
unfolding reserve
slots interval next [] = []
slots interval next (now ∷ nows) =
    let slot = reserve interval now next in (now + slot.0) ∷ slots interval slot.1 nows

-- Each slot is at or after `from`, and each later one an interval or more after the one before.
abbrev pub Spaced : ℕ → ℕ → List ℕ → Type 0
Spaced interval from [] = Unit
Spaced interval from (s ∷ ss) = (from ≤ s) × Spaced interval (s + interval) ss

-- Every call goes out after it was made, and at `bound` at the latest, which each call puts off by an interval.
abbrev pub Served : ℕ → ℕ → List ℕ → List ℕ → Type 0
Served interval bound [] [] = Unit
Served interval bound (now ∷ nows) (s ∷ ss) =
    (now ≤ s) × (s ≤ bound) × Served interval (bound + interval) nows ss
Served interval bound _ _ = ⊥

abbrev pub AllBelow : ℕ → List ℕ → Type 0
AllBelow bound [] = Unit
AllBelow bound (now ∷ nows) = (now ≤ bound) × AllBelow bound nows

AllBelow-weaken : (b c : ℕ) (nows : List ℕ) → b ≤ c → AllBelow b nows → AllBelow c nows
AllBelow-weaken b c [] h a = tt
AllBelow-weaken b c (now ∷ nows) h (k, a) = (omega arith, AllBelow-weaken b c nows h a)

later : (interval next now : ℕ) → now + (next - now) + interval ≡ now + (next - now + interval)
later interval next now = omega arith

slots-Spaced : (interval next : ℕ) (nows : List ℕ) → Spaced interval next (slots interval next nows)
unfolding slots reserve
slots-Spaced interval next [] = tt
slots-Spaced interval next (now ∷ nows) = (
  omega arith,
  rw (later interval next now) (slots-Spaced interval (now + (next - now + interval)) nows),
)

slots-Served :
    (interval next bound : ℕ) (nows : List ℕ)
    → next ≤ bound
    → AllBelow bound nows
    → Served interval bound nows (slots interval next nows)
unfolding slots reserve
slots-Served interval next bound [] h a = tt
slots-Served interval next bound (now ∷ nows) h (k, a) = (
  omega arith,
  omega arith,
  slots-Served interval (now + (next - now + interval)) (bound + interval) nows (omega arith)
      (AllBelow-weaken bound (bound + interval) nows (omega arith) a),
)

-- Whatever the clock shows at each call, the slots that throttle reserves are an interval apart or more, from
-- `next` on. Calls made by the time `bound`, at or after which `next` does not lie, are all served: each after it was
-- made, the first by `bound`, and each later one at most an interval after the bound of the one before.
pub slots-throttled :
    (interval next bound : ℕ) (nows : List ℕ)
    → next ≤ bound
    → AllBelow bound nows
    → Spaced interval next (slots interval next nows)
      × Served interval bound nows (slots interval next nows)
slots-throttled interval next bound nows h a =
    (slots-Spaced interval next nows, slots-Served interval next bound nows h a)
