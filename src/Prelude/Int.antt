-- ===== src/Prelude/Int.antt =====
-- Go's `int` where it may be negative. `negsuc n` is -(n + 1).
use Prim.Native.Nat.{ℕ, ◌+◌}
use mathlib.Core.Bool.{Bool, false}
use mathlib.Core.List.{◌∷◌}
use sentilyzer.Prelude.Tests.{ltb}
use sentilyzer.Prelude.Equality.{Str}
use sentilyzer.Prelude.Text.{itoa}

pub data ℤ : Type 0 where
  pos : ℕ → ℤ
  negsuc : ℕ → ℤ

-- n > 0
abbrev pub is_positive : ℤ → Bool
is_positive (pos n) = ltb 0 n
is_positive (negsuc n) = false

-- %d
unfoldable pub int_str : ℤ → Str
int_str (pos n) = itoa n
int_str (negsuc n) = b'-' ∷ itoa (n + 1)
