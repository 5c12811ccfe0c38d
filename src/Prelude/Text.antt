-- ===== src/Prelude/Text.antt =====
-- The functions of package strings that the program calls, over lists of code points.
use Prim.Native.Char.{code}
use Prim.Native.String.{String}
use Prim.Native.Nat.{ℕ, zero, suc, ◌+◌, ◌/◌, ◌%◌}
use mathlib.Core.Path.{◌≡◌, refl}
use mathlib.Core.Bool.{Bool, true, false, ◌&&◌, ◌||◌}
use mathlib.Core.List.{List, [], ◌∷◌, ◌++◌, map, reverse}
use native.Mathlib.Omega.{arith}
use sentilyzer.Prelude.Tests.{ltb, leb, ◌==◌, if◌then◌else◌}
use native.Mathlib.Nat.{ℕ_set}
use sentilyzer.Prelude.Equality.{Str}
use sentilyzer.Prelude.Sort.{IsStrictTotal}

-- The code points of a literal. `String` has its own `[]` and `∷`.
abbrev pub codes : String → Str
codes String.[] = []
codes (String.◌∷◌ c s) = code c ∷ codes s

-- unicode.IsSpace
unfoldable pub is_space : ℕ → Bool
is_space c =
    (leb 9 c && leb c 13)
    || c == 32
    || c == 0x85
    || c == 0xa0
    || c == 0x1680
    || (leb 0x2000 c && leb c 0x200a)
    || c == 0x2028
    || c == 0x2029
    || c == 0x202f
    || c == 0x205f
    || c == 0x3000

unfoldable pub drop_while : (ℕ → Bool) → Str → Str
drop_while p [] = []
drop_while p (c ∷ s) = if p c then drop_while p s else c ∷ s

-- strings.TrimFunc: the left end, then the right one
unfoldable pub trim_func : (ℕ → Bool) → Str → Str
trim_func p s = reverse (drop_while p (reverse (drop_while p s)))

-- strings.TrimSpace
unfoldable pub trim_space : Str → Str
unfolding trim_func
trim_space = trim_func is_space

-- strings.ToLower, from the map of one rune
abbrev pub to_lower : (ℕ → ℕ) → Str → Str
to_lower lower = map lower

-- unicode.ToLower on ASCII
unfoldable pub ascii_lower : ℕ → ℕ
ascii_lower c = if leb b'A' c && leb c b'Z' then c + 32 else c

-- strings.Join
unfoldable pub join : Str → List Str → Str
join sep [] = []
join sep (s ∷ []) = s
join sep (s ∷ t ∷ rest) = s ++ (sep ++ join sep (t ∷ rest))

-- len(s): the bytes of the UTF-8 encoding
unfoldable pub rune_len : ℕ → ℕ
rune_len c = if ltb c 0x80 then 1 else if ltb c 0x800 then 2 else if ltb c 0x10000 then 3 else 4

unfoldable pub byte_len : Str → ℕ
byte_len [] = 0
byte_len (c ∷ s) = rune_len c + byte_len s

-- strconv.Itoa of a number that is not negative; a number has fewer digits than `suc n`
unfoldable pub itoa_loop : ℕ → ℕ → Str
itoa_loop zero n = []
itoa_loop (suc fuel) n =
    let tens = itoa_loop fuel (n / 10) in
    if ltb n 10 then (48 + n) ∷ [] else tens ++ (48 + n % 10) ∷ []

unfoldable pub itoa : ℕ → Str
unfolding itoa_loop
itoa n = itoa_loop (suc n) n

-- s == ""
abbrev pub is_empty : Str → Bool
is_empty [] = true
is_empty (c ∷ s) = false

-- `<` on strings: code point order is the order of the UTF-8 bytes
unfoldable pub str_lt : Str → Str → Bool
str_lt s [] = false
str_lt [] (y ∷ ys) = true
str_lt (x ∷ xs) (y ∷ ys) = ltb x y || (x == y && str_lt xs ys)

str_lt-asym : (s t : Str) → str_lt s t ≡ true → str_lt t s ≡ false
unfolding str_lt
str_lt-asym [] [] h = refl
str_lt-asym [] (y ∷ ys) h = refl
str_lt-asym (x ∷ xs) [] h = ground arith
str_lt-asym (x ∷ xs) (y ∷ ys) h = ground (arith, str_lt-asym xs ys)

str_lt_trans : (s t u : Str) → str_lt s t ≡ true → str_lt t u ≡ true → str_lt s u ≡ true
unfolding str_lt
str_lt_trans s t [] h k = ground arith
str_lt_trans s [] (z ∷ zs) h k = ground arith
str_lt_trans [] (y ∷ ys) (z ∷ zs) h k = refl
str_lt_trans (x ∷ xs) (y ∷ ys) (z ∷ zs) h k = ground (arith, str_lt_trans xs ys zs)

str_lt_connex : (s t : Str) → str_lt s t ≡ false → str_lt t s ≡ false → s ≡ t
unfolding str_lt
str_lt_connex [] [] h k = refl
str_lt_connex [] (y ∷ ys) h k = ground arith
str_lt_connex (x ∷ xs) [] h k = ground arith
str_lt_connex (x ∷ xs) (y ∷ ys) h k = ground (arith, str_lt_connex xs ys)

pub str_lt-IsStrictTotal : IsStrictTotal str_lt
str_lt-IsStrictTotal = record { asym = str_lt-asym; trans = str_lt_trans; connex = str_lt_connex }

pub List-Str-set : IsSet (List Str)
List-Str-set = hlevel ℕ_set
