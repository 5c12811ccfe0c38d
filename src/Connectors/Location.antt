-- ===== src/Connectors/Location.antt =====
-- api/internal/connectors/location.go: the location as a quoted phrase.
use sentilyzer.Prelude.{ℕ, [], ◌∷◌, ◌++◌, Str, if◌then◌else◌, ◌==◌}
use sentilyzer.Prelude.Text.{is_empty, trim_space}

-- strings.ReplaceAll(s, string(c), "")
unfoldable pub remove_char : ℕ → Str → Str
remove_char q [] = []
remove_char q (c ∷ s) = if c == q then remove_char q s else c ∷ remove_char q s

unfoldable pub and_location : Str → Str → Str
unfolding remove_char trim_space
and_location query location =
    let phrase = trim_space (remove_char b'"' location) in
    if is_empty phrase then query else query ++ (b' ' ∷ b'"' ∷ (phrase ++ b'"' ∷ []))
