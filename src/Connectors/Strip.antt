-- ===== src/Connectors/Strip.antt =====
-- api/internal/connectors/strip.go. html.UnescapeString is the parameter `unescape`.
use sentilyzer.Prelude.{
  ℕ, zero, suc, Bool, true, false, ◌||◌, Option, none, some, [], ◌∷◌, length, Str, if◌then◌else◌,
  ◌==◌,
}
use sentilyzer.Prelude.Text.{trim_space, is_empty}

-- what follows the next `>`
unfoldable pub after_close : Str → Option Str
after_close [] = none
after_close (c ∷ s) = if c == b'>' then some s else after_close s

-- `<[^>]+>` at the front, behind its `<`: what follows it
unfoldable pub tag_rest : Str → Option Str
unfolding after_close
tag_rest [] = none
tag_rest (c ∷ s) = if c == b'>' then none else after_close s

-- tagRE.ReplaceAllString(s, " "); each round passes a character, so `length s` rounds are enough
unfoldable pub strip_tags_loop : ℕ → Str → Str
unfolding tag_rest
strip_tags_loop zero s = []
strip_tags_loop (suc fuel) [] = []
strip_tags_loop (suc fuel) (c ∷ s) =
    let rest = strip_tags_loop fuel s in
    let cut : Str = elim (tag_rest s) [
      | none ↦ c ∷ rest
      | some t ↦ b' ' ∷ strip_tags_loop fuel t
    ] in
    if c == b'<' then cut else c ∷ rest

unfoldable pub strip_tags : Str → Str
unfolding strip_tags_loop
strip_tags s = strip_tags_loop (length s) s

-- `\s` of package regexp
unfoldable pub is_re_space : ℕ → Bool
is_re_space c = c == 9 || c == 10 || c == 12 || c == 13 || c == 32

-- wsRE.ReplaceAllString(s, " "), after a space if `inside`
unfoldable pub collapse : Bool → Str → Str
unfolding is_re_space
collapse inside [] = []
collapse inside (c ∷ s) =
    let run = collapse true s in
    let out = collapse false s in
    if is_re_space c then (if inside then run else b' ' ∷ run) else c ∷ out

unfoldable pub strip_html : (Str → Str) → Str → Str
unfolding strip_tags collapse trim_space
strip_html unescape s =
    if is_empty s then [] else trim_space (collapse false (unescape (strip_tags s)))
