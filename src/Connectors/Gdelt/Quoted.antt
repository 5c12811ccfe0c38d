-- ===== src/Connectors/Gdelt/Quoted.antt =====
-- The quotes of the query that Search sends (api/internal/connectors/gdelt.go, fips.go).
use sentilyzer.Prelude.{
  ℕ, suc, ◌+◌, ◌==◌, ◌≡◌, refl, ◌⊎◌, inl, inr, Bool, true, false, ◌&&◌, none, some, ap, [], ◌∷◌,
  ◌++◌, Str, str_instance, leb, if◌then◌else◌, append-nil, append_assoc, sym, Bool-cases, ◌∙◌,
  Option-cases, arith,
}
use mathlib.Core.List.{reverse, reverse-cons}
use sentilyzer.Prelude.Maps.{Map, lookup}
use sentilyzer.Prelude.Text.{codes, is_empty, is_space, drop_while, trim_func, trim_space, to_lower}
use sentilyzer.Connectors.{Query}
use sentilyzer.Connectors.Fips.{country_fips, fips_country}
use sentilyzer.Connectors.Fips.One.{fips_one}
use sentilyzer.Connectors.Fips.Two.{fips_two}
use sentilyzer.Connectors.Fips.Three.{fips_three}
use sentilyzer.Connectors.Fips.Four.{fips_four}
use sentilyzer.Connectors.Location.{and_location, remove_char}
use sentilyzer.Connectors.Gdelt.{gdelt_langs, quoted, located, gdelt_query}

-- how many quotes a text has
unfoldable pub quotes : Str → ℕ
quotes [] = 0
quotes (c ∷ s) = if c == b'"' then suc (quotes s) else quotes s

-- two capital letters
unfoldable pub is_code : Str → Bool
is_code (a ∷ b ∷ []) = leb b'A' a && (leb a b'Z' && (leb b'A' b && leb b b'Z'))
is_code _ = false

-- small letters
unfoldable pub is_name : Str → Bool
is_name [] = true
is_name (c ∷ s) = leb b'a' c && (leb c b'z' && is_name s)

unfoldable pub all_values : (Str → Bool) → Map Str Str → Bool
all_values p [] = true
all_values p ((k, v) ∷ m) = p v && all_values p m

all_values-fips : all_values is_code fips_country ≡ true
unfolding all_values is_code fips_country fips_one fips_two fips_three fips_four
all_values-fips = refl

lookup-all_values :
    (p : Str → Bool) (k : Str) (m : Map Str Str) {v : Str}
    → all_values p m ≡ true
    → lookup k m ≡ some v
    → p v ≡ true
unfolding all_values lookup
lookup-all_values p k [] a h = cc
lookup-all_values p k ((j, w) ∷ m) {v = v} a h = ground (arith, lookup-all_values p k m {v = v})

quotes-append : (s t : Str) → quotes (s ++ t) ≡ quotes s + quotes t
unfolding quotes
quotes-append [] t = omega arith
quotes-append (c ∷ s) t = ground (arith, quotes-append s t)

quotes-remove_char : (s : Str) → quotes (remove_char b'"' s) ≡ 0
unfolding quotes remove_char
quotes-remove_char [] = refl
quotes-remove_char (c ∷ s) = ground (arith, quotes-remove_char s)

quotes-drop_while : (p : ℕ → Bool) (s : Str) → quotes s ≡ 0 → quotes (drop_while p s) ≡ 0
unfolding quotes drop_while
quotes-drop_while p [] h = refl
quotes-drop_while p (c ∷ s) h = ground (arith, quotes-drop_while p s)

quotes-reverse : (s : Str) → quotes (reverse s) ≡ quotes s
unfolding quotes
quotes-reverse [] = refl
quotes-reverse (c ∷ s) =
    rw (reverse-cons c s, quotes-append (reverse s) (c ∷ [])) (ground (arith, quotes-reverse s))

quotes-trim_space : (s : Str) → quotes s ≡ 0 → quotes (trim_space s) ≡ 0
unfolding trim_space trim_func
quotes-trim_space s h =
    let left = drop_while is_space s in
    quotes-reverse (drop_while is_space (reverse left))
    ∙ quotes-drop_while is_space (reverse left)
        (quotes-reverse left ∙ quotes-drop_while is_space s h)

-- What narrows the place: the country, two capital letters, if the location names one; else the location as one
-- phrase between quotes, which holds no quote; and nothing for a blank location.
abbrev pub PlaceClause : (ℕ → ℕ) → Query → Str → Type 0
PlaceClause lower q clause =
    ((code : Str) × (country_fips lower q.location ≡ some code)
      × (is_code code ≡ true)
      × (clause ≡ codes " sourcecountry:" ++ code))
    ⊎ ((country_fips lower q.location ≡ none)
        × (((trim_space (remove_char b'"' q.location) ≡ []) × (clause ≡ []))
            ⊎ ((phrase : Str) × (trim_space (remove_char b'"' q.location) ≡ phrase)
                × (is_empty phrase ≡ false)
                × (quotes phrase ≡ 0)
                × (clause ≡ codes " \"" ++ (phrase ++ codes "\"")))))

-- What narrows the language: its name in the table, small letters, or nothing for a language that is not there.
abbrev pub LangClause : (ℕ → ℕ) → Query → Str → Type 0
LangClause lower q clause =
    ((name : Str) × (lookup (to_lower lower q.language) gdelt_langs ≡ some name)
      × (is_name name ≡ true)
      × (clause ≡ codes " sourcelang:" ++ name))
    ⊎ ((lookup (to_lower lower q.language) gdelt_langs ≡ none) × (clause ≡ []))

-- A code that the table gives is two capital letters.
country_fips_lem :
    (lower : ℕ → ℕ) (location : Str) {code : Str}
    → country_fips lower location ≡ some code
    → is_code code ≡ true
unfolding country_fips
country_fips_lem lower location h =
    lookup-all_values is_code (to_lower lower (trim_space location)) fips_country all_values-fips h

no_letters : (s : Str) → is_empty s ≡ true → s ≡ []
no_letters [] h = refl
no_letters (c ∷ s) h = cc

and_location_clause :
    (lower : ℕ → ℕ) (query : Str) (q : Query)
    → country_fips lower q.location ≡ none
    → (clause : Str) × (and_location query q.location ≡ query ++ clause)
      × PlaceClause lower q clause
unfolding and_location quotes
and_location_clause lower query q unknown =
    let phrase = trim_space (remove_char b'"' q.location) in
    elim (Bool-cases (is_empty phrase)) [
      | inl blank ↦
          rw blank ([], sym (append-nil query), inr (unknown, inl (no_letters phrase blank, refl)))
      | inr named ↦ rw named (
        b' ' ∷ b'"' ∷ (phrase ++ b'"' ∷ []),
        refl,
        inr (
          unknown,
          inr (phrase, refl, named, quotes-trim_space _ (quotes-remove_char q.location), refl),
        ),
      )
    ]

quoted-append :
    (topic rest : Str) → quoted topic ++ rest ≡ b'"' ∷ (remove_char b'"' topic ++ b'"' ∷ rest)
unfolding quoted
quoted-append topic rest =
    ap (λ t. b'"' ∷ t) (append_assoc (remove_char b'"' topic) (b'"' ∷ []) rest)

located-quoted :
    (lower : ℕ → ℕ) (q : Query)
    → (clause : Str) × (located lower q ≡ quoted q.topic ++ clause) × PlaceClause lower q clause
unfolding located
located-quoted lower q = elim (Option-cases (country_fips lower q.location)) [
  | inl unknown ↦
      let (clause, e, c) = and_location_clause lower (quoted q.topic) q unknown in
      (clause, rw (unknown, located) e, c)
  | inr (code, found) ↦ (
    codes " sourcecountry:" ++ code,
    rw (found, located) refl,
    inl (code, found, country_fips_lem lower q.location found, refl),
  )
]

all_langs : all_values is_name gdelt_langs ≡ true
unfolding all_values is_name gdelt_langs
all_langs = refl

-- The query is the topic, less its quotes, between quotes, then one clause for the place and one for the language, each
-- of which may be absent. The clause of the place is a country code of two capital letters, or the location, less its
-- quotes, as one phrase between quotes, where it names no country; the clause of the language is a name in small
-- letters from the table. So neither the topic nor the location adds a clause of its own.
pub gdelt_query_lem :
    (lower : ℕ → ℕ) (q : Query)
    → (place : Str) × (lang : Str) × (gdelt_query lower q
        ≡ codes "\"" ++ (remove_char b'"' q.topic ++ (codes "\"" ++ (place ++ lang))))
      × (quotes (remove_char b'"' q.topic) ≡ 0)
      × PlaceClause lower q place
      × LangClause lower q lang
unfolding gdelt_query
gdelt_query_lem lower q =
    let (place, e, clause) = located-quoted lower q in
    let no_quote = quotes-remove_char q.topic in
    elim (Option-cases (lookup (to_lower lower q.language) gdelt_langs)) [
      | inl other ↦ (
        place,
        [],
        rw (other, gdelt_query)
            (e
              ∙ (quoted-append q.topic place
                  ∙ ap (λ r. b'"' ∷ (remove_char b'"' q.topic ++ b'"' ∷ r))
                      (sym (append-nil place)))),
        no_quote,
        clause,
        inr (other, refl),
      )
      | inr (name, found) ↦ (
        place,
        codes " sourcelang:" ++ name,
        rw (found, gdelt_query)
            (ap (λ t. t ++ (codes " sourcelang:" ++ name)) e
              ∙ (append_assoc (quoted q.topic) place _ ∙ quoted-append q.topic _)),
        no_quote,
        clause,
        inl (name, found, lookup-all_values is_name _ gdelt_langs all_langs found, refl),
      )
    ]
