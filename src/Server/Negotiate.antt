-- ===== src/Server/Negotiate.antt =====
-- api/internal/server/negotiate.go: the response format. mime.ParseMediaType is the parameter
-- `parse_media`, and float64 q-values with strconv.ParseFloat are the record `Quality`.
pub mod Ranked
use sentilyzer.Prelude.{
  ℕ, ◌==◌, ◌≡◌, ◌+◌, ltb, Bool, true, false, not, ◌&&◌, ◌||◌, Option, none, some, List, [], ◌∷◌,
  ◌++◌, map, length, Str, str_eq, str_instance, if◌then◌else◌,
}
use sentilyzer.Prelude.Text.{codes, is_empty, join, to_lower, trim_space}
use sentilyzer.Prelude.Maps.{Map, lookup}
use sentilyzer.Service.Select.{has}

pub record Quality : Type 1 where
  pub Q : Type 0
  pub zero_q : Q
  pub one_q : Q
  pub le : Q → Q → Bool
  pub lt : Q → Q → Bool
  pub parse_float : Str → Option Q

abbrev pub mime_json : Str
mime_json = codes "application/json"

abbrev pub mime_xml : Str
mime_xml = codes "application/xml"

abbrev pub mime_yaml : Str
mime_yaml = codes "application/yaml"

abbrev pub mime_html : Str
mime_html = codes "text/html"

abbrev pub mime_csv : Str
mime_csv = codes "text/csv"

abbrev pub mime_ndjson : Str
mime_ndjson = codes "application/x-ndjson"

abbrev pub offers : List Str
offers = mime_json ∷ mime_xml ∷ mime_yaml ∷ []

abbrev pub analyze_offers : List Str
analyze_offers = mime_json ∷ mime_xml ∷ mime_yaml ∷ mime_csv ∷ mime_ndjson ∷ []

-- strings.Cut(s, "/"), which reports whether the mark was found
unfoldable pub cut : ℕ → Str → Str × Str × Bool
cut mark [] = ([], [], false)
cut mark (c ∷ s) =
    let (before, after, found) = cut mark s in
    if c == mark then ([], s, true) else (c ∷ before, after, found)

-- strings.Split(s, ","): the current part in reverse order of its reading, as an accumulator
unfoldable pub split_loop : ℕ → Str → Str → List Str
split_loop mark [] part = part ∷ []
split_loop mark (c ∷ s) part =
    let next = split_loop mark s [] in
    let more = split_loop mark s (part ++ c ∷ []) in if c == mark then part ∷ next else more

unfoldable pub split : ℕ → Str → List Str
unfolding split_loop
split mark s = split_loop mark s []

module _ (lower : ℕ → ℕ) where
  unfoldable pub canonical_media : Str → Str
  unfolding has trim_space
  canonical_media media =
      let m = to_lower lower (trim_space media) in
      if has m (codes "application/json" ∷ codes "text/json" ∷ [])
      then mime_json
      else if has m (codes "application/xml" ∷ codes "text/xml" ∷ [])
      then mime_xml
      else if has m (
          codes "application/yaml"
          ∷ codes "text/yaml"
          ∷ codes "application/x-yaml"
          ∷ codes "text/x-yaml"
          ∷ [])
      then mime_yaml
      else if has m (codes "text/csv" ∷ codes "application/csv" ∷ [])
      then mime_csv
      else if has m (codes "application/x-ndjson" ∷ codes "application/ndjson" ∷ [])
      then mime_ndjson
      else []

module _ (ql : Quality) where
  open ql use {Q, zero_q, one_q, le, lt, parse_float}

  pub record AcceptRange : Type 0 where
    pub typ : Str
    pub sub : Str
    pub q : Q

  -- How well a range matches: 2 for the type and subtype, 1 for type/*, 0 for */*.
  unfoldable pub specificity : Str → Str → AcceptRange → Option ℕ
  specificity typ sub r =
      if str_eq r.typ typ && str_eq r.sub sub
      then some 2
      else if str_eq r.typ typ && str_eq r.sub (codes "*")
      then some 1
      else if str_eq r.typ (codes "*") && str_eq r.sub (codes "*")
      then some 0
      else none

  -- The best match so far: its q-value and specificity; `none` is the code's -1.
  abbrev pub beats : ℕ → Option ℕ → Bool
  beats s none = true
  beats s (some spec) = ltb spec s

  -- the loop of `quality`
  unfoldable pub quality_loop : Str → Str → List AcceptRange → Q × Option ℕ → Q × Option ℕ
  unfolding specificity
  quality_loop typ sub [] best = best
  quality_loop typ sub (r ∷ rs) best = quality_loop typ sub rs (elim (specificity typ sub r) [
    | none ↦ best
    | some s ↦ if beats s best.1 then (r.q, some s) else best
  ])

  unfoldable pub quality : Str → List AcceptRange → Q × Option ℕ
  unfolding quality_loop cut
  quality media ranges =
      let (typ, sub, _) = cut b'/' media in quality_loop typ sub ranges (zero_q, none)

  -- the loop of `negotiate` over the offers
  unfoldable pub best_loop : List AcceptRange → List Str → Str × Q → Str × Q
  best_loop ranges [] best = best
  best_loop ranges (offer ∷ rest) best = best_loop ranges rest (
      let (q, spec) = quality offer ranges in
      elim spec [
        | none ↦ best
        | some s ↦ if le q zero_q then best else if lt best.1 q then (offer, q) else best
      ])

  -- A literal text/html at or above the best offer is a browser's, which gets JSON.
  unfoldable pub is_browser : List AcceptRange → Q → Bool
  is_browser ranges best_q =
      let (hq, hspec) = quality mime_html ranges in
      elim hspec [ none ↦ false | some s ↦ s == 2 && le best_q hq ]

  unfoldable pub pick : List AcceptRange → List Str → Str
  unfolding best_loop is_browser
  pick ranges offered =
      let (best, best_q) = best_loop ranges offered ([], zero_q) in
      if is_empty best then [] else if is_browser ranges best_q then mime_json else best

  module _ (lower : ℕ → ℕ) (parse_media : Str → Option (Str × Map Str Str)) where
    -- One part of the header; a malformed one is skipped.
    unfoldable pub parse_range : Str → Option AcceptRange
    unfolding canonical_media cut trim_space
    parse_range part =
        let parsed = parse_media (trim_space part) in
        if is_empty (trim_space part) then none else elim parsed [
          | none ↦ none
          | some (media, params) ↦
              let c = canonical_media lower media in
              let (typ, sub, ok) = cut b'/' (if is_empty c then media else c) in
              let q : Q = elim (lookup (codes "q") params) [
                | none ↦ one_q
                | some v ↦ elim (parse_float v) [ none ↦ one_q | some f ↦ f ]
              ] in
              if ok then some (record { typ = typ; sub = sub; q = q }) else none
        ]

    unfoldable pub parse_parts : List Str → List AcceptRange
    unfolding parse_range
    parse_parts [] = []
    parse_parts (p ∷ ps) = elim (parse_range p) [
      | none ↦ parse_parts ps
      | some r ↦ r ∷ parse_parts ps
    ]

    unfoldable pub parse_accept : Str → List AcceptRange
    unfolding parse_parts split
    parse_accept header = parse_parts (split b',' header)

    -- Every route has an offer, so `offers[0]` is there.
    unfoldable pub negotiate : Str → List Str → Str
    unfolding parse_accept pick
    negotiate accept [] = []
    negotiate accept (first ∷ rest) =
        let ranges = parse_accept accept in
        let picked = pick ranges (first ∷ rest) in if length ranges == 0 then first else picked

abbrev pub format_params : List (Str × Str)
format_params =
    (codes "json", mime_json)
    ∷ (codes "xml", mime_xml)
    ∷ (codes "yaml", mime_yaml)
    ∷ (codes "yml", mime_yaml)
    ∷ (codes "csv", mime_csv)
    ∷ (codes "ndjson", mime_ndjson)
    ∷ []

unfoldable pub format_loop : Str → List (Str × Str) → List Str → Str
unfolding has
format_loop v [] offered = []
format_loop v ((name, media) ∷ ps) offered =
    let rest = format_loop v ps offered in
    if not (str_eq name v) then rest else if has media offered then media else rest

unfoldable pub format_param : (ℕ → ℕ) → Str → List Str → Str
unfolding format_loop trim_space
format_param lower v offered = format_loop (to_lower lower (trim_space v)) format_params offered

-- The answer of the middleware: the format that the handler is run with, or an error body in JSON.
pub data Negotiated : Type 0 where
  proceed : Str → Negotiated
  reject : ℕ → Negotiated

unfoldable pub negotiate_media :
    (ql : Quality)
    → (ℕ → ℕ)
    → (Str → Option (Str × Map Str Str))
    → List Str
    → Str
    → Str
    → Negotiated
unfolding format_param negotiate
negotiate_media ql lower parse_media offered format accept =
    let named = format_param lower format offered in
    let best = negotiate ql lower parse_media accept offered in
    if not (is_empty format)
    then (if is_empty named then reject 400 else proceed named)
    else if is_empty best
    then reject 406
    else proceed best

unfoldable pub content_type : Str → Str
content_type format =
    if str_eq format mime_yaml || str_eq format mime_ndjson
    then format
    else format ++ codes "; charset=utf-8"
