-- ===== src/Server/Negotiate/Ranked.antt =====
-- Which format a request is answered in (api/internal/server/negotiate.go).
use sentilyzer.Prelude.{
  ℕ, ◌≡◌, refl, sym, ◌∙◌, ap, subst, List-cases, Option-cases, Bool, true, false, not, Option, none,
  some, List, [], ◌∷◌, Str, str_eq, str_eq_iff, if◌then◌else◌, ◌⊎◌, inl, inr, arith, Bool-cases,
  ◌==◌, length,
}
use sentilyzer.Prelude.Members.{In}
use sentilyzer.Prelude.Maps.{Map}
use sentilyzer.Prelude.Text.{is_empty, to_lower, trim_space}
use sentilyzer.Service.Select.{has}
use sentilyzer.Server.Negotiate.{
  mime_html, Quality, AcceptRange, mime_json, quality, best_loop, is_browser, pick, parse_accept,
  negotiate, format_loop, format_param, format_params, proceed, reject, negotiate_media,
}

In-has : (x : Str) (xs : List Str) → has x xs ≡ true → In x xs
unfolding has
In-has x [] h = cc
In-has x (y ∷ ys) h = elim (Bool-cases (str_eq y x)) [
  | inl same ↦ inl ((str_eq_iff y x).0 same)
  | inr other ↦ inr (In-has x ys (rw other at h))
]

In-format_loop :
    (v : Str) (ps : List (Str × Str)) (offered : List Str)
    → is_empty (format_loop v ps offered) ≡ false
    → In (format_loop v ps offered) offered
unfolding format_loop
In-format_loop v [] offered h = cc
In-format_loop v ((name, media) ∷ ps) offered h = elim (Bool-cases (str_eq name v)) [
  | inr other ↦ rw other (In-format_loop v ps offered (rw other at h))
  | inl same ↦ elim (Bool-cases (has media offered)) [
    | inl in' ↦ rw (same, in') (In-has media offered in')
    | inr out ↦ rw (same, out) (In-format_loop v ps offered (rw (same, out) at h))
  ]
]

-- What the program relies on of `<` on float64, not-a-numbers included.
pub record IsLess (ql : Quality) : Type 0 where
  pub irrefl : (p : ql.Q) → ql.lt p p ≡ false
  pub trans : (p q r : ql.Q) → ql.lt p q ≡ true → ql.lt q r ≡ true → ql.lt p r ≡ true

module _ (ql : Quality) (ranges : List (AcceptRange ql)) where
  open ql use {Q, zero_q, le, lt}

  -- A range matches the offer with a q-value that is not 0 or less.
  abbrev pub acceptable : Str → Bool
  acceptable o = elim (quality ql o ranges).1 [
    | none ↦ false
    | some s ↦ not (le (quality ql o ranges).0 zero_q)
  ]

  -- What one offer makes of the best one so far.
  abbrev next : Str → Str × Q → Str × Q
  next o best =
      let q = (quality ql o ranges).0 in
      elim (quality ql o ranges).1 [
        | none ↦ best
        | some s ↦ if le q zero_q then best else if lt best.1 q then (o, q) else best
      ]

  -- From one best offer to a later one: the same, or an acceptable offer with a higher q-value.
  abbrev Improves : Str × Q → List Str → Str × Q → Type 0
  Improves best offered r =
      (r ≡ best)
      ⊎ (In r.0 offered
          × (acceptable r.0 ≡ true)
          × ((quality ql r.0 ranges).0 ≡ r.1)
          × (lt best.1 r.1 ≡ true))

  -- No offer passes the q-value.
  abbrev pub Tops : Q → List Str → Type 0
  Tops q offered =
      (o : Str) → In o offered → acceptable o ≡ true → lt q (quality ql o ranges).0 ≡ false

  module _ (laws : IsLess ql) where
    next-cases :
        (o : Str) (best : Str × Q)
        → (next o best ≡ best)
          ⊎ ((next o best ≡ (o, (quality ql o ranges).0))
              × (acceptable o ≡ true)
              × (lt best.1 (quality ql o ranges).0 ≡ true))
    next-cases o best =
        let q = (quality ql o ranges).0 in
        elim (Option-cases (quality ql o ranges).1) [
          | inl unmatched ↦ inl (rw (next, unmatched) refl)
          | inr (s, matched) ↦ elim (Bool-cases (le q zero_q)) [
            | inl refused ↦ inl (rw (next, matched, refused) refl)
            | inr positive ↦ elim (Bool-cases (lt best.1 q)) [
              | inl more ↦ inr (
                rw (next, matched, positive, more) refl,
                rw (acceptable, matched, positive) refl,
                more,
              )
              | inr less ↦ inl (rw (next, matched, positive, less) refl)
            ]
          ]
        ]

    lt-next :
        (o : Str) (best : Str × Q)
        → acceptable o ≡ true
        → lt (next o best).1 (quality ql o ranges).0 ≡ false
    lt-next o best h = ground (arith, laws.irrefl (quality ql o ranges).0)

    -- A q-value that an offer does not pass is not passed after an improvement either.
    lt-Improves :
        {best r : Str × Q} (offered : List Str) (q : Q)
        → Improves best offered r
        → lt best.1 q ≡ false
        → lt r.1 q ≡ false
    lt-Improves {best} {r} offered q (inl same) h = rw same h
    lt-Improves {best} {r} offered q (inr (i, a, e, more)) h = elim (Bool-cases (lt r.1 q)) [
      | inl less ↦ absurd (cc (h, laws.trans best.1 r.1 q more less))
      | inr fine ↦ fine
    ]

    best_loop_lem :
        (offered : List Str) (best : Str × Q)
        → Improves best offered (best_loop ql ranges offered best)
          × Tops (best_loop ql ranges offered best).1 offered
    unfolding best_loop
    best_loop_lem [] best = (inl refl, λ o i. elim i [ ])
    best_loop_lem (o ∷ os) best =
        let (step, tops) = best_loop_lem os (next o best) in
        (
          improve step (next-cases o best),
          λ o' i h. elim i [
            | inl same ↦
                subst (λ x. acceptable x ≡ true → lt r.1 (quality ql x ranges).0 ≡ false) same
                  (λ a. lt-Improves os (quality ql o ranges).0 step (lt-next o best a)) h
            | inr later ↦ tops o' later h
          ],
        )
      where
        r : Str × Q
        r = best_loop ql ranges os (next o best)

        improve :
            Improves (next o best) os r
            → (next o best ≡ best)
              ⊎ ((next o best ≡ (o, (quality ql o ranges).0))
                  × (acceptable o ≡ true)
                  × (lt best.1 (quality ql o ranges).0 ≡ true))
            → Improves best (o ∷ os) r
        improve (inl same) (inl kept) = inl (same ∙ kept)
        improve (inl same) (inr (new, a, more)) = inr (
          inl (sym (ap (λ x. x.0) (same ∙ new))),
          rw (same ∙ new) a,
          rw (same ∙ new) refl,
          rw (same ∙ new) more,
        )
        improve (inr (i, a, e, more)) (inl kept) =
            inr (inr i, a, e, subst (λ b. lt b.1 r.1 ≡ true) kept more)
        improve (inr (i, a, e, more)) (inr (new, a', more')) = inr (
          inr i,
          a,
          e,
          laws.trans best.1 (quality ql o ranges).0 r.1 more'
              (subst (λ b. lt b.1 r.1 ≡ true) new more),
        )

    -- The best offer of `pick`: none, if every acceptable offer has a q-value that is not above 0, or
    -- else an acceptable offer that no acceptable offer passes.
    pub best_loop-eq_or :
        (offered : List Str)
        → let r = best_loop ql ranges offered ([], zero_q) in
          ((r ≡ ([], zero_q)) × Tops zero_q offered)
          ⊎ (In r.0 offered × (acceptable r.0 ≡ true) × Tops (quality ql r.0 ranges).0 offered)
    best_loop-eq_or offered =
        let (step, tops) = best_loop_lem offered ([], zero_q) in
        elim step [
          | inl same ↦ inl (same, subst (λ r. Tops r.1 offered) same tops)
          | inr (i, a, e, more) ↦ inr (i, a, rw e tops)
        ]

    -- A browser's header names text/html itself.
    named : (q : Q) → is_browser ql ranges q ≡ true → (quality ql mime_html ranges).1 ≡ some 2
    unfolding is_browser
    named q h = elim (Option-cases (quality ql mime_html ranges).1) [
      | inl unmatched ↦ absurd (cc (rw (is_browser, unmatched) at h))
      | inr (s, matched) ↦ elim (Bool-cases (s == 2)) [
        | inl two ↦ ground (arith, matched, two)
        | inr other ↦ absurd (ground (arith, h, matched, other))
      ]
    ]

    -- The answer for the ranges of a header is empty, and then no acceptable offer has a q-value
    -- above 0; or JSON, and then the header names text/html itself (a browser); or an acceptable
    -- offer, and then no acceptable offer has a higher q-value.
    pub pick_lem :
        (offered : List Str)
        → let best = pick ql ranges offered in
          ((best ≡ []) × Tops zero_q offered)
          ⊎ ((best ≡ mime_json) × ((quality ql mime_html ranges).1 ≡ some 2))
          ⊎ (In best offered × (acceptable best ≡ true) × Tops (quality ql best ranges).0 offered)
    unfolding pick is_browser
    pick_lem offered =
        let r = best_loop ql ranges offered ([], zero_q) in
        elim (best_loop-eq_or offered) [
          | inl (none', tops) ↦ inl (rw none' refl, tops)
          | inr best ↦ elim (List-cases r.0) [
            | inl blank ↦
                let e : pick ql ranges offered ≡ r.0 = rw (pick, blank) refl in
                inr (inr (rw e best))
            | inr (c, cs, full) ↦ elim (Bool-cases (is_browser ql ranges r.1)) [
              | inl browser ↦ inr (inl (rw (pick, full, browser) refl, named r.1 browser))
              | inr other ↦
                  let e : pick ql ranges offered ≡ r.0 = rw (pick, full, other) refl in
                  inr (inr (rw e best))
            ]
          ]
        ]

module _ (ql : Quality) (laws : IsLess ql) (lower : ℕ → ℕ)
    (parse_media : Str → Option (Str × Map Str Str)) where
  negotiate-offered :
      (accept : Str) (offered : List Str)
      → In mime_json offered
      → (negotiate ql lower parse_media accept offered ≡ [])
        ⊎ In (negotiate ql lower parse_media accept offered) offered
  unfolding negotiate
  negotiate-offered accept [] i = elim i [ ]
  negotiate-offered accept (o ∷ os) i =
      let ranges = parse_accept ql lower parse_media accept in
      let Fits = λ (m : Str). (m ≡ []) ⊎ In m (o ∷ os) in
      elim (Bool-cases (length ranges == 0)) [
        | inl none' ↦ subst Fits (sym (rw (negotiate, none') refl)) (inr (inl refl))
        | inr some' ↦
            subst Fits (sym (rw (negotiate, some') refl)) (elim (pick_lem ql ranges laws (o ∷ os)) [
              | inl (e, tops) ↦ inl e
              | inr (inl (e, browser)) ↦ inr (subst (λ m. In m (o ∷ os)) (sym e) i)
              | inr (inr (j, a, tops)) ↦ inr j
            ])
      ]

  -- On a route that offers JSON, the handler runs with a format that the route offers, or the request
  -- is refused: with 400 if it names a format in its `format` parameter, with 406 if it does not.
  pub negotiate_media_lem :
      (offered : List Str) (format accept : Str)
      → In mime_json offered
      → ((media : Str) × In media offered
          × (negotiate_media ql lower parse_media offered format accept ≡ proceed media))
        ⊎ (negotiate_media ql lower parse_media offered format accept
            ≡ reject (if is_empty format then 406 else 400))
  unfolding negotiate_media format_param
  negotiate_media_lem offered format accept json =
      let v = to_lower lower (trim_space format) in
      elim (Bool-cases (is_empty format)) [
        | inr named ↦ elim (Bool-cases (is_empty (format_loop v format_params offered))) [
          | inl unknown ↦ inr (rw (named, unknown) refl)
          | inr known ↦ inl (
            format_loop v format_params offered,
            In-format_loop v format_params offered known,
            rw (named, known) refl,
          )
        ]
        | inl unnamed ↦
            elim (Bool-cases (is_empty (negotiate ql lower parse_media accept offered))) [
              | inl nothing ↦ inr (rw (unnamed, nothing) refl)
              | inr best ↦ elim (negotiate-offered accept offered json) [
                | inl e ↦ absurd (cc (rw e at best))
                | inr i ↦
                    inl (negotiate ql lower parse_media accept offered, i, rw (unnamed, best) refl)
              ]
            ]
      ]
