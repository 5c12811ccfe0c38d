-- ===== src/Harvest/Bluesky/Earned.antt =====
-- Which rows an event of the firehose calls for (docs/corpus-policy.md), and the branches of handle
-- (api/internal/harvest/bluesky.go).
use sentilyzer.Prelude.{
  ℕ, ◌≡◌, ◌≢◌, refl, sym, ap, ◌∙◌, subst, ◌⊎◌, inl, inr, Bool, true, false, ◌||◌, Bool-cases,
  Option-cases, Option, none, some, Str, str_eq, str_eq_iff, arith,
}
use sentilyzer.Prelude.Text.{codes, is_empty, trim_space}
use sentilyzer.Errors.{GoError, Result, done, fail}
use sentilyzer.Harvest.Corpus.{Document, stamp}
use sentilyzer.Harvest.Sink.{
  Row, document, tombstone, Tombstone, Sink, IsSink, Wrote, Adds, Keeps, stamp_tombstone,
}
use sentilyzer.Harvest.Jetstream.{Event, Commit, Post, Account, post_collection}
use sentilyzer.Harvest.Bluesky.{
  BlueskyFilter, BlueskyHarvester, admit, doc_id_of, account_tombstone, doc_tombstone,
  post_document, revoke, keep, skip, handle_account, handle_post, handle_commit, handle,
}

str_test : {s t : Str} → str_eq s t ≡ true → s ≡ t
str_test {s} {t} h = (str_eq_iff s t).0 h

str_differs : {s t : Str} → str_eq s t ≡ false → s ≢ t
str_differs {s} {t} h e = let yes' = (str_eq_iff s t).1 e in cc

absurd_blank : {b : Bool} → b ≡ true → b ≢ false
absurd_blank h k = cc

not_made :
    {op : Str}
    → (str_eq op (codes "create") || str_eq op (codes "update")) ≡ false
    → ¬ ((op ≡ codes "create") ⊎ (op ≡ codes "update"))
not_made {op} h (inl e) = let c = (str_eq_iff op (codes "create")).1 e in ground arith
not_made {op} h (inr e) = let c = (str_eq_iff op (codes "update")).1 e in ground arith

abbrev active_of : Option Account → Bool
active_of none = false
active_of (some a) = a.active

made_or :
    {op : Str}
    → (str_eq op (codes "create") || str_eq op (codes "update")) ≡ true
    → (op ≡ codes "create") ⊎ (op ≡ codes "update")
made_or {op} h = elim (Bool-cases (str_eq op (codes "create"))) [
  | inl create ↦ inl (str_test create)
  | inr other ↦ inr (str_test (rw other at h))
]

module _ (platform : Str) (lower : ℕ → ℕ) (hash : Str → Str) (hash64 : Str → ℕ)
    (filter : BlueskyFilter) where
  -- `Earns ev at r`: the event ev calls for the row r, written at the time `at`.
  pub data Earns : Event → Str → Row → Type 0 where
    account_gone :
        {ev : Event} {at : Str} {a : Account}
        → ev.kind ≡ codes "account"
        → ev.account ≡ some a
        → a.active ≡ false
        → Earns ev at (tombstone (stamp_tombstone at (account_tombstone platform ev)))
    post_deleted :
        {ev : Event} {at : Str} {c : Commit}
        → ev.kind ≡ codes "commit"
        → ev.commit ≡ some c
        → c.collection ≡ post_collection
        → c.operation ≡ codes "delete"
        → Earns ev at (tombstone (stamp_tombstone at (doc_tombstone platform ev c)))
    post_made :
        {ev : Event} {at : Str} {c : Commit} {p : Post}
        → ev.kind ≡ codes "commit"
        → ev.commit ≡ some c
        → c.collection ≡ post_collection
        → (c.operation ≡ codes "create") ⊎ (c.operation ≡ codes "update")
        → c.post ≡ some p
        → is_empty (trim_space p.text) ≡ false
        → admit lower hash64 filter (doc_id_of ev.did c) (trim_space p.text) p.langs ≡ true
        → Earns ev at (document (stamp lower hash at (post_document platform ev c p)))

  -- The branches in which an event earns nothing.
  account_stays :
      (ev : Event)
      → ev.kind ≡ codes "account"
      → ((a : Account) → ev.account ≡ some a → a.active ≡ true)
      → (at : Str) (r : Row) → ¬ Earns ev at r
  account_stays ev k h at r (account_gone {a = a} k' e i) = let i' = h a e in cc
  account_stays ev k h at r (post_deleted k' e i o) = cc
  account_stays ev k h at r (post_made k' e i o p t d) = cc

  other_kind :
      (ev : Event)
      → ev.kind ≢ codes "account"
      → ev.kind ≢ codes "commit"
      → (at : Str) (r : Row) → ¬ Earns ev at r
  other_kind ev k l at r (account_gone k' e i) = k k'
  other_kind ev k l at r (post_deleted k' e i o) = l k'
  other_kind ev k l at r (post_made k' e i o p t d) = l k'

  -- A commit earns nothing, if no part of a commit that would is there.
  abbrev EmptyCommit : Event → Commit → Type 0
  EmptyCommit ev c =
      c.collection ≡ post_collection
      → (c.operation ≢ codes "delete")
        × ((c.operation ≡ codes "create") ⊎ (c.operation ≡ codes "update")
            → (p : Post) → c.post ≡ some p
            → is_empty (trim_space p.text) ≡ false
            → admit lower hash64 filter (doc_id_of ev.did c) (trim_space p.text) p.langs ≢ true)

  no_commit :
      (ev : Event)
      → ev.kind ≡ codes "commit"
      → ev.commit ≡ none
      → (at : Str) (r : Row) → ¬ Earns ev at r
  no_commit ev k h at r (account_gone k' e i) = cc
  no_commit ev k h at r (post_deleted k' e i o) = cc
  no_commit ev k h at r (post_made k' e i o g t d) = cc

  no_post :
      (ev : Event) (c : Commit)
      → ev.kind ≡ codes "commit"
      → ev.commit ≡ some c
      → EmptyCommit ev c
      → (at : Str) (r : Row) → ¬ Earns ev at r
  no_post ev c k l h at r (account_gone k' e i) = cc
  no_post ev c k l h at r (post_deleted {c = c'} k' e i o) =
      let same : c ≡ c' = cc in (subst (EmptyCommit ev) same h i).0 o
  no_post ev c k l h at r (post_made {c = c'} {p = p} k' e i o g t d) =
      let same : c ≡ c' = cc in (subst (EmptyCommit ev) same h i).1 o p g t d

  module _ {S : Type 0} (sink : Sink S) (Written : S → Row → Type 0) (Ready : S → Type 0)
      (is_sink : IsSink lower hash sink Written Ready) where
    abbrev pub EarnsNothing : Event → Type 0
    EarnsNothing ev = (at : Str) (r : Row) → ¬ Earns ev at r

    -- The writer refused the row of the event, with the error e.
    abbrev pub Refused : Event → S → GoError → S → Type 0
    Refused ev s e s' =
        ((d : Document) × ((at : Str) → Earns ev at (document (stamp lower hash at d)))
          × (sink.write_document d s ≡ (fail e, s')))
        ⊎ ((t : Tombstone) × ((at : Str) → Earns ev at (tombstone (stamp_tombstone at t)))
            × (sink.write_tombstone t s ≡ (fail e, s')))

    -- The event is handled: its row is written, or it earns none and none is written. An error is one of the writer, and
    -- then none is written.
    abbrev pub Handled : Event → S → Result (Unit {0}) → S → Type 0
    Handled ev s (done u) s' =
        (((row : Str → Row) × ((at : Str) → Earns ev at (row at)) × Adds Written s s' row)
          ⊎ (EarnsNothing ev × Keeps Written s s'))
        × Ready s'
    Handled ev s (fail e) s' = Keeps Written s s' × Ready s' × Refused ev s e s'

    wrote-Handled :
        (ev : Event) (row : Str → Row) (s : S) (r : Result (Unit {0}) × S)
        → ((at : Str) → Earns ev at (row at))
        → Wrote Written Ready s row r
        → ((e : GoError) (s' : S) → r ≡ (fail e, s') → Refused ev s e s')
        → Handled ev s r.0 r.1
    wrote-Handled ev row s (done u, s') earns (adds, y) refused = (inl (row, earns, adds), y)
    wrote-Handled ev row s (fail e, s') earns (keeps, y) refused = (keeps, y, refused e s' refl)

    abbrev pub Handles :
        Event → (BlueskyHarvester S → Result (Unit {0}) × BlueskyHarvester S) → Type 0
    Handles ev handler =
        (h : BlueskyHarvester S)
        → Ready h.writer
        → Handled ev h.writer (handler h).0 (handler h).1.writer

    nothing-Handles : (ev : Event) → EarnsNothing ev → Handles ev (λ h. (done tt, h))
    nothing-Handles ev none' h y = (inr (none', λ r. ((λ w. w), λ w. w)), y)

    revoke-Handles :
        (ev : Event) (t : Tombstone)
        → ((at : Str) → Earns ev at (tombstone (stamp_tombstone at t)))
        → Handles ev (revoke sink platform lower hash64 filter t)
    unfolding revoke
    revoke-Handles ev t earns h y =
        wrote-Handled ev (λ at. tombstone (stamp_tombstone at t)) h.writer
          (sink.write_tombstone t h.writer) earns (is_sink.tombstones t h.writer y)
          (λ e s' p. inr (t, earns, p))

    keep-Handles :
        (ev : Event) (d : Document)
        → ((at : Str) → Earns ev at (document (stamp lower hash at d)))
        → Handles ev (keep sink platform lower hash64 filter d)
    unfolding keep
    keep-Handles ev d earns h y =
        wrote-Handled ev (λ at. document (stamp lower hash at d)) h.writer
          (sink.write_document d h.writer) earns (is_sink.documents d h.writer y)
          (λ e s' p. inl (d, earns, p))

    skip-Handles :
        (ev : Event) → EarnsNothing ev → Handles ev (skip sink platform lower hash64 filter)
    unfolding skip
    skip-Handles ev none' h y = (inr (none', λ r. ((λ w. w), λ w. w)), y)

    handle_account-Handles :
        (ev : Event)
        → ev.kind ≡ codes "account"
        → Handles ev (handle_account sink platform lower hash64 filter ev)
    unfolding handle_account
    handle_account-Handles ev k = elim (Option-cases ev.account) [
      | inl no_account ↦
          simp (no_account, handle_account) (nothing-Handles ev (account_stays ev k (λ a e. cc)))
      | inr (a, e) ↦ elim (Bool-cases a.active) [
        | inl active ↦
            simp (e, active, handle_account)
              (nothing-Handles ev
                (account_stays ev k (λ b e'. ap (λ o. active_of o) (sym e' ∙ e) ∙ active)))
        | inr gone ↦
            simp (e, gone, handle_account)
              (revoke-Handles ev (account_tombstone platform ev) (λ at. account_gone k e gone))
      ]
    ]

    handle_post-Handles :
        (ev : Event) (c : Commit) (p : Post)
        → ev.kind ≡ codes "commit"
        → ev.commit ≡ some c
        → c.collection ≡ post_collection
        → c.operation ≢ codes "delete"
        → (c.operation ≡ codes "create") ⊎ (c.operation ≡ codes "update")
        → c.post ≡ some p
        → Handles ev (handle_post sink platform lower hash64 filter ev c p)
    unfolding handle_post
    handle_post-Handles ev c p k e i n o g = elim (Bool-cases (is_empty (trim_space p.text))) [
      | inl blank ↦
          rw (blank, handle_post)
            (skip-Handles ev (
              no_post ev c k e (λ i'. (
                n,
                λ o' q g' t d.
                    let same : p ≡ q = cc in
                    absurd_blank (subst (λ x. is_empty (trim_space x.text) ≡ true) same blank) t,
              ))))
      | inr word ↦
          elim (Bool-cases
            (admit lower hash64 filter (doc_id_of ev.did c) (trim_space p.text) p.langs)) [
              | inl taken ↦
                  rw (word, taken, handle_post)
                    (keep-Handles ev (post_document platform ev c p)
                      (λ at. post_made k e i o g word taken))
              | inr left ↦
                  rw (word, left, handle_post)
                    (skip-Handles ev (
                      no_post ev c k e (λ i'. (
                        n,
                        λ o' q g' t d.
                            let same : p ≡ q = cc in
                            absurd_blank d (
                              subst
                                (λ x.
                                  admit lower hash64 filter (doc_id_of ev.did c) (trim_space x.text)
                                    x.langs
                                  ≡ false)
                                same left),
                      ))))
            ]
    ]

    handle_commit-Handles :
        (ev : Event) (c : Commit)
        → ev.kind ≡ codes "commit"
        → ev.commit ≡ some c
        → Handles ev (handle_commit sink platform lower hash64 filter ev c)
    unfolding handle_commit
    handle_commit-Handles ev c k e = elim (Bool-cases (str_eq c.collection post_collection)) [
      | inr other ↦
          rw (other, handle_commit)
            (nothing-Handles ev (no_post ev c k e (λ i. absurd (str_differs other i))))
      | inl posts ↦ elim (Bool-cases (str_eq c.operation (codes "delete"))) [
        | inl delete ↦
            rw (posts, delete, handle_commit)
              (revoke-Handles ev (doc_tombstone platform ev c)
                (λ at. post_deleted k e (str_test posts) (str_test delete)))
        | inr kept ↦
            elim (Bool-cases
              (str_eq c.operation (codes "create") || str_eq c.operation (codes "update"))) [
                | inl made ↦ elim (Option-cases c.post) [
                  | inl no_record ↦
                      simp (posts, kept, made, no_record, handle_commit)
                        (nothing-Handles ev
                          (no_post ev c k e (λ i. (str_differs kept, λ o p g t d. cc))))
                  | inr (p, g) ↦
                      simp (posts, kept, made, g, handle_commit)
                        (handle_post-Handles ev c p k e (str_test posts) (str_differs kept)
                          (made_or made) g)
                ]
                | inr neither ↦
                    rw (posts, kept, neither, handle_commit)
                      (nothing-Handles ev (
                        no_post ev c k e
                          (λ i. (str_differs kept, λ o p g t d. not_made neither o))))
              ]
      ]
    ]

    pub handle-Handles : (ev : Event) → Handles ev (handle sink platform lower hash64 filter ev)
    unfolding handle
    handle-Handles ev = elim (Bool-cases (str_eq ev.kind (codes "account"))) [
      | inl account ↦ rw (account, handle) (handle_account-Handles ev (str_test account))
      | inr other ↦ elim (Bool-cases (str_eq ev.kind (codes "commit"))) [
        | inl commit ↦ elim (Option-cases ev.commit) [
          | inl none_there ↦
              simp (other, commit, none_there, handle)
                (nothing-Handles ev (no_commit ev (str_test commit) none_there))
          | inr (c, e) ↦
              simp (other, commit, e, handle) (handle_commit-Handles ev c (str_test commit) e)
        ]
        | inr neither ↦
            rw (other, neither, handle)
              (nothing-Handles ev (other_kind ev (str_differs other) (str_differs neither)))
      ]
    ]
