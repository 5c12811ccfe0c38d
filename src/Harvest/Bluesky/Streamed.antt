-- ===== src/Harvest/Bluesky/Streamed.antt =====
-- What a stream of events leaves in the corpus (api/internal/harvest/bluesky.go, handle;
-- api/internal/harvest/jetstream.go, Stream).
use sentilyzer.Prelude.{
  ℕ, ◌≡◌, refl, sym, subst, ap, ◌⊎◌, inl, inr, List, [], ◌∷◌, ◌++◌, Option, none, some, Str,
  if◌then◌else◌,
}
use sentilyzer.Prelude.Int.{ℤ, is_positive}
use sentilyzer.Prelude.Text.{codes}
use sentilyzer.Prelude.Members.{In}
use sentilyzer.Errors.{GoError, wrap, Result, done, fail}
use sentilyzer.Harvest.Sink.{Row, Sink, IsSink}
use sentilyzer.Harvest.Jetstream.{Event, read_frames}
use sentilyzer.Harvest.Bluesky.{BlueskyFilter, BlueskyHarvester, handle}
use sentilyzer.Harvest.Bluesky.Earned.{Earns, Refused, Handled, handle-Handles}

module _ (platform : Str) (lower : ℕ → ℕ) (hash : Str → Str) (hash64 : Str → ℕ)
    (filter : BlueskyFilter) {S : Type 0} (sink : Sink S) (Written : S → Row → Type 0)
    (Ready : S → Type 0) (is_sink : IsSink lower hash sink Written Ready) where
  -- Some event among the frames calls for the row.
  abbrev pub EarnedBy : List (Option Event) → Row → Type 0
  EarnedBy frames r =
      (ev : Event) × (at : Str) × In (some ev) frames
      × Earns platform lower hash hash64 filter ev at r

  -- Every event among the frames that calls for a row has had it written, at some time.
  abbrev pub Honored : List (Option Event) → S → Type 0
  Honored frames s =
      (ev : Event) (at : Str) (r : Row)
      → In (some ev) frames
      → Earns platform lower hash hash64 filter ev at r
      → (at' : Str) × (r' : Row) × Earns platform lower hash hash64 filter ev at' r' × Written s r'

  abbrev pub handler : Event → BlueskyHarvester S → Result (Unit {0}) × BlueskyHarvester S
  handler = handle sink platform lower hash64 filter

  -- Each event of the frames is handled without an error, in order, from the first harvester to the second.
  abbrev pub AllDone : List (Option Event) → BlueskyHarvester S → BlueskyHarvester S → Type 0
  AllDone [] h h' = h ≡ h'
  AllDone (none ∷ frames) h h' = AllDone frames h h'
  AllDone (some ev ∷ frames) h h' =
      ((handler ev h).0 ≡ done tt) × AllDone frames (handler ev h).1 h'

  -- The last time of an event of the frames that is positive, or `last`.
  abbrev pub latest : ℤ → List (Option Event) → ℤ
  latest last [] = last
  latest last (none ∷ frames) = latest last frames
  latest last (some ev ∷ frames) =
      latest (if is_positive ev.time_us then ev.time_us else last) frames

  -- All is handled, up to the end of the connection; or the writer refused the row of the event after what is handled.
  abbrev pub Ended :
      List (Option Event)
      → List (Option Event)
      → GoError
      → ℤ
      → BlueskyHarvester S
      → (ℤ × GoError) × BlueskyHarvester S
      → Type 0
  Ended handled rest ended last h r =
      ((rest ≡ [])
        × AllDone handled h r.1
        × (r.0.0 ≡ latest last handled)
        × (r.0.1 ≡ wrap (codes "jetstream read: ") ended []))
      ⊎ ((ev : Event) × (more : List (Option Event)) × (h' : BlueskyHarvester S) × (rest
            ≡ some ev ∷ more)
          × AllDone handled h h'
          × Refused platform lower hash hash64 filter sink Written Ready is_sink ev h'.writer r.0.1
              r.1.writer
          × (r.0.0 ≡ latest last (handled ++ some ev ∷ [])))

  pub record Streamed (frames : List (Option Event)) (ended : GoError) (last : ℤ)
      (h : BlueskyHarvester S) (r : (ℤ × GoError) × BlueskyHarvester S) : Type 0 where
    pub handled : List (Option Event)
    pub rest : List (Option Event)
    pub split : frames ≡ handled ++ rest
    pub ends : Ended handled rest ended last h r
    pub honored : Honored handled r.1.writer
    pub earned : (row : Row) → Written r.1.writer row → Written h.writer row ⊎ EarnedBy frames row
    pub lasting : (row : Row) → Written h.writer row → Written r.1.writer row
    pub ready : Ready r.1.writer

  Ended-cons :
      (ev : Event) (handled rest : List (Option Event)) (ended : GoError) (last : ℤ)
      (h h2 : BlueskyHarvester S) (r : (ℤ × GoError) × BlueskyHarvester S)
      → handler ev h ≡ (done tt, h2)
      → Ended handled rest ended (if is_positive ev.time_us then ev.time_us else last) h2 r
      → Ended (some ev ∷ handled) rest ended last h r
  Ended-cons ev handled rest ended last h h2 r k (inl (nil, all, seen, err)) = inl (
    nil,
    (ap (λ x. x.0) k, subst (λ x. AllDone handled x r.1) (sym (ap (λ x. x.1) k)) all),
    seen,
    err,
  )
  Ended-cons ev handled rest ended last h h2 r k (inr (ev', more, h', next, all, refused, seen)) =
      inr (
        ev',
        more,
        h',
        next,
        (ap (λ x. x.0) k, subst (λ x. AllDone handled x h') (sym (ap (λ x. x.1) k)) all),
        refused,
        seen,
      )

  Honored-cons :
      (ev : Event) (frames : List (Option Event)) (s : S)
      → ((at : Str) (r : Row)
          → Earns platform lower hash hash64 filter ev at r
          → (at' : Str) × (r' : Row) × Earns platform lower hash hash64 filter ev at' r'
            × Written s r')
      → Honored frames s
      → Honored (some ev ∷ frames) s
  Honored-cons ev frames s first later e at r (inl same) k =
      let here : ev ≡ e = cc in
      subst
        (λ x.
          (at : Str) (r : Row)
          → Earns platform lower hash hash64 filter x at r
          → (at' : Str) × (r' : Row) × Earns platform lower hash hash64 filter x at' r'
            × Written s r')
        here first at r k
  Honored-cons ev frames s first later e at r (inr m) k = later e at r m k

  EarnedBy-later :
      (f : Option Event) (frames : List (Option Event)) (r : Row)
      → EarnedBy frames r
      → EarnedBy (f ∷ frames) r
  EarnedBy-later f frames r (ev, at, m, e) = (ev, at, inr m, e)

  -- One event, then the rest of the frames.
  abbrev after :
      Event
      → List (Option Event)
      → GoError
      → ℤ
      → Result (Unit {0}) × BlueskyHarvester S
      → (ℤ × GoError) × BlueskyHarvester S
  after ev frames ended seen r = elim r.0 [
    | done u ↦ read_frames handler frames ended seen r.1
    | fail err ↦ ((seen, err), r.1)
  ]

  Streamed-cons :
      (ev : Event) (frames : List (Option Event)) (ended : GoError) (last : ℤ)
      (h : BlueskyHarvester S) (r : Result (Unit {0}) × BlueskyHarvester S)
      → handler ev h ≡ r
      → Handled platform lower hash hash64 filter sink Written Ready is_sink ev h.writer r.0
          r.1.writer
      → let seen : ℤ = if is_positive ev.time_us then ev.time_us else last in
        (Ready r.1.writer
          → Streamed frames ended seen r.1 (read_frames handler frames ended seen r.1))
        → Streamed (some ev ∷ frames) ended last h (after ev frames ended seen r)
  Streamed-cons ev frames ended last h (fail e, h2) k (keeps, ready, refused) ih = record {
    handled = [];
    rest = some ev ∷ frames;
    split = refl;
    ends = inr (ev, frames, h, refl, refl, refused, refl);
    honored = λ e at' r m k'. elim m [ ];
    earned = λ row w. inl ((keeps row).0 w);
    lasting = λ row w. (keeps row).1 w;
    ready = ready;
  }
  Streamed-cons ev frames ended last h (done u, h2) k (inl (row, earns, (at, adds)), ready) ih =
      let rest = ih ready in
      record {
        handled = some ev ∷ rest.handled;
        rest = rest.rest;
        split = ap (λ fs. some ev ∷ fs) rest.split;
        ends = Ended-cons ev rest.handled rest.rest ended last h h2 _ k rest.ends;
        honored =
            Honored-cons ev rest.handled _
              (λ at' r k'.
                (at, row at, earns at, rest.lasting (row at) ((adds (row at)).1 (inr refl))))
              rest.honored;
        earned = λ r w. elim (rest.earned r w) [
          | inl old ↦ elim ((adds r).0 old) [
            | inl o ↦ inl o
            | inr e ↦ inr (
              ev,
              at,
              inl refl,
              subst (λ x. Earns platform lower hash hash64 filter ev at x) (sym e) (earns at),
            )
          ]
          | inr by ↦ inr (EarnedBy-later (some ev) frames r by)
        ];
        lasting = λ r w. rest.lasting r ((adds r).1 (inl w));
        ready = rest.ready;
      }
  Streamed-cons ev frames ended last h (done u, h2) k (inr (nothing, keeps), ready) ih =
      let rest = ih ready in
      record {
        handled = some ev ∷ rest.handled;
        rest = rest.rest;
        split = ap (λ fs. some ev ∷ fs) rest.split;
        ends = Ended-cons ev rest.handled rest.rest ended last h h2 _ k rest.ends;
        honored =
            Honored-cons ev rest.handled _ (λ at' r k'. absurd (nothing at' r k')) rest.honored;
        earned = λ r w. elim (rest.earned r w) [
          | inl old ↦ inl ((keeps r).0 old)
          | inr by ↦ inr (EarnedBy-later (some ev) frames r by)
        ];
        lasting = λ r w. rest.lasting r ((keeps r).1 w);
        ready = rest.ready;
      }

  -- What a connection leaves, for any sink and whatever the filter: the frames are handled in order without an error up
  -- to the end of the connection, whose error is returned, or up to an event whose row the writer refuses, with the error
  -- that is returned; the time returned is the last that is positive among those events, the refused one included. Each
  -- event handled that calls for a row (every deletion and every account gone, and the posts that the filter admits) has
  -- had it written. Every row written was there before or is called for by an event; and no row is lost.
  pub read_frames-Streamed :
      (frames : List (Option Event)) (ended : GoError) (last : ℤ) (h : BlueskyHarvester S)
      → Ready h.writer
      → Streamed frames ended last h (read_frames handler frames ended last h)
  unfolding read_frames
  read_frames-Streamed [] ended last h ready = record {
    handled = [];
    rest = [];
    split = refl;
    ends = inl (refl, refl, refl, refl);
    honored = λ e at r m k. elim m [ ];
    earned = λ row w. inl w;
    lasting = λ row w. w;
    ready = ready;
  }
  read_frames-Streamed (none ∷ frames) ended last h ready =
      let rest = read_frames-Streamed frames ended last h ready in
      record {
        handled = none ∷ rest.handled;
        rest = rest.rest;
        split = ap (λ fs. none ∷ fs) rest.split;
        ends = rest.ends;
        honored = λ e at r m k. elim m [ inl same ↦ cc | inr i ↦ rest.honored e at r i k ];
        earned = λ r w. elim (rest.earned r w) [
          | inl old ↦ inl old
          | inr by ↦ inr (EarnedBy-later none frames r by)
        ];
        lasting = rest.lasting;
        ready = rest.ready;
      }
  read_frames-Streamed (some ev ∷ frames) ended last h ready =
      let seen : ℤ = if is_positive ev.time_us then ev.time_us else last in
      let r = handler ev h in
      Streamed-cons ev frames ended last h r refl
        (handle-Handles platform lower hash hash64 filter sink Written Ready is_sink ev h ready)
        (λ y. read_frames-Streamed frames ended seen r.1 y)
