-- ===== src/Harvest/Jetstream.antt =====
-- api/internal/harvest/jetstream.go: the events, the URL that is subscribed to and the read loop. The
-- websocket and the JSON decoder are parameters: a connection is the frames that it delivers, then an
-- error. Times are microseconds.
use sentilyzer.Prelude.{ℕ, ◌-◌, Bool, Option, none, some, List, [], ◌∷◌, Str, if◌then◌else◌}
use sentilyzer.Prelude.Int.{ℤ, pos, negsuc, is_positive, int_str}
use sentilyzer.Prelude.Text.{codes}
use sentilyzer.Errors.{GoError, wrap, Result, done, fail}

abbrev pub post_collection : Str
post_collection = codes "app.bsky.feed.post"

-- the record, the commit and the account of an Event
pub record Post : Type 0 where
  pub text : Str
  pub langs : List Str
  pub created_at : Str

pub record Commit : Type 0 where
  pub operation : Str
  pub collection : Str
  pub rkey : Str
  pub post : Option Post

pub record Account : Type 0 where
  pub active : Bool
  pub did : Str

pub record Event : Type 0 where
  pub did : Str
  pub time_us : ℤ
  pub kind : Str
  pub commit : Option Commit
  pub account : Option Account

-- the query parameters of the subscribe URL
pub record Subscription : Type 0 where
  pub wanted_collections : Str
  pub cursor : Option Str

-- 5 s
abbrev pub rewind_us : ℕ
rewind_us = 5_000_000

-- max(cursorUS - 5s, 0)
unfoldable pub rewound : ℤ → ℕ
rewound (pos n) = n - rewind_us
rewound (negsuc n) = 0

unfoldable pub subscription : ℤ → Subscription
unfolding rewound int_str
subscription cursor = record {
  wanted_collections = post_collection;
  cursor = if is_positive cursor then some (int_str (pos (rewound cursor))) else none;
}

-- A frame that does not decode is none.
pub record Connection : Type 0 where
  pub frames : List (Option Event)
  pub ended : GoError

module _ {S : Type 0} (handle : Event → S → Result (Unit {0}) × S) where
  -- the loop, with the last `time_us`
  unfoldable pub read_frames : List (Option Event) → GoError → ℤ → S → (ℤ × GoError) × S
  read_frames [] ended last s = ((last, wrap (codes "jetstream read: ") ended []), s)
  read_frames (none ∷ frames) ended last s = read_frames frames ended last s
  read_frames (some ev ∷ frames) ended last s =
      let seen : ℤ = if is_positive ev.time_us then ev.time_us else last in
      let handled = handle ev s in
      let rest = read_frames frames ended seen handled.1 in
      elim handled.0 [ done u ↦ rest | fail err ↦ ((seen, err), handled.1) ]

  -- The base URL that does not parse fails in the same way as a dial: `target` is the URL.
  unfoldable pub stream :
      (Subscription → Result Str) → (Str → Result Connection) → ℤ → S → (ℤ × GoError) × S
  unfolding subscription read_frames
  stream target dial cursor s = elim (target (subscription cursor)) [
    | fail err ↦ ((cursor, wrap (codes "jetstream url: ") err []), s)
    | done url ↦ elim (dial url) [
      | fail err ↦ ((cursor, wrap (codes "jetstream dial: ") err []), s)
      | done conn ↦ read_frames conn.frames conn.ended cursor s
    ]
  ]
