-- ===== src/Harvest/Bluesky/Reconnect.antt =====
-- api/internal/harvest/bluesky.go, Run: connections one after the other, with the cursor and the
-- backoff. What the world does in one turn is an `Attempt`; `clock` is the time at which an event is
-- handled. Durations are nanoseconds, and the logger is left out.
pub mod Turns
use sentilyzer.Prelude.{
  ℕ, ◌-◌, ◌*◌, ◌≤◌, min, Bool, true, false, not, ◌&&◌, ◌||◌, List, [], ◌∷◌, ◌++◌, Str, ltb, leb,
  if◌then◌else◌,
}
use sentilyzer.Prelude.Int.{ℤ, pos, negsuc, is_positive}
use sentilyzer.Prelude.Text.{is_empty}
use sentilyzer.Errors.{GoError, Sentinel, Result, done, fail, is}
use sentilyzer.Harvest.Jetstream.{Event, Subscription, Connection, stream}
use sentilyzer.Harvest.Bluesky.{BlueskyHarvester}

abbrev pub second : ℕ
second = 1_000_000_000

abbrev pub minute : ℕ
minute = 60_000_000_000

-- The harvester, what SaveCursor was asked to store, the latest last, and the time of the last save.
pub record Progress (S : Type 0) : Type 0 where
  pub harvester : BlueskyHarvester S
  pub saved : List ℤ
  pub last_save : ℕ

-- One turn of the loop: when it starts, what dialing gives, and whether the context has ended after the stream, or
-- ends in the wait.
pub record Attempt : Type 0 where
  pub started : ℕ
  pub dial : Str → Result Connection
  pub ended_after : Bool
  pub ended_waiting : Bool

-- What has happened: whether Run has returned, the cursors that the connections started from and the waits.
pub record Ran (S : Type 0) : Type 0 where
  pub returned : Bool
  pub progress : Progress S
  pub asked : List ℤ
  pub waited : List ℕ

-- a < b
unfoldable pub int_lt : ℤ → ℤ → Bool
int_lt (pos a) (pos b) = ltb a b
int_lt (pos a) (negsuc b) = false
int_lt (negsuc a) (pos b) = true
int_lt (negsuc a) (negsuc b) = ltb b a

-- 5 s if it is not set
unfoldable pub save_interval : ℤ → ℕ
save_interval (pos n) = if ltb 0 n then n else 5 * second
save_interval (negsuc n) = 5 * second

module _ {S : Type 0} (target : Subscription → Result Str) (clock : Event → ℕ)
    (handle : Event → BlueskyHarvester S → Result (Unit {0}) × BlueskyHarvester S)
    (cursor_path : Str) (cursor_every : ℕ) where
  unfoldable pub save_cursor_at : ℤ → Progress S → Progress S
  save_cursor_at cursor p =
      if not (is_empty cursor_path) then record p { saved = p.saved ++ cursor ∷ [] } else p

  -- the function that Run gives to Stream
  unfoldable pub handle_and_save : Event → Progress S → Result (Unit {0}) × Progress S
  handle_and_save ev p =
      let r = handle ev p.harvester in
      let q = record p { harvester = r.1 } in
      let due =
        not (is_empty cursor_path)
        && (is_positive ev.time_us && leb cursor_every (clock ev - p.last_save)) in
      elim r.0 [
        | fail err ↦ (fail err, q)
        | done u ↦ (
          done tt,
          if due then record q { saved = q.saved ++ ev.time_us ∷ []; last_save = clock ev } else q,
        )
      ]

  -- the stream of one turn, from the cursor
  unfoldable pub connect : Attempt → ℤ → Progress S → (ℤ × GoError) × Progress S
  connect a cursor p =
      stream handle_and_save target a.dial cursor (record p { last_save = a.started })

  unfoldable pub advance : ℤ → ℤ → ℤ
  advance cursor last = if int_lt cursor last then last else cursor

  unfoldable pub stops : Attempt → GoError → Bool
  stops a err = a.ended_after || is err Sentinel.canceled

  unfoldable pub run_loop : List Attempt → ℤ → ℕ → Progress S → Ran S
  run_loop [] cursor backoff p = record { returned = false; progress = p; asked = []; waited = [] }
  run_loop (a ∷ as') cursor backoff p =
      let r = connect a cursor p in
      let q = if int_lt cursor r.0.0 then save_cursor_at r.0.0 r.1 else r.1 in
      let rest = run_loop as' (advance cursor r.0.0) (min (backoff * 2) minute) q in
      if stops a r.0.1
      then record { returned = true; progress = q; asked = cursor ∷ []; waited = [] }
      else if a.ended_waiting
      then record { returned = true; progress = q; asked = cursor ∷ []; waited = backoff ∷ [] }
      else record {
        returned = rest.returned;
        progress = rest.progress;
        asked = cursor ∷ rest.asked;
        waited = backoff ∷ rest.waited;
      }

  -- `loaded` is what LoadCursor gives, where there is a path.
  unfoldable pub run : List Attempt → ℤ → BlueskyHarvester S → Ran S
  run attempts loaded h =
      run_loop attempts (if not (is_empty cursor_path) then loaded else pos 0) second
        (record { harvester = h; saved = []; last_save = 0 })
