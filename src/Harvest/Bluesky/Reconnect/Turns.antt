-- ===== src/Harvest/Bluesky/Reconnect/Turns.antt =====
-- The waits, the cursors and the end of Run (api/internal/harvest/bluesky.go).
use sentilyzer.Prelude.{
  ℕ, ◌*◌, ◌≤◌, min, ◌≡◌, ◌⊎◌, Bool, true, false, ◌||◌, List, [], ◌∷◌, Str, if◌then◌else◌,
}
use sentilyzer.Prelude.Int.{ℤ}
use sentilyzer.Errors.{GoError, Sentinel, Result, is}
use sentilyzer.Harvest.Jetstream.{Event, Subscription}
use sentilyzer.Harvest.Bluesky.{BlueskyHarvester}
use sentilyzer.Harvest.Bluesky.Reconnect.{
  minute, Progress, Attempt, Ran, int_lt, connect, save_cursor_at, run_loop,
}

-- Each wait is the one before, doubled, and a minute at most.
abbrev pub Doubling : ℕ → List ℕ → Type 0
Doubling b [] = Unit
Doubling b (w ∷ ws) = (w ≡ b) × (w ≤ minute) × Doubling (min (b * 2) minute) ws

-- The context ends in one of these turns.
abbrev pub Ends : List Attempt → Type 0
Ends [] = ⊥
Ends (a ∷ as') = (a.ended_after || a.ended_waiting ≡ true) ⊎ Ends as'

-- The later of two cursors.
abbrev pub IsLater : ℤ → ℤ → ℤ → Type 0
IsLater c d e = (int_lt e c ≡ false) × (int_lt e d ≡ false) × ((e ≡ c) ⊎ (e ≡ d))

-- One turn, where the loop goes on or not.
record Turn {S : Type 0} (attempts : List Attempt) (backoff : ℕ) (r : Ran S) : Type 0 where
  waits : Doubling backoff r.waited
  returns : Ends attempts → r.returned ≡ true

-- What a turn leaves: it stops after the stream or in the wait, or the rest follows.
abbrev turned : {S : Type 0} → Bool → Bool → ℤ → ℕ → Progress S → Ran S → Ran S
turned stop waiting cursor backoff q rest =
    if stop
    then record { returned = true; progress = q; asked = cursor ∷ []; waited = [] }
    else if waiting
    then record { returned = true; progress = q; asked = cursor ∷ []; waited = backoff ∷ [] }
    else record {
      returned = rest.returned;
      progress = rest.progress;
      asked = cursor ∷ rest.asked;
      waited = backoff ∷ rest.waited;
    }

module _ {S : Type 0} (target : Subscription → Result Str) (clock : Event → ℕ)
    (handle : Event → BlueskyHarvester S → Result (Unit {0}) × BlueskyHarvester S)
    (cursor_path : Str) (cursor_every : ℕ) where
  -- The connection of a turn: the cursor and the error that Stream returns, and the harvester that it leaves.
  abbrev pub connected : Attempt → ℤ → Progress S → (ℤ × GoError) × Progress S
  connected = connect target clock handle cursor_path cursor_every

  -- What the turns ask for, where they wait and whether Run has returned, from a cursor on. Each turn connects from its
  -- cursor. It is the last if the context has ended after its stream or the error of the stream is Canceled, without a
  -- wait, or if the context ends in its wait. Else the next turn has the later of the cursor and what the stream
  -- returned, and the harvester that the stream left.
  abbrev pub Course : List Attempt → ℤ → Progress S → List ℤ → List ℕ → Bool → Type 0
  Course [] c p asked waited returned = (asked ≡ []) × (waited ≡ []) × (returned ≡ false)
  Course (a ∷ as') c p asked waited returned =
      (((a.ended_after ≡ true) ⊎ (is (connected a c p).0.1 Sentinel.canceled ≡ true))
        × (asked ≡ c ∷ [])
        × (waited ≡ [])
        × (returned ≡ true))
      ⊎ (((a.ended_waiting ≡ true)
            × (asked ≡ c ∷ [])
            × ((w : ℕ) × (waited ≡ w ∷ []))
            × (returned ≡ true))
          ⊎ ((a.ended_after ≡ false)
              × (a.ended_waiting ≡ false)
              × ((next : ℤ) × (q : Progress S) × (later : List ℤ) × (w : ℕ) × (ws : List ℕ)
                  × IsLater c (connected a c p).0.0 next
                  × (q.harvester ≡ (connected a c p).1.harvester)
                  × (asked ≡ c ∷ later)
                  × (waited ≡ w ∷ ws)
                  × Course as' next q later ws returned)))

  abbrev loop : List Attempt → ℤ → ℕ → Progress S → Ran S
  loop = run_loop target clock handle cursor_path cursor_every

  -- What is left of a turn.
  abbrev saved_after : Attempt → ℤ → Progress S → Progress S
  saved_after a cursor p =
      let r = connected a cursor p in
      if int_lt cursor r.0.0
      then save_cursor_at target clock handle cursor_path cursor_every r.0.0 r.1
      else r.1
