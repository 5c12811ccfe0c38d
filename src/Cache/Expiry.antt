-- ===== src/Cache/Expiry.antt =====
-- What a caller of the cache can be served (api/internal/cache/cache.go, `Get` and `Set`), over any
-- LRU that keeps its documented laws, evictions included.
use sentilyzer.Prelude.{
  ℕ, ◌≤◌, ◌≡◌, false, none, some, List, [], ◌∷◌, if◌then◌else◌, arith, inl, inr, Bool-cases,
  Option-cases, ◌∙◌, sym, subst, Eq, ◌=?◌,
}
use sentilyzer.Prelude.Maps.{Map, lookup, insert, lookup-insert}
use sentilyzer.Cache.{Entry, Lru, IsLru, TtlCache, expiry_of, is_after, new, get, set}
use sentilyzer.Prelude.Int.{ℤ, pos, negsuc}

-- The time `now` is not after t.
abbrev pub Until : ℕ → ℤ → Type 0
Until now (pos t) = now ≤ t
Until now (negsuc t) = ⊥

Until-is_after : (now : ℕ) (t : ℤ) → is_after now t ≡ false → Until now t
unfolding is_after
Until-is_after now (pos t) h = ground arith
Until-is_after now (negsuc t) h = cc

pub is_after-Until : (now : ℕ) (t : ℤ) → Until now t → is_after now t ≡ false
unfolding is_after
is_after-Until now (pos t) h = ground arith
is_after-Until now (negsuc t) h = absurd h

-- A call, with the clock's value at the call.
pub data Call (K V : Type 0) : Type 0 where
  get_at : ℕ → K → Call K V
  set_at : ℕ → K → V → Call K V

module _ {K V : Type 0} (l : Lru K (Entry V)) where
  unfoldable pub step : TtlCache l → Call K V → TtlCache l
  step c (get_at now k) = (get l c now k).1
  step c (set_at now k v) = set l c now k v

  unfoldable pub run : TtlCache l → List (Call K V) → TtlCache l
  unfolding step
  run c [] = c
  run c (call ∷ calls) = run (step c call) calls

  -- The last value set for each key, with its expiry.
  unfoldable pub history : ⦃e : Eq K⦄ → ℤ → Map K (Entry V) → List (Call K V) → Map K (Entry V)
  history ttl h [] = h
  history ttl h (get_at now k ∷ calls) = history ttl h calls
  history ttl h (set_at now k v ∷ calls) =
      history ttl (insert k (record { value = v; expires_at = expiry_of now ttl }) h) calls

  -- A value set at `t` is what the next `Get` of its key returns until the time to live has passed,
  -- and nothing is returned afterwards.
  pub get-set_self :
      IsLru l
      → (c : TtlCache l) (t now : ℕ) (k : K) (v : V)
      → (get l (set l c t k v) now k).0
        ≡ (if is_after now (expiry_of t c.ttl) then none else some v)
  unfolding get set
  get-set_self laws c t now k v =
      ground
        (arith, laws.get-add_self c.lru k (record { value = v; expires_at = expiry_of t c.ttl }))

  -- A lookup keeps the time to live.
  pub ttl-get : (c : TtlCache l) (now : ℕ) (k : K) → (get l c now k).1.ttl ≡ c.ttl
  unfolding get
  ttl-get c now k = ground arith

  module _ ⦃e : Eq K⦄ (laws : IsLru l) where
    -- Whatever the LRU holds for a key is the last value set for it.
    record Tracks (c : TtlCache l) (h : Map K (Entry V)) : Type 0 where
      at_key : (k : K) (x : Entry V) → (l.get c.lru k).0 ≡ some x → lookup k h ≡ some x

    step-get-Tracks :
        (c : TtlCache l) (h : Map K (Entry V)) (now : ℕ) (k : K)
        → Tracks c h
        → Tracks (get l c now k).1 h
    unfolding get
    step-get-Tracks c h now k t = record {
      at_key = λ j x p.
          let s = (l.get c.lru k).1 in
          ground (
            arith,
            laws.get_get c.lru k j,
            laws.get-remove_self s k,
            laws.get-remove_ne s k j,
            t.at_key j x,
          );
    }

    step-set-Tracks :
        (c : TtlCache l) (h : Map K (Entry V)) (now : ℕ) (k : K) (v : V)
        → Tracks c h
        → Tracks
            (set l c now k v)
            (insert k (record { value = v; expires_at = expiry_of now c.ttl }) h)
    unfolding set
    step-set-Tracks c h now k v t = record {
      at_key = λ j x p.
          let new : Entry V = record { value = v; expires_at = expiry_of now c.ttl } in
          rw (lookup-insert k j new h) (elim (Bool-cases (k =? j)) [
            | inl same ↦ ground (arith, same, e.beq_iff k j, laws.get-add_self c.lru k new)
            | inr other ↦ rw other (
                t.at_key j x
                  (laws.get-add_ne c.lru k j new x (λ q. cc (other, (e.beq_iff k j).1 (sym q))) p))
          ]);
    }

    run-Tracks :
        (calls : List (Call K V)) (c : TtlCache l) (ttl : ℤ) (h : Map K (Entry V))
        → c.ttl ≡ ttl
        → Tracks c h
        → Tracks (run c calls) (history ttl h calls)
    unfolding run history
    run-Tracks [] c ttl h same t = t
    run-Tracks (get_at now k ∷ calls) c ttl h same t =
        run-Tracks calls (get l c now k).1 ttl h (ttl-get c now k ∙ same)
          (step-get-Tracks c h now k t)
    run-Tracks (set_at now k v ∷ calls) c ttl h same t =
        run-Tracks calls (set l c now k v) ttl
          (insert k (record { value = v; expires_at = expiry_of now ttl }) h) (unfold set in same)
          (subst
            (λ n.
              Tracks (set l c now k v)
                (insert k (record { value = v; expires_at = expiry_of now n }) h))
            same (step-set-Tracks c h now k v t))

    empty-Tracks : (size : ℕ) (ttl : ℤ) (c : TtlCache l) → new l size ttl ≡ some c → Tracks c []
    unfolding new
    empty-Tracks size ttl c made = record {
      at_key = λ k x p. elim (Option-cases (l.create size)) [
        | inl none' ↦ absurd (ground arith)
        | inr (s, e') ↦ absurd (ground (arith, laws.create_empty size k e'))
      ];
    }

    -- From a new cache, after any calls and whatever the LRU evicted: a value that `Get` returns is
    -- the last one set for its key, and its time to live has not passed.
    pub get-after_run :
        (size : ℕ) (ttl : ℤ) (c : TtlCache l) (calls : List (Call K V)) (now : ℕ) (k : K) (v : V)
        → new l size ttl ≡ some c
        → (get l (run c calls) now k).0 ≡ some v
        → (x : Entry V) × (lookup k (history ttl [] calls) ≡ some x)
          × (x.value ≡ v)
          × Until now x.expires_at
    unfolding new get
    get-after_run size ttl c calls now k v made hit =
        let s = (run c calls).lru in
        elim (Option-cases (l.get s k).0) [
          | inl miss ↦ absurd (ground arith)
          | inr (x, found) ↦ (
            x,
            (run-Tracks calls c ttl [] (ground arith) (empty-Tracks size ttl c made)).at_key k x
                found,
            ground arith,
            Until-is_after now x.expires_at (ground arith),
          )
        ]
