-- ===== src/Cache.antt =====
-- api/internal/cache/cache.go: the TTL cache over an LRU. The LRU is the third-party package
-- golang-lru, so it is a parameter: its operations, with the documented behaviour as laws. The
-- mutex makes each method one step; `now` is the clock's value at the call. The time to live may be
-- negative, and so may an expiry, which then lies before the zero time.
pub mod Expiry
use sentilyzer.Prelude.Int.{ℤ, pos, negsuc}
use sentilyzer.Prelude.{
  ℕ, ◌+◌, ◌-◌, ◌≤◌, ◌<◌, ◌≡◌, ◌≢◌, refl, Bool, true, false, Option, none, some, List, [], ◌∷◌, ltb,
  if◌then◌else◌, arith, Str, inl, inr, Bool-cases, ap, ◌∙◌,
}

pub record Entry {ℓ} (V : Type ℓ) : Type ℓ where
  pub value : V
  pub expires_at : ℤ

-- now.Add(ttl)
unfoldable pub expiry_of : ℕ → ℤ → ℤ
expiry_of now (pos d) = pos (now + d)
expiry_of now (negsuc d) = if ltb d now then pos (now - (d + 1)) else negsuc (d - now)

-- now.After(t)
unfoldable pub is_after : ℕ → ℤ → Bool
is_after now (pos t) = ltb t now
is_after now (negsuc t) = true

-- lru.Cache: a state, and the calls that the program makes. `peek` is what a `Get` of the key would
-- return; adding may evict other keys, and nothing else brings a key in.
pub record Lru (K V : Type 0) : Type 1 where
  pub State : Type 0
  pub create : ℕ → Option State
  pub get : State → K → Option V × State
  pub add : State → K → V → State
  pub remove : State → K → State
  pub size : State → ℕ

-- What the package documents of those calls.
pub record IsLru {K V : Type 0} (l : Lru K V) : Type 0 where
  pub create_empty : (n : ℕ) {s : l.State} (k : K) → l.create n ≡ some s → (l.get s k).0 ≡ none
  pub get_get : (s : l.State) (k j : K) → (l.get (l.get s k).1 j).0 ≡ (l.get s j).0
  pub get-add_self : (s : l.State) (k : K) (v : V) → (l.get (l.add s k v) k).0 ≡ some v
  pub get-add_ne :
      (s : l.State) (k j : K) (v w : V)
      → j ≢ k
      → (l.get (l.add s k v) j).0 ≡ some w
      → (l.get s j).0 ≡ some w
  pub get-remove_self : (s : l.State) (k : K) → (l.get (l.remove s k) k).0 ≡ none
  pub get-remove_ne : (s : l.State) (k j : K) → j ≢ k → (l.get (l.remove s k) j).0 ≡ (l.get s j).0

module _ {K V : Type 0} (l : Lru K (Entry V)) where
  pub record TtlCache : Type 0 where
    pub ttl : ℤ
    pub lru : l.State

  unfoldable pub new : ℕ → ℤ → Option TtlCache
  new size ttl = elim (l.create size) [
    | none ↦ none
    | some s ↦ some (record { ttl = ttl; lru = s })
  ]

  unfoldable pub get : TtlCache → ℕ → K → Option V × TtlCache
  unfolding is_after
  get c now key =
      let (found, lru) = l.get c.lru key in
      elim found [
        | none ↦ (none, record c { lru = lru })
        | some v ↦
            if is_after now v.expires_at
            then (none, record c { lru = l.remove lru key })
            else (some v.value, record c { lru = lru })
      ]

  unfoldable pub set : TtlCache → ℕ → K → V → TtlCache
  unfolding expiry_of
  set c now key value = record c {
    lru = l.add c.lru key (record { value = value; expires_at = expiry_of now c.ttl });
  }

  unfoldable pub len : TtlCache → ℕ
  len c = l.size c.lru
