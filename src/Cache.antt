-- ===== src/Cache.antt =====
-- internal/blacklist/cache.go: the local cache of bans. The LRU cache is a parameter, `Lru`, with its
-- documented behaviour; instants are in nanoseconds, within the range of UnixNano. Each operation runs
-- under the cache's mutex, so the operations of goroutines are a sequence of steps.
pub mod History
use guard_go.Base.{◌≡◌, ◌≢◌, ◌⊎◌, Bool, true, false, Option, none, some, if◌then◌else◌, ◌>>=◌}
use guard_go.Base.Int.{ℤ, pos, leb_ℤ}
use guard_go.Text.{Bytes}

-- `peek` is what a key holds. `add` may evict one other key; `get` only makes its key recent.
pub record Lru : Type 1 where
  pub State : Type 0
  pub peek : Bytes → State → Option ℤ
  pub create : ℤ → Option State
  pub create_peek : (size : ℤ) (s : State) (k : Bytes) → create size ≡ some s → peek k s ≡ none
  pub get : Bytes → State → Option ℤ × State
  pub get_value : (k : Bytes) (s : State) → (get k s).0 ≡ peek k s
  pub get_peek : (k j : Bytes) (s : State) → peek j ((get k s).1) ≡ peek j s
  pub add : Bytes → ℤ → State → State
  pub add_peek : (k : Bytes) (v : ℤ) (s : State) → peek k (add k v s) ≡ some v
  pub add_other :
      (k j : Bytes) (v : ℤ) (s : State)
      → j ≢ k
      → (peek j (add k v s) ≡ peek j s) ⊎ (peek j (add k v s) ≡ none)
  pub remove : Bytes → State → State
  pub remove_peek : (k : Bytes) (s : State) → peek k (remove k s) ≡ none
  pub remove_other : (k j : Bytes) (s : State) → j ≢ k → peek j (remove k s) ≡ peek j s

module _ (l : Lru) where
  -- `New`; the error is `none`.
  unfoldable pub new_cache : ℤ → Option l.State
  new_cache size = l.create size

  -- What `IsBlacklisted` does with the reply of `Get`.
  unfoldable pub check_expiry : Bytes → ℤ → Option ℤ × l.State → Bool × l.State
  check_expiry key now (none, s) = (false, s)
  check_expiry key now (some exp, s) = if leb_ℤ exp now then (false, l.remove key s) else (true, s)

  -- `IsBlacklisted`.
  unfoldable pub is_blacklisted : Bytes → ℤ → l.State → Bool × l.State
  is_blacklisted key now s = check_expiry key now (l.get key s)

  -- `Blacklist`.
  unfoldable pub blacklist : Bytes → ℤ → l.State → l.State
  blacklist key until s = l.add key until s
