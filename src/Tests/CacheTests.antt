-- ===== src/Tests/CacheTests.antt =====
-- internal/blacklist/cache.go over a cache that never evicts.
use guard_go.Base.{◌≡◌, refl, sym, ap, true, not, Option, none, some, List, [], ◌∷◌, inl}
use guard_go.Base.Int.{ℤ, pos, leb_ℤ}
use guard_go.Text.{Bytes, codes}
use guard_go.Tests.Stores.{put, put-same, put-other}
use guard_go.Cache.{Lru, new_cache, is_blacklisted, check_expiry, blacklist}
use guard_go.Cache.History.{
  Call, ban, ask, live, last_ban, after_calls, after_call, blacklist-is_blacklisted,
  is_blacklisted-last_ban,
}

abbrev look : Option (Bytes → Option ℤ) → Bytes → Option ℤ
look none k = none
look (some s) k = s k

abbrev pub unbounded : Lru
unbounded = record {
  State = Bytes → Option ℤ;
  peek = λ k s. s k;
  create = λ size. some (λ k. none);
  create_peek = λ size s k e. sym (ap (λ (o : Option (Bytes → Option ℤ)). look o k) e);
  get = λ k s. (s k, s);
  get_value = λ k s. refl;
  get_peek = λ k j s. refl;
  add = λ k v s. put s k (some v);
  add_peek = λ k v s. put-same s k (some v);
  add_other = λ k j v s ne. inl (put-other s k j (some v) ne);
  remove = λ k s. put s k none;
  remove_peek = λ k s. put-same s k none;
  remove_other = λ k j s ne. put-other s k j none ne;
}

abbrev calls : List Call
calls = ask (codes "a") (pos 5) ∷ ban (codes "a") (pos 9) ∷ ban (codes "b") (pos 4) ∷ []

run_calls :
    (is_blacklisted unbounded (codes "a") (pos 6) (after_calls unbounded calls (λ k. none))).0
    ≡ true
unfolding is_blacklisted check_expiry after_calls after_call blacklist put
run_calls = refl

blacklist-is_blacklisted_example :
    (is_blacklisted unbounded
      (codes "a")
      (pos 6)
      (blacklist unbounded (codes "a") (pos 9) (λ k. none))).0
    ≡ not (leb_ℤ (pos 9) (pos 6))
blacklist-is_blacklisted_example =
    blacklist-is_blacklisted unbounded (codes "a") (pos 9) (pos 6) (λ k. none)

is_blacklisted-last_ban_example : live unbounded (last_ban (codes "a") calls) (pos 6) ≡ true
unfolding new_cache
is_blacklisted-last_ban_example =
    is_blacklisted-last_ban unbounded (pos 16) (λ k. none) calls (codes "a") (pos 6) refl run_calls
