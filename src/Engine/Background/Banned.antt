-- ===== src/Engine/Background/Banned.antt =====
-- engine_reputation.go and engine_background.go: a ban by reputation, from the script to the next
-- request of the address.
use guard_go.Base.{
  ℕ, ◌≡◌, ◌≢◌, ◌∙◌, refl, sym, ap, Bool, true, false, Option, none, some, List, [], ◌∷◌,
  if◌then◌else◌, ◌>>=◌, arith, inl, inr,
}
use guard_go.Base.Int.{ℤ, pos, leb_ℤ, ◌+ℤ◌, ◌*ℤ◌, wrap64, IsInt64}
use guard_go.Text.{Bytes, codes, is_empty}
use guard_go.Config.{World}
use guard_go.Cache.{blacklist}
use guard_go.Decision.{millisecond}
use guard_go.Redis.{Verdict, reputation}
use guard_go.Redis.Reputation.{IsTimed, IsBan, ban_after, new_score, reputation_lem}
use guard_go.Engine.{Site, Engine, Network, Trip, Snapshot, travel, round_trip, bloom_add, emit}
use guard_go.Engine.Penalty.{count, blacklist_key, penalty_key}
use guard_go.Engine.Keys.{attempts_key, listed, boxed, tried, key_for, key_for_injective}
use guard_go.Engine.Process.{ip_of, process}
use guard_go.Engine.Quiet.{FilterIsValid, add_known-FilterIsValid}
use guard_go.Engine.Bans.{IsDenied, Holds, held-IsDenied, still_running, blacklist-peek}
use guard_go.Engine.Background.{
  reputation_keys, levels_of, reputation_field, act_on, after_reputation, apply_reputation_score,
  parse_reputation, lua_verdict, react,
}

-- An answered and undisturbed trip.
pub travel_lem :
    {S A : Type 0} (s : S) (trips : List (Trip S)) (command : S → A × S)
    → trips ≡ []
    → travel s trips command ≡ (some ((command s).0), record { store = (command s).1; trips = [] })
unfolding travel
travel_lem s [] command e = refl
travel_lem s (t ∷ ts) command e = absurd (ground arith)

pub if_true : {A : Type 0} (b : Bool) (a a' : A) → b ≡ true → (if b then a else a') ≡ a
if_true true a a' e = refl
if_true false a a' e = absurd (ground arith)

attempts_key-apart : (prefix ip : Bytes) → attempts_key prefix ip ≢ penalty_key prefix ip
unfolding key_for
attempts_key-apart prefix ip e =
    let same : tried ≡ boxed = (key_for_injective tried boxed prefix ip ip e).0 in
    absurd (ground (arith, same))

blacklist_key-apart : (prefix ip : Bytes) → blacklist_key prefix ip ≢ penalty_key prefix ip
unfolding key_for
blacklist_key-apart prefix ip e =
    let same : listed ≡ boxed = (key_for_injective listed boxed prefix ip ip e).0 in
    absurd (ground (arith, same))

module _ (w : World) (x : Site w) where
  -- The run of the script for a snapshot, and the score that it reaches.
  abbrev pub run : Snapshot → w.Float → Engine w x → Verdict x.redis × x.redis.Store
  run s score e =
      reputation x.redis (reputation_keys w x e.cfg.prefix s.ip) (levels_of w x e)
        (reputation_field w x s) (x.number score) e.network.store

  abbrev pub reached : Snapshot → w.Float → Engine w x → x.redis.Float
  reached s score e =
      new_score x.redis (reputation_keys w x e.cfg.prefix s.ip) (levels_of w x e)
        (reputation_field w x s) (x.number score) e.network.store

  -- How long the ban lasts, by the bans that the address has had.
  abbrev pub ban_time : Snapshot → Engine w x → ℤ
  ban_time s e = wrap64 (
      ban_after x.redis (reputation_keys w x e.cfg.prefix s.ip) (levels_of w x e)
        (x.redis.count (attempts_key e.cfg.prefix s.ip) e.network.store)
      *ℤ pos millisecond)

  after_run : Snapshot → w.Float → Engine w x → Engine w x
  after_run s score e = record e { network = record { store = (run s score e).1; trips = [] } }

  react-run :
      (s : Snapshot) (score : w.Float) (now : ℤ) (e : Engine w x)
      → e.cfg.reputation.enabled ≡ true
      → e.network.trips ≡ []
      → react w x s score now e
        ≡ act_on w x s.ip now
            (parse_reputation (lua_verdict w x ((run s score e).0)))
            (after_run s score e)
  unfolding react apply_reputation_score round_trip after_run after_reputation
  react-run s score now e on quiet =
      if_true e.cfg.reputation.enabled _ _ on
      ∙ ap
          (λ (p : Option (Verdict x.redis) × Network x.redis.Store).
            after_reputation w x s.ip now
              (elim p.0 [ none ↦ none | some v ↦ some (parse_reputation (lua_verdict w x v)) ])
              (record e { network = p.1 }))
          (travel_lem e.network.store e.network.trips
            (reputation x.redis (reputation_keys w x e.cfg.prefix s.ip) (levels_of w x e)
              (reputation_field w x s) (x.number score))
            quiet)

  run-IsBan :
      (s : Snapshot) (score : w.Float) (e : Engine w x)
      → IsTimed (levels_of w x e)
      → x.redis.at_least (reached s score e) (x.number e.cfg.reputation.threshold) ≡ true
      → IsBan x.redis
          (reputation_keys w x e.cfg.prefix s.ip)
          (levels_of w x e)
          (x.redis.count (attempts_key e.cfg.prefix s.ip) e.network.store)
          ((run s score e).0)
          ((run s score e).1)
  unfolding reputation_keys levels_of
  run-IsBan s score e timed over =
      elim (reputation_lem x.redis (reputation_keys w x e.cfg.prefix s.ip) (levels_of w x e) timed
        (attempts_key-apart e.cfg.prefix s.ip) (blacklist_key-apart e.cfg.prefix s.ip)
        (reputation_field w x s) (x.number score) e.network.store) [
          | inl (_, ban) ↦ ban
          | inr rest ↦ elim rest [
            | inl (below, _, _) ↦ absurd (ground (arith, sym over ∙ below))
            | inr (below, _, _) ↦ absurd (ground (arith, sym over ∙ below))
          ]
        ]

  -- The action of a ban: it holds in the local cache, and the store stays as the script left it.
  act_on-Holds :
      (ip : Bytes) (now ttl attempts : ℤ) (e : Engine w x)
      → FilterIsValid e.bf
      → (e' : Engine w x) × (act_on w x ip now (pos 2, ttl, attempts) e ≡ some e')
        × Holds w x ip (wrap64 (now +ℤ ttl)) e e'
        × (e'.network ≡ e.network)
  unfolding act_on bloom_add
  act_on-Holds ip now ttl attempts e v =
      let (bf, added, valid) = add_known-FilterIsValid ip e.bf v in
      (
        emit w x
            (count w x (codes "reputation_blacklist_total") (codes "attempt") (x.decimal attempts))
            (record e { cache = blacklist x.lru ip (wrap64 (now +ℤ ttl)) e.cache; bf = bf }),
        rw (added, ◌>>=◌) refl,
        (blacklist-peek x.lru ip (wrap64 (now +ℤ ttl)) e.cache, refl),
        refl,
      )

  -- A score that brings the reputation of an address to its threshold bans it: Redis lists it, and if a
  -- request of the address is the next thing that this engine sees, before the ban expires, it is denied
  -- without a round trip to Redis. The ban lasts for the level of the bans that the address has had.
  -- (Reputation is on, its durations are positive in milliseconds, Redis answers the script and nobody
  -- else changes the store before it, the expiry is an instant that an int64 of nanoseconds can hold, and
  -- the filter is one that New has built.)
  pub react-process-IsDenied :
      (s : Snapshot) (score : w.Float) (r : w.Request) (now now' later : ℤ) (e : Engine w x)
      → is_empty (ip_of w x e r) ≡ false
      → s.ip ≡ ip_of w x e r
      → FilterIsValid e.bf
      → e.cfg.reputation.enabled ≡ true
      → e.network.trips ≡ []
      → IsTimed (levels_of w x e)
      → x.redis.at_least (reached s score e) (x.number e.cfg.reputation.threshold) ≡ true
      → IsInt64 (now +ℤ ban_time s e)
      → leb_ℤ (now +ℤ ban_time s e) now' ≡ false
      → (e' : Engine w x) × (react w x s score now e ≡ some e')
        × (x.redis.member (blacklist_key e.cfg.prefix s.ip) e'.network.store ≡ true)
        × IsDenied w x e' (process w x r now' later e')
  unfolding parse_reputation reputation_keys after_run
  react-process-IsDenied s score r now now' later e named same v on quiet timed over fits running =
      let ban = run-IsBan s score e timed over in
      let verdict : Verdict x.redis = (run s score e).0 in
      let e1 : Engine w x = after_run s score e in
      let attempts : ℤ = pos verdict.attempts in
      let (e', acted, held, net) = act_on-Holds s.ip now (ban_time s e) attempts e1 v in
      let act : act_on w x s.ip now (parse_reputation (lua_verdict w x verdict)) e1
          ≡ act_on w x s.ip now (pos 2, ban_time s e, attempts) e1 =
        ap
          (λ (n : ℕ).
            act_on w x s.ip now (pos n, wrap64 (verdict.ban_ttl *ℤ pos millisecond), attempts) e1)
          ban.acts
        ∙ ap (λ (t : ℤ). act_on w x s.ip now (pos 2, wrap64 (t *ℤ pos millisecond), attempts) e1)
            ban.lasts in
      let held' : Holds w x (ip_of w x e r) (wrap64 (now +ℤ ban_time s e)) e e' =
        (ap (λ (ip : Bytes). x.lru.peek ip e'.cache) (sym same) ∙ held.0, held.1) in
      (
        e',
        react-run s score now e on quiet ∙ act ∙ acted,
        ap (λ (n : Network x.redis.Store). x.redis.member (blacklist_key e.cfg.prefix s.ip) n.store)
              net
            ∙ ban.banned,
        held-IsDenied w x r now' later (wrap64 (now +ℤ ban_time s e)) e e' named held'
            (still_running w x (now +ℤ ban_time s e) now' fits running),
      )
