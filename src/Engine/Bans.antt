-- ===== src/Engine/Bans.antt =====
-- engine_process.go and engine_penalty.go: an address that is banned stays out.
use guard_go.Base.{
  ◌≡◌, ◌∙◌, refl, ap, true, false, not, Option, some, ◌>>=◌, Bool-cases, Option-cases, inl, inr,
}
use guard_go.Base.Int.{ℤ, pos, leb_ℤ, ◌+ℤ◌, wrap64, wrap64-eq, IsInt64}
use guard_go.Text.{Bytes, codes, is_empty}
use guard_go.Config.{World, MiddlewareConfig}
use guard_go.Cache.{Lru, is_blacklisted, blacklist}
use guard_go.Cache.History.{live, is_blacklisted-live}
use guard_go.Decision.{Decision, blacklisted, new_decision, new_decision_with_ttl}
use guard_go.Engine.{Site, Engine, inc_blacklisted, emit, emit_request, round_trip, bloom_add}
use guard_go.Engine.Penalty.{ban_ip, ban_command, blacklist_key}
use guard_go.Engine.Process.{
  limit_for, finish, block, learn, judge_listed, cache_stage, ip_of, process,
}
use guard_go.Engine.Quiet.{FilterIsValid, add_known-FilterIsValid}

pub blacklist-peek :
    (l : Lru) (ip : Bytes) (until : ℤ) (c : l.State)
    → l.peek ip (blacklist l ip until c) ≡ some until
unfolding blacklist
blacklist-peek l ip until c = l.add_peek ip until c

module _ (w : World) (x : Site w) where
  -- The settings, the caches, the filter, the queue, the store and the events stay as they are.
  pub record IsInternal (e e' : Engine w x) : Type 0 where
    pub same_cfg : e'.cfg ≡ e.cfg
    pub same_cache : e'.cache ≡ e.cache
    pub same_pbox : e'.pbox ≡ e.pbox
    pub same_bf : e'.bf ≡ e.bf
    pub same_queue : e'.queue ≡ e.queue
    pub same_network : e'.network ≡ e.network
    pub same_events : e'.events ≡ e.events

  pub limit_for-IsInternal :
      (ip : Bytes) (now : ℤ) (e : Engine w x) → IsInternal e ((limit_for w x ip now e).1)
  unfolding limit_for
  limit_for-IsInternal ip now e = elim (Option-cases e.sh) [
    | inl no_healing ↦ rw no_healing (record {
      same_cfg = refl;
      same_cache = refl;
      same_pbox = refl;
      same_bf = refl;
      same_queue = refl;
      same_network = refl;
      same_events = refl;
    })
    | inr (s, healing) ↦ rw healing (record {
      same_cfg = refl;
      same_cache = refl;
      same_pbox = refl;
      same_bf = refl;
      same_queue = refl;
      same_network = refl;
      same_events = refl;
    })
  ]

  pub finish-IsInternal :
      (now : ℤ) (d : Decision) (e : Engine w x) → IsInternal e ((finish w x now d e).1)
  unfolding finish
  finish-IsInternal now d e = elim (Option-cases e.sh) [
    | inl no_healing ↦ rw no_healing (record {
      same_cfg = refl;
      same_cache = refl;
      same_pbox = refl;
      same_bf = refl;
      same_queue = refl;
      same_network = refl;
      same_events = refl;
    })
    | inr (s, healing) ↦ rw healing (record {
      same_cfg = refl;
      same_cache = refl;
      same_pbox = refl;
      same_bf = refl;
      same_queue = refl;
      same_network = refl;
      same_events = refl;
    })
  ]

  pub finish-decision : (now : ℤ) (d : Decision) (e : Engine w x) → (finish w x now d e).0 ≡ d
  unfolding finish
  finish-decision now d e = elim (Option-cases e.sh) [
    | inl no_healing ↦ rw no_healing refl
    | inr (s, healing) ↦ rw healing refl
  ]

  -- A request that the local cache denies: the engine has asked nobody.
  pub record IsDenied (e : Engine w x) (m : Option (Decision × Engine w x)) : Type 0 where
    pub decision : Decision
    pub engine : Engine w x
    pub answers : m ≡ some (decision, engine)
    pub denied : decision.is_allowed ≡ false
    pub because : decision.reason ≡ blacklisted
    pub unasked : engine.network ≡ e.network

  block-cached :
      (now limit window : ℤ) (e : Engine w x)
      → IsDenied e (
          some (
            block w x
              (codes "cache_blacklist")
              now
              (new_decision false blacklisted limit now window)
              (emit w x inc_blacklisted e)))
  unfolding block new_decision new_decision_with_ttl
  block-cached now limit window e =
      let d : Decision = new_decision false blacklisted limit now window in
      let e1 : Engine w x =
        emit_request w x (codes "blocked") (codes "cache_blacklist") (emit w x inc_blacklisted e) in
      let out = finish w x now d e1 in
      record {
        decision = out.0;
        engine = out.1;
        answers = refl;
        denied = rw (finish-decision now d e1) refl;
        because = rw (finish-decision now d e1) refl;
        unasked = (finish-IsInternal now d e1).same_network;
      }

  -- While the local cache holds a ban of the address, Process denies its requests as blacklisted
  -- without a round trip to Redis.
  pub process-IsDenied :
      (r : w.Request) (now later until : ℤ) (e : Engine w x)
      → is_empty (ip_of w x e r) ≡ false
      → x.lru.peek (ip_of w x e r) e.cache ≡ some until
      → leb_ℤ until now ≡ false
      → IsDenied e (process w x r now later e)
  unfolding process cache_stage live
  process-IsDenied r now later until e named held running =
      let ip : Bytes = ip_of w x e r in
      let limited = limit_for w x ip now e in
      let e1 : Engine w x = limited.1 in
      let same = limit_for-IsInternal ip now e in
      let hit : (is_blacklisted x.lru ip now e1.cache).0 ≡ true =
        is_blacklisted-live x.lru ip now e1.cache
        ∙ ap (λ (c : x.lru.State). live x.lru (x.lru.peek ip c) now) same.same_cache
        ∙ ap (λ (o : Option ℤ). live x.lru o now) held
        ∙ ap not running in
      let e2 : Engine w x = record e1 { cache = (is_blacklisted x.lru ip now e1.cache).1 } in
      let out = block-cached now limited.0 e1.cfg.window e2 in
      rw (named, hit)
        (record {
          decision = out.decision;
          engine = out.engine;
          answers = out.answers;
          denied = out.denied;
          because = out.because;
          unasked = out.unasked ∙ same.same_network;
        })

  learn-cache :
      (ip : Bytes) (e : Engine w x)
      → FilterIsValid e.bf
      → (e' : Engine w x) × (learn w x ip e ≡ some e') × (e'.cache ≡ e.cache) × (e'.cfg ≡ e.cfg)
  unfolding learn bloom_add
  learn-cache ip e v = elim (Bool-cases (is_empty ip)) [
    | inl unnamed ↦ (e, rw unnamed refl, refl, refl)
    | inr named ↦
        let (bf, added, valid) = add_known-FilterIsValid ip e.bf v in
        (record e { bf = bf }, rw (named, added, ◌>>=◌) refl, refl, refl)
  ]

  -- What follows an answer that holds the address in the cache until an instant.
  abbrev pub Holds : Bytes → ℤ → Engine w x → Engine w x → Type 0
  Holds ip until e e' = (x.lru.peek ip e'.cache ≡ some until) × (e'.cfg ≡ e.cfg)

  abbrev pub IsRefusal : Decision → Type 0
  IsRefusal d = (d.is_allowed ≡ false) × (d.reason ≡ blacklisted)

  pub judge_listed-Holds :
      (ip : Bytes) (now limit counter ttl : ℤ) (e : Engine w x)
      → FilterIsValid e.bf
      → (d : Decision) × (e' : Engine w x) × (judge_listed w x ip now limit counter ttl e
          ≡ some (d, e'))
        × IsRefusal d
        × Holds ip (wrap64 (now +ℤ pos 2000000000)) e e'
  unfolding judge_listed new_decision_with_ttl
  judge_listed-Holds ip now limit counter ttl e v =
      let until : ℤ = wrap64 (now +ℤ pos 2000000000) in
      let e1 : Engine w x =
        record (emit_request w x (codes "blocked") (codes "redis_blacklist")
          (emit w x inc_blacklisted e)) { cache = blacklist x.lru ip until e.cache } in
      let (e2, learned, cache, cfg) = learn-cache ip e1 v in
      let d : Decision =
        new_decision_with_ttl false blacklisted counter limit now ttl e.cfg.window in
      let out = finish w x now d e2 in
      let same = finish-IsInternal now d e2 in
      (
        out.0,
        out.1,
        rw (learned, ◌>>=◌) refl,
        (
          ap (λ (d' : Decision). d'.is_allowed) (finish-decision now d e2),
          ap (λ (d' : Decision). d'.reason) (finish-decision now d e2),
        ),
        (
          ap (x.lru.peek ip) (same.same_cache ∙ cache) ∙ blacklist-peek x.lru ip until e.cache,
          same.same_cfg ∙ cfg,
        ),
      )

  -- Redis answers the commands of a ban.
  abbrev pub Takes : Bytes → ℤ → Engine w x → Type 0
  Takes ip ttl e =
      (round_trip w x (ban_command w x (blacklist_key e.cfg.prefix ip) ttl) e).0 ≡ some tt

  pub ban_ip-Holds :
      (ip : Bytes) (ttl now : ℤ) (e : Engine w x)
      → is_empty ip ≡ false
      → FilterIsValid e.bf
      → Takes ip ttl e
      → (e' : Engine w x) × (ban_ip w x ip ttl now e ≡ some (true, e'))
        × Holds ip (wrap64 (now +ℤ ttl)) e e'
  unfolding ban_ip bloom_add round_trip
  ban_ip-Holds ip ttl now e named v sent =
      let trip = round_trip w x (ban_command w x (blacklist_key e.cfg.prefix ip) ttl) e in
      let (bf, added, valid) = add_known-FilterIsValid ip e.bf v in
      (
        record trip.1 { cache = blacklist x.lru ip (wrap64 (now +ℤ ttl)) e.cache; bf = bf },
        rw (named, sent, added, ◌>>=◌) refl,
        (blacklist-peek x.lru ip (wrap64 (now +ℤ ttl)) e.cache, refl),
      )

  pub still_running :
      (until now' : ℤ)
      → IsInt64 until
      → leb_ℤ until now' ≡ false
      → leb_ℤ (wrap64 until) now' ≡ false
  still_running until now' fits running =
      ap (λ (t : ℤ). leb_ℤ t now') (wrap64-eq until fits) ∙ running

  pub held-IsDenied :
      (r : w.Request) (now later until : ℤ) (e e' : Engine w x)
      → is_empty (ip_of w x e r) ≡ false
      → Holds (ip_of w x e r) until e e'
      → leb_ℤ until now ≡ false
      → IsDenied e' (process w x r now later e')
  unfolding ip_of
  held-IsDenied r now later until e e' named (held, cfg) running =
      let same : ip_of w x e' r ≡ ip_of w x e r =
        ap (λ (c : MiddlewareConfig w). ip_of w x (record e { cfg = c }) r) cfg in
      process-IsDenied r now later until e' (ap is_empty same ∙ named)
        (ap (λ (ip : Bytes). x.lru.peek ip e'.cache) same ∙ held) running

  -- A ban whose commands Redis answers holds at once: if a request of the address is the next thing that
  -- this engine sees, before the ban expires, it is denied without a round trip to Redis. (The expiry is
  -- an instant that an int64 of nanoseconds can hold, and the filter is one that New has built.)
  pub ban_ip-process-IsDenied :
      (r : w.Request) (ttl now now' later : ℤ) (e : Engine w x)
      → is_empty (ip_of w x e r) ≡ false
      → FilterIsValid e.bf
      → Takes (ip_of w x e r) ttl e
      → IsInt64 (now +ℤ ttl)
      → leb_ℤ (now +ℤ ttl) now' ≡ false
      → (e' : Engine w x) × (ban_ip w x (ip_of w x e r) ttl now e ≡ some (true, e'))
        × IsDenied e' (process w x r now' later e')
  ban_ip-process-IsDenied r ttl now now' later e named v sent fits running =
      let (e', banned, held) = ban_ip-Holds (ip_of w x e r) ttl now e named v sent in
      (
        e',
        banned,
        held-IsDenied r now' later (wrap64 (now +ℤ ttl)) e e' named held
            (still_running (now +ℤ ttl) now' fits running),
      )
