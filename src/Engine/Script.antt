-- ===== src/Engine/Script.antt =====
-- engine_process.go: a request that neither local cache holds and no filter keeps comes to the script.
use guard_go.Base.{◌≡◌, ◌∙◌, refl, sym, ap, subst₂, Bool, true, false, Option, none, List, []}
use guard_go.Base.Int.{ℤ, pos, leb_ℤ, wrap64, ◌*ℤ◌}
use guard_go.Text.{Bytes, is_empty}
use guard_go.Config.{World, MiddlewareConfig}
use guard_go.Bloom.{Filter}
use guard_go.Cache.{is_blacklisted}
use guard_go.Cache.History.{live, is_blacklisted-live}
use guard_go.Decision.{millisecond}
use guard_go.Engine.{Site, Engine, Network, Trip, round_trip}
use guard_go.Engine.Penalty.{is_in_penalty, penalty_reply, penalty_key, blacklist_key}
use guard_go.Engine.Process.{
  limit_for, script_stage, ask_filter, bloom_stage, penalty_stage, cache_stage, ip_of, key_of,
  process,
}
use guard_go.Engine.Bans.{limit_for-IsInternal}
use guard_go.Engine.Outage.{if_false}
use guard_go.Engine.Background.Banned.{travel_lem, if_true}

module _ (w : World) (x : Site w) where
  -- Redis answers, nobody else changes its store, it lists the address as given and does not keep it in
  -- the penalty box.
  pub record IsCalm (listed : Bool) (ip : Bytes) (prefix : Bytes) (n : Network x.redis.Store)
      : Type 0 where
    pub calm : n.trips ≡ []
    pub lists : x.redis.member (blacklist_key prefix ip) n.store ≡ listed
    pub unboxed :
        leb_ℤ (wrap64 (x.redis.pttl (penalty_key prefix ip) n.store *ℤ pos millisecond)) (pos 0)
        ≡ true

  -- The engine after the question whether the address is in the penalty box.
  calm_box :
      (listed : Bool) (ip : Bytes) (now : ℤ) (e : Engine w x)
      → live x.lru (x.lru.peek ip e.pbox) now ≡ false
      → IsCalm listed ip e.cfg.prefix e.network
      → (e1 : Engine w x) × (is_in_penalty w x ip now e ≡ (false, pos 0, e1))
        × (e1.cfg ≡ e.cfg)
        × (e1.bf ≡ e.bf)
        × (e1.network ≡ e.network)
  unfolding is_in_penalty penalty_reply round_trip
  calm_box listed ip now e free calm =
      let ask : x.redis.Store → ℤ × x.redis.Store =
        λ s. (x.redis.pttl (penalty_key e.cfg.prefix ip) s, s) in
      let asked : Network x.redis.Store = record { store = e.network.store; trips = [] } in
      let box = (is_blacklisted x.lru ip now e.pbox).1 in
      (
        record e { pbox = box; network = asked },
        if_false ((is_blacklisted x.lru ip now e.pbox).0) _ _
              (is_blacklisted-live x.lru ip now e.pbox ∙ free)
            ∙ ap
                (λ (p : Option ℤ × Network x.redis.Store).
                  penalty_reply w x ip now p.0 (record e { pbox = box; network = p.1 }))
                (travel_lem e.network.store e.network.trips ask calm.calm)
            ∙ if_true
                (leb_ℤ
                  (wrap64
                    (x.redis.pttl (penalty_key e.cfg.prefix ip) e.network.store *ℤ pos millisecond))
                  (pos 0))
                _ _ calm.unboxed,
        refl,
        refl,
        ap (λ (ts : List (Trip x.redis.Store)). record { store = e.network.store; trips = ts })
            (sym calm.calm),
      )

  -- What a request finds at the script: the settings, the store and the filter have not changed.
  abbrev pub ComesTo : w.Request → ℤ → ℤ → Engine w x → Type 0
  ComesTo r now later e =
      (e1 : Engine w x) × (process w x r now later e
        ≡ script_stage w x r (ip_of w x e r) (key_of w x e r) now
            (limit_for w x (ip_of w x e r) now e).0 e1)
      × (e1.cfg ≡ e.cfg)
      × (e1.bf ≡ none)
      × (e1.network ≡ e.network)

  penalty_stage-script :
      (listed : Bool) (r : w.Request) (ip key : Bytes) (now later limit : ℤ) (e : Engine w x)
      → is_empty ip ≡ false
      → live x.lru (x.lru.peek ip e.pbox) now ≡ false
      → e.bf ≡ none
      → IsCalm listed ip e.cfg.prefix e.network
      → (e1 : Engine w x) × (penalty_stage w x r ip key now later limit e
          ≡ script_stage w x r ip key now limit e1)
        × (e1.cfg ≡ e.cfg)
        × (e1.bf ≡ none)
        × (e1.network ≡ e.network)
  unfolding penalty_stage bloom_stage ask_filter
  penalty_stage-script listed r ip key now later limit e named free unfiltered calm =
      let (e1, asked, cfg, bf, net) = calm_box listed ip now e free calm in
      (
        e1,
        rw (named, asked)
            (ap (λ (o : Option Filter). ask_filter w x o r ip key now limit e1) (bf ∙ unfiltered)),
        cfg,
        bf ∙ unfiltered,
        net,
      )

  pub process-script :
      (listed : Bool) (r : w.Request) (now later : ℤ) (e : Engine w x)
      → is_empty (ip_of w x e r) ≡ false
      → live x.lru (x.lru.peek (ip_of w x e r) e.cache) now ≡ false
      → live x.lru (x.lru.peek (ip_of w x e r) e.pbox) now ≡ false
      → e.bf ≡ none
      → IsCalm listed (ip_of w x e r) e.cfg.prefix e.network
      → ComesTo r now later e
  unfolding process cache_stage
  process-script listed r now later e named unbanned unboxed unfiltered calm =
      let ip : Bytes = ip_of w x e r in
      let key : Bytes = key_of w x e r in
      let limited = limit_for w x ip now e in
      let e1 : Engine w x = limited.1 in
      let same = limit_for-IsInternal w x ip now e in
      let hit : (is_blacklisted x.lru ip now e1.cache).0 ≡ false =
        is_blacklisted-live x.lru ip now e1.cache
        ∙ ap (λ (c : x.lru.State). live x.lru (x.lru.peek ip c) now) same.same_cache
        ∙ unbanned in
      let e2 : Engine w x = record e1 { cache = (is_blacklisted x.lru ip now e1.cache).1 } in
      let (e3, comes, cfg, bf, net) =
        penalty_stage-script listed r ip key now later limited.0 e2 named
          (ap (λ (c : x.lru.State). live x.lru (x.lru.peek ip c) now) same.same_pbox ∙ unboxed)
          (same.same_bf ∙ unfiltered)
          (subst₂
            (λ (c : MiddlewareConfig w) (n : Network x.redis.Store). IsCalm listed ip c.prefix n)
            (sym same.same_cfg) (sym same.same_network) calm) in
      (e3, rw (named, hit) comes, cfg ∙ same.same_cfg, bf, net ∙ same.same_network)
