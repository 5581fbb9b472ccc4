-- ===== src/Engine/Outage.antt =====
-- engine_process.go: what Process decides while Redis does not answer.
use guard_go.Base.{
  ◌≡◌, ◌∙◌, refl, sym, ap, subst, Bool, true, false, Option, none, some, List, [], ◌∷◌,
  if◌then◌else◌, arith,
}
use guard_go.Base.Int.{ℤ, pos, quot}
use guard_go.Text.{Bytes, is_empty}
use guard_go.Config.{World, MiddlewareConfig}
use guard_go.Bloom.{Filter}
use guard_go.Cache.{Lru, is_blacklisted}
use guard_go.Cache.History.{live, is_blacklisted-live}
use guard_go.Decision.{Decision, millisecond, new_decision, new_decision_with_ttl}
use guard_go.Redis.{Reply, critical_path}
use guard_go.Engine.{
  Site, Engine, Network, Trip, Delivery, answered, unsent, unanswered, deliver, travel, round_trip,
  emit, observe_lua_latency,
}
use guard_go.Engine.Penalty.{is_in_penalty, penalty_reply, penalty_key, redis_keys_for}
use guard_go.Engine.Process.{
  limit_for, allow, block, judge_error, judge_script, script_stage, ask_filter, bloom_stage,
  penalty_stage, cache_stage, ip_of, key_of, process,
}
use guard_go.Engine.Bans.{limit_for-IsInternal, finish-decision}

abbrev lost : Delivery → Bool
lost answered = false
lost unsent = true
lost unanswered = true

-- The next round trip, or the next two, bring no answer.
abbrev pub IsLost : {S : Type 0} → List (Trip S) → Type 0
IsLost [] = ⊥
IsLost (t ∷ ts) = lost t.delivery ≡ true

abbrev pub IsDown : {S : Type 0} → List (Trip S) → Type 0
IsDown [] = ⊥
IsDown (t ∷ ts) = (lost t.delivery ≡ true) × IsLost ts

deliver-lost :
    {S A : Type 0} (d : Delivery) (s : S) (command : S → A × S)
    → lost d ≡ true
    → (deliver d s command).0 ≡ none
unfolding deliver
deliver-lost answered s command e = absurd (ground arith)
deliver-lost unsent s command e = refl
deliver-lost unanswered s command e = refl

travel-IsLost :
    {S A : Type 0} (s : S) (trips : List (Trip S)) (command : S → A × S)
    → IsLost trips
    → (travel s trips command).0 ≡ none
unfolding travel
travel-IsLost s [] command h = absurd h
travel-IsLost s (t ∷ ts) command h = deliver-lost t.delivery (t.meanwhile s) command h

travel-IsDown :
    {S A : Type 0} (s : S) (trips : List (Trip S)) (command : S → A × S)
    → IsDown trips
    → ((travel s trips command).0 ≡ none) × IsLost (travel s trips command).1.trips
unfolding travel
travel-IsDown s [] command h = absurd h
travel-IsDown s (t ∷ ts) command h = (deliver-lost t.delivery (t.meanwhile s) command h.0, h.1)

pub if_false : {A : Type 0} (b : Bool) (a a' : A) → b ≡ false → (if b then a else a') ≡ a'
if_false true a a' e = absurd (ground arith)
if_false false a a' e = refl

pub not_held :
    (l : Lru) (ip : Bytes) (now : ℤ) (c : l.State)
    → l.peek ip c ≡ none
    → (is_blacklisted l ip now c).0 ≡ false
unfolding live
not_held l ip now c e = is_blacklisted-live l ip now c ∙ ap (λ (o : Option ℤ). live l o now) e

module _ (w : World) (x : Site w) where
  -- A decision that lets the request in exactly if the settings say so.
  abbrev FailsOpen : Engine w x → Option (Decision × Engine w x) → Type 0
  FailsOpen e m =
      (d : Decision) × (e' : Engine w x) × (m ≡ some (d, e')) × (d.is_allowed ≡ e.cfg.fail_open)

  decided :
      (b : Bool) (o o' : Decision × Engine w x)
      → o.0.is_allowed ≡ true
      → o'.0.is_allowed ≡ false
      → (if b then o else o').0.is_allowed ≡ b
  decided true o o' p q = p
  decided false o o' p q = q

  judge_error-FailsOpen :
      (r : w.Request) (ip key : Bytes) (now limit : ℤ) (e : Engine w x)
      → (judge_error w x r ip key now limit e).0.is_allowed ≡ e.cfg.fail_open
  unfolding judge_error allow block new_decision new_decision_with_ttl
  judge_error-FailsOpen r ip key now limit e =
      decided e.cfg.fail_open _ _
        (ap (λ (d : Decision). d.is_allowed) (finish-decision w x now _ _))
        (ap (λ (d : Decision). d.is_allowed) (finish-decision w x now _ _))

  script_stage-FailsOpen :
      (r : w.Request) (ip key : Bytes) (now limit : ℤ) (e : Engine w x)
      → IsLost e.network.trips
      → FailsOpen e (script_stage w x r ip key now limit e)
  unfolding script_stage judge_script round_trip
  script_stage-FailsOpen r ip key now limit e h =
      let keys = redis_keys_for e.cfg.prefix ip key in
      let command = critical_path x.redis keys.0 keys.1 (quot e.cfg.window millisecond) limit in
      let trip = round_trip w x command e in
      unanswered_script trip.0 (emit w x observe_lua_latency trip.1)
        (travel-IsLost e.network.store e.network.trips command h) refl
    where
      unanswered_script :
          (reply : Option Reply) (e1 : Engine w x)
          → reply ≡ none
          → e1.cfg ≡ e.cfg
          → FailsOpen e (judge_script w x reply r ip key now limit e1)
      unanswered_script none e1 f c = (
        _,
        _,
        refl,
        judge_error-FailsOpen r ip key now limit e1
            ∙ ap (λ (k : MiddlewareConfig w). k.fail_open) c,
      )
      unanswered_script (some a) e1 f c = absurd (ground (arith, f))

  -- The engine after the question whether the address is in the penalty box.
  not_boxed :
      (ip : Bytes) (now : ℤ) (e : Engine w x)
      → x.lru.peek ip e.pbox ≡ none
      → IsDown e.network.trips
      → (e1 : Engine w x) × (is_in_penalty w x ip now e ≡ (false, pos 0, e1))
        × (e1.cfg ≡ e.cfg)
        × (e1.bf ≡ e.bf)
        × IsLost e1.network.trips
  unfolding is_in_penalty penalty_reply round_trip
  not_boxed ip now e free down =
      let ask : x.redis.Store → ℤ × x.redis.Store =
        λ s. (x.redis.pttl (penalty_key e.cfg.prefix ip) s, s) in
      let trip = travel e.network.store e.network.trips ask in
      let (failed, rest) = travel-IsDown e.network.store e.network.trips ask down in
      let e1 : Engine w x = record e {
        pbox = (is_blacklisted x.lru ip now e.pbox).1;
        network = trip.1;
      } in
      (
        e1,
        if_false ((is_blacklisted x.lru ip now e.pbox).0) _ _ (not_held x.lru ip now e.pbox free)
            ∙ ap (λ (o : Option ℤ). penalty_reply w x ip now o e1) failed,
        refl,
        refl,
        rest,
      )

  penalty_stage-FailsOpen :
      (r : w.Request) (ip key : Bytes) (now later limit : ℤ) (e : Engine w x)
      → is_empty ip ≡ false
      → x.lru.peek ip e.pbox ≡ none
      → e.bf ≡ none
      → IsDown e.network.trips
      → FailsOpen e (penalty_stage w x r ip key now later limit e)
  unfolding penalty_stage bloom_stage ask_filter
  penalty_stage-FailsOpen r ip key now later limit e named free unfiltered down =
      let (e1, asked, cfg, bf, rest) = not_boxed ip now e free down in
      let (d, e', decided, opens) = script_stage-FailsOpen r ip key now limit e1 rest in
      (
        d,
        e',
        rw (named, asked)
            (ap (λ (o : Option Filter). ask_filter w x o r ip key now limit e1) (bf ∙ unfiltered)
              ∙ decided),
        opens ∙ ap (λ (k : MiddlewareConfig w). k.fail_open) cfg,
      )

  -- While Redis does not answer (the two round trips that a request takes bring no answer), Process
  -- decides by FailOpen alone: it allows a request exactly if FailOpen is set. (The address is not empty,
  -- neither local cache holds it, and there is no bloom filter.)
  pub process-FailsOpen :
      (r : w.Request) (now later : ℤ) (e : Engine w x)
      → is_empty (ip_of w x e r) ≡ false
      → x.lru.peek (ip_of w x e r) e.cache ≡ none
      → x.lru.peek (ip_of w x e r) e.pbox ≡ none
      → e.bf ≡ none
      → IsDown e.network.trips
      → FailsOpen e (process w x r now later e)
  unfolding process cache_stage
  process-FailsOpen r now later e named unbanned unboxed unfiltered down =
      let ip : Bytes = ip_of w x e r in
      let limited = limit_for w x ip now e in
      let e1 : Engine w x = limited.1 in
      let same = limit_for-IsInternal w x ip now e in
      let hit : (is_blacklisted x.lru ip now e1.cache).0 ≡ false =
        not_held x.lru ip now e1.cache
          (ap (λ (c : x.lru.State). x.lru.peek ip c) same.same_cache ∙ unbanned) in
      let e2 : Engine w x = record e1 { cache = (is_blacklisted x.lru ip now e1.cache).1 } in
      let (d, e', decided, opens) =
        penalty_stage-FailsOpen r ip (key_of w x e r) now later limited.0 e2 named
          (ap (λ (c : x.lru.State). x.lru.peek ip c) same.same_pbox ∙ unboxed)
          (same.same_bf ∙ unfiltered)
          (subst (λ (n : Network x.redis.Store). IsDown n.trips) (sym same.same_network) down) in
      (
        d,
        e',
        rw (named, hit) decided,
        opens ∙ ap (λ (k : MiddlewareConfig w). k.fail_open) same.same_cfg,
      )
