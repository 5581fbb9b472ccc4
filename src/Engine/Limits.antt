-- ===== src/Engine/Limits.antt =====
-- engine_process.go: what Process decides for an address that is neither banned nor boxed.
use guard_go.Base.{
  ℕ, ◌+◌, ◌≡◌, ◌∙◌, refl, sym, ap, subst₂, Bool, true, false, not, Option, none, some, [],
  if◌then◌else◌, arith, inl, inr,
}
use guard_go.Base.Int.{ℤ, pos, ltb_ℤ, quot}
use guard_go.Text.{Bytes, is_empty}
use guard_go.Config.{World, MiddlewareConfig}
use guard_go.Decision.{Decision, millisecond, new_decision_with_ttl}
use guard_go.Redis.{Reply, critical_path}
use guard_go.Redis.Critical.{run, run_lem, IsCounted}
use guard_go.Engine.{Site, Engine, Network, round_trip, emit, observe_lua_latency}
use guard_go.Engine.Penalty.{redis_keys_for, blacklist_key, counter_key}
use guard_go.Engine.Replies.{parse_lua_result}
use guard_go.Engine.Process.{
  limit_for, allow, block, judge_reply, judge_script, script_stage, ip_of, key_of, process,
}
use guard_go.Cache.History.{live}
use guard_go.Engine.Script.{IsCalm, process-script}
use guard_go.Engine.Bans.{finish-decision}
use guard_go.Engine.Background.Banned.{travel_lem}

module _ (w : World) (x : Site w) where
  -- A decision that lets the request in or not.
  abbrev Decides : Bool → Option (Decision × Engine w x) → Type 0
  Decides b m = (d : Decision) × (e' : Engine w x) × (m ≡ some (d, e')) × (d.is_allowed ≡ b)

  judge_reply-Decides :
      (over : Bool) (r : w.Request) (ip key : Bytes) (now limit counter ttl : ℤ) (e : Engine w x)
      → Decides
          (not over)
          (judge_reply w x r ip key now limit (pos (if over then 1 else 0), counter, ttl) e)
  unfolding judge_reply allow block new_decision_with_ttl
  judge_reply-Decides true r ip key now limit counter ttl e =
      (_, _, refl, ap (λ (d : Decision). d.is_allowed) (finish-decision w x now _ _))
  judge_reply-Decides false r ip key now limit counter ttl e =
      (_, _, refl, ap (λ (d : Decision). d.is_allowed) (finish-decision w x now _ _))

  -- The request takes the counter above the limit.
  abbrev pub exceeds : Bytes → ℤ → Engine w x → Bool
  exceeds key limit e =
      ltb_ℤ limit (pos (x.redis.count (counter_key e.cfg.prefix key) e.network.store + 1))

  script_stage-Decides :
      (r : w.Request) (ip key : Bytes) (now limit : ℤ) (e : Engine w x)
      → ltb_ℤ (pos 0) (quot e.cfg.window millisecond) ≡ true
      → IsCalm w x false ip e.cfg.prefix e.network
      → Decides (not (exceeds key limit e)) (script_stage w x r ip key now limit e)
  unfolding script_stage judge_script round_trip redis_keys_for parse_lua_result run
  script_stage-Decides r ip key now limit e positive clear =
      let bl : Bytes = blacklist_key e.cfg.prefix ip in
      let ck : Bytes = counter_key e.cfg.prefix key in
      let window : ℤ = quot e.cfg.window millisecond in
      let command = critical_path x.redis bl ck window limit in
      let out = command e.network.store in
      let e1 : Engine w x =
        emit w x observe_lua_latency
          (record e { network = record { store = out.1; trips = [] } }) in
      let counted : IsCounted x.redis bl ck window limit e.network.store out.0 out.1 =
        elim (run_lem x.redis bl ck window limit positive e.network.store) [
          | inl b ↦ absurd (ground (arith, sym b.0 ∙ clear.lists))
          | inr c ↦ c.1
        ] in
      let (d, e', decided, allowed) =
        judge_reply-Decides (exceeds key limit e) r ip key now limit (pos out.0.counter) out.0.ttl
          e1 in
      (
        d,
        e',
        ap
              (λ (p : Option Reply × Network x.redis.Store).
                judge_script w x p.0 r ip key now limit
                  (emit w x observe_lua_latency (record e { network = p.1 })))
              (travel_lem e.network.store e.network.trips command clear.calm)
            ∙ ap
                (λ (n : ℕ).
                  judge_reply w x r ip key now limit (pos n, pos out.0.counter, out.0.ttl) e1)
                counted.code_is
            ∙ decided,
        allowed,
      )

  -- Process admits a request exactly up to the limit: it allows a request whose address is neither banned
  -- nor boxed exactly if the counter of its key does not go above the limit in force. (Neither local
  -- cache holds a running entry of the address, Redis answers both round trips and nobody else changes
  -- its store before or between them, it neither lists the address nor boxes it; the address is not
  -- empty, the window is at least a millisecond, and there is no bloom filter.)
  pub process-Decides :
      (r : w.Request) (now later : ℤ) (e : Engine w x)
      → is_empty (ip_of w x e r) ≡ false
      → live x.lru (x.lru.peek (ip_of w x e r) e.cache) now ≡ false
      → live x.lru (x.lru.peek (ip_of w x e r) e.pbox) now ≡ false
      → e.bf ≡ none
      → ltb_ℤ (pos 0) (quot e.cfg.window millisecond) ≡ true
      → IsCalm w x false (ip_of w x e r) e.cfg.prefix e.network
      → Decides
          (not (exceeds (key_of w x e r) (limit_for w x (ip_of w x e r) now e).0 e))
          (process w x r now later e)
  process-Decides r now later e named unbanned unboxed unfiltered positive clear =
      let ip : Bytes = ip_of w x e r in
      let key : Bytes = key_of w x e r in
      let limit : ℤ = (limit_for w x ip now e).0 in
      let (e1, comes, cfg, bf, net) =
        process-script w x false r now later e named unbanned unboxed unfiltered clear in
      let (d, e', decided, allowed) =
        script_stage-Decides r ip key now limit e1
          (ap (λ (c : MiddlewareConfig w). ltb_ℤ (pos 0) (quot c.window millisecond)) cfg
            ∙ positive)
          (subst₂
            (λ (c : MiddlewareConfig w) (n : Network x.redis.Store). IsCalm w x false ip c.prefix n)
            (sym cfg) (sym net) clear) in
      let kept : exceeds key limit e1 ≡ exceeds key limit e =
        ap (λ (c : MiddlewareConfig w). exceeds key limit (record e1 { cfg = c })) cfg
        ∙ ap (λ (n : Network x.redis.Store). exceeds key limit (record e { network = n })) net in
      (d, e', comes ∙ decided, allowed ∙ ap not kept)
