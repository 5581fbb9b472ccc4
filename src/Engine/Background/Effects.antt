-- ===== src/Engine/Background/Effects.antt =====
-- engine_background.go: what a snapshot may change.
use mathlib.Core.Option.{some-injective}
use guard_go.Base.{ℕ, ◌≡◌, ◌∙◌, refl, sym, subst, true, Option, none, some, ◌>>=◌}
use guard_go.Base.Int.{ℤ, pos}
use guard_go.Config.{World}
use guard_go.Floats.{nought}
use guard_go.Http.{Header, HttpRequest}
use guard_go.Behavior
use guard_go.Ruleset.{CompiledRuleset}
use guard_go.Ruleset.Manager.{Manager}
use guard_go.Engine.{Site, Engine, Snapshot}
use guard_go.Engine.Quiet.{FilterIsValid}
use guard_go.Engine.Bans.{IsInternal}
use guard_go.Engine.Scoring.{score_with, refresh, evaluate_ruleset}
use guard_go.Engine.Scoring.Scored.{
  IsRequest, IsHeader, IsHeader-within, IsRequest-walked, IsReady, score_with-IsScore,
}
use guard_go.Engine.Background.{
  request_of, add_ruleset, add_behavior, add_rules, add_evaluators, risk_score, process_snapshot,
}

module _ (w : World) (x : Site w) where
  -- Rules that `CompileRuleset` can have built, if there are any.
  abbrev pub RulesetIsReady : Option CompiledRuleset → Type 0
  RulesetIsReady none = Unit
  RulesetIsReady (some c) = IsReady x.iterate x.iterate_order c

  abbrev pub ManagerIsReady : Option Manager → Type 0
  ManagerIsReady none = Unit
  ManagerIsReady (some m) = RulesetIsReady m.current

  -- The engine's filter and rules are as their constructors build them.
  pub record IsFit (e : Engine w x) : Type 0 where
    pub filter : FilterIsValid e.bf
    pub rules : RulesetIsReady e.compiled
    pub manager : ManagerIsReady e.manager

  IsInternal-refl : (e : Engine w x) → IsInternal w x e e
  IsInternal-refl e = record {
    same_cfg = refl;
    same_cache = refl;
    same_pbox = refl;
    same_bf = refl;
    same_queue = refl;
    same_network = refl;
    same_events = refl;
  }

  IsInternal-trans :
      (e e1 e2 : Engine w x) → IsInternal w x e e1 → IsInternal w x e1 e2 → IsInternal w x e e2
  IsInternal-trans e e1 e2 p q = record {
    same_cfg = q.same_cfg ∙ p.same_cfg;
    same_cache = q.same_cache ∙ p.same_cache;
    same_pbox = q.same_pbox ∙ p.same_pbox;
    same_bf = q.same_bf ∙ p.same_bf;
    same_queue = q.same_queue ∙ p.same_queue;
    same_network = q.same_network ∙ p.same_network;
    same_events = q.same_events ∙ p.same_events;
  }

  score_with-total :
      (o : Option CompiledRuleset) (r : HttpRequest) (fields : Header)
      → RulesetIsReady o
      → IsRequest r
      → IsHeader fields
      → (n : ℤ) × (score_with x.iterate o r fields ≡ some n)
  unfolding score_with
  score_with-total none r fields ready ok listed = (pos 0, refl)
  score_with-total (some c) r fields ready ok listed =
      let (n, e, _) = score_with-IsScore x.iterate x.iterate_order c r fields ready ok listed in
      (n, e)

  picked :
      (o : Option Manager) (e : Engine w x)
      → ManagerIsReady o
      → RulesetIsReady e.compiled
      → let e1 : Engine w x = elim o [ none ↦ e | some m ↦ record e { compiled = m.current } ] in
        RulesetIsReady e1.compiled × IsInternal w x e e1
  picked none e ready ready' = (ready', IsInternal-refl e)
  picked (some m) e ready ready' = (
    ready,
    record {
      same_cfg = refl;
      same_cache = refl;
      same_pbox = refl;
      same_bf = refl;
      same_queue = refl;
      same_network = refl;
      same_events = refl;
    },
  )

  evaluate_ruleset-IsInternal :
      (r : HttpRequest) (e : Engine w x)
      → IsFit e
      → IsRequest r
      → (n : ℤ) × (e1 : Engine w x) × (evaluate_ruleset w x r e ≡ some (n, e1))
        × IsInternal w x e e1
  unfolding evaluate_ruleset refresh
  evaluate_ruleset-IsInternal r e fit ok =
      let (ready, internal) = picked e.manager e fit.manager fit.rules in
      let walked : (n : ℕ) → IsHeader (x.walk n r.header) = λ n.
        IsHeader-within r.header (x.walk n r.header) ok.header λ f. (x.walk_elem n r.header f).0 in
      let (n, scored) =
        score_with-total _ (record r { header = x.walk 0 r.header }) (x.walk 1 r.header) ready
          (IsRequest-walked r (x.walk 0 r.header) ok (walked 0)) (walked 1) in
      (n, _, rw (scored, ◌>>=◌) refl, internal)

  ruled :
      (o : Option CompiledRuleset) (r : HttpRequest) (score : w.Float) (e : Engine w x)
      → IsFit e
      → IsRequest r
      → (score' : w.Float) × (e1 : Engine w x) × (elim o as (λ k. Option (w.Float × Engine w x)) [
        | none ↦ some (score, e)
        | some c ↦ do
          (n, e1) ← evaluate_ruleset w x r e
          some (x.arithmetic.add score (x.arithmetic.from_int n), e1)
      ]
          ≡ some (score', e1))
        × IsInternal w x e e1
  ruled none r score e fit ok = (score, e, refl, IsInternal-refl e)
  ruled (some c) r score e fit ok =
      let (n, e1, scored, internal) = evaluate_ruleset-IsInternal r e fit ok in
      (x.arithmetic.add score (x.arithmetic.from_int n), e1, rw (scored, ◌>>=◌) refl, internal)

  add_ruleset-IsInternal :
      (r : HttpRequest) (score : w.Float) (e : Engine w x)
      → IsFit e
      → IsRequest r
      → (score' : w.Float) × (e1 : Engine w x) × (add_ruleset w x r score e ≡ some (score', e1))
        × IsInternal w x e e1
  unfolding add_ruleset
  add_ruleset-IsInternal r score e fit ok = ruled e.compiled r score e fit ok

  observed :
      (o : Option Behavior.Store) (s : Snapshot) (r : HttpRequest) (score : w.Float)
      (e : Engine w x)
      → let out : w.Float × Engine w x = elim o [
        | none ↦ (score, e)
        | some store ↦
            let (n, store') = Behavior.observe x.hash64 e.cfg.behavioral s.ip (some r) s.ts store in
            (x.arithmetic.add score (x.arithmetic.from_int n), record e { behavior = some store' })
      ] in
        IsInternal w x e out.1
  observed none s r score e = IsInternal-refl e
  observed (some store) s r score e = record {
    same_cfg = refl;
    same_cache = refl;
    same_pbox = refl;
    same_bf = refl;
    same_queue = refl;
    same_network = refl;
    same_events = refl;
  }

  -- The score of a snapshot is found without a panic, and without a trace outside.
  pub risk_score-IsInternal :
      (s : Snapshot) (e : Engine w x)
      → IsFit e
      → IsRequest (request_of s)
      → (score : w.Float) × (e1 : Engine w x) × (risk_score w x s e ≡ some (score, e1))
        × IsInternal w x e e1
  unfolding risk_score add_behavior
  risk_score-IsInternal s e fit ok =
      let r : HttpRequest = request_of s in
      let sum : w.Float =
        add_evaluators w x r e.cfg.evaluators (add_rules w x r e.cfg.rules (nought w)) in
      let (score, e1, ruled, internal) = add_ruleset-IsInternal r sum e fit ok in
      let (last, e2) = add_behavior w x s r score e1 in
      (
        last,
        e2,
        rw (ruled, ◌>>=◌) refl,
        IsInternal-trans e e1 e2 internal (observed e1.behavior s r score e1),
      )

  -- A snapshot whose score is not above zero changes nothing that a request can see: neither the
  -- caches, the filter nor the queue, no round trip is made, and nothing is recorded. (The engine's
  -- rules are compiled ones, and the request is of bytes.)
  pub process_snapshot-IsInternal :
      (s : Snapshot) (now later : ℤ) (score : w.Float) (e e1 : Engine w x)
      → IsFit e
      → IsRequest (request_of s)
      → risk_score w x s e ≡ some (score, e1)
      → w.at_most score (nought w) ≡ true
      → (process_snapshot w x s now later e ≡ some e1) × IsInternal w x e e1
  unfolding process_snapshot
  process_snapshot-IsInternal s now later score e e1 fit ok scored harmless =
      let (score', e1', scored', internal) = risk_score-IsInternal s e fit ok in
      let same : (score', e1') ≡ (score, e1) = some-injective _ _ (sym scored' ∙ scored) in
      (
        rw (scored, harmless, ◌>>=◌) refl,
        subst (λ (p : w.Float × Engine w x). IsInternal w x e p.1) same internal,
      )
