-- ===== src/Engine/Accounting.antt =====
-- engine_process.go: every request is judged, once, and told to the telemetry as it is judged.
use guard_go.Base.{
  ℕ, ◌+◌, ◌≡◌, ◌∙◌, refl, ap, Bool, true, false, Option, some, List, ◌∷◌, if◌then◌else◌, arith,
  Bool-cases, Option-cases, inl, inr, length,
}
use guard_go.Base.Int.{ℤ, pos, ltb_ℤ}
use guard_go.Text.{Bytes, codes, is_empty}
use guard_go.Config.{World}
use guard_go.Decision.{Decision}
use guard_go.SelfHealing.{observe}
use guard_go.Engine.{Site, Engine, inc_allowed, emit, emit_request}
use guard_go.Engine.Snapshots.{try_enqueue}
use guard_go.Engine.Process.{finish, allow, block, learn}
use guard_go.Engine.Quiet.{statuses, allowances, FilterIsValid, IsQuiet, bloom_add-IsQuiet}

unfoldable pub status_of : Bool → Bytes
status_of true = codes "allowed"
status_of false = codes "blocked"

module _ (w : World) (x : Site w) where
  -- From e the request was judged d: one more statistic requests_total, with the status of d, and one
  -- more call of IncAllowed exactly if d allows the request; the settings are the same.
  pub record IsJudged (e : Engine w x) (d : Decision) (e' : Engine w x) : Type 0 where
    pub accounted : statuses w e'.events ≡ status_of d.is_allowed ∷ statuses w e.events
    pub admitted : allowances w e'.events ≡ (if d.is_allowed then 1 else 0) + allowances w e.events
    pub same_cfg : e'.cfg ≡ e.cfg
    pub valid : FilterIsValid e'.bf

  abbrev pub Judges : Engine w x → Option (Decision × Engine w x) → Type 0
  Judges e m = (d : Decision) × (e' : Engine w x) × (m ≡ some (d, e')) × IsJudged e d e'

  IsQuiet-IsJudged :
      (e e1 : Engine w x) (d : Decision) (e' : Engine w x)
      → IsQuiet w x e e1
      → IsJudged e1 d e'
      → IsJudged e d e'
  IsQuiet-IsJudged e e1 d e' q j = record {
    accounted = j.accounted ∙ ap (λ (s : List Bytes). status_of d.is_allowed ∷ s) q.same_statuses;
    admitted = j.admitted ∙ ap (λ (n : ℕ). (if d.is_allowed then 1 else 0) + n) q.same_allowances;
    same_cfg = j.same_cfg ∙ q.same_cfg;
    valid = j.valid;
  }

  pub IsQuiet-Judges :
      (e e1 : Engine w x) (m : Option (Decision × Engine w x))
      → IsQuiet w x e e1
      → Judges e1 m
      → Judges e m
  IsQuiet-Judges e e1 m q (d, e', eq, j) = (d, e', eq, IsQuiet-IsJudged e e1 d e' q j)

  pub finish-IsJudged :
      (e : Engine w x) (now : ℤ) (d : Decision) (e1 : Engine w x)
      → IsJudged e d e1
      → (e' : Engine w x) × (finish w x now d e1 ≡ (d, e')) × IsJudged e d e'
  unfolding finish
  finish-IsJudged e now d e1 j = elim (Option-cases e1.sh) [
    | inl no_healing ↦ (e1, rw no_healing refl, j)
    | inr (s, healing) ↦ (
      record e1 { sh = some (observe w x.arithmetic e1.cfg.self_healing d now s) },
      rw healing refl,
      record {
        accounted = j.accounted;
        admitted = j.admitted;
        same_cfg = j.same_cfg;
        valid = j.valid;
      },
    )
  ]

  -- What a step that is not told to the telemetry keeps.
  record IsSilent (e e' : Engine w x) : Type 0 where
    same_events : e'.events ≡ e.events
    same_cfg : e'.cfg ≡ e.cfg
    same_bf : e'.bf ≡ e.bf

  try_enqueue-IsSilent :
      (r : w.Request) (ip key : Bytes) (now : ℤ) (e : Engine w x)
      → IsSilent e (try_enqueue w x r ip key now e)
  unfolding try_enqueue
  try_enqueue-IsSilent r ip key now e = elim (Option-cases e.queue) [
    | inl closed ↦ rw closed (record { same_events = refl; same_cfg = refl; same_bf = refl })
    | inr (q, opened) ↦ elim (Bool-cases (ltb_ℤ (pos (length q)) e.cfg.adaptive_ban.queue_size)) [
      | inl room ↦
          rw (opened, room) (record { same_events = refl; same_cfg = refl; same_bf = refl })
      | inr full ↦
          rw (opened, full) (record { same_events = refl; same_cfg = refl; same_bf = refl })
    ]
  ]

  pub allow-Judges :
      (source : Bytes) (r : w.Request) (ip key : Bytes) (now : ℤ) (d : Decision) (e : Engine w x)
      → d.is_allowed ≡ true
      → FilterIsValid e.bf
      → Judges e (some (allow w x source r ip key now d e))
  unfolding allow status_of
  allow-Judges source r ip key now d e passes v =
      let e1 : Engine w x = emit_request w x (codes "allowed") source (emit w x inc_allowed e) in
      let e2 : Engine w x = try_enqueue w x r ip key now e1 in
      let silent = try_enqueue-IsSilent r ip key now e1 in
      let j : IsJudged e d e2 = record {
        accounted = rw (passes, silent.same_events) refl;
        admitted = rw (passes, silent.same_events) refl;
        same_cfg = silent.same_cfg;
        valid = rw silent.same_bf v;
      } in
      let (e', eq, judged) = finish-IsJudged e now d e2 j in (d, e', ap some eq, judged)

  pub block-Judges :
      (source : Bytes) (now : ℤ) (d : Decision) (e : Engine w x)
      → d.is_allowed ≡ false
      → FilterIsValid e.bf
      → Judges e (some (block w x source now d e))
  unfolding block status_of
  block-Judges source now d e denied v =
      let e1 : Engine w x = emit_request w x (codes "blocked") source e in
      let j : IsJudged e d e1 = record {
        accounted = rw denied refl;
        admitted = rw denied (omega arith);
        same_cfg = refl;
        valid = v;
      } in
      let (e', eq, judged) = finish-IsJudged e now d e1 j in (d, e', ap some eq, judged)

  pub IsJudged-IsQuiet :
      (e e1 : Engine w x) (d : Decision) (e' : Engine w x)
      → IsJudged e d e1
      → IsQuiet w x e1 e'
      → IsJudged e d e'
  IsJudged-IsQuiet e e1 d e' j q = record {
    accounted = q.same_statuses ∙ j.accounted;
    admitted = q.same_allowances ∙ j.admitted;
    same_cfg = q.same_cfg ∙ j.same_cfg;
    valid = q.valid;
  }

  pub learn-IsQuiet :
      (ip : Bytes) (e : Engine w x)
      → FilterIsValid e.bf
      → (e' : Engine w x) × (learn w x ip e ≡ some e') × IsQuiet w x e e'
  unfolding learn
  learn-IsQuiet ip e v = elim (Bool-cases (is_empty ip)) [
    | inl unnamed ↦ (
      e,
      rw unnamed refl,
      record { same_statuses = refl; same_allowances = refl; same_cfg = refl; valid = v },
    )
    | inr named ↦ rw named (bloom_add-IsQuiet w x ip e v)
  ]
