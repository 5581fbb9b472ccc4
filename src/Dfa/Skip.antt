-- ===== src/Dfa/Skip.antt =====
-- `buildFailures`: a round for a byte by which the node being expanded has no child.
use mathlib.Core.Option.{some-injective}
use mathlib.Core.Path.{subst₃}
use guard_go.Base.{
  ℕ, ◌+◌, ◌<◌, ◌≡◌, ◌≢◌, ◌∙◌, refl, sym, ap, subst, ◌⊎◌, inl, inr, List, ◌∷◌, none, some, arith,
  get_elem?, set, get_elem?-lt, get_elem?-set_self, get_elem?-set_ne, length-set, ◌==◌, ==_iff,
  Bool-cases,
}
use guard_go.Text.{Bytes}
use guard_go.Dfa.{Node, set_next}
use guard_go.Dfa.Suffix.{Longest}
use guard_go.Dfa.Status.{Status, raw, queued, busy, done}
use guard_go.Dfa.Queue.{Full, Opened, Busy, NodeOk, Inv}

-- Only the node being expanded depends on the byte reached.
pub NodeOk-other :
    (nodes0 : List Node) (w : ℕ → Bytes) (toks : List Bytes) (b : ℕ) (x : Status) (s : ℕ)
    (m m0 : Node)
    → x ≢ busy
    → NodeOk nodes0 w toks b x s m m0
    → NodeOk nodes0 w toks (b + 1) x s m m0
NodeOk-other nodes0 w toks b raw s m m0 ne h = h
NodeOk-other nodes0 w toks b queued s m m0 ne h = h
NodeOk-other nodes0 w toks b busy s m m0 ne h = absurd (ne refl)
NodeOk-other nodes0 w toks b done s m m0 ne h = h

pub Opened-suc :
    (b : ℕ) (x : Status) (c : ℕ) → Opened (b + 1) x c → Opened b x c ⊎ ((x ≡ busy) × (c ≡ b))
Opened-suc b raw c h = elim h [ ]
Opened-suc b queued c h = elim h [ ]
Opened-suc b busy c h = elim (Bool-cases (c == b)) [
  | inl e ↦ inr (refl, (==_iff c b).0 e)
  | inr ne ↦ inl (ground arith)
]
Opened-suc b done c h = inl tt

pub Opened-mono : (b : ℕ) (x : Status) (c : ℕ) → Opened b x c → Opened (b + 1) x c
Opened-mono b raw c h = elim h [ ]
Opened-mono b queued c h = elim h [ ]
Opened-mono b busy c h = omega arith
Opened-mono b done c h = tt

module _ (nodes0 : List Node) (w : ℕ → Bytes) (toks : List Bytes) (cur b : ℕ) (st : ℕ → Status)
    (nodes : List Node) (queue : List ℕ) (I : Inv nodes0 w toks cur b st nodes queue) (n n0 : Node)
    (at : get_elem? nodes cur ≡ some n) (at0 : get_elem? nodes0 cur ≡ some n0) where
  pub cur_node : Busy nodes0 w toks b cur n n0
  cur_node = subst (λ x. NodeOk nodes0 w toks b x cur n n0) I.cur_busy (I.node cur n n0 at at0)

  module _ (to : ℕ) (clear : n0.next b ≡ none) (L : Longest nodes0 w to (b ∷ w cur)) where
    abbrev filled : Node
    filled = set_next n b (some to)

    filled-Full : (c : ℕ) → c < b + 1 → c < 256 → Full nodes0 w cur c filled
    filled-Full c h small = elim (Bool-cases (b == c)) [
      | inl e ↦
          let b=c : b ≡ c = (==_iff b c).0 e in
          record {
            to = to;
            goes = rw e;
            longest = subst (λ x. Longest nodes0 w to (x ∷ w cur)) b=c L;
          }
      | inr ne ↦
          let F = cur_node.full c (ground arith) small in
          record { to = F.to; goes = rw ne F.goes; longest = F.longest }
    ]

    filled-Busy : Busy nodes0 w toks (b + 1) cur filled n0
    filled-Busy = record {
      full = filled-Full;
      rest = λ c h. ground (arith, cur_node.rest c (omega arith));
      link = cur_node.link;
      complete = cur_node.complete;
    }

    skip_node :
        (s : ℕ) (m m0 : Node)
        → get_elem? (set nodes cur filled) s ≡ some m
        → get_elem? nodes0 s ≡ some m0
        → NodeOk nodes0 w toks (b + 1) (st s) s m m0
    skip_node s m m0 e e0 = elim (Bool-cases (s == cur)) [
      | inl same ↦
          let s=cur : s ≡ cur = (==_iff s cur).0 same in
          let m=f : m ≡ filled = some-injective _ _ (
            sym (rw s=cur at e)
            ∙ get_elem?-set_self nodes cur filled (get_elem?-lt nodes cur at)) in
          let m0=n0 : m0 ≡ n0 = some-injective _ _ (sym (rw s=cur at e0) ∙ at0) in
          subst (λ x. NodeOk nodes0 w toks (b + 1) x s m m0) (sym (ap st s=cur ∙ I.cur_busy))
            (subst₃ (λ x y z. Busy nodes0 w toks (b + 1) x y z) (sym s=cur) (sym m=f) (sym m0=n0)
              filled-Busy)
      | inr other ↦
          let ne : s ≢ cur = ground arith in
          NodeOk-other nodes0 w toks b (st s) s m m0 (λ h. ne (I.only s h))
            (I.node s m m0 (sym (get_elem?-set_ne nodes cur s filled (λ h. ne (sym h))) ∙ e) e0)
    ]

    -- Filling the slot of the byte with the longest suffix keeps the invariant, one byte further.
    pub skip-Inv : Inv nodes0 w toks cur (b + 1) st (set nodes cur filled) queue
    skip-Inv = record {
      cur_lt = I.cur_lt;
      cur_busy = I.cur_busy;
      only = I.only;
      root_met = I.root_met;
      len = length-set nodes cur filled ∙ I.len;
      node = skip_node;
      in_queue = I.in_queue;
      of_queue = I.of_queue;
      ordered = I.ordered;
      behind = I.behind;
      opened = λ p t c m e to_t op. elim (Opened-suc b (st p) c op) [
        | inl before ↦ I.opened p t c m e to_t before
        | inr (is_busy, c=b) ↦
            let p=cur : p ≡ cur = I.only p is_busy in
            let m=n0 : m ≡ n0 = some-injective _ _ (sym (rw p=cur at e) ∙ at0) in
            absurd (ground (arith, ap n0.next c=b))
      ];
      closed =
          λ p t c m e to_t shut. I.closed p t c m e to_t (λ op. shut (Opened-mono b (st p) c op));
    }
