-- ===== src/Dfa/Build.antt =====
-- `buildFailures`: it ends, does not panic, and leaves every slot and every output list complete.
use mathlib.Core.Option.{some-injective}
use guard_go.Base.{
  ℕ, zero, suc, ◌+◌, ◌≤◌, ◌<◌, ◌≡◌, ◌≢◌, ◌∙◌, refl, sym, ap, subst, inl, inr, List, [], ◌∷◌, Option,
  some, arith, length, ◌>>=◌, get_elem?, get_elem?-lt, get_elem?-some, ◌==◌, ==_iff, Bool-cases,
}
use guard_go.Text.{Bytes}
use guard_go.Dfa.{Node, Work, for_bytes, root_round, node_round, drain, build_failures}
use guard_go.Dfa.Words.{Pre, Pre-eq}
use guard_go.Dfa.Trie.{Trie}
use guard_go.Dfa.Suffix.{Complete}
use guard_go.Dfa.Status.{Status, raw, queued, busy, done, update, update_ne, count_raw-le}
use guard_go.Dfa.Queue.{Full, Opened, Busy, NodeOk, Inv}
use guard_go.Dfa.Rounds.{measure, Next, root_round_lem, node_round_lem}
use guard_go.Dfa.Advance.{next_st, advance-Inv, advance_measure, head-ne-root}

module _ (nodes0 : List Node) (w : ℕ → Bytes) (toks : List Bytes) where
  -- Every slot leads to the longest suffix in the trie, and every output list is complete.
  pub record Built (nodes : List Node) : Type 0 where
    pub len : length nodes ≡ length nodes0
    pub full : (s c : ℕ) (m : Node) → get_elem? nodes s ≡ some m → c < 256 → Full nodes0 w s c m
    pub complete : (s : ℕ) (m : Node) → get_elem? nodes s ≡ some m → Complete w toks s m.out

  for_bytes_lem :
      (cur : ℕ) (round : ℕ → Work → Option Work)
      → ((b : ℕ) (st : ℕ → Status) (nodes : List Node) (queue : List ℕ)
          → b < 256
          → Inv nodes0 w toks cur b st nodes queue
          → Next nodes0 w toks cur (b + 1) (measure nodes0 st queue) (round b (nodes, queue)))
      → (n b : ℕ) (st : ℕ → Status) (nodes : List Node) (queue : List ℕ) → b + n ≡ 256
      → Inv nodes0 w toks cur b st nodes queue
      → Next nodes0 w toks cur 256 (measure nodes0 st queue) (for_bytes round n b (nodes, queue))
  unfolding for_bytes
  for_bytes_lem cur round step zero b st nodes queue e I =
      let b=256 : b ≡ 256 = omega arith in
      record {
        st = st;
        nodes = nodes;
        queue = queue;
        runs = refl;
        inv = subst (λ k. Inv nodes0 w toks cur k st nodes queue) b=256 I;
        same = refl;
      }
  for_bytes_lem cur round step (suc n) b st nodes queue e I =
      let A = step b st nodes queue (omega arith) I in
      let B = for_bytes_lem cur round step n (b + 1) A.st A.nodes A.queue (omega arith) A.inv in
      record {
        st = B.st;
        nodes = B.nodes;
        queue = B.queue;
        runs = rw (A.runs, ◌>>=◌) B.runs;
        inv = B.inv;
        same = B.same ∙ A.same;
      }

module _ (nodes0 : List Node) (w : ℕ → Bytes) (toks : List Bytes) (T : Trie nodes0 w toks) where
  module _ (cur : ℕ) (st : ℕ → Status) (nodes : List Node)
      (I : Inv nodes0 w toks cur 256 st nodes []) where
    Opened-at :
        (x : Status) (p c : ℕ) → st p ≡ x → x ≢ raw → x ≢ queued → c < 256 → Opened 256 (st p) c
    Opened-at raw p c e a b h = absurd (a refl)
    Opened-at queued p c e a b h = absurd (b refl)
    Opened-at busy p c e a b h = subst (λ x. Opened 256 x c) (sym e) h
    Opened-at done p c e a b h = subst (λ x. Opened 256 x c) (sym e) tt

    not_queued : (r : ℕ) → r < length nodes0 → st r ≢ queued
    not_queued r lt h = I.in_queue r lt h

    all_met : (x : Bytes) (r : ℕ) → w r ≡ x → r < length nodes0 → st r ≢ raw
    all_met [] r e lt =
        let r=0 : r ≡ 0 = T.inj r 0 lt T.some_node (e ∙ sym T.root) in
        elim I.root_met [
          | inl h ↦ λ k. ground (arith, ap st r=0)
          | inr h ↦ λ k. ground (arith, ap st r=0)
        ]
    all_met (c ∷ v) r e lt =
        let (q, n, at, to_r, word) = T.parent r c v lt e in
        let q-lt = get_elem?-lt nodes0 q at in
        I.opened q r c n at to_r (
          Opened-at (st q) q c refl (all_met v q word q-lt) (not_queued q q-lt)
            (T.edge q r c n at to_r).2)

    finished_node :
        (x : Status) (s : ℕ) (m m0 : Node)
        → x ≢ raw
        → x ≢ queued
        → NodeOk nodes0 w toks 256 x s m m0
        → ((c : ℕ) → c < 256 → Full nodes0 w s c m) × Complete w toks s m.out
    finished_node raw s m m0 a b ok = absurd (a refl)
    finished_node queued s m m0 a b ok = absurd (b refl)
    finished_node busy s m m0 a b ok = (λ c h. ok.full c h h, ok.complete)
    finished_node done s m m0 a b ok = (ok.full, ok.complete)

    -- With nothing left in the queue the work is done.
    finish : Built nodes0 w toks nodes
    finish = record {
      len = I.len;
      full = λ s c m e h. (at_end s m e).0 c h;
      complete = λ s m e. (at_end s m e).1;
    }
      where
        at_end :
            (s : ℕ) (m : Node)
            → get_elem? nodes s ≡ some m
            → ((c : ℕ) → c < 256 → Full nodes0 w s c m) × Complete w toks s m.out
        at_end s m e =
            let lt : s < length nodes0 = subst (λ k. s < k) I.len (get_elem?-lt nodes s e) in
            let (m0, e0) = get_elem?-some nodes0 s lt in
            finished_node (st s) s m m0 (all_met (w s) s refl lt) (not_queued s lt)
              (I.node s m m0 e e0)

  module _ (solid : (i : ℕ) → ¬ (get_elem? toks i ≡ some [])) where
    drain_lem :
        (fuel cur : ℕ) (st : ℕ → Status) (nodes : List Node) (queue : List ℕ)
        → measure nodes0 st queue ≤ fuel
        → Inv nodes0 w toks cur 256 st nodes queue
        → (nodes' : List Node) × (drain fuel (nodes, queue) ≡ some nodes')
          × Built nodes0 w toks nodes'
    unfolding drain
    drain_lem zero cur st nodes [] h I = (nodes, refl, finish cur st nodes I)
    drain_lem (suc fuel) cur st nodes [] h I = (nodes, refl, finish cur st nodes I)
    drain_lem zero cur st nodes (s ∷ queue) h I = absurd (omega arith)
    drain_lem (suc fuel) cur st nodes (s ∷ queue) h I =
        let J = advance-Inv nodes0 w toks T cur s st nodes queue I in
        let st1 = next_st nodes0 w toks T cur s st nodes queue I in
        let N : Next nodes0 w toks s 256 (measure nodes0 st1 queue)
            (for_bytes (node_round s) 256 0 (nodes, queue)) =
          for_bytes_lem nodes0 w toks s (node_round s)
            (λ b st2 nodes2 queue2 small K.
              node_round_lem nodes0 w toks T solid s b st2 nodes2 queue2 K
                (head-ne-root nodes0 w toks T cur s st nodes queue I) small)
            256 0 st1 nodes queue refl J in
        let (nodes', e, built) =
          drain_lem fuel s N.st N.nodes N.queue
            (omega (arith, N.same, advance_measure nodes0 w toks T cur s st nodes queue I)) N.inv in
        (nodes', rw (N.runs, ◌>>=◌) e, built)

    abbrev st0 : ℕ → Status
    st0 = update (λ _. raw) 0 busy

    st0-other : (r : ℕ) → r ≢ 0 → st0 r ≡ raw
    st0-other r h = update_ne (λ _. raw) 0 r busy h

    root-Complete : (m : Node) → get_elem? nodes0 0 ≡ some m → Complete w toks 0 m.out
    root-Complete m e i = (
      λ h. absurd (solid i ((T.outs 0 i m e).0 h ∙ ap some T.root)),
      λ (x, at, p).
          absurd
            (solid i (at ∙ ap some (Pre-eq x [] (subst (λ y. Pre x y) T.root p) (omega arith)))),
    )

    start_node :
        (s : ℕ) (m m0 : Node)
        → get_elem? nodes0 s ≡ some m
        → get_elem? nodes0 s ≡ some m0
        → NodeOk nodes0 w toks 0 (st0 s) s m m0
    start_node s m m0 e e0 =
        let m=m0 : m ≡ m0 = some-injective _ _ (sym e ∙ e0) in
        elim (Bool-cases (s == 0)) [
          | inl same ↦
              let s=0 : s ≡ 0 = (==_iff s 0).0 same in
              let B : Busy nodes0 w toks 0 s m m0 = record {
                full = λ c h. elim h [ ];
                rest = λ c h. ap (λ (n : Node). n.next c) m=m0;
                link = λ h. absurd (h s=0);
                complete =
                    subst (λ k. Complete w toks k m.out) (sym s=0)
                      (root-Complete m (subst (λ k. get_elem? nodes0 k ≡ some m) s=0 e));
              } in
              subst (λ x. NodeOk nodes0 w toks 0 x s m m0) (sym (ap st0 s=0)) B
          | inr other ↦
              subst (λ x. NodeOk nodes0 w toks 0 x s m m0) (sym (st0-other s (ground arith)))
                (ap (λ (n : Node). n.next) m=m0, ap (λ (n : Node). n.out) m=m0)
        ]

    child-ne-root : (p t c : ℕ) (n : Node) → get_elem? nodes0 p ≡ some n → n.next c ≡ some t → t ≢ 0
    child-ne-root p t c n e to_t t=0 =
        omega (arith, ap length ((sym (T.edge p t c n e to_t).1) ∙ ap w t=0 ∙ T.root))

    start-Inv : Inv nodes0 w toks 0 0 st0 nodes0 []
    start-Inv = record {
      cur_lt = T.some_node;
      cur_busy = refl;
      only = λ r h. elim (Bool-cases (r == 0)) [
        | inl same ↦ (==_iff r 0).0 same
        | inr other ↦ absurd (ground (arith, st0-other r (ground arith)))
      ];
      root_met = inl refl;
      len = refl;
      node = start_node;
      in_queue = λ r lt h. elim (Bool-cases (r == 0)) [
        | inl same ↦ absurd (ground (arith, ap st0 ((==_iff r 0).0 same)))
        | inr other ↦ absurd (ground (arith, st0-other r (ground arith)))
      ];
      of_queue = tt;
      ordered = tt;
      behind = λ r h. elim (Bool-cases (r == 0)) [
        | inl same ↦ absurd (ground (arith, ap st0 ((==_iff r 0).0 same)))
        | inr other ↦ absurd (ground (arith, st0-other r (ground arith)))
      ];
      opened = λ p t c n e to_t op. elim (Bool-cases (p == 0)) [
        | inl same ↦ absurd (
            let h : c < 0 = subst (λ x. Opened 0 x c) (ap st0 ((==_iff p 0).0 same)) op in
            elim h [ ])
        | inr other ↦ absurd (subst (λ x. Opened 0 x c) (st0-other p (ground arith)) op)
      ];
      closed = λ p t c n e to_t shut. st0-other t (child-ne-root p t c n e to_t);
    }

    -- On the trie of non-empty tokens `buildFailures` ends without a panic, and leaves an automaton
    -- whose every slot leads to the longest suffix in the trie, with complete outputs.
    pub build_failures-Built :
        (nodes : List Node) × (build_failures nodes0 ≡ some nodes) × Built nodes0 w toks nodes
    unfolding build_failures
    build_failures-Built =
        let N : Next nodes0 w toks 0 256 (measure nodes0 st0 [])
            (for_bytes root_round 256 0 (nodes0, [])) =
          for_bytes_lem nodes0 w toks 0 root_round
            (λ b st nodes queue small K.
              root_round_lem nodes0 w toks T solid 0 b st nodes queue K refl)
            256 0 st0 nodes0 [] refl start-Inv in
        let (nodes, e, built) =
          drain_lem (length nodes0) 0 N.st N.nodes N.queue
            (omega (arith, N.same, count_raw-le st0 (length nodes0))) N.inv in
        (nodes, rw (N.runs, ◌>>=◌) e, built)
