-- ===== src/Dfa/Advance.antt =====
-- `buildFailures`: the node being expanded is finished, and the head of the queue comes next.
use guard_go.Base.{
  ℕ, suc, ◌≤◌, ◌<◌, ◌≡◌, ◌≢◌, ◌∙◌, refl, sym, ap, subst, ◌⊎◌, inl, inr, List, ◌∷◌, Option, some,
  arith, length, All-map, All-zip, Elem, get_elem?, ◌==◌, ==_iff, Bool-cases,
}
use guard_go.Text.{Bytes}
use guard_go.Dfa.{Node}
use guard_go.Dfa.Trie.{Trie}
use guard_go.Dfa.Status.{
  Status, raw, queued, busy, done, update, update_self, update_ne, count_raw-update, weight,
}
use guard_go.Dfa.Queue.{Opened, Busy, Queued, Done, NodeOk, depth, Inv}
use guard_go.Dfa.Rounds.{measure}

-- A node that is not being expanded is the same at every byte.
NodeOk-any :
    (nodes0 : List Node) (w : ℕ → Bytes) (toks : List Bytes) (b b' : ℕ) (x : Status) (s : ℕ)
    (m m0 : Node)
    → x ≢ busy
    → NodeOk nodes0 w toks b x s m m0
    → NodeOk nodes0 w toks b' x s m m0
NodeOk-any nodes0 w toks b b' raw s m m0 ne h = h
NodeOk-any nodes0 w toks b b' queued s m m0 ne h = h
NodeOk-any nodes0 w toks b b' busy s m m0 ne h = absurd (ne refl)
NodeOk-any nodes0 w toks b b' done s m m0 ne h = h

Opened-any : (b b' : ℕ) (x : Status) (c : ℕ) → x ≢ busy → Opened b x c → Opened b' x c
Opened-any b b' raw c ne h = h
Opened-any b b' queued c ne h = h
Opened-any b b' busy c ne h = absurd (ne refl)
Opened-any b b' done c ne h = h

module _ (nodes0 : List Node) (w : ℕ → Bytes) (toks : List Bytes) (T : Trie nodes0 w toks)
    (cur s : ℕ) (st : ℕ → Status) (nodes : List Node) (queue : List ℕ)
    (I : Inv nodes0 w toks cur 256 st nodes (s ∷ queue)) where
  abbrev d : ℕ → ℕ
  d = depth nodes0 w toks

  abbrev pub next_st : ℕ → Status
  next_st = update (update st cur done) s busy

  s_lt : s < length nodes0
  s_lt = I.of_queue.0.0

  s_queued : st s ≡ queued
  s_queued = I.of_queue.0.1

  -- A node of another status is not the head of the queue.
  not_s : (r : ℕ) → st r ≢ queued → r ≢ s
  not_s r h e = h (ap st e ∙ s_queued)

  not_cur : (r : ℕ) → st r ≢ busy → r ≢ cur
  not_cur r h e = h (ap st e ∙ I.cur_busy)

  cur-ne-s : cur ≢ s
  cur-ne-s = not_s cur (λ h. ground (arith, I.cur_busy))

  at_s : next_st s ≡ busy
  at_s = update_self (update st cur done) s busy

  at_cur : next_st cur ≡ done
  at_cur = update_ne (update st cur done) s cur busy cur-ne-s ∙ update_self st cur done

  at_other : (r : ℕ) → r ≢ s → r ≢ cur → next_st r ≡ st r
  at_other r h k = update_ne (update st cur done) s r busy h ∙ update_ne st cur r done k

  -- Every node is the new one, the finished one, or neither.
  data Place (r : ℕ) : Type 0 where
    head : r ≡ s → Place r
    finished : r ≡ cur → Place r
    elsewhere : r ≢ s → r ≢ cur → Place r

  place : (r : ℕ) → Place r
  place r = elim (Bool-cases (r == s)) [
    | inl a ↦ head ((==_iff r s).0 a)
    | inr a ↦ elim (Bool-cases (r == cur)) [
      | inl e ↦ finished ((==_iff r cur).0 e)
      | inr e ↦ elsewhere (ground arith) (ground arith)
    ]
  ]

  next_met : (r : ℕ) → st r ≢ raw → next_st r ≢ raw
  next_met r h = elim (place r) [
    | head e ↦ λ k. ground (arith, ap next_st e, at_s)
    | finished e ↦ λ k. ground (arith, ap next_st e, at_cur)
    | elsewhere a e ↦ λ k. h (sym (at_other r a e) ∙ k)
  ]

  next_only : (r : ℕ) → next_st r ≡ busy → r ≡ s
  next_only r h = elim (place r) [
    | head e ↦ e
    | finished e ↦ absurd (ground (arith, ap next_st e, at_cur))
    | elsewhere a e ↦ absurd (e (I.only r (sym (at_other r a e) ∙ h)))
  ]

  next_root : (next_st 0 ≡ busy) ⊎ (next_st 0 ≡ done)
  next_root = elim I.root_met [
    | inl h ↦ inr (ap next_st (I.only 0 h) ∙ at_cur)
    | inr h ↦ inr (at_other 0 (not_s 0 (λ k. ground arith)) (not_cur 0 (λ k. ground arith)) ∙ h)
  ]

  next_node :
      (r : ℕ) (m m0 : Node)
      → get_elem? nodes r ≡ some m
      → get_elem? nodes0 r ≡ some m0
      → NodeOk nodes0 w toks 0 (next_st r) r m m0
  next_node r m m0 e e0 = elim (place r) [
    | head r=s ↦
        let Q : Queued nodes0 w toks r m m0 =
          subst (λ x. NodeOk nodes0 w toks 256 x r m m0) (ap st r=s ∙ s_queued)
            (I.node r m m0 e e0) in
        let B : Busy nodes0 w toks 0 r m m0 = record {
          full = λ c h. elim h [ ];
          rest = λ c h. ap (λ (f : ℕ → Option ℕ). f c) Q.rest;
          link = λ h. Q.link;
          complete = Q.complete;
        } in
        subst (λ x. NodeOk nodes0 w toks 0 x r m m0) (sym (ap next_st r=s ∙ at_s)) B
    | finished r=cur ↦
        let B : Busy nodes0 w toks 256 r m m0 =
          subst (λ x. NodeOk nodes0 w toks 256 x r m m0) (ap st r=cur ∙ I.cur_busy)
            (I.node r m m0 e e0) in
        let D : Done nodes0 w toks r m = record {
          full = λ c h. B.full c h h;
          complete = B.complete;
        } in
        subst (λ x. NodeOk nodes0 w toks 0 x r m m0) (sym (ap next_st r=cur ∙ at_cur)) D
    | elsewhere a k ↦
        subst (λ x. NodeOk nodes0 w toks 0 x r m m0) (sym (at_other r a k))
          (NodeOk-any nodes0 w toks 256 0 (st r) r m m0 (λ h. k (I.only r h)) (I.node r m m0 e e0))
  ]

  next_in_queue : (r : ℕ) → r < length nodes0 → next_st r ≡ queued → Elem r queue
  next_in_queue r lt h = elim (place r) [
    | head e ↦ absurd (ground (arith, ap next_st e, at_s))
    | finished e ↦ absurd (ground (arith, ap next_st e, at_cur))
    | elsewhere a e ↦ elim (I.in_queue r lt (sym (at_other r a e) ∙ h)) [
      | inl r=s ↦ absurd (a r=s)
      | inr inside ↦ inside
    ]
  ]

  next-Opened :
      (p t c : ℕ) (n : Node)
      → get_elem? nodes0 p ≡ some n
      → n.next c ≡ some t
      → Opened 0 (next_st p) c
      → next_st t ≢ raw
  next-Opened p t c n e to_t op = elim (place p) [
    | head p=s ↦
        absurd (let h : c < 0 = subst (λ x. Opened 0 x c) (ap next_st p=s ∙ at_s) op in elim h [ ])
    | finished p=cur ↦ next_met t (
        I.opened p t c n e to_t
          (subst (λ x. Opened 256 x c) (sym (ap st p=cur ∙ I.cur_busy)) (T.edge p t c n e to_t).2))
    | elsewhere a k ↦ next_met t (
        I.opened p t c n e to_t (
          Opened-any 0 256 (st p) c (λ h. k (I.only p h))
            (subst (λ x. Opened 0 x c) (at_other p a k) op)))
  ]

  next_raw : (t : ℕ) → st t ≡ raw → next_st t ≡ raw
  next_raw t h = at_other t (not_s t (λ k. ground arith)) (not_cur t (λ k. ground arith)) ∙ h

  next_closed :
      (p t c : ℕ) (n : Node)
      → get_elem? nodes0 p ≡ some n
      → n.next c ≡ some t
      → ¬ Opened 0 (next_st p) c
      → next_st t ≡ raw
  next_closed p t c n e to_t shut = elim (place p) [
    | head p=s ↦ next_raw t (
        I.closed p t c n e to_t
          (subst (λ x. ¬ Opened 256 x c) (sym (ap st p=s ∙ s_queued)) (λ h. h)))
    | finished p=cur ↦
        absurd (shut (subst (λ x. Opened 0 x c) (sym (ap next_st p=cur ∙ at_cur)) tt))
    | elsewhere a k ↦ next_raw t (
        I.closed p t c n e to_t (λ op. shut (
          subst (λ x. Opened 0 x c) (sym (at_other p a k))
            (Opened-any 256 0 (st p) c (λ h. k (I.only p h)) op))))
  ]

  -- Taking the head of the queue keeps the invariant.
  pub advance-Inv : Inv nodes0 w toks s 0 next_st nodes queue
  advance-Inv = record {
    cur_lt = s_lt;
    cur_busy = at_s;
    only = next_only;
    root_met = next_root;
    len = I.len;
    node = next_node;
    in_queue = next_in_queue;
    of_queue =
        All-map _ _ queue
          (λ q (h, k).
            (h.0, at_other q (λ e. k.1 (sym e)) (not_cur q (λ b. ground (arith, h.1))) ∙ h.1, k.0))
          (All-zip (λ q. (q < length nodes0) × (st q ≡ queued) × (d cur ≤ d q))
            (λ q. (d s ≤ d q) × (s ≢ q)) queue I.of_queue.1 I.ordered.0);
    ordered = I.ordered.1;
    behind = λ r h. elim (place r) [
      | head e ↦ absurd (ground (arith, ap next_st e, at_s))
      | finished e ↦ omega (arith, ap d e, I.of_queue.0.2)
      | elsewhere a e ↦ omega (arith, I.behind r (sym (at_other r a e) ∙ h), I.of_queue.0.2)
    ];
    opened = next-Opened;
    closed = next_closed;
  }

  -- One node less is left to do.
  pub advance_measure : suc (measure nodes0 next_st queue) ≡ measure nodes0 st (s ∷ queue)
  advance_measure = omega (
    arith,
    count_raw-update st cur (length nodes0) done I.cur_lt,
    ap weight I.cur_busy,
    count_raw-update (update st cur done) s (length nodes0) busy s_lt,
    ap weight (update_ne st cur s done (λ e. cur-ne-s (sym e)) ∙ s_queued),
  )

  -- The root is never taken from the queue.
  pub head-ne-root : s ≢ 0
  head-ne-root e = elim I.root_met [
    | inl h ↦ ground (arith, ap st e, s_queued)
    | inr h ↦ ground (arith, ap st e, s_queued)
  ]
