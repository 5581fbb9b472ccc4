-- ===== src/Dfa/Push.antt =====
-- `buildFailures`: a round for a byte by which the node being expanded has a child, which joins the
-- queue with its failure link and its complete outputs.
use mathlib.Core.Option.{some-injective}
use mathlib.Core.Path.{subst₃}
use guard_go.Base.{
  ℕ, ◌+◌, ◌≤◌, ◌<◌, ◌≡◌, ◌≢◌, ◌∙◌, sym, ap, subst, inl, inr, List, [], ◌∷◌, ◌++◌, some, arith,
  length, All, All-append, All-map, Elem, Elem-append_left, Elem-append_right, get_elem?,
  get_elem?-lt, get_elem?-some, ◌==◌, ==_iff, Bool-cases,
}
use guard_go.Text.{Bytes}
use guard_go.Dfa.{Node}
use guard_go.Dfa.Trie.{Trie}
use guard_go.Dfa.Suffix.{Longest, Fail, Complete, Longest-child}
use guard_go.Dfa.Status.{
  Status, raw, queued, busy, update, update_self, update_ne, Ordered, Ordered-append,
}
use guard_go.Dfa.Queue.{Opened, Busy, Queued, NodeOk, depth, Inv}
use guard_go.Dfa.Order.{queued_depth}
use guard_go.Dfa.Skip.{NodeOk-other, Opened-suc, Opened-mono, cur_node}

module _ (nodes0 : List Node) (w : ℕ → Bytes) (toks : List Bytes) (T : Trie nodes0 w toks)
    (cur b : ℕ) (st : ℕ → Status) (nodes : List Node) (queue : List ℕ)
    (I : Inv nodes0 w toks cur b st nodes queue) (n n0 : Node) (at : get_elem? nodes cur ≡ some n)
    (at0 : get_elem? nodes0 cur ≡ some n0) (t : ℕ) (child_of : n0.next b ≡ some t) where
  abbrev d : ℕ → ℕ
  d = depth nodes0 w toks

  pub t_lt : t < length nodes0
  t_lt = (T.edge cur t b n0 at0 child_of).0

  pub t_word : w t ≡ b ∷ w cur
  t_word = (T.edge cur t b n0 at0 child_of).1

  pub t_raw : st t ≡ raw
  t_raw =
      I.closed cur t b n0 at0 child_of (subst (λ x. ¬ Opened b x b) (sym I.cur_busy) (omega arith))

  t-ne-cur : t ≢ cur
  t-ne-cur e = omega (arith, ap d e, ap length t_word)

  not_t : (r : ℕ) → st r ≢ raw → r ≢ t
  not_t r h e = h (ap st e ∙ t_raw)

  -- The raw node of the child, before it is linked.
  pub t_node :
      (m : Node)
      → get_elem? nodes t ≡ some m
      → (m0 : Node) × (get_elem? nodes0 t ≡ some m0) × (m.next ≡ m0.next) × (m.out ≡ m0.out)
  t_node m e =
      let (m0, e0) = get_elem?-some nodes0 t t_lt in
      let same = subst (λ x. NodeOk nodes0 w toks b x t m m0) t_raw (I.node t m m0 e e0) in
      (m0, e0, same.0, same.1)

  module _ (m child : Node) (at_t : get_elem? nodes t ≡ some m) (nodes' : List Node)
      (len' : length nodes' ≡ length nodes) (at_t' : get_elem? nodes' t ≡ some child)
      (others : (j : ℕ) → j ≢ t → get_elem? nodes' j ≡ get_elem? nodes j)
      (same_next : child.next ≡ m.next) (linked : Fail nodes0 w child.fail t)
      (complete : Complete w toks t child.out) where
    abbrev st' : ℕ → Status
    st' = update st t queued

    cur_Busy : Busy nodes0 w toks (b + 1) cur n n0
    cur_Busy =
        let B = cur_node nodes0 w toks cur b st nodes queue I n n0 at at0 in
        record {
          full = λ c h small. elim (Bool-cases (b == c)) [
            | inl e ↦
                let b=c : b ≡ c = (==_iff b c).0 e in
                record {
                  to = t;
                  goes = ap n.next (sym b=c) ∙ B.rest b (omega arith) ∙ child_of;
                  longest =
                      subst (λ x. Longest nodes0 w t (x ∷ w cur)) b=c
                        (Longest-child nodes0 w toks T cur t b t_lt t_word);
                }
            | inr ne ↦ B.full c (ground arith) small
          ];
          rest = λ c h. B.rest c (omega arith);
          link = B.link;
          complete = B.complete;
        }

    push_node :
        (s : ℕ) (k k0 : Node)
        → get_elem? nodes' s ≡ some k
        → get_elem? nodes0 s ≡ some k0
        → NodeOk nodes0 w toks (b + 1) (st' s) s k k0
    push_node s k k0 e e0 = elim (Bool-cases (s == t)) [
      | inl same ↦
          let s=t : s ≡ t = (==_iff s t).0 same in
          let k=child : k ≡ child = some-injective _ _ (sym (rw s=t at e) ∙ at_t') in
          let (m0, e0', same', _) = t_node m at_t in
          let m0=k0 : m0 ≡ k0 = some-injective _ _ (sym e0' ∙ rw s=t at e0) in
          let Q : Queued nodes0 w toks t child m0 = record {
            rest = same_next ∙ same';
            link = linked;
            complete = complete;
          } in
          subst (λ x. NodeOk nodes0 w toks (b + 1) x s k k0)
            (sym (ap st' s=t ∙ update_self st t queued))
            (subst₃ (λ x y z. Queued nodes0 w toks x y z) (sym s=t) (sym k=child) m0=k0 Q)
      | inr other ↦
          let ne : s ≢ t = ground arith in
          let e' : get_elem? nodes s ≡ some k = sym (others s ne) ∙ e in
          subst (λ x. NodeOk nodes0 w toks (b + 1) x s k k0) (sym (update_ne st t s queued ne))
            (elim (Bool-cases (s == cur)) [
              | inl is_cur ↦
                  let s=cur : s ≡ cur = (==_iff s cur).0 is_cur in
                  let k=n : k ≡ n = some-injective _ _ (sym (rw s=cur at e') ∙ at) in
                  let k0=n0 : k0 ≡ n0 = some-injective _ _ (sym (rw s=cur at e0) ∙ at0) in
                  subst (λ x. NodeOk nodes0 w toks (b + 1) x s k k0)
                    (sym (ap st s=cur ∙ I.cur_busy))
                    (subst₃ (λ x y z. Busy nodes0 w toks (b + 1) x y z) (sym s=cur) (sym k=n)
                      (sym k0=n0) cur_Busy)
              | inr not_cur ↦
                  let s-ne-cur : s ≢ cur = ground arith in
                  NodeOk-other nodes0 w toks b (st s) s k k0 (λ h. s-ne-cur (I.only s h))
                    (I.node s k k0 e' e0)
            ])
    ]

    -- What was met stays met, and the child is.
    still_met : (r : ℕ) → st r ≢ raw → st' r ≢ raw
    still_met r h e = h (sym (update_ne st t r queued (not_t r h)) ∙ e)

    queue_after :
        All (λ q. (q < length nodes0) × (st' q ≡ queued) × (d cur ≤ d q)) (queue ++ t ∷ [])
    queue_after =
        All-append (λ q. (q < length nodes0) × (st' q ≡ queued) × (d cur ≤ d q)) queue (t ∷ [])
          (All-map (λ q. (q < length nodes0) × (st q ≡ queued) × (d cur ≤ d q)) _ queue
            (λ q (lt, is_queued, deep).
              (lt, update_ne st t q queued (not_t q (λ h. ground arith)) ∙ is_queued, deep))
            I.of_queue)
          ((t_lt, update_self st t queued, omega (arith, ap length t_word)), tt)

    Opened-after :
        (p t' c : ℕ) (k : Node)
        → get_elem? nodes0 p ≡ some k
        → k.next c ≡ some t'
        → Opened (b + 1) (st' p) c
        → st' t' ≢ raw
    Opened-after p t' c k e to_t op = elim (Bool-cases (p == t)) [
      | inl same ↦
          let is_queued : st' p ≡ queued = ap st' ((==_iff p t).0 same) ∙ update_self st t queued in
          absurd (subst (λ x. Opened (b + 1) x c) is_queued op)
      | inr other ↦
          let ne : p ≢ t = ground arith in
          elim (Opened-suc b (st p) c
            (subst (λ x. Opened (b + 1) x c) (update_ne st t p queued ne) op)) [
              | inl before ↦ still_met t' (I.opened p t' c k e to_t before)
              | inr (is_busy, c=b) ↦
                  let p=cur : p ≡ cur = I.only p is_busy in
                  let k=n0 : k ≡ n0 = some-injective _ _ (sym (rw p=cur at e) ∙ at0) in
                  let t'=t : t' ≡ t =
                    some-injective _ _
                      (sym to_t ∙ ap k.next c=b ∙ ap (λ (x : Node). x.next b) k=n0 ∙ child_of) in
                  λ h. ground (arith, ap st' t'=t, update_self st t queued)
            ]
    ]

    closed_after :
        (p t' c : ℕ) (k : Node)
        → get_elem? nodes0 p ≡ some k
        → k.next c ≡ some t'
        → ¬ Opened (b + 1) (st' p) c
        → st' t' ≡ raw
    closed_after p t' c k e to_t shut =
        let word : w t' ≡ c ∷ w p = (T.edge p t' c k e to_t).1 in
        let ne : t' ≢ t = λ t'=t.
          let words : c ∷ w p ≡ b ∷ w cur = sym word ∙ ap w t'=t ∙ t_word in
          let p=cur : p ≡ cur = T.inj p cur (get_elem?-lt nodes0 p e) I.cur_lt (ground arith) in
          let c=b : c ≡ b = ground arith in
          let st-p : st' p ≡ busy =
            ap st' p=cur ∙ update_ne st t cur queued (λ h. t-ne-cur (sym h)) ∙ I.cur_busy in
          shut (subst (λ x. Opened (b + 1) x c) (sym st-p) (omega arith)) in
        update_ne st t t' queued ne
        ∙ I.closed p t' c k e to_t (λ op.
          let p-ne : p ≢ t = λ p=t. subst (λ x. Opened b x c) (ap st p=t ∙ t_raw) op in
          shut (
            subst (λ x. Opened (b + 1) x c) (sym (update_ne st t p queued p-ne))
              (Opened-mono b (st p) c op)))

    in_queue_after : (r : ℕ) → r < length nodes0 → st' r ≡ queued → Elem r (queue ++ t ∷ [])
    in_queue_after r lt h = elim (Bool-cases (r == t)) [
      | inl same ↦ Elem-append_right r queue (t ∷ []) (inl ((==_iff r t).0 same))
      | inr other ↦
          let ne : r ≢ t = ground arith in
          Elem-append_left r queue (t ∷ []) (I.in_queue r lt (sym (update_ne st t r queued ne) ∙ h))
    ]

    Ordered-after : Ordered d (queue ++ t ∷ [])
    Ordered-after = Ordered-append d queue t I.ordered (
        All-map (λ q. (q < length nodes0) × (st q ≡ queued) × (d cur ≤ d q)) _ queue
          (λ q (lt, is_queued, deep). (
            omega (
              arith,
              queued_depth nodes0 w toks T cur b st nodes queue I q lt is_queued,
              ap length t_word,
            ),
            not_t q (λ h. ground arith),
          ))
          I.of_queue)

    -- Linking the child and appending it to the queue keeps the invariant, one byte further.
    pub push-Inv : Inv nodes0 w toks cur (b + 1) st' nodes' (queue ++ t ∷ [])
    push-Inv = record {
      cur_lt = I.cur_lt;
      cur_busy = update_ne st t cur queued (λ e. t-ne-cur (sym e)) ∙ I.cur_busy;
      only = λ r h. elim (Bool-cases (r == t)) [
        | inl same ↦ absurd (ground (arith, ap st' ((==_iff r t).0 same), update_self st t queued))
        | inr other ↦
            let ne : r ≢ t = ground arith in I.only r (sym (update_ne st t r queued ne) ∙ h)
      ];
      root_met = elim I.root_met [
        | inl h ↦ inl (update_ne st t 0 queued (not_t 0 (λ h'. ground arith)) ∙ h)
        | inr h ↦ inr (update_ne st t 0 queued (not_t 0 (λ h'. ground arith)) ∙ h)
      ];
      len = len' ∙ I.len;
      node = push_node;
      in_queue = in_queue_after;
      of_queue = queue_after;
      ordered = Ordered-after;
      behind = λ r h. elim (Bool-cases (r == t)) [
        | inl same ↦ absurd (ground (arith, ap st' ((==_iff r t).0 same), update_self st t queued))
        | inr other ↦
            let ne : r ≢ t = ground arith in I.behind r (sym (update_ne st t r queued ne) ∙ h)
      ];
      opened = Opened-after;
      closed = closed_after;
    }
