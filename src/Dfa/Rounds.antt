-- ===== src/Dfa/Rounds.antt =====
-- `buildFailures`: a round of each of its inner loops does not panic and keeps the invariant.
use mathlib.Core.List.{append-nil}
use guard_go.Base.{
  ℕ, ◌+◌, ◌≤◌, ◌<◌, ◌≡◌, ◌≢◌, ◌∙◌, refl, sym, ap, subst, ◌↔◌, inl, inr, List, [], ◌∷◌, ◌++◌, Option,
  some, arith, length, ◌>>=◌, Elem, get_elem?, set, get_elem?-lt, get_elem?-some,
  get_elem?-set_self, get_elem?-set_ne, length-set, length-append, Option-cases,
}
use guard_go.Text.{Bytes}
use guard_go.Dfa.{Node, Work, set_next, root_round, node_round, link}
use guard_go.Dfa.Trie.{Trie}
use guard_go.Dfa.Suffix.{
  Longest, Fail, Complete, Longest-fail, Fail-child, Longest-root, Fail-root, Complete-child,
  Complete-root,
}
use guard_go.Dfa.Status.{
  Status, raw, queued, busy, done, update, count_raw, count_raw-update, weight,
}
use guard_go.Dfa.Queue.{Full, Done, NodeOk, Inv}
use guard_go.Dfa.Order.{shallow, met}
use guard_go.Dfa.Skip.{cur_node, skip-Inv}
use guard_go.Dfa.Push.{t_lt, t_word, t_raw, t_node, push-Inv}

-- What is left to do: the queue, and the nodes that it has not met.
abbrev pub measure : List Node → (ℕ → Status) → List ℕ → ℕ
measure nodes0 st queue = length queue + count_raw st (length nodes0)

module _ (nodes0 : List Node) (w : ℕ → Bytes) (toks : List Bytes) where
  pub record Next (cur b m : ℕ) (r : Option Work) : Type 0 where
    pub st : ℕ → Status
    pub nodes : List Node
    pub queue : List ℕ
    pub runs : r ≡ some (nodes, queue)
    pub inv : Inv nodes0 w toks cur b st nodes queue
    pub same : measure nodes0 st queue ≡ m

module _ (nodes0 : List Node) (w : ℕ → Bytes) (toks : List Bytes) (T : Trie nodes0 w toks)
    (solid : (i : ℕ) → ¬ (get_elem? toks i ≡ some [])) (cur b : ℕ) (st : ℕ → Status)
    (nodes : List Node) (queue : List ℕ) (I : Inv nodes0 w toks cur b st nodes queue) where
  inside : (r : ℕ) → r < length nodes0 → (m : Node) × (get_elem? nodes r ≡ some m)
  inside r h = get_elem?-some nodes r (subst (λ k. r < k) (sym I.len) h)

  push_measure :
      (t : ℕ)
      → t < length nodes0
      → st t ≡ raw
      → measure nodes0 (update st t queued) (queue ++ t ∷ []) ≡ measure nodes0 st queue
  push_measure t h e = omega (
    arith,
    count_raw-update st t (length nodes0) queued h,
    ap weight e,
    length-append queue (t ∷ []),
  )

  -- The outputs of a raw child are its own rules.
  own_rules :
      (t : ℕ) (m m0 : Node)
      → get_elem? nodes0 t ≡ some m0
      → m.out ≡ m0.out
      → (i : ℕ) → Elem i m.out ↔ (get_elem? toks i ≡ some (w t))
  own_rules t m m0 e same i =
      subst (λ out. Elem i out ↔ (get_elem? toks i ≡ some (w t))) (sym same) (T.outs t i m0 e)

  pub root_round_lem :
      cur ≡ 0
      → Next nodes0 w toks cur (b + 1) (measure nodes0 st queue) (root_round b (nodes, queue))
  unfolding root_round
  root_round_lem cur=0 =
      let (n, at) = inside cur I.cur_lt in
      let (n0, at0) = get_elem?-some nodes0 cur I.cur_lt in
      let at-0 : get_elem? nodes 0 ≡ some n = subst (λ k. get_elem? nodes k ≡ some n) cur=0 at in
      let at0-0 : get_elem? nodes0 0 ≡ some n0 =
        subst (λ k. get_elem? nodes0 k ≡ some n0) cur=0 at0 in
      let B = cur_node nodes0 w toks cur b st nodes queue I n n0 at at0 in
      let slot : n.next b ≡ n0.next b = B.rest b (omega arith) in
      elim (Option-cases (n0.next b)) [
        | inl clear ↦
            let L : Longest nodes0 w 0 (b ∷ w cur) =
              subst (λ k. Longest nodes0 w 0 (b ∷ w k)) (sym cur=0)
                (Longest-root nodes0 w toks T b n0 at0-0 clear) in
            record {
              st = st;
              nodes = set nodes cur (set_next n b (some 0));
              queue = queue;
              runs = rw (at-0, slot ∙ clear, cur=0, ◌>>=◌);
              inv = skip-Inv nodes0 w toks cur b st nodes queue I n n0 at at0 0 clear L;
              same = refl;
            }
        | inr (t, there) ↦
            let lt = t_lt nodes0 w toks T cur b st nodes queue I n n0 at at0 t there in
            let is_raw = t_raw nodes0 w toks T cur b st nodes queue I n n0 at at0 t there in
            let word = t_word nodes0 w toks T cur b st nodes queue I n n0 at at0 t there in
            let (m, at_t) = inside t lt in
            let (m0, e0, _, same_out) =
              t_node nodes0 w toks T cur b st nodes queue I n n0 at at0 t there m at_t in
            let F : Fail nodes0 w 0 t =
              Fail-root nodes0 w toks T t b (subst (λ k. w t ≡ b ∷ w k) cur=0 word) in
            let C : Complete w toks t m.out =
              subst (λ out. Complete w toks t out) (append-nil m.out)
                (Complete-child nodes0 w toks T t 0 m.out [] (own_rules t m m0 e0 same_out) F
                  (Complete-root nodes0 w toks T solid)) in
            record {
              st = update st t queued;
              nodes = set nodes t (record m { fail = 0 });
              queue = queue ++ t ∷ [];
              runs = rw (at-0, slot ∙ there, at_t, ◌>>=◌);
              inv =
                  push-Inv nodes0 w toks T cur b st nodes queue I n n0 at at0 t there m
                    (record m { fail = 0 }) at_t (set nodes t (record m { fail = 0 }))
                    (length-set nodes t (record m { fail = 0 }))
                    (get_elem?-set_self nodes t (record m { fail = 0 }) (get_elem?-lt nodes t at_t))
                    (λ j ne. get_elem?-set_ne nodes t j (record m { fail = 0 }) (λ e. ne (sym e)))
                    refl F C;
              same = push_measure t lt is_raw;
            }
      ]

  -- The complete outputs of a node that has been met.
  met-Complete :
      (x : Status) (r : ℕ) (m m0 : Node)
      → x ≢ raw
      → NodeOk nodes0 w toks b x r m m0
      → Complete w toks r m.out
  met-Complete raw r m m0 h ok = absurd (h refl)
  met-Complete queued r m m0 h ok = ok.complete
  met-Complete busy r m m0 h ok = ok.complete
  met-Complete done r m m0 h ok = ok.complete

  -- What `link` leaves.
  abbrev linked : ℕ → ℕ → Node → Node → List Node
  linked t g m target =
      set (set nodes t (record m { fail = g })) t (record m { fail = g; out = m.out ++ target.out })

  link_lem :
      (t g : ℕ) (m target : Node)
      → get_elem? nodes t ≡ some m
      → get_elem? nodes g ≡ some target
      → g ≢ t
      → link nodes t g ≡ some (linked t g m target)
  unfolding link
  link_lem t g m target at_t at_g ne =
      let m1 : Node = record m { fail = g } in
      let e1 : get_elem? (set nodes t m1) t ≡ some m1 =
        get_elem?-set_self nodes t m1 (get_elem?-lt nodes t at_t) in
      let e2 : get_elem? (set nodes t m1) g ≡ some target =
        get_elem?-set_ne nodes t g m1 (λ e. ne (sym e)) ∙ at_g in
      rw (at_t, ◌>>=◌) (rw (e2, ◌>>=◌) (rw (e1, ◌>>=◌) refl))

  pub node_round_lem :
      cur ≢ 0
      → b < 256
      → Next nodes0 w toks cur (b + 1) (measure nodes0 st queue) (node_round cur b (nodes, queue))
  unfolding node_round
  node_round_lem cur-ne small =
      let (n, at) = inside cur I.cur_lt in
      let (n0, at0) = get_elem?-some nodes0 cur I.cur_lt in
      let B = cur_node nodes0 w toks cur b st nodes queue I n n0 at at0 in
      let slot : n.next b ≡ n0.next b = B.rest b (omega arith) in
      let F : Fail nodes0 w n.fail cur = B.link cur-ne in
      let (mf, at_f) = inside n.fail F.lt in
      let (f0, at0_f) = get_elem?-some nodes0 n.fail F.lt in
      let f-done : st n.fail ≡ done =
        shallow nodes0 w toks T cur b st nodes queue I n.fail F.lt F.shorter in
      let D : Done nodes0 w toks n.fail mf =
        subst (λ x. NodeOk nodes0 w toks b x n.fail mf f0) f-done
          (I.node n.fail mf f0 at_f at0_f) in
      let G : Full nodes0 w n.fail b mf = D.full b small in
      elim (Option-cases (n0.next b)) [
        | inl clear ↦ record {
          st = st;
          nodes = set nodes cur (set_next n b (some G.to));
          queue = queue;
          runs = rw (at, at_f, slot ∙ clear, G.goes, ◌>>=◌);
          inv =
              skip-Inv nodes0 w toks cur b st nodes queue I n n0 at at0 G.to clear
                (Longest-fail nodes0 w toks T cur n.fail G.to b n0 at0 clear F G.longest);
          same = refl;
        }
        | inr (t, there) ↦
            let lt = t_lt nodes0 w toks T cur b st nodes queue I n n0 at at0 t there in
            let is_raw = t_raw nodes0 w toks T cur b st nodes queue I n n0 at at0 t there in
            let word = t_word nodes0 w toks T cur b st nodes queue I n n0 at at0 t there in
            let (m, at_t) = inside t lt in
            let (m0, e0, _, same_out) =
              t_node nodes0 w toks T cur b st nodes queue I n n0 at at0 t there m at_t in
            let F' : Fail nodes0 w G.to t =
              Fail-child nodes0 w toks T cur n.fail t G.to b word F G.longest in
            let g-shallow : length (w G.to) ≤ length (w cur) =
              omega (arith, F'.shorter, ap length word) in
            let (target, at_g) = inside G.to F'.lt in
            let (g0, at0_g) = get_elem?-some nodes0 G.to F'.lt in
            let C : Complete w toks t (m.out ++ target.out) =
              Complete-child nodes0 w toks T t G.to m.out target.out (own_rules t m m0 e0 same_out)
                F'
                (met-Complete (st G.to) G.to target g0
                  (met nodes0 w toks T cur b st nodes queue I G.to F'.lt g-shallow)
                  (I.node G.to target g0 at_g at0_g)) in
            let g-ne : G.to ≢ t = λ e. omega (arith, F'.shorter, ap (λ k. length (w k)) e) in
            let m1 : Node = record m { fail = G.to } in
            let m2 : Node = record m { fail = G.to; out = m.out ++ target.out } in
            record {
              st = update st t queued;
              nodes = linked t G.to m target;
              queue = queue ++ t ∷ [];
              runs =
                  rw (
                    at,
                    at_f,
                    slot ∙ there,
                    G.goes,
                    link_lem t G.to m target at_t at_g g-ne,
                    ◌>>=◌,
                  );
              inv =
                  push-Inv nodes0 w toks T cur b st nodes queue I n n0 at at0 t there m m2 at_t
                    (linked t G.to m target)
                    (length-set (set nodes t m1) t m2 ∙ length-set nodes t m1)
                    (get_elem?-set_self (set nodes t m1) t m2 (
                      subst (λ k. t < k) (sym (length-set nodes t m1)) (get_elem?-lt nodes t at_t)))
                    (λ j ne.
                      get_elem?-set_ne (set nodes t m1) t j m2 (λ e. ne (sym e))
                      ∙ get_elem?-set_ne nodes t j m1 (λ e. ne (sym e)))
                    refl F' C;
              same = push_measure t lt is_raw;
            }
      ]
