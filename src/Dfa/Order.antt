-- ===== src/Dfa/Order.antt =====
-- `buildFailures`: the queue is worked in the order of depth, so whatever lies above the node being
-- expanded is expanded, and its own depth has been met.
use guard_go.Base.{
  ℕ, ◌+◌, ◌≤◌, ◌<◌, ◌≡◌, ◌≢◌, ◌∙◌, refl, sym, ap, subst, ◌⊎◌, inl, inr, List, [], ◌∷◌, arith,
  length, get_elem?-lt,
}
use guard_go.Text.{Bytes}
use guard_go.Dfa.{Node}
use guard_go.Dfa.Trie.{Trie}
use guard_go.Dfa.Status.{Status, raw, queued, busy, done, All-Elem}
use guard_go.Dfa.Queue.{Opened, depth, Inv}

settle : (x : Status) → x ≢ raw → x ≢ queued → x ≢ busy → x ≡ done
settle raw a b c = absurd (a refl)
settle queued a b c = absurd (b refl)
settle busy a b c = absurd (c refl)
settle done a b c = refl

module _ (nodes0 : List Node) (w : ℕ → Bytes) (toks : List Bytes) (T : Trie nodes0 w toks)
    (cur b : ℕ) (st : ℕ → Status) (nodes : List Node) (queue : List ℕ)
    (I : Inv nodes0 w toks cur b st nodes queue) where
  abbrev d : ℕ → ℕ
  d = depth nodes0 w toks

  root_word : (r : ℕ) → r < length nodes0 → w r ≡ [] → r ≡ 0
  root_word r lt e = T.inj r 0 lt T.some_node (e ∙ sym T.root)

  shallow_at : (x : Bytes) (r : ℕ) → w r ≡ x → r < length nodes0 → d r < d cur → st r ≡ done
  shallow_at [] r e lt h =
      let r=0 : r ≡ 0 = root_word r lt e in
      elim I.root_met [
        | inl is_busy ↦ absurd (omega (arith, ap d (I.only 0 is_busy), ap d r=0))
        | inr is_done ↦ ap st r=0 ∙ is_done
      ]
  shallow_at (c ∷ v) r e lt h =
      let (q, n, at, to_r, word) = T.parent r c v lt e in
      let q-lt = get_elem?-lt nodes0 q at in
      let q-done : st q ≡ done =
        shallow_at v q word q-lt (omega (arith, ap length e, ap length word)) in
      settle (st r) (I.opened q r c n at to_r (subst (λ x. Opened b x c) (sym q-done) tt))
        (λ is_queued. absurd (
          omega (
            arith,
            (All-Elem (λ k. (k < length nodes0) × (st k ≡ queued) × (d cur ≤ d k)) queue r
                I.of_queue (I.in_queue r lt is_queued)).2,
          )))
        (λ is_busy. absurd (omega (arith, ap d (I.only r is_busy))))

  -- A node above the one being expanded is expanded.
  pub shallow : (r : ℕ) → r < length nodes0 → d r < d cur → st r ≡ done
  shallow r lt h = shallow_at (w r) r refl lt h

  met_at : (x : Bytes) (r : ℕ) → w r ≡ x → r < length nodes0 → d r ≤ d cur → st r ≢ raw
  met_at [] r e lt h =
      let r=0 : r ≡ 0 = root_word r lt e in
      elim I.root_met [
        | inl is_busy ↦ λ is_raw. ground (arith, ap st r=0)
        | inr is_done ↦ λ is_raw. ground (arith, ap st r=0)
      ]
  met_at (c ∷ v) r e lt h =
      let (q, n, at, to_r, word) = T.parent r c v lt e in
      let q-done : st q ≡ done =
        shallow q (get_elem?-lt nodes0 q at) (omega (arith, ap length e, ap length word)) in
      I.opened q r c n at to_r (subst (λ x. Opened b x c) (sym q-done) tt)

  -- A node no deeper than the one being expanded has been met.
  pub met : (r : ℕ) → r < length nodes0 → d r ≤ d cur → st r ≢ raw
  met r lt h = met_at (w r) r refl lt h

  Opened-depth : (x : Status) (p c : ℕ) → st p ≡ x → (d p ≤ d cur) ⊎ (¬ Opened b (st p) c)
  Opened-depth raw p c e = inr (subst (λ x. ¬ Opened b x c) (sym e) (λ h. h))
  Opened-depth queued p c e = inr (subst (λ x. ¬ Opened b x c) (sym e) (λ h. h))
  Opened-depth busy p c e = inl (omega (arith, ap d (I.only p e)))
  Opened-depth done p c e = inl (I.behind p e)

  queued_at : (x : Bytes) (q : ℕ) → w q ≡ x → q < length nodes0 → st q ≡ queued → d q ≤ d cur + 1
  queued_at [] q e lt h = omega (arith, ap length e)
  queued_at (c ∷ v) q e lt h =
      let (p, n, at, to_q, word) = T.parent q c v lt e in
      elim (Opened-depth (st p) p c refl) [
        | inl le ↦ omega (arith, le, ap length e, ap length word)
        | inr shut ↦
            let is_raw : st q ≡ raw = I.closed p q c n at to_q shut in absurd (ground arith)
      ]

  -- The queue reaches at most one level below the node being expanded.
  pub queued_depth : (q : ℕ) → q < length nodes0 → st q ≡ queued → d q ≤ d cur + 1
  queued_depth q lt h = queued_at (w q) q refl lt h
