-- ===== src/Dfa/Suffix.antt =====
-- Aho-Corasick over a trie: the longest suffix of a text that the trie spells, failure links, and the
-- complete output lists, independently of the slices that hold them.
use mathlib.Core.Option.{some-injective}
use guard_go.Base.{
  ℕ, suc, ◌≤◌, ◌<◌, ◌≡◌, ◌∙◌, refl, sym, ap, subst, ◌↔◌, ◌⊎◌, inl, inr, List, [], ◌∷◌, ◌++◌, none,
  some, arith, length, Elem, get_elem?, get_elem?-lt, Elem-append, Elem-append_left,
  Elem-append_right,
}
use guard_go.Text.{Bytes}
use guard_go.Dfa.{Node}
use guard_go.Dfa.Words.{Pre, Pre-refl, Pre-nil, Pre-trans, Pre-length, Pre-of_le, Pre-eq}
use guard_go.Dfa.Trie.{Trie}

le-or-lt : (a b : ℕ) → (a ≤ b) ⊎ (b < a)
le-or-lt a b = omega arith

module _ (nodes : List Node) (w : ℕ → Bytes) where
  -- Node t spells the longest suffix of the text u that is in the trie.
  pub record Longest (t : ℕ) (u : Bytes) : Type 0 where
    pub lt : t < length nodes
    pub pre : Pre (w t) u
    pub most : (r : ℕ) → r < length nodes → Pre (w r) u → length (w r) ≤ length (w t)

  -- Node f spells the longest proper suffix of the word of s that is in the trie.
  pub record Fail (f s : ℕ) : Type 0 where
    pub lt : f < length nodes
    pub pre : Pre (w f) (w s)
    pub shorter : length (w f) < length (w s)
    pub most :
        (r : ℕ)
        → r < length nodes
        → Pre (w r) (w s)
        → length (w r) < length (w s)
        → length (w r) ≤ length (w f)

-- The list holds exactly the rules whose token is a suffix of the word of s.
abbrev pub Complete : (ℕ → Bytes) → List Bytes → ℕ → List ℕ → Type 0
Complete w toks s out =
    (i : ℕ) → Elem i out ↔ ((x : Bytes) × (get_elem? toks i ≡ some x) × Pre x (w s))

module _ (nodes : List Node) (w : ℕ → Bytes) (toks : List Bytes) (T : Trie nodes w toks) where
  pub Longest-child : (s t b : ℕ) → t < length nodes → w t ≡ b ∷ w s → Longest nodes w t (b ∷ w s)
  Longest-child s t b lt e = record {
    lt = lt;
    pre = subst (λ x. Pre (w t) x) e (Pre-refl (w t));
    most = λ r h p. omega (arith, Pre-length (w r) (b ∷ w s) p, ap length e);
  }

  step-most :
      (x : Bytes) (r s b : ℕ) (u : Bytes)
      → w r ≡ x
      → r < length nodes
      → Pre x (b ∷ u)
      → Longest nodes w s u
      → Pre x (b ∷ w s)
  step-most [] r s b u e lt p L = tt
  step-most (c ∷ v) r s b u e lt p L =
      let (q, n, at, to_r, word) = T.parent r c v lt e in
      let pre : Pre (w q) u = subst (λ y. Pre y u) (sym word) p.1 in
      (
        p.0,
        subst (λ y. Pre y (w s)) word
            (Pre-of_le (w q) (w s) u pre L.pre (L.most q (get_elem?-lt nodes q at) pre)),
      )

  -- Reading a byte: the longest suffix of the longer text is found from that of the shorter.
  pub Longest-step :
      (s t b : ℕ) (u : Bytes)
      → Longest nodes w s u
      → Longest nodes w t (b ∷ w s)
      → Longest nodes w t (b ∷ u)
  Longest-step s t b u L M = record {
    lt = M.lt;
    pre = Pre-trans (w t) (b ∷ w s) (b ∷ u) M.pre (refl, L.pre);
    most = λ r h p. M.most r h (step-most (w r) r s b u refl h p L);
  }

  -- A suffix of `b ∷ w s` that the trie spells, and that is not a child of s, comes from f.
  through-fail :
      (x : Bytes) (r f s b : ℕ)
      → w r ≡ x
      → r < length nodes
      → Fail nodes w f s
      → Pre x (b ∷ w s)
      → length x < suc (length (w s))
      → Pre x (b ∷ w f)
  through-fail [] r f s b e lt F p h = tt
  through-fail (c ∷ v) r f s b e lt F p h =
      let (q, n, at, to_r, word) = T.parent r c v lt e in
      let pre : Pre (w q) (w s) = subst (λ y. Pre y (w s)) (sym word) p.1 in
      (
        p.0,
        subst (λ y. Pre y (w f)) word
            (Pre-of_le (w q) (w f) (w s) pre F.pre
              (F.most q (get_elem?-lt nodes q at) pre (omega (arith, ap length word)))),
      )

  child-of :
      (x : Bytes) (r s b : ℕ)
      → w r ≡ x
      → r < length nodes
      → s < length nodes
      → Pre x (b ∷ w s)
      → length (w s) < length x
      → (n : Node) × (get_elem? nodes s ≡ some n) × (n.next b ≡ some r)
  child-of [] r s b e lt lt' p h = absurd (omega arith)
  child-of (c ∷ v) r s b e lt lt' p h =
      let (q, n, at, to_r, word) = T.parent r c v lt e in
      let same : w q ≡ w s = word ∙ Pre-eq v (w s) p.1 (omega arith) in
      let q=s : q ≡ s = T.inj q s (get_elem?-lt nodes q at) lt' same in
      (n, subst (λ k. get_elem? nodes k ≡ some n) q=s at, ap n.next (sym p.0) ∙ to_r)

  -- Where s has no child by b, the transition is that of its failure link.
  pub Longest-fail :
      (s f t b : ℕ) (n : Node)
      → get_elem? nodes s ≡ some n
      → n.next b ≡ none
      → Fail nodes w f s
      → Longest nodes w t (b ∷ w f)
      → Longest nodes w t (b ∷ w s)
  Longest-fail s f t b n at clear F L = record {
    lt = L.lt;
    pre = Pre-trans (w t) (b ∷ w f) (b ∷ w s) L.pre (refl, F.pre);
    most = λ r h p. elim (le-or-lt (length (w r)) (length (w s))) [
      | inl short ↦ L.most r h (through-fail (w r) r f s b refl h F p (omega arith))
      | inr long ↦
          let (m, at', to_r) = child-of (w r) r s b refl h (get_elem?-lt nodes s at) p long in
          let m=n : m ≡ n = some-injective _ _ (sym at' ∙ at) in absurd (ground arith)
    ];
  }

  -- The failure link of a child of s is where the failure link of s goes by the child's byte.
  pub Fail-child :
      (s f t g b : ℕ)
      → w t ≡ b ∷ w s
      → Fail nodes w f s
      → Longest nodes w g (b ∷ w f)
      → Fail nodes w g t
  Fail-child s f t g b e F L = record {
    lt = L.lt;
    pre =
        subst (λ x. Pre (w g) x) (sym e) (Pre-trans (w g) (b ∷ w f) (b ∷ w s) L.pre (refl, F.pre));
    shorter = omega (arith, Pre-length (w g) (b ∷ w f) L.pre, F.shorter, ap length e);
    most = λ r h p short. L.most r h (
        through-fail (w r) r f s b refl h F (subst (λ x. Pre (w r) x) e p)
          (omega (arith, ap length e)));
  }

  pub Longest-root :
      (b : ℕ) (n : Node)
      → get_elem? nodes 0 ≡ some n
      → n.next b ≡ none
      → Longest nodes w 0 (b ∷ w 0)
  Longest-root b n at clear = record {
    lt = T.some_node;
    pre = Pre-nil (w 0) T.root (b ∷ w 0);
    most = λ r h p. elim (le-or-lt (length (w r)) (length (w 0))) [
      | inl short ↦ short
      | inr long ↦
          let (m, at', to_r) = child-of (w r) r 0 b refl h T.some_node p long in
          let m=n : m ≡ n = some-injective _ _ (sym at' ∙ at) in absurd (ground arith)
    ];
  }

  pub Fail-root : (t b : ℕ) → w t ≡ b ∷ w 0 → Fail nodes w 0 t
  Fail-root t b e = record {
    lt = T.some_node;
    pre = Pre-nil (w 0) T.root (w t);
    shorter = omega (arith, ap length e);
    most = λ r h p short. omega (arith, ap length e);
  }

  -- A node's own rules and the complete list of its failure link make its complete list.
  pub Complete-child :
      (t g : ℕ) (own out : List ℕ)
      → ((i : ℕ) → Elem i own ↔ (get_elem? toks i ≡ some (w t)))
      → Fail nodes w g t
      → Complete w toks g out
      → Complete w toks t (own ++ out)
  Complete-child t g own out mine F C i = (
    λ h. elim (Elem-append i own out h) [
      | inl l ↦ (w t, (mine i).0 l, Pre-refl (w t))
      | inr r ↦ let (x, e, p) = (C i).0 r in (x, e, Pre-trans x (w g) (w t) p F.pre)
    ],
    λ (x, e, p). elim (le-or-lt (length (w t)) (length x)) [
      | inl long ↦ Elem-append_left i own out ((mine i).1 (e ∙ ap some (Pre-eq x (w t) p long)))
      | inr short ↦
          let (r, lt, is) = T.spelled i x e in
          let p' : Pre (w r) (w t) = subst (λ y. Pre y (w t)) (sym is) p in
          let le : length (w r) ≤ length (w g) = F.most r lt p' (omega (arith, ap length is)) in
          Elem-append_right i own out
            ((C i).1 (x, e, subst (λ y. Pre y (w g)) is (Pre-of_le (w r) (w g) (w t) p' F.pre le)))
    ],
  )

  -- If no token is empty, the root lists no rule, and that is complete.
  pub Complete-root : ((i : ℕ) → ¬ (get_elem? toks i ≡ some [])) → Complete w toks 0 []
  Complete-root solid i = (
    λ h. absurd h,
    λ (x, e, p). solid i (e ∙ ap some (Pre-eq x [] (subst (λ y. Pre x y) T.root p) (omega arith))),
  )
