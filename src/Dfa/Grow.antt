-- ===== src/Dfa/Grow.antt =====
-- pkg/dfa/matcher.go, `insert`: appending a child keeps the trie.
use mathlib.Core.Option.{some-injective}
use guard_go.Base.{
  ℕ, ◌<◌, ◌≡◌, ◌∙◌, sym, ap, subst, subst₂, ◌↔◌, inl, inr, List, ◌∷◌, none, some, arith, length,
  ◌==◌, ==_iff, ==-refl, Bool-cases, Elem, get_elem?, get_elem?-lt,
}
use guard_go.Text.{Bytes}
use guard_go.Dfa.{Node, set_next}
use guard_go.Dfa.Trie.{
  Trie, grown, extended, length-grown, source, fresh, old, s-lt, at_source, at_old, At-grown,
}

pub extended-old :
    (nodes : List Node) (w : ℕ → Bytes) (s b j : ℕ)
    → j < length nodes
    → extended nodes w s b j ≡ w j
extended-old nodes w s b j h = ground arith

pub extended-new :
    (nodes : List Node) (w : ℕ → Bytes) (s b : ℕ) → extended nodes w s b (length nodes) ≡ b ∷ w s
extended-new nodes w s b = ground (arith, ==-refl (length nodes))

module _ (nodes : List Node) (w : ℕ → Bytes) (toks : List Bytes) (T : Trie nodes w toks) (s b : ℕ)
    (n : Node) (at_s : get_elem? nodes s ≡ some n) (clear : n.next b ≡ none) (small : b < 256) where
  abbrev G : List Node
  G = grown nodes s n b

  abbrev w' : ℕ → Bytes
  w' = extended nodes w s b

  -- The word of the new node is new.
  new_word : (j : ℕ) → j < length nodes → ¬ (w j ≡ b ∷ w s)
  new_word j h e =
      let (p, m, at_p, to_j, same) = T.parent j b (w s) h e in
      let p=s : p ≡ s = T.inj p s (get_elem?-lt nodes p at_p) (get_elem?-lt nodes s at_s) same in
      let m=n : m ≡ n = some-injective _ _ (sym (rw p=s at at_p) ∙ at_s) in ground arith

  grown-edge :
      (s0 t c : ℕ) (m : Node)
      → get_elem? G s0 ≡ some m
      → m.next c ≡ some t
      → (t < length G) × (w' t ≡ c ∷ w' s0) × (c < 256)
  grown-edge s0 t c m e to_t = elim (At-grown nodes s b n at_s s0 m e) [
    | source s0=s m=n' ↦ elim (Bool-cases (b == c)) [
      | inl hit ↦
          let b=c : b ≡ c = (==_iff _ _).0 hit in
          let t=N : t ≡ length nodes = ground arith in
          (
            omega (arith, length-grown nodes s b n at_s),
            rw (t=N, s0=s) (ground (arith, ==-refl (length nodes), s-lt nodes s b n at_s)),
            omega arith,
          )
      | inr miss ↦
          let (lt, word, small') = T.edge s t c n at_s (ground arith) in
          (
            omega (arith, length-grown nodes s b n at_s),
            extended-old nodes w s b t lt
                ∙ word
                ∙ sym
                    (ap (◌∷◌ c) (ap w' s0=s ∙ extended-old nodes w s b s (s-lt nodes s b n at_s))),
            small',
          )
    ]
    | fresh s0=N m=new ↦ absurd (ground arith)
    | old ne lt e' ↦
        let (lt', word, small') = T.edge s0 t c m e' to_t in
        (
          omega (arith, length-grown nodes s b n at_s),
          extended-old nodes w s b t lt' ∙ word ∙ sym (ap (◌∷◌ c) (extended-old nodes w s b s0 lt)),
          small',
        )
  ]

  grown-inj : (j k : ℕ) → j < length G → k < length G → w' j ≡ w' k → j ≡ k
  grown-inj j k hj hk e = elim (Bool-cases (j == length nodes)) [
    | inl jN ↦ elim (Bool-cases (k == length nodes)) [
      | inl kN ↦ ground arith
      | inr kO ↦ absurd (new_word k (ground (arith, length-grown nodes s b n at_s)) (ground arith))
    ]
    | inr jO ↦ elim (Bool-cases (k == length nodes)) [
      | inl kN ↦ absurd (new_word j (ground (arith, length-grown nodes s b n at_s)) (ground arith))
      | inr kO ↦
          T.inj j k (ground (arith, length-grown nodes s b n at_s))
            (ground (arith, length-grown nodes s b n at_s)) (ground arith)
    ]
  ]

  grown-parent :
      (j c : ℕ) (u : Bytes)
      → j < length G
      → w' j ≡ c ∷ u
      → (p : ℕ) × (m : Node) × (get_elem? G p ≡ some m) × (m.next c ≡ some j) × (w' p ≡ u)
  grown-parent j c u h e = elim (Bool-cases (j == length nodes)) [
    | inl jN ↦ (
      s,
      set_next n b (some (length nodes)),
      at_source nodes s b n at_s,
      ground arith,
      ground (arith, s-lt nodes s b n at_s),
    )
    | inr jO ↦
        let lt : j < length nodes = ground (arith, length-grown nodes s b n at_s) in
        let (p, m, at_p, to_j, word) = T.parent j c u lt (ground arith) in
        let p-lt = get_elem?-lt nodes p at_p in
        elim (Bool-cases (p == s)) [
          | inl same ↦
              let p=s : p ≡ s = (==_iff _ _).0 same in
              let m=n : m ≡ n = some-injective _ _ (sym (rw p=s at at_p) ∙ at_s) in
              (
                s,
                set_next n b (some (length nodes)),
                at_source nodes s b n at_s,
                ground arith,
                extended-old nodes w s b s (s-lt nodes s b n at_s) ∙ ap w (sym p=s) ∙ word,
              )
          | inr other ↦ (
            p,
            m,
            at_old nodes s b n at_s p (ground arith) p-lt ∙ at_p,
            to_j,
            extended-old nodes w s b p p-lt ∙ word,
          )
        ]
  ]

  grown-outs :
      (j i : ℕ) (m : Node)
      → get_elem? G j ≡ some m
      → Elem i m.out ↔ (get_elem? toks i ≡ some (w' j))
  grown-outs j i m e = elim (At-grown nodes s b n at_s j m e) [
    | source j=s m=n' ↦
        subst₂ (λ x out. Elem i out ↔ (get_elem? toks i ≡ some x))
          (sym (ap w' j=s ∙ extended-old nodes w s b s (s-lt nodes s b n at_s)))
          (ap (λ (k : Node). k.out) (sym m=n')) (T.outs s i n at_s)
    | fresh j=N m=new ↦
        let not_spelled : ¬ (get_elem? toks i ≡ some (w' j)) = λ h.
          let word : w' j ≡ b ∷ w s = ap w' j=N ∙ extended-new nodes w s b in
          let (r, lt, is) = T.spelled i (b ∷ w s) (h ∙ ap some word) in new_word r lt is in
        subst (λ out. Elem i out ↔ (get_elem? toks i ≡ some (w' j)))
          (ap (λ (k : Node). k.out) (sym m=new)) (λ (h : ⊥). absurd h, λ h. not_spelled h)
    | old ne lt e' ↦
        subst (λ x. Elem i m.out ↔ (get_elem? toks i ≡ some x))
          (sym (extended-old nodes w s b j lt)) (T.outs j i m e')
  ]

  pub grown-Trie : Trie G w' toks
  grown-Trie = record {
    some_node = omega (arith, length-grown nodes s b n at_s);
    root = extended-old nodes w s b 0 T.some_node ∙ T.root;
    edge = grown-edge;
    inj = grown-inj;
    parent = grown-parent;
    outs = grown-outs;
    spelled = λ i x e.
        let (r, lt, is) = T.spelled i x e in
        (r, omega (arith, length-grown nodes s b n at_s), extended-old nodes w s b r lt ∙ is);
  }
