-- ===== src/Dfa/Insert.antt =====
-- pkg/dfa/matcher.go, `insert`: it does not panic, keeps the trie, and adds the token's rule.
use mathlib.Core.Option.{some-injective}
use guard_go.Base.{
  ℕ, ◌<◌, ◌≡◌, ◌∙◌, refl, sym, ap, subst, subst₂, ◌↔◌, ◌⊎◌, inl, inr, true, false, List, [], ◌∷◌,
  ◌++◌, Option, some, arith, length, ◌==◌, ==_iff, ◌>>=◌, Bool-cases, Option-cases, Elem, get_elem?,
  set, get_elem?-lt, get_elem?-some, get_elem?-set_self, get_elem?-set_ne, length-set,
  get_elem?-append_one, get_elem?-length, Elem-append, Elem-append_left, Elem-append_right,
}
use guard_go.Text.{Bytes, IsBytes, lower_byte, lower_byte-lt}
use guard_go.Dfa.{Node, insert_loop, insert}
use guard_go.Dfa.Trie.{Trie, grown, extended, length-grown}
use guard_go.Dfa.Grow.{grown-Trie, extended-new}

-- The word reached from the word u by the bytes of a token.
unfoldable pub onto : Bytes → Bytes → Bytes
onto [] u = u
onto (c ∷ token) u = onto token (lower_byte c ∷ u)

insert_loop_lem :
    (token : Bytes) (nodes : List Node) (w : ℕ → Bytes) (toks : List Bytes) (state : ℕ)
    → IsBytes token
    → Trie nodes w toks
    → state < length nodes
    → (nodes' : List Node) × (w' : ℕ → Bytes) × (s' : ℕ) × (insert_loop nodes state token
        ≡ some (nodes', s'))
      × Trie nodes' w' toks
      × (s' < length nodes')
      × (w' s' ≡ onto token (w state))
unfolding insert_loop onto
insert_loop_lem [] nodes w toks state ok T lt = (nodes, w, state, refl, T, lt, refl)
insert_loop_lem (c ∷ token) nodes w toks state ok T lt =
    let (n, at) = get_elem?-some nodes state lt in
    let b = lower_byte c in
    elim (Option-cases (n.next b)) [
      | inl clear ↦
          let T' = grown-Trie nodes w toks T state b n at clear (lower_byte-lt c ok.0) in
          let (nodes', w', s', e, T'', lt', word) =
            insert_loop_lem token (grown nodes state n b) (extended nodes w state b) toks
              (length nodes) ok.1 T' (omega (arith, length-grown nodes state b n at)) in
          (
            nodes',
            w',
            s',
            rw (at, clear, ◌>>=◌, insert_loop) e,
            T'',
            lt',
            word ∙ ap (onto token) (extended-new nodes w state b),
          )
      | inr (next, there) ↦
          let (next-lt, word-next, _) = T.edge state next b n at there in
          let (nodes', w', s', e, T'', lt', word) =
            insert_loop_lem token nodes w toks next ok.1 T next-lt in
          (
            nodes',
            w',
            s',
            rw (at, there, ◌>>=◌, insert_loop) e,
            T'',
            lt',
            word ∙ ap (onto token) word-next,
          )
    ]

module _ (nodes : List Node) (w : ℕ → Bytes) (toks : List Bytes) (T : Trie nodes w toks) (s : ℕ)
    (n : Node) (at_s : get_elem? nodes s ≡ some n) where
  abbrev listed : Node
  listed = record n { out = n.out ++ length toks ∷ [] }

  abbrev after : List Node
  after = set nodes s listed

  abbrev toks' : List Bytes
  toks' = toks ++ w s ∷ []

  s-lt : s < length nodes
  s-lt = get_elem?-lt nodes s at_s

  at_after :
      (j : ℕ) (m : Node)
      → get_elem? after j ≡ some m
      → ((j ≡ s) × (m ≡ listed)) ⊎ ((¬ (j ≡ s)) × (get_elem? nodes j ≡ some m))
  at_after j m e = elim (Bool-cases (j == s)) [
    | inl same ↦
        let j=s : j ≡ s = (==_iff _ _).0 same in
        inl (j=s, some-injective _ _ (sym (rw j=s at e) ∙ get_elem?-set_self nodes s listed s-lt))
    | inr other ↦
        let ne : ¬ (j ≡ s) = ground arith in
        inr (ne, sym (get_elem?-set_ne nodes s j listed (λ e. ne (sym e))) ∙ e)
  ]

  -- The nodes before the change have the same edges.
  before :
      (j : ℕ) (m : Node)
      → get_elem? after j ≡ some m
      → (m0 : Node) × (get_elem? nodes j ≡ some m0) × (m0.next ≡ m.next)
  before j m e = elim (at_after j m e) [
    | inl (j=s, m=l) ↦ (n, rw j=s at_s, ap (λ (k : Node). k.next) (sym m=l))
    | inr (ne, e') ↦ (m, e', refl)
  ]

  behind :
      (j : ℕ) (m : Node)
      → get_elem? nodes j ≡ some m
      → (m' : Node) × (get_elem? after j ≡ some m') × (m'.next ≡ m.next)
  behind j m e = elim (Bool-cases (j == s)) [
    | inl same ↦
        let j=s : j ≡ s = (==_iff _ _).0 same in
        let m=n : m ≡ n = some-injective _ _ (sym (rw j=s at e) ∙ at_s) in
        (
          listed,
          rw j=s (get_elem?-set_self nodes s listed s-lt),
          ap (λ (k : Node). k.next) (sym m=n),
        )
    | inr other ↦ (m, get_elem?-set_ne nodes s j listed (ground arith) ∙ e, refl)
  ]

  new_tok : (i : ℕ) → (i == length toks) ≡ true → get_elem? toks' i ≡ some (w s)
  new_tok i e = get_elem?-append_one toks (w s) i ∙ rw e

  old_tok : (i : ℕ) → (i == length toks) ≡ false → get_elem? toks' i ≡ get_elem? toks i
  old_tok i e = get_elem?-append_one toks (w s) i ∙ rw e

  listed-outs : (i : ℕ) → Elem i listed.out ↔ (get_elem? toks' i ≡ some (w s))
  listed-outs i = elim (Bool-cases (i == length toks)) [
    | inl last ↦ (
      λ h. new_tok i last,
      λ h. Elem-append_right i n.out (length toks ∷ []) (inl ((==_iff _ _).0 last)),
    )
    | inr other ↦ (
      λ h. elim (Elem-append i n.out (length toks ∷ []) h) [
        | inl l ↦ old_tok i other ∙ (T.outs s i n at_s).0 l
        | inr r ↦ absurd (ground arith)
      ],
      λ h.
          Elem-append_left i n.out (length toks ∷ [])
            ((T.outs s i n at_s).1 (sym (old_tok i other) ∙ h)),
    )
  ]

  other-outs :
      (j i : ℕ) (m : Node)
      → ¬ (j ≡ s)
      → get_elem? nodes j ≡ some m
      → Elem i m.out ↔ (get_elem? toks' i ≡ some (w j))
  other-outs j i m ne e = elim (Bool-cases (i == length toks)) [
    | inl last ↦
        let i=N : i ≡ length toks = (==_iff _ _).0 last in
        (
          λ h. absurd (ground (arith, (T.outs j i m e).0 h, get_elem?-length toks)),
          λ h. absurd (
              ne (
                T.inj j s (get_elem?-lt nodes j e) s-lt
                  (some-injective _ _ (sym h ∙ new_tok i last)))),
        )
    | inr other ↦ (
      λ h. old_tok i other ∙ (T.outs j i m e).0 h,
      λ h. (T.outs j i m e).1 (sym (old_tok i other) ∙ h),
    )
  ]

  after-outs :
      (j i : ℕ) (m : Node)
      → get_elem? after j ≡ some m
      → Elem i m.out ↔ (get_elem? toks' i ≡ some (w j))
  after-outs j i m e = elim (at_after j m e) [
    | inl (j=s, m=l) ↦
        subst₂ (λ x out. Elem i out ↔ (get_elem? toks' i ≡ some (w x))) (sym j=s)
          (ap (λ (k : Node). k.out) (sym m=l)) (listed-outs i)
    | inr (ne, e') ↦ other-outs j i m ne e'
  ]

  after-Trie : Trie after w toks'
  after-Trie = record {
    some_node = omega (arith, T.some_node, length-set nodes s listed);
    root = T.root;
    edge = λ j t b m e to_t.
        let (m0, e0, same) = before j m e in
        let (lt, word, small) = T.edge j t b m0 e0 (ap (λ (f : ℕ → Option ℕ). f b) same ∙ to_t) in
        (omega (arith, length-set nodes s listed), word, small);
    inj = λ j k hj hk e.
        T.inj j k (omega (arith, length-set nodes s listed))
          (omega (arith, length-set nodes s listed)) e;
    parent = λ j b u h e.
        let (p, m, at_p, to_j, word) =
          T.parent j b u (omega (arith, length-set nodes s listed)) e in
        let (m', e', same) = behind p m at_p in
        (p, m', e', ap (λ (f : ℕ → Option ℕ). f b) same ∙ to_j, word);
    outs = after-outs;
    spelled = λ i x e. elim (Bool-cases (i == length toks)) [
      | inl last ↦ (
        s,
        omega (arith, s-lt, length-set nodes s listed),
        some-injective _ _ (sym (new_tok i last) ∙ e),
      )
      | inr other ↦
          let (r, lt, is) = T.spelled i x (sym (old_tok i other) ∙ e) in
          (r, omega (arith, length-set nodes s listed), is)
    ];
  }

-- Inserting a token into a trie, under the next free rule index, does not panic, and gives a trie in
-- which that index stands for the token.
pub insert-Trie :
    (token : Bytes) (nodes : List Node) (w : ℕ → Bytes) (toks : List Bytes)
    → IsBytes token
    → Trie nodes w toks
    → (nodes' : List Node) × (w' : ℕ → Bytes) × (insert nodes token (length toks) ≡ some nodes')
      × Trie nodes' w' (toks ++ onto token [] ∷ [])
unfolding insert
insert-Trie token nodes w toks ok T =
    let (nodes', w', s, e, T', lt, word) = insert_loop_lem token nodes w toks 0 ok T T.some_node in
    let (n, at) = get_elem?-some nodes' s lt in
    let is : w' s ≡ onto token [] = word ∙ ap (onto token) T.root in
    (
      after nodes' w' toks T' s n at,
      w',
      rw (e, at, ◌>>=◌),
      subst (λ x. Trie (after nodes' w' toks T' s n at) w' (toks ++ x ∷ [])) is
          (after-Trie nodes' w' toks T' s n at),
    )
