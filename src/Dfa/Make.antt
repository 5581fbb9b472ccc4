-- ===== src/Dfa/Make.antt =====
-- `New`: it does not panic, and the matcher that it builds is a complete automaton for the rules
-- that have a token.
use mathlib.Core.List.{map-append, append_assoc, append-nil}
use mathlib.Core.Option.{some-injective}
use guard_go.Base.{
  ℕ, zero, suc, ◌≤◌, ◌≡◌, ◌≢◌, ◌∙◌, refl, sym, ap, subst, inl, inr, List, [], ◌∷◌, ◌++◌, map, none,
  some, arith, length, ◌>>=◌, All, All-append, All-get_elem?, Elem, get_elem?, get_elem?-map_inv,
  length-map, Option-cases, Bool-cases,
}
use guard_go.Text.{
  Bytes, IsBytes, Unicode, is_empty, to_lower, trim_space, to_lower-IsBytes, trim_space-IsBytes,
}
use guard_go.Dfa.{Node, new_node, Rule, Matcher, normalize, insert_rules, new_matcher}
use guard_go.Dfa.Trie.{Trie}
use guard_go.Dfa.Insert.{onto, insert-Trie}
use guard_go.Dfa.Build.{Built, build_failures-Built}

-- The rules that `New` keeps, as it stores them.
unfoldable pub stored : Unicode → List Rule → List Rule
stored u [] = []
stored u (rule ∷ rules) = elim (normalize u rule) [
  | none ↦ stored u rules
  | some r ↦ r ∷ stored u rules
]

abbrev pub IsReady : Rule → Type 0
IsReady r = IsBytes r.token × (r.token ≢ [])

abbrev pub spell : Rule → Bytes
spell r = onto r.token []

abbrev pub toks_of : List Rule → List Bytes
toks_of = map spell

normalize-IsReady :
    (u : Unicode) (rule : Rule) {r : Rule}
    → IsBytes rule.token
    → normalize u rule ≡ some r
    → IsReady r
unfolding normalize
normalize-IsReady u rule {r} h e =
    elim (Bool-cases (is_empty (trim_space u (to_lower u rule.token)))) [
      | inl gone ↦ absurd (ground arith)
      | inr kept ↦
          let token : r.token ≡ trim_space u (to_lower u rule.token) = ground arith in
          (
            subst IsBytes (sym token) (trim_space-IsBytes u _ (to_lower-IsBytes u rule.token h)),
            λ nil. ground (arith, ap is_empty (sym token ∙ nil)),
          )
    ]

onto-ne-nil : (token u : Bytes) → length u ≤ length (onto token u)
unfolding onto
onto-ne-nil [] u = omega arith
onto-ne-nil (c ∷ token) u = omega (arith, onto-ne-nil token (guard_go.Text.lower_byte c ∷ u))

spell-ne-nil : (r : Rule) → r.token ≢ [] → spell r ≢ []
unfolding onto
spell-ne-nil r ne = go r.token ne
  where
    go : (token : Bytes) → token ≢ [] → onto token [] ≢ []
    go [] h = absurd (h refl)
    go (c ∷ token) h =
        λ e. omega (arith, onto-ne-nil token (guard_go.Text.lower_byte c ∷ []), ap length e)

insert_rules_lem :
    (u : Unicode) (rules : List Rule) (m : Matcher) (w : ℕ → Bytes)
    → All (λ r. IsBytes r.token) rules
    → All IsReady m.rules
    → Trie m.nodes w (toks_of m.rules)
    → (m' : Matcher) × (w' : ℕ → Bytes) × (insert_rules u rules m ≡ some m')
      × (m'.rules ≡ m.rules ++ stored u rules)
      × All IsReady m'.rules
      × Trie m'.nodes w' (toks_of m'.rules)
unfolding insert_rules stored
insert_rules_lem u [] m w ok ready T = (m, w, refl, sym (append-nil m.rules), ready, T)
insert_rules_lem u (rule ∷ rules) m w ok ready T = elim (Option-cases (normalize u rule)) [
  | inl skipped ↦
      let (m', w', e, same, ready', T') = insert_rules_lem u rules m w ok.1 ready T in
      (m', w', rw (skipped, insert_rules) e, rw (skipped, stored) same, ready', T')
  | inr (r, kept) ↦
      let good : IsReady r = normalize-IsReady u rule ok.0 kept in
      let (nodes1, w1, e1, T1) = insert-Trie r.token m.nodes w (toks_of m.rules) good.0 T in
      let m1 : Matcher = record { nodes = nodes1; rules = m.rules ++ r ∷ [] } in
      let T1' : Trie nodes1 w1 (toks_of (m.rules ++ r ∷ [])) =
        subst (λ ts. Trie nodes1 w1 ts) (sym (map-append spell m.rules (r ∷ []))) T1 in
      let (m', w', e, same, ready', T') =
        insert_rules_lem u rules m1 w1 ok.1 (All-append IsReady m.rules (r ∷ []) ready (good, tt))
          T1' in
      (
        m',
        w',
        rw (kept, insert_rules) (rw (← length-map spell m.rules, e1, ◌>>=◌) e),
        rw (kept, stored) (same ∙ append_assoc m.rules (r ∷ []) (stored u rules)),
        ready',
        T',
      )
]

empty-Trie : Trie (new_node ∷ []) (λ _. []) []
empty-Trie = record {
  some_node = omega arith;
  root = refl;
  edge = λ s t b n e to_t. absurd (no_edge s t b n e to_t);
  inj = λ s t hs ht e. omega arith;
  parent = λ s b u h e. absurd (ground arith);
  outs = λ s i n e. (λ h. absurd (no_out s i n e h), λ h. absurd (ground arith));
  spelled = λ i x e. absurd (ground arith);
}
  where
    no_edge : (s t b : ℕ) (n : Node) → get_elem? (new_node ∷ []) s ≡ some n → n.next b ≡ some t → ⊥
    no_edge zero t b n e h = ground (arith, ap (λ (k : Node). k.next b) (some-injective _ _ e))
    no_edge (suc s) t b n e h = ground arith

    no_out : (s i : ℕ) (n : Node) → get_elem? (new_node ∷ []) s ≡ some n → Elem i n.out → ⊥
    no_out zero i n e h =
        subst (λ out. Elem i out) (ap (λ (k : Node). k.out) (sym (some-injective _ _ e))) h
    no_out (suc s) i n e h = ground arith

-- A matcher that `New` has built.
pub record IsBuilt (m : Matcher) : Type 0 where
  pub nodes0 : List Node
  pub w : ℕ → Bytes
  pub trie : Trie nodes0 w (toks_of m.rules)
  pub built : Built nodes0 w (toks_of m.rules) m.nodes
  pub ready : All IsReady m.rules

-- `New` never panics and its loops end; it keeps the rules whose token is not empty, in order, and
-- its nodes are a complete automaton for them.
pub new_matcher-IsBuilt :
    (u : Unicode) (rules : List Rule)
    → All (λ r. IsBytes r.token) rules
    → (m : Matcher) × (new_matcher u rules ≡ some m) × (m.rules ≡ stored u rules) × IsBuilt m
unfolding new_matcher
new_matcher-IsBuilt u rules ok =
    let m0 : Matcher = record { nodes = new_node ∷ []; rules = [] } in
    let (m1, w, e, same, ready, T) = insert_rules_lem u rules m0 (λ _. []) ok tt empty-Trie in
    let solid : (i : ℕ) → ¬ (get_elem? (toks_of m1.rules) i ≡ some []) = λ i h.
      let (r, at, nil) = get_elem?-map_inv spell m1.rules i h in
      spell-ne-nil r (All-get_elem? IsReady m1.rules i ready at).1 nil in
    let (nodes, e', built) = build_failures-Built m1.nodes w (toks_of m1.rules) T solid in
    (
      record m1 { nodes = nodes },
      rw (e, e', ◌>>=◌),
      same,
      record { nodes0 = m1.nodes; w = w; trie = T; built = built; ready = ready },
    )
