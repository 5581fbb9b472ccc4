-- ===== src/Dfa/Trie.antt =====
-- pkg/dfa/matcher.go, `insert`: the nodes form a trie of the tokens.
use guard_go.Base.{
  ℕ, suc, ◌<◌, ◌≡◌, ◌∙◌, refl, sym, ◌↔◌, inl, inr, List, [], ◌∷◌, ◌++◌, some, arith, length,
  if◌then◌else◌, ◌==◌, ==_iff, Bool-cases, Elem, get_elem?, set, get_elem?-lt, get_elem?-set_self,
  get_elem?-set_ne, get_elem?-append_left, get_elem?-append_last, length-append, length-set,
}
use mathlib.Core.Option.{some-injective}
use guard_go.Text.{Bytes}
use guard_go.Dfa.{Node, new_node, set_next}

-- The nodes are a trie: `w s` is the word of node s, last byte first, and `toks` holds the words of
-- the tokens in the order of their rules. A node lists exactly the rules whose token it spells.
pub record Trie (nodes : List Node) (w : ℕ → Bytes) (toks : List Bytes) : Type 0 where
  pub some_node : 0 < length nodes
  pub root : w 0 ≡ []
  pub edge :
      (s t b : ℕ) (n : Node)
      → get_elem? nodes s ≡ some n
      → n.next b ≡ some t
      → (t < length nodes) × (w t ≡ b ∷ w s) × (b < 256)
  pub inj : (s t : ℕ) → s < length nodes → t < length nodes → w s ≡ w t → s ≡ t
  pub parent :
      (s b : ℕ) (u : Bytes)
      → s < length nodes
      → w s ≡ b ∷ u
      → (p : ℕ) × (n : Node) × (get_elem? nodes p ≡ some n) × (n.next b ≡ some s) × (w p ≡ u)
  pub outs :
      (s i : ℕ) (n : Node)
      → get_elem? nodes s ≡ some n
      → Elem i n.out ↔ (get_elem? toks i ≡ some (w s))
  pub spelled :
      (i : ℕ) (x : Bytes) → get_elem? toks i ≡ some x → (s : ℕ) × (s < length nodes) × (w s ≡ x)

-- A new node at the end of the slice, reached from s by the byte b.
abbrev pub grown : List Node → ℕ → Node → ℕ → List Node
grown nodes s n b = set (nodes ++ new_node ∷ []) s (set_next n b (some (length nodes)))

abbrev pub extended : List Node → (ℕ → Bytes) → ℕ → ℕ → ℕ → Bytes
extended nodes w s b j = if j == length nodes then b ∷ w s else w j

module _ (nodes : List Node) (s b : ℕ) (n : Node) (at_s : get_elem? nodes s ≡ some n) where
  pub length-grown : length (grown nodes s n b) ≡ suc (length nodes)
  length-grown = omega (
    arith,
    length-set (nodes ++ new_node ∷ []) s (set_next n b (some (length nodes))),
    length-append nodes (new_node ∷ []),
  )

  -- What stands at an index of the grown slice.
  pub data At (j : ℕ) (m : Node) : Type 0 where
    source : j ≡ s → m ≡ set_next n b (some (length nodes)) → At j m
    fresh : j ≡ length nodes → m ≡ new_node → At j m
    old : ¬ (j ≡ s) → j < length nodes → get_elem? nodes j ≡ some m → At j m

  pub s-lt : s < length nodes
  s-lt = get_elem?-lt nodes s at_s

  pub at_source : get_elem? (grown nodes s n b) s ≡ some (set_next n b (some (length nodes)))
  at_source =
      get_elem?-set_self (nodes ++ new_node ∷ []) s _
        (omega (arith, s-lt, length-append nodes (new_node ∷ [])))

  pub at_fresh : get_elem? (grown nodes s n b) (length nodes) ≡ some new_node
  at_fresh =
      get_elem?-set_ne (nodes ++ new_node ∷ []) s (length nodes) _ (omega (arith, s-lt))
      ∙ get_elem?-append_last nodes new_node (length nodes) refl

  pub at_old :
      (j : ℕ) → ¬ (j ≡ s) → j < length nodes → get_elem? (grown nodes s n b) j ≡ get_elem? nodes j
  at_old j ne h =
      get_elem?-set_ne (nodes ++ new_node ∷ []) s j _ (λ e. ne (sym e))
      ∙ get_elem?-append_left nodes (new_node ∷ []) j h

  pub At-grown : (j : ℕ) (m : Node) → get_elem? (grown nodes s n b) j ≡ some m → At j m
  At-grown j m e = elim (Bool-cases (j == s)) [
    | inl same ↦
        let j=s : j ≡ s = (==_iff _ _).0 same in
        source j=s (some-injective _ _ (sym (rw j=s at e) ∙ at_source))
    | inr other ↦ elim (Bool-cases (j == length nodes)) [
      | inl last ↦
          let j=N : j ≡ length nodes = (==_iff _ _).0 last in
          fresh j=N (some-injective _ _ (sym (rw j=N at e) ∙ at_fresh))
      | inr inside ↦
          let ne : ¬ (j ≡ s) = ground arith in
          let lt : j < length nodes =
            ground (arith, length-grown, get_elem?-lt (grown nodes s n b) j e) in
          old ne lt (sym (at_old j ne lt) ∙ e)
    ]
  ]
