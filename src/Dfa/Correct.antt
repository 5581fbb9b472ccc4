-- ===== src/Dfa/Correct.antt =====
-- `New` and `FindAll` together: a matcher finds exactly the rules whose token occurs in the text,
-- each once, whatever the order in which Go walks the set of matched rules.
use mathlib.Core.Option.{some-injective}
use guard_go.Base.{
  ℕ, ◌≡◌, ◌≢◌, ◌∙◌, refl, sym, ap, subst, ◌↔◌, inl, inr, List, [], ◌∷◌, map, some, arith, length,
  ◌>>=◌, All, All-get_elem?, true, Elem, get_elem?, get_elem?-lt, get_elem?-map, get_elem?-map_inv,
  Elem-index, Elem-of_index, ◌==◌, ◌||◌, Bool-cases,
}
use guard_go.Text.{Bytes, IsBytes, Unicode, lower_byte, is_empty}
use guard_go.Dfa.{Rule, Match, Matcher, new_matcher, scan, matches_of, find_all}
use guard_go.Dfa.Suffix.{Longest}
use guard_go.Dfa.Words.{Pre-nil, Pre-length}
use guard_go.Dfa.Infix.{Infix, Hits, Hits-iff, onto-rev}
use guard_go.Dfa.Search.{Unique, scan_lem}
use guard_go.Dfa.Make.{stored, IsReady, spell, toks_of, IsBuilt, new_matcher-IsBuilt}

-- An order in which Go may walk a set of indices: every index of the set, once.
pub record IsOrder (iterate : List ℕ → List ℕ) : Type 0 where
  pub same : (seen : List ℕ) (i : ℕ) → Elem i (iterate seen) ↔ Elem i seen
  pub once : (seen : List ℕ) → Unique seen → Unique (iterate seen)

-- The rule's token occurs in the text, ASCII letters of both taken as lower case.
abbrev pub Occurs : Rule → Bytes → Type 0
Occurs r text = Infix (map lower_byte r.token) (map lower_byte text)

-- The rule of index i is kept by the matcher, and its token occurs in the text.
abbrev pub Hit : Matcher → Bytes → ℕ → Type 0
Hit m text i = (r : Rule) × (get_elem? m.rules i ≡ some r) × Occurs r text

abbrev pub match_of : Rule → Match
match_of r = record { rule_id = r.id; weight = r.weight }

map-ne-nil : (s : Bytes) → s ≢ [] → map lower_byte s ≢ []
map-ne-nil [] h = h
map-ne-nil (c ∷ s) h = λ e. ground arith

-- What the scan meets is what occurs.
tok_iff :
    (m : Matcher) (text : Bytes) (i : ℕ)
    → All IsReady m.rules
    → ((x : Bytes) × (get_elem? (toks_of m.rules) i ≡ some x) × Hits x [] text) ↔ Hit m text i
tok_iff m text i ready = (
  λ (x, e, h).
      let (r, at, is) = get_elem?-map_inv spell m.rules i e in
      let ne = map-ne-nil r.token (All-get_elem? IsReady m.rules i ready at).1 in
      (
        r,
        at,
        (Hits-iff (map lower_byte r.token) text ne).0
            (subst (λ y. Hits y [] text) (sym is ∙ onto-rev r.token []) h),
      ),
  λ (r, at, occurs).
      let ne = map-ne-nil r.token (All-get_elem? IsReady m.rules i ready at).1 in
      (
        spell r,
        get_elem?-map spell m.rules i at,
        subst (λ y. Hits y [] text) (sym (onto-rev r.token []))
            ((Hits-iff (map lower_byte r.token) text ne).1 occurs),
      ),
)

start : (m : Matcher) (B : IsBuilt m) → Longest B.nodes0 B.w 0 []
start m B = record {
  lt = B.trie.some_node;
  pre = Pre-nil (B.w 0) B.trie.root [];
  most = λ r h p. omega (arith, Pre-length (B.w r) [] p);
}

scan_hits :
    (m : Matcher) (text : Bytes)
    → IsBuilt m
    → IsBytes text
    → (seen : List ℕ) × (scan m.nodes 0 [] text ≡ some seen)
      × Unique seen
      × ((i : ℕ) → Elem i seen ↔ Hit m text i)
scan_hits m text B ok =
    let (seen, e, unique, iff) =
      scan_lem B.nodes0 B.w (toks_of m.rules) B.trie m.nodes B.built text 0 [] [] ok (start m B)
        tt in
    (
      seen,
      e,
      unique,
      λ i.
          let tok = tok_iff m text i B.ready in
          (
            λ h. elim ((iff i).0 h) [ inl f ↦ absurd f | inr t ↦ tok.0 t ],
            λ h. (iff i).1 (inr (tok.1 h)),
          ),
    )

matches_of_lem :
    (rules : List Rule) (is : List ℕ)
    → ((i : ℕ) → Elem i is → (r : Rule) × (get_elem? rules i ≡ some r))
    → (ms : List Match) × (matches_of rules is ≡ some ms)
      × ((μ : Match)
          → Elem μ ms
            ↔ ((i : ℕ) × (r : Rule) × Elem i is × (get_elem? rules i ≡ some r) × (μ ≡ match_of r)))
unfolding matches_of
matches_of_lem rules [] h = ([], refl, λ μ. (λ f. absurd f, λ (i, r, f, _, _). absurd f))
matches_of_lem rules (i ∷ is) h =
    let (r, at) = h i (inl refl) in
    let (ms, e, iff) = matches_of_lem rules is (λ j k. h j (inr k)) in
    (
      match_of r ∷ ms,
      rw (at, e, ◌>>=◌),
      λ μ. (
        λ k. elim k [
          | inl here ↦ (i, r, inl refl, at, here)
          | inr there ↦ let (j, q, el, at', same) = (iff μ).0 there in (j, q, inr el, at', same)
        ],
        λ (j, q, el, at', same). elim el [
          | inl j=i ↦
              inl
                (same ∙ ap match_of (some-injective q r (sym at' ∙ ap (get_elem? rules) j=i ∙ at)))
          | inr inside ↦ inr ((iff μ).1 (j, q, inside, at', same))
        ],
      ),
    )

no-Hit :
    (m : Matcher) (text : Bytes)
    → IsBuilt m
    → (is_empty text || (length m.rules == 0)) ≡ true
    → (i : ℕ) → ¬ Hit m text i
no-Hit m [] B e i = λ h. ((tok_iff m [] i B.ready).1 h).2
no-Hit m (c ∷ text) B e i = λ (r, at, _). ground (arith, get_elem?-lt m.rules i at)

-- On a matcher that `New` built and a text of bytes, `FindAll` does not panic. It returns the rules
-- of a list of indices without repetition that holds exactly the rules whose token occurs in the
-- text.
pub find_all-once :
    (iterate : List ℕ → List ℕ) (m : Matcher) (text : Bytes)
    → IsOrder iterate
    → IsBuilt m
    → IsBytes text
    → (is : List ℕ) × (ms : List Match) × (find_all iterate m text ≡ some ms)
      × (matches_of m.rules is ≡ some ms)
      × Unique is
      × ((i : ℕ) → Elem i is ↔ Hit m text i)
unfolding find_all matches_of
find_all-once iterate m text O B ok = elim (Bool-cases (is_empty text || length m.rules == 0)) [
  | inl nothing ↦
      ([], [], rw nothing, refl, tt, λ i. (λ f. absurd f, λ h. no-Hit m text B nothing i h))
  | inr something ↦
      let (seen, e, unique, iff) = scan_hits m text B ok in
      let exact : (i : ℕ) → Elem i (iterate seen) ↔ Hit m text i =
        λ i. (λ h. (iff i).0 ((O.same seen i).0 h), λ h. (O.same seen i).1 ((iff i).1 h)) in
      let (ms, e', _) =
        matches_of_lem m.rules (iterate seen) (λ i h. let (r, at, _) = (exact i).0 h in (r, at)) in
      (iterate seen, ms, rw (something, e, ◌>>=◌) e', e', O.once seen unique, exact)
]

-- Matching is sound and complete: for rules and a text of bytes, `New` builds a matcher and
-- `FindAll` returns the matches of exactly the kept rules whose token occurs in the text. Neither
-- panics nor runs for ever, and the order in which Go walks the matched set does not matter.
pub find_all_iff :
    (u : Unicode) (rules : List Rule) (iterate : List ℕ → List ℕ) (text : Bytes)
    → All (λ r. IsBytes r.token) rules
    → IsOrder iterate
    → IsBytes text
    → (m : Matcher) × (ms : List Match) × (new_matcher u rules ≡ some m)
      × (find_all iterate m text ≡ some ms)
      × ((μ : Match)
          → Elem μ ms ↔ ((r : Rule) × Elem r (stored u rules) × (μ ≡ match_of r) × Occurs r text))
find_all_iff u rules iterate text ok O ok' =
    let (m, e, same, B) = new_matcher-IsBuilt u rules ok in
    let (is, ms, found, of_is, unique, iff) = find_all-once iterate m text O B ok' in
    let (ms', of_is', listed) =
      matches_of_lem m.rules is (λ i h. let (r, at, _) = (iff i).0 h in (r, at)) in
    let ms'=ms : ms' ≡ ms = some-injective _ _ (sym of_is' ∙ of_is) in
    (
      m,
      ms,
      e,
      found,
      λ μ. (
        λ h.
            let (i, r, el, at, is_r) = (listed μ).0 (subst (Elem μ) (sym ms'=ms) h) in
            let (q, at', occurs) = (iff i).0 el in
            let q=r : q ≡ r = some-injective _ _ (sym at' ∙ at) in
            (
              r,
              subst (Elem r) same (Elem-of_index r m.rules i at),
              is_r,
              subst (λ k. Occurs k text) q=r occurs,
            ),
        λ (r, el, is_r, occurs).
            let (i, at) = Elem-index r m.rules (subst (Elem r) (sym same) el) in
            subst (Elem μ) ms'=ms ((listed μ).1 (i, r, (iff i).1 (r, at, occurs), at, is_r)),
      ),
    )
