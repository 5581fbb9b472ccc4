-- ===== src/Bloom/History.antt =====
-- pkg/bloom/filter.go: a filter after any sequence of `Add` calls, against the set of the added
-- values' probes.
use guard_go.Base.{
  ℕ, zero, suc, ◌+◌, ◌^◌, ◌<◌, ◌≡◌, ◌∙◌, ap, ◌≢◌, ◌↔◌, refl, sym, true, ◌||◌, List, [], ◌∷◌, ◌++◌,
  some, inl, inr, arith, ◌==◌, ◌>>=◌, Bool-cases, ==_iff,
}
use mathlib.Core.Option.{some-injective}
use guard_go.Bloom.{Filter, new_filter, two_hashes, probe, test, IsValid}
use guard_go.Bloom.Words.{is_set}
use guard_go.Bloom.Membership.{
  hits, all_set, probed, member, add_all, probed_by, add_total, test-member,
  new_filter-some-IsFresh, hits→all_set,
}

module _ (f g : Filter) (same_bits : g.bits ≡ f.bits) (same_k : g.k ≡ f.k) where
  hits_same : (h1 h2 n i j : ℕ) → hits g h1 h2 n i j ≡ hits f h1 h2 n i j
  unfolding hits probe
  hits_same h1 h2 zero i j = refl
  hits_same h1 h2 (suc n) i j = rw (same_bits, hits_same h1 h2 n (i + 1) j)

  probed_same : (v : List ℕ) (j : ℕ) → probed g v j ≡ probed f v j
  unfolding probed
  probed_same [] j = refl
  probed_same (b ∷ v) j =
      let hs = two_hashes (b ∷ v) in
      hits_same hs.0 hs.1 g.k 0 j ∙ ap (λ n. hits f hs.0 hs.1 n 0 j) same_k

  probed_by_same : (vs : List (List ℕ)) (j : ℕ) → probed_by g vs j ≡ probed_by f vs j
  unfolding probed_by
  probed_by_same [] j = refl
  probed_by_same (v ∷ vs) j = rw (probed_same v j, probed_by_same vs j)

all_set→hits :
    (f : Filter) (h1 h2 n i : ℕ) (words : List ℕ) (j : ℕ)
    → all_set f h1 h2 n i words ≡ true
    → hits f h1 h2 n i j ≡ true
    → is_set words j ≡ true
unfolding hits all_set
all_set→hits f h1 h2 zero i words j a h = absurd (ground arith)
all_set→hits f h1 h2 (suc n) i words j a h = elim (Bool-cases (j == probe f h1 h2 i)) [
  | inl e ↦ rw ((==_iff _ _).0 e) (ground arith)
  | inr e ↦ all_set→hits f h1 h2 n (i + 1) words j (ground arith) (ground arith)
]

-- Adding a list of values to a valid filter never panics, keeps its size and validity, and sets
-- exactly the probes of the values: a bit is set afterwards if and only if it was set before or
-- one of the values probes it.
pub add_all_total :
    (f : Filter) (vs : List (List ℕ))
    → IsValid f
    → (g : Filter) × (add_all f vs ≡ some g)
      × IsValid g
      × (g.bits ≡ f.bits)
      × (g.k ≡ f.k)
      × ((j : ℕ) → is_set g.words j ≡ (probed_by f vs j || is_set f.words j))
unfolding add_all probed_by
add_all_total f [] valid = (f, refl, valid, refl, refl, λ j. refl)
add_all_total f (v ∷ vs) valid =
    let (g, e, valid_g, b, k, s) = add_total f v valid in
    let (h, e', valid_h, b', k', s') = add_all_total g vs valid_g in
    (
      h,
      rw (e, ◌>>=◌) e',
      valid_h,
      b' ∙ b,
      k' ∙ k,
      λ j. ground (arith, s j, s' j, probed_by_same f g b k vs j),
    )

member-iff-subset :
    (g : Filter) (v : List ℕ)
    → v ≢ []
    → (member g v ≡ true) ↔ ((j : ℕ) → probed g v j ≡ true → is_set g.words j ≡ true)
unfolding member probed
member-iff-subset g [] ne = absurd (ne refl)
member-iff-subset g (b ∷ v) ne =
    let hs = two_hashes (b ∷ v) in
    (
      λ a j h. all_set→hits g hs.0 hs.1 g.k 0 g.words j a h,
      λ h. hits→all_set g hs.0 hs.1 g.k 0 g.words h,
    )

probed_by-mem :
    (f : Filter) (us ws : List (List ℕ)) (v : List ℕ) (j : ℕ)
    → probed f v j ≡ true
    → probed_by f (us ++ v ∷ ws) j ≡ true
unfolding probed_by
probed_by-mem f [] ws v j h = rw h
probed_by-mem f (u ∷ us) ws v j h = ground (arith, probed_by-mem f us ws v j h)

-- No false negatives: on a valid filter, a non-empty value added anywhere in a sequence of `Add`
-- calls is reported present by `Test` afterwards, and none of the calls panics.
pub no_false_negative :
    (f : Filter) (us ws : List (List ℕ)) (v : List ℕ)
    → IsValid f
    → v ≢ []
    → (g : Filter) × (add_all f (us ++ v ∷ ws) ≡ some g) × (test g v ≡ some true)
no_false_negative f us ws v valid ne =
    let (g, e, valid_g, b, k, s) = add_all_total f (us ++ v ∷ ws) valid in
    let inside : member g v ≡ true =
      (member-iff-subset g v ne).1 (λ j h.
        ground (arith, s j, probed_by-mem f us ws v j (sym (probed_same f g b k v j) ∙ h))) in
    (g, e, test-member g v valid_g ∙ ap some inside)

-- A filter that `New` has returned for fewer than 2^64 - 63 bits and that was then given a list of values
-- reports a non-empty value present exactly when every bit that the value probes is probed by one of the
-- given values; no call panics.
pub fresh_test_iff :
    (room bits hashes : ℕ) (f : Filter) (vs : List (List ℕ)) (v : List ℕ)
    → bits + 63 < 2 ^ 64
    → new_filter room bits hashes ≡ some f
    → v ≢ []
    → (g : Filter) × (add_all f vs ≡ some g)
      × ((test g v ≡ some true) ↔ ((j : ℕ) → probed f v j ≡ true → probed_by f vs j ≡ true))
fresh_test_iff room bits hashes f vs v h made ne =
    let fresh = new_filter-some-IsFresh room bits hashes f h made in
    let (g, e, valid_g, b, k, s) = add_all_total f vs fresh.valid in
    let exact : (j : ℕ) → is_set g.words j ≡ probed_by f vs j =
      λ j. ground (arith, s j, fresh.clear j) in
    let iff = member-iff-subset g v ne in
    let present : test g v ≡ some true → (j : ℕ) → probed f v j ≡ true → probed_by f vs j ≡ true =
      λ t j p.
        sym (exact j)
        ∙ iff.0 (some-injective _ _ (sym (test-member g v valid_g) ∙ t)) j
            (probed_same f g b k v j ∙ p) in
    (
      g,
      e,
      (
        present,
        λ sub.
            test-member g v valid_g
            ∙ ap some (iff.1 λ j p. exact j ∙ sub j (sym (probed_same f g b k v j) ∙ p)),
      ),
    )
