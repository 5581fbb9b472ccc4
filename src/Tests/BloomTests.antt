-- ===== src/Tests/BloomTests.antt =====
-- pkg/bloom/filter.go at a filter of 128 bits.
use guard_go.Base.{
  ℕ, ◌≡◌, ◌≢◌, ◌↔◌, ◌⊎◌, ◌<◌, ◌≤◌, none, refl, true, ◌||◌, [], ◌∷◌, ◌++◌, some, ◌>>=◌, ◌==◌,
  if◌then◌else◌, arith,
}
use guard_go.Text.{Bytes, codes}
use guard_go.Bloom.{Filter, new_filter, add, test, IsValid}
use guard_go.Bloom.Words.{is_set}
use guard_go.Bloom.Membership.{
  probed, member, add_all, probed_by, words_needed, IsFresh, new_filter-IsFresh,
  new_filter-some-IsFresh, add_total, test-member,
}
use guard_go.Bloom.History.{add_all_total, no_false_negative, fresh_test_iff}
use guard_go.Bloom.Concurrent.{System, finished, start, run, concurrent_add}

abbrev ip : Bytes
ip = codes "10.0.0.1"

abbrev other : Bytes
other = codes "10.0.0.2"

abbrev small : Filter
small = record { words = 0 ∷ 0 ∷ []; bits = 128; k = 3 }

small-made : new_filter 4096 128 3 ≡ some small
unfolding new_filter
small-made = refl

small-IsValid : IsValid small
small-IsValid = (new_filter-some-IsFresh 4096 128 3 small (omega arith) small-made).valid

added : (do g ← add small ip; test g ip) ≡ some true
unfolding new_filter add test guard_go.Bloom.add_loop guard_go.Bloom.test_loop
    guard_go.Bloom.set_bit guard_go.Bloom.probe guard_go.Bloom.two_hashes
added = refl

new_filter-IsFresh_example :
    (4096 < words_needed 0 × (new_filter 4096 0 0 ≡ none))
    ⊎ (words_needed 0 ≤ 4096 × ((f : Filter) × (new_filter 4096 0 0 ≡ some f) × IsFresh 0 f))
new_filter-IsFresh_example = new_filter-IsFresh 4096 0 0 (omega arith)

add_total_example :
    (g : Filter) × (add small ip ≡ some g)
    × IsValid g
    × (g.bits ≡ small.bits)
    × (g.k ≡ small.k)
    × ((j : ℕ) → is_set g.words j ≡ (probed small ip j || is_set small.words j))
add_total_example = add_total small ip small-IsValid

test-member_example : test small ip ≡ some (member small ip)
test-member_example = test-member small ip small-IsValid

add_all_total_example :
    (g : Filter) × (add_all small (ip ∷ other ∷ []) ≡ some g)
    × IsValid g
    × (g.bits ≡ small.bits)
    × (g.k ≡ small.k)
    × ((j : ℕ) → is_set g.words j ≡ (probed_by small (ip ∷ other ∷ []) j || is_set small.words j))
add_all_total_example = add_all_total small (ip ∷ other ∷ []) small-IsValid

not_empty : (s : Bytes) → s ≡ ip → s ≢ []
not_empty s e = λ h. ground arith

no_false_negative_example :
    (g : Filter) × (add_all small ((other ∷ []) ++ ip ∷ []) ≡ some g) × (test g ip ≡ some true)
no_false_negative_example =
    no_false_negative small (other ∷ []) [] ip small-IsValid (not_empty ip refl)

fresh_test_iff_example :
    (g : Filter) × (add_all small (other ∷ []) ≡ some g)
    × ((test g ip ≡ some true)
        ↔ ((j : ℕ) → probed small ip j ≡ true → probed_by small (other ∷ []) j ≡ true))
fresh_test_iff_example =
    fresh_test_iff 4096 128 3 small (other ∷ []) ip (omega arith) small-made (not_empty ip refl)

abbrev two_values : ℕ → Bytes
two_values t = if t == 0 then ip else other

concurrent_add_example :
    (s : System) × (run small two_values (0 ∷ 1 ∷ 0 ∷ 1 ∷ 1 ∷ 0 ∷ []) (start small two_values)
      ≡ some s)
    × ((j : ℕ) → is_set small.words j ≡ true → is_set s.words j ≡ true)
    × ((t : ℕ)
        → s.pc t ≡ finished
        → two_values t ≢ []
        → test (record small { words = s.words }) (two_values t) ≡ some true)
concurrent_add_example = concurrent_add small two_values small-IsValid (0 ∷ 1 ∷ 0 ∷ 1 ∷ 1 ∷ 0 ∷ [])
