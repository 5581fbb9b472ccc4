-- ===== src/Tests/DfaTests.antt =====
-- pkg/dfa/matcher.go on the tokens he, she, his and hers.
use guard_go.Base.{ℕ, ◌≡◌, ◌↔◌, refl, List, [], ◌∷◌, some, ◌>>=◌, Elem, All, arith}
use guard_go.Base.Int.{pos}
use guard_go.Text.{IsBytes, codes, ascii_only, lower_byte, trim_space, to_lower}
use guard_go.Dfa.{
  Rule, Match, Matcher, new_matcher, find_all, matches_of, scan, mark_all, mark, insert_rules,
  insert, insert_loop, normalize, build_failures, drain, node_round, root_round, link, for_bytes,
}
use guard_go.Dfa.Search.{Unique}
use guard_go.Dfa.Make.{stored, IsBuilt, new_matcher-IsBuilt}
use guard_go.Dfa.Correct.{IsOrder, Occurs, Hit, match_of, find_all-once, find_all_iff}

abbrev ushers : List Rule
ushers =
    record { id = codes "1"; weight = pos 2; token = codes "he" }
    ∷ record { id = codes "2"; weight = pos 0; token = codes "she" }
    ∷ record { id = codes "3"; weight = pos 3; token = codes " HIS " }
    ∷ record { id = codes "4"; weight = pos 3; token = codes " " }
    ∷ record { id = codes "5"; weight = pos 4; token = codes "hers" }
    ∷ []

run_ushers :
    (do m ← new_matcher ascii_only ushers; find_all (λ s. s) m (codes "uSHErs"))
    ≡ some (
        record { rule_id = codes "2"; weight = pos 1 }
        ∷ record { rule_id = codes "1"; weight = pos 2 }
        ∷ record { rule_id = codes "5"; weight = pos 4 }
        ∷ [])
unfolding find_all matches_of scan mark_all mark new_matcher insert_rules insert insert_loop
    normalize build_failures drain node_round root_round link for_bytes trim_space to_lower
    lower_byte
run_ushers = refl

pub in-IsOrder : IsOrder (λ seen. seen)
in-IsOrder = record { same = λ seen i. (λ h. h, λ h. h); once = λ seen h. h }

ushers-IsBytes : All (λ r. IsBytes r.token) ushers
ushers-IsBytes = omega arith

text-IsBytes : IsBytes (codes "uSHErs")
text-IsBytes = omega arith

new_matcher-IsBuilt_example :
    (m : Matcher) × (new_matcher ascii_only ushers ≡ some m)
    × (m.rules ≡ stored ascii_only ushers)
    × IsBuilt m
new_matcher-IsBuilt_example = new_matcher-IsBuilt ascii_only ushers ushers-IsBytes

abbrev made : Matcher
made = (new_matcher-IsBuilt ascii_only ushers ushers-IsBytes).0

find_all-once_example :
    (is : List ℕ) × (ms : List Match) × (find_all (λ seen. seen) made (codes "uSHErs") ≡ some ms)
    × (matches_of made.rules is ≡ some ms)
    × Unique is
    × ((i : ℕ) → Elem i is ↔ Hit made (codes "uSHErs") i)
find_all-once_example =
    find_all-once (λ seen. seen) made (codes "uSHErs") in-IsOrder
      (new_matcher-IsBuilt ascii_only ushers ushers-IsBytes).3 text-IsBytes

find_all_iff_example :
    (m : Matcher) × (ms : List Match) × (new_matcher ascii_only ushers ≡ some m)
    × (find_all (λ seen. seen) m (codes "uSHErs") ≡ some ms)
    × ((μ : Match)
        → Elem μ ms ↔ (
            (r : Rule) × Elem r (stored ascii_only ushers)
            × (μ ≡ match_of r)
            × Occurs r (codes "uSHErs")))
find_all_iff_example =
    find_all_iff ascii_only ushers (λ seen. seen) (codes "uSHErs") ushers-IsBytes in-IsOrder
      text-IsBytes
