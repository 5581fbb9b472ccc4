-- ===== src/Dfa.antt =====
-- pkg/dfa/matcher.go: the Aho-Corasick matcher. `next` holds -1 or a node's index, here an `Option`;
-- an index outside `nodes` or `rules` is a panic in Go and `none` here. Go walks the set `seen` of
-- matched rules in an order of its own: `iterate` stands for that order.
pub mod Words
pub mod Trie
pub mod Grow
pub mod Insert
pub mod Suffix
pub mod Status
pub mod Queue
pub mod Order
pub mod Skip
pub mod Push
pub mod Rounds
pub mod Advance
pub mod Build
pub mod Infix
pub mod Search
pub mod Make
pub mod Correct
use guard_go.Base.{
  ℕ, zero, suc, ◌+◌, ◌-◌, ◌<◌, ◌≡◌, refl, Bool, true, false, ◌&&◌, ◌||◌, List, [], ◌∷◌, ◌++◌, map,
  Option, none, some, arith, if◌then◌else◌, ◌==◌, ◌>>=◌, length, get_elem?, set,
}
use guard_go.Base.Int.{ℤ, pos, leb_ℤ}
use guard_go.Text.{Bytes, Unicode, lower_byte, to_lower, trim_space, is_empty, ascii_only, codes}

pub record Rule : Type 0 where
  pub id : Bytes
  pub weight : ℤ
  pub token : Bytes

pub record Match : Type 0 where
  pub rule_id : Bytes
  pub weight : ℤ

pub record Node : Type 0 where
  pub next : ℕ → Option ℕ
  pub fail : ℕ
  pub out : List ℕ

pub record Matcher : Type 0 where
  pub nodes : List Node
  pub rules : List Rule

abbrev pub new_node : Node
new_node = record { next = λ b. none; fail = 0; out = [] }

-- `n.next[b] = t`.
abbrev pub set_next : Node → ℕ → Option ℕ → Node
set_next n b t = record n { next = λ c. if b == c then t else n.next c }

-- The loop of `insert`, from a state.
unfoldable pub insert_loop : List Node → ℕ → Bytes → Option (List Node × ℕ)
insert_loop nodes state [] = some (nodes, state)
insert_loop nodes state (c ∷ token) = do
  n ← get_elem? nodes state
  let b = lower_byte c
  elim (n.next b) [
    | some next ↦ insert_loop nodes next token
    | none ↦
        insert_loop (set (nodes ++ new_node ∷ []) state (set_next n b (some (length nodes))))
          (length nodes) token
  ]

unfoldable pub insert : List Node → Bytes → ℕ → Option (List Node)
insert nodes token rule_index = do
  (nodes', state) ← insert_loop nodes 0 token
  n ← get_elem? nodes' state
  some (set nodes' state (record n { out = n.out ++ rule_index ∷ [] }))

-- A loop over `b` with n rounds left.
unfoldable pub for_bytes {ℓ} : {S : Type ℓ} → (ℕ → S → Option S) → ℕ → ℕ → S → Option S
for_bytes round zero b s = some s
for_bytes round (suc n) b s = do s' ← round b s; for_bytes round n (b + 1) s'

-- The nodes and the queue of `buildFailures`.
abbrev pub Work : Type 0
Work = List Node × List ℕ

-- A round of the first loop of `buildFailures`.
unfoldable pub root_round : ℕ → Work → Option Work
root_round b (nodes, queue) = do
  root ← get_elem? nodes 0
  elim (root.next b) [
    | none ↦ some (set nodes 0 (set_next root b (some 0)), queue)
    | some next ↦ do
      child ← get_elem? nodes next
      some (set nodes next (record child { fail = 0 }), queue ++ next ∷ [])
  ]

-- The child's failure link and outputs, once the link's target is known.
unfoldable pub link : List Node → ℕ → ℕ → Option (List Node)
link nodes next fail = do
  child ← get_elem? nodes next
  let linked = set nodes next (record child { fail = fail })
  target ← get_elem? linked fail
  child' ← get_elem? linked next
  some (set linked next (record child' { out = child'.out ++ target.out }))

-- A round of the inner loop over the bytes, for the node taken from the queue.
unfoldable pub node_round : ℕ → ℕ → Work → Option Work
node_round state b (nodes, queue) = do
  n ← get_elem? nodes state
  f ← get_elem? nodes n.fail
  elim (n.next b) [
    | none ↦ some (set nodes state (set_next n b (f.next b)), queue)
    | some next ↦ do
      fail ← f.next b
      nodes' ← link nodes next fail
      some (nodes', queue ++ next ∷ [])
  ]

-- `for len(queue) > 0`, on fuel.
unfoldable pub drain : ℕ → Work → Option (List Node)
drain fuel (nodes, []) = some nodes
drain zero (nodes, s ∷ queue) = none
drain (suc fuel) (nodes, s ∷ queue) = do
  work ← for_bytes (node_round s) 256 0 (nodes, queue)
  drain fuel work

-- Every node but the root enters the queue once, so one round for each node is enough.
unfoldable pub build_failures : List Node → Option (List Node)
build_failures nodes = do work ← for_bytes root_round 256 0 (nodes, []); drain (length nodes) work

-- The body of the loop in `New`: the rule as it is stored, if its token is not empty.
unfoldable pub normalize : Unicode → Rule → Option Rule
normalize u rule =
    let token = trim_space u (to_lower u rule.token) in
    if is_empty token
    then none
    else some (record rule {
      weight = if leb_ℤ rule.weight (pos 0) then pos 1 else rule.weight;
      token = token;
    })

unfoldable pub insert_rules : Unicode → List Rule → Matcher → Option Matcher
insert_rules u [] m = some m
insert_rules u (rule ∷ rules) m = elim (normalize u rule) [
  | none ↦ insert_rules u rules m
  | some r ↦ do
    nodes ← insert m.nodes r.token (length m.rules)
    insert_rules u rules (record { nodes = nodes; rules = m.rules ++ r ∷ [] })
]

-- `New`.
unfoldable pub new_matcher : Unicode → List Rule → Option Matcher
new_matcher u rules = do
  m ← insert_rules u rules (record { nodes = new_node ∷ []; rules = [] })
  nodes ← build_failures m.nodes
  some (record m { nodes = nodes })

-- `seen[ruleIndex] = struct{}{}`.
unfoldable pub mark : List ℕ → ℕ → List ℕ
mark [] i = i ∷ []
mark (j ∷ seen) i = if j == i then j ∷ seen else j ∷ mark seen i

unfoldable pub mark_all : List ℕ → List ℕ → List ℕ
mark_all seen [] = seen
mark_all seen (i ∷ out) = mark_all (mark seen i) out

-- The loop of `FindAll` over the text: the indices of the rules that it meets.
unfoldable pub scan : List Node → ℕ → List ℕ → Bytes → Option (List ℕ)
scan nodes state seen [] = some seen
scan nodes state seen (c ∷ text) = do
  n ← get_elem? nodes state
  state' ← n.next (lower_byte c)
  n' ← get_elem? nodes state'
  scan nodes state' (mark_all seen n'.out) text

unfoldable pub matches_of : List Rule → List ℕ → Option (List Match)
matches_of rules [] = some []
matches_of rules (i ∷ seen) = do
  r ← get_elem? rules i
  rest ← matches_of rules seen
  some (record { rule_id = r.id; weight = r.weight } ∷ rest)

-- `FindAll`.
unfoldable pub find_all : (List ℕ → List ℕ) → Matcher → Bytes → Option (List Match)
find_all iterate m text =
    if is_empty text || length m.rules == 0
    then some []
    else (do seen ← scan m.nodes 0 [] text; matches_of m.rules (iterate seen))

-- `RuleCount` and `NodeCount`, on a pointer that may be nil.
unfoldable pub rule_count : Option Matcher → ℕ
rule_count none = 0
rule_count (some m) = length m.rules

unfoldable pub node_count : Option Matcher → ℕ
node_count none = 0
node_count (some m) = length m.nodes
