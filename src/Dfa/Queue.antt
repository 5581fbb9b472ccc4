-- ===== src/Dfa/Queue.antt =====
-- `buildFailures`: the invariant of its loops. The node `cur` is being expanded, and its bytes below
-- b are done; `st` says how far every node is. `nodes0` is the trie before the loops.
use guard_go.Base.{ℕ, ◌≤◌, ◌<◌, ◌≡◌, ◌≢◌, ◌⊎◌, List, ◌∷◌, some, length, All, Elem, get_elem?}
use guard_go.Text.{Bytes}
use guard_go.Dfa.{Node}
use guard_go.Dfa.Suffix.{Longest, Fail, Complete}
use guard_go.Dfa.Status.{Status, raw, queued, busy, done, Ordered}

-- A state, a text's rest, and what the node's slot for the byte c says.
pub record Full (nodes0 : List Node) (w : ℕ → Bytes) (s c : ℕ) (m : Node) : Type 0 where
  pub to : ℕ
  pub goes : m.next c ≡ some to
  pub longest : Longest nodes0 w to (c ∷ w s)

-- Whether the children of a node by the byte c have been met.
abbrev pub Opened : ℕ → Status → ℕ → Type 0
Opened b raw c = ⊥
Opened b queued c = ⊥
Opened b busy c = c < b
Opened b done c = Unit

module _ (nodes0 : List Node) (w : ℕ → Bytes) (toks : List Bytes) where
  abbrev pub depth : ℕ → ℕ
  depth s = length (w s)

  pub record Busy (b s : ℕ) (m m0 : Node) : Type 0 where
    pub full : (c : ℕ) → c < b → c < 256 → Full nodes0 w s c m
    pub rest : (c : ℕ) → b ≤ c → m.next c ≡ m0.next c
    pub link : s ≢ 0 → Fail nodes0 w m.fail s
    pub complete : Complete w toks s m.out

  pub record Queued (s : ℕ) (m m0 : Node) : Type 0 where
    pub rest : m.next ≡ m0.next
    pub link : Fail nodes0 w m.fail s
    pub complete : Complete w toks s m.out

  pub record Done (s : ℕ) (m : Node) : Type 0 where
    pub full : (c : ℕ) → c < 256 → Full nodes0 w s c m
    pub complete : Complete w toks s m.out

  -- What the current node m at s has, beside the trie's node m0.
  abbrev pub NodeOk : ℕ → Status → ℕ → Node → Node → Type 0
  NodeOk b raw s m m0 = m.next ≡ m0.next × (m.out ≡ m0.out)
  NodeOk b queued s m m0 = Queued s m m0
  NodeOk b busy s m m0 = Busy b s m m0
  NodeOk b done s m m0 = Done s m

  pub record Inv (cur b : ℕ) (st : ℕ → Status) (nodes : List Node) (queue : List ℕ) : Type 0 where
    pub cur_lt : cur < length nodes0
    pub cur_busy : st cur ≡ busy
    pub only : (r : ℕ) → st r ≡ busy → r ≡ cur
    pub root_met : (st 0 ≡ busy) ⊎ (st 0 ≡ done)
    pub len : length nodes ≡ length nodes0
    pub node :
        (s : ℕ) (m m0 : Node)
        → get_elem? nodes s ≡ some m
        → get_elem? nodes0 s ≡ some m0
        → NodeOk b (st s) s m m0
    pub in_queue : (r : ℕ) → r < length nodes0 → st r ≡ queued → Elem r queue
    pub of_queue : All (λ q. (q < length nodes0) × (st q ≡ queued) × (depth cur ≤ depth q)) queue
    pub ordered : Ordered depth queue
    pub behind : (r : ℕ) → st r ≡ done → depth r ≤ depth cur
    pub opened :
        (p t c : ℕ) (n : Node)
        → get_elem? nodes0 p ≡ some n
        → n.next c ≡ some t
        → Opened b (st p) c
        → st t ≢ raw
    pub closed :
        (p t c : ℕ) (n : Node)
        → get_elem? nodes0 p ≡ some n
        → n.next c ≡ some t
        → ¬ Opened b (st p) c
        → st t ≡ raw
