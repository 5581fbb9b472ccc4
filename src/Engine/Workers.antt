-- ===== src/Engine/Workers.antt =====
-- engine.go and engine_background.go: the workers behind the channel of snapshots. A move is what one
-- goroutine does at once; a run is any list of moves, so it holds every interleaving.
pub mod Runs
pub mod Closing
use guard_go.Base.{
  ℕ, zero, suc, ◌+◌, Bool, true, false, List, [], ◌∷◌, ◌++◌, Option, none, some, if◌then◌else◌,
  ◌>>=◌, ltb, length,
}

-- The channel, what the workers hold, what they are done with, what the full channel refused; the
-- workers that wait in `select` and those that have returned; whether `bgStop` is closed.
pub record Pool {ℓ} (A : Type ℓ) : Type ℓ where
  pub waiting : List A
  pub busy : List A
  pub finished : List A
  pub refused : List A
  pub idle : ℕ
  pub exited : ℕ
  pub closed : Bool

-- `arrive` is `tryEnqueue`; `take` and `leave` are the two cases of a worker's `select`, `finish k` ends
-- the work of the k-th busy worker; `shut` is the `close(e.bgStop)` of `Close`.
pub data Move {ℓ} (A : Type ℓ) : Type ℓ where
  arrive : A → Move A
  take leave shut : Move A
  finish : ℕ → Move A

-- The k-th item, and the others.
unfoldable pub under {ℓ} : {A : Type ℓ} → A → Option (A × List A) → Option (A × List A)
under a none = none
under a (some (b, bs)) = some (b, a ∷ bs)

unfoldable pub pick {ℓ} : {A : Type ℓ} → ℕ → List A → Option (A × List A)
pick k [] = none
pick zero (a ∷ xs) = some (a, xs)
pick (suc k) (a ∷ xs) = under a (pick k xs)

module _ {ℓ} {A : Type ℓ} (capacity : ℕ) where
  unfoldable pub move_arrive : A → Pool A → Pool A
  move_arrive a p =
      if ltb (length p.waiting) capacity
      then record p { waiting = p.waiting ++ a ∷ [] }
      else record p { refused = a ∷ p.refused }

  unfoldable pub move_take : ℕ → List A → Pool A → Option (Pool A)
  move_take zero waiting p = none
  move_take (suc i) [] p = none
  move_take (suc i) (a ∷ xs) p = some (record p { waiting = xs; busy = a ∷ p.busy; idle = i })

  unfoldable pub move_finish : Option (A × List A) → Pool A → Option (Pool A)
  move_finish none p = none
  move_finish (some (a, xs)) p =
      some (record p { busy = xs; finished = a ∷ p.finished; idle = p.idle + 1 })

  unfoldable pub move_leave : Bool → ℕ → Pool A → Option (Pool A)
  move_leave false i p = none
  move_leave true zero p = none
  move_leave true (suc i) p = some (record p { idle = i; exited = p.exited + 1 })

  -- Closing twice is a panic: no move.
  unfoldable pub move_shut : Bool → Pool A → Option (Pool A)
  move_shut true p = none
  move_shut false p = some (record p { closed = true })

  -- One move, `none` if it cannot be made.
  unfoldable pub step : Move A → Pool A → Option (Pool A)
  step (arrive a) p = some (move_arrive a p)
  step take p = move_take p.idle p.waiting p
  step leave p = move_leave p.closed p.idle p
  step shut p = move_shut p.closed p
  step (finish k) p = move_finish (pick k p.busy) p

  unfoldable pub run : List (Move A) → Pool A → Option (Pool A)
  run [] p = some p
  run (m ∷ ms) p = do p' ← step m p; run ms p'

-- `startBackground`.
unfoldable pub start_background {ℓ} : {A : Type ℓ} → ℕ → Pool A
start_background workers = record {
  waiting = [];
  busy = [];
  finished = [];
  refused = [];
  idle = workers;
  exited = 0;
  closed = false;
}
