-- ===== src/Behavior.antt =====
-- behavior_tracker.go: how many different queries and headers an address sends in a window. The
-- 64-bit hash of another package is a parameter, `hash64`; a Go set of numbers is a list without
-- repetition, to which `mark` adds. The mutex makes the calls of goroutines a sequence.
pub mod Diversity
use guard_go.Base.{
  ℕ, ◌≡◌, Bool, true, false, ◌&&◌, ◌||◌, not, List, [], ◌∷◌, ◌++◌, Option, none, some,
  if◌then◌else◌, ◌==◌, length,
}
use guard_go.Base.Int.{ℤ, pos, leb_ℤ, ltb_ℤ, ◌+ℤ◌, wrap64}
use guard_go.Text.{Bytes, is_empty, same_text}
use guard_go.Config.{BehavioralConfig}
use guard_go.Dfa.{mark}
use guard_go.Rules.{Url}
use guard_go.Http.{Header, HttpRequest}

pub record Behavior : Type 0 where
  pub expires_at : ℤ
  pub queries : List ℕ
  pub headers : List ℕ

-- The map `store`.
abbrev pub Store : Type 0
Store = Bytes → Option Behavior

abbrev pub empty_store : Store
empty_store ip = none

abbrev pub put_entry : Store → Bytes → Behavior → Store
put_entry store ip e j = if same_text j ip then some e else store j

unfoldable pub join : List Bytes → Bytes
join [] = []
join (v ∷ vs) = v ++ join vs

-- What the hasher of `headerSignature` is given.
unfoldable pub header_bytes : Header → Bytes
unfolding join
header_bytes [] = []
header_bytes ((key, values) ∷ h) = key ++ (join values ++ header_bytes h)

module _ (hash64 : Bytes → ℕ) (cfg : BehavioralConfig) where
  unfoldable pub header_signature : Header → ℕ
  header_signature [] = 0
  header_signature (field ∷ h) = hash64 (header_bytes (field ∷ h))

  unfoldable pub mark_query : Option Url → List ℕ → List ℕ
  mark_query none queries = queries
  mark_query (some url) queries =
      if not (is_empty url.raw_query) then mark queries (hash64 url.raw_query) else queries

  unfoldable pub mark_header : Header → List ℕ → List ℕ
  mark_header h headers =
      let signature = header_signature h in
      if signature == 0 then headers else mark headers signature

  -- The entry of the address, a new one if there is none or it is past its window.
  unfoldable pub entry_for : Option Behavior → ℤ → Behavior
  entry_for none now = record { expires_at = now +ℤ cfg.risk_window; queries = []; headers = [] }
  entry_for (some e) now =
      if ltb_ℤ e.expires_at now
      then record { expires_at = now +ℤ cfg.risk_window; queries = []; headers = [] }
      else e

  unfoldable pub note_request : HttpRequest → Behavior → Behavior
  note_request r e = record e {
    queries = mark_query r.url e.queries;
    headers = mark_header r.header e.headers;
  }

  -- `score`, an int64.
  unfoldable pub diversity_score : Behavior → ℤ
  diversity_score e =
      let score =
        if leb_ℤ cfg.query_diversity_threshold (pos (length e.queries))
        then wrap64 (pos 0 +ℤ cfg.diversity_weight)
        else pos 0 in
      if leb_ℤ cfg.header_diversity_threshold (pos (length e.headers))
      then wrap64 (score +ℤ cfg.diversity_weight)
      else score

  -- `observe`; a request that is nil is `none`.
  unfoldable pub observe : Bytes → Option HttpRequest → ℤ → Store → ℤ × Store
  observe ip none now store = (pos 0, store)
  observe ip (some r) now store =
      if is_empty ip
      then (pos 0, store)
      else (let e = note_request r (entry_for (store ip) now) in
          (diversity_score e, put_entry store ip e))
