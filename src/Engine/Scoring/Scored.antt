-- ===== src/Engine/Scoring/Scored.antt =====
-- engine_ruleset.go: what the score of a request counts.
use guard_go.Base.{
  ℕ, ◌<◌, ◌≡◌, refl, Option, none, some, List, [], ◌∷◌, ◌>>=◌, All, All-append, Elem, get_elem?,
  ◌↔◌, arith, subst, sym, inl, inr,
}
use guard_go.Base.Int.{ℤ, pos}
use guard_go.Text.{Bytes, IsBytes}
use guard_go.Http.{Header, HttpRequest}
use guard_go.Rules.{Url}
use guard_go.Dfa.{Rule, Match, Matcher, matches_of}
use guard_go.Dfa.Search.{Unique}
use guard_go.Dfa.Make.{IsBuilt}
use guard_go.Dfa.Correct.{IsOrder, Occurs, find_all-once}
use guard_go.Ruleset.{CompiledRuleset}
use guard_go.Engine.Scoring.{
  values_text, headers_text, url_text, request_any_text, add_matches, add_found, add_found_url,
  score_with,
}

-- The parts of a request are strings of bytes.
abbrev pub IsHeader : Header → Type 0
IsHeader h = All (λ (field : Bytes × List Bytes). IsBytes field.0 × All IsBytes field.1) h

abbrev pub IsUrl : Option Url → Type 0
IsUrl none = Unit
IsUrl (some url) = IsBytes url.path × IsBytes url.raw_query

pub record IsRequest (r : HttpRequest) : Type 0 where
  pub method : IsBytes r.method
  pub url : IsUrl r.url
  pub header : IsHeader r.header

-- A header that holds only fields of a header of bytes.
Elem-IsHeader :
    (h : Header) (field : Bytes × List Bytes)
    → IsHeader h
    → Elem field h
    → IsBytes field.0 × All IsBytes field.1
Elem-IsHeader [] field ok here = elim here [ ]
Elem-IsHeader (f ∷ h) field ok (inl same) =
    subst (λ (g : Bytes × List Bytes). IsBytes g.0 × All IsBytes g.1) (sym same) ok.0
Elem-IsHeader (f ∷ h) field ok (inr there) = Elem-IsHeader h field ok.1 there

pub IsHeader-within :
    (h h' : Header)
    → IsHeader h
    → ((field : Bytes × List Bytes) → Elem field h' → Elem field h)
    → IsHeader h'
IsHeader-within h [] ok within = tt
IsHeader-within h (f ∷ h') ok within = (
  Elem-IsHeader h f ok (within f (inl refl)),
  IsHeader-within h h' ok λ field here. within field (inr here),
)

-- A request of bytes whose headers are walked in another order.
pub IsRequest-walked :
    (r : HttpRequest) (h : Header) → IsRequest r → IsHeader h → IsRequest (record r { header = h })
IsRequest-walked r h ok listed = record { method = ok.method; url = ok.url; header = listed }

values_text-IsBytes : (vs : List Bytes) → All IsBytes vs → IsBytes (values_text vs)
unfolding values_text
values_text-IsBytes [] h = tt
values_text-IsBytes (v ∷ vs) h =
    All-append (λ (b : ℕ). b < 256) v _ h.0 (omega arith, values_text-IsBytes vs h.1)

headers_text-IsBytes : (h : Header) → IsHeader h → IsBytes (headers_text h)
unfolding headers_text
headers_text-IsBytes [] h = tt
headers_text-IsBytes ((key, values) ∷ fields) h =
    All-append (λ (b : ℕ). b < 256) key _ h.0.0
      (
        omega arith,
        All-append (λ (b : ℕ). b < 256) (values_text values) _ (values_text-IsBytes values h.0.1)
            (omega arith, headers_text-IsBytes fields h.1),
      )

url_text-IsBytes : (url : Option Url) → IsUrl url → IsBytes (url_text url)
unfolding url_text
url_text-IsBytes none h = tt
url_text-IsBytes (some url) h = All-append (λ (b : ℕ). b < 256) url.path _ h.0 (omega arith, h.1)

request_any_text-IsBytes : (r : HttpRequest) → IsRequest r → IsBytes (request_any_text (some r))
unfolding request_any_text
request_any_text-IsBytes r h =
    All-append (λ (b : ℕ). b < 256) r.method _ h.method
      (
        omega arith,
        All-append (λ (b : ℕ). b < 256) (url_text r.url) _ (url_text-IsBytes r.url h.url)
            (omega arith, headers_text-IsBytes r.header h.header),
      )

-- From `start` to `end`, the weights of the rules whose token occurs in the text are added, each rule
-- once, with the wrap-around of int64.
pub record Adds (rules : List Rule) (text : Bytes) (start end : ℤ) : Type 0 where
  pub indices : List ℕ
  pub matches : List Match
  pub of_indices : matches_of rules indices ≡ some matches
  pub once : Unique indices
  pub exactly :
      (i : ℕ) → Elem i indices ↔ ((r : Rule) × (get_elem? rules i ≡ some r) × Occurs r text)
  pub sums : end ≡ add_matches start matches

-- No matcher, or one that New has built; what it then adds.
abbrev pub IsReadable : Option Matcher → Type 0
IsReadable none = Unit
IsReadable (some m) = IsBuilt m

abbrev pub Scores : Option Matcher → Bytes → ℤ → ℤ → Type 0
Scores none text start end = end ≡ start
Scores (some m) text start end = Adds m.rules text start end

-- The parts that only a URL has.
abbrev pub ScoresUrl : Option Matcher → Option Url → (Url → Bytes) → ℤ → ℤ → Type 0
ScoresUrl o none part start end = end ≡ start
ScoresUrl o (some url) part start end = Scores o (part url) start end

module _ (iterate : List ℕ → List ℕ) (order : IsOrder iterate) where
  add_found-Scores :
      (o : Option Matcher) (text : Bytes) (start : ℤ)
      → IsReadable o
      → IsBytes text
      → (end : ℤ) × (add_found iterate o text start ≡ some end) × Scores o text start end
  unfolding add_found
  add_found-Scores none text start built ok = (start, refl, refl)
  add_found-Scores (some m) text start built ok =
      let (is, ms, found, of_is, unique, exact) = find_all-once iterate m text order built ok in
      (
        add_matches start ms,
        rw (found, ◌>>=◌) refl,
        record {
          indices = is;
          matches = ms;
          of_indices = of_is;
          once = unique;
          exactly = exact;
          sums = refl;
        },
      )

  add_found_url-ScoresUrl :
      (o : Option Matcher) (url : Option Url) (part : Url → Bytes) (start : ℤ)
      → IsReadable o
      → ((here : Url) → IsUrl (some here) → IsBytes (part here))
      → IsUrl url
      → (end : ℤ) × (add_found_url iterate o url part start ≡ some end)
        × ScoresUrl o url part start end
  unfolding add_found_url
  add_found_url-ScoresUrl o none part start built bytes ok = (start, refl, refl)
  add_found_url-ScoresUrl o (some url) part start built bytes ok =
      add_found-Scores o (part url) start built (bytes url ok)

  -- The score runs through the four matchers.
  pub record IsScore (c : CompiledRuleset) (r : HttpRequest) (fields : Header) (score : ℤ)
      : Type 0 where
    pub a : ℤ
    pub b : ℤ
    pub d : ℤ
    pub in_any : Scores c.any (request_any_text (some r)) (pos 0) a
    pub in_query : ScoresUrl c.query r.url (λ url. url.raw_query) a b
    pub in_path : ScoresUrl c.path r.url (λ url. url.path) b d
    pub in_headers : Scores c.headers (headers_text fields) d score

  pub record IsReady (c : CompiledRuleset) : Type 0 where
    pub any : IsReadable c.any
    pub query : IsReadable c.query
    pub path : IsReadable c.path
    pub headers : IsReadable c.headers

  pub score_with-IsScore :
      (c : CompiledRuleset) (r : HttpRequest) (fields : Header)
      → IsReady c
      → IsRequest r
      → IsHeader fields
      → (score : ℤ) × (score_with iterate (some c) r fields ≡ some score) × IsScore c r fields score
  unfolding score_with
  score_with-IsScore c r fields ready ok listed =
      let (a, ea, sa) =
        add_found-Scores c.any (request_any_text (some r)) (pos 0) ready.any
          (request_any_text-IsBytes r ok) in
      let (b, eb, sb) =
        add_found_url-ScoresUrl c.query r.url (λ url. url.raw_query) a ready.query (λ url h. h.1)
          ok.url in
      let (d, ed, sd) =
        add_found_url-ScoresUrl c.path r.url (λ url. url.path) b ready.path (λ url h. h.0) ok.url in
      let (score, e, s) =
        add_found-Scores c.headers (headers_text fields) d ready.headers
          (headers_text-IsBytes fields listed) in
      (
        score,
        rw (ea, eb, ed, e, ◌>>=◌) refl,
        record { a = a; b = b; d = d; in_any = sa; in_query = sb; in_path = sd; in_headers = s },
      )
