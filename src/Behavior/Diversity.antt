-- ===== src/Behavior/Diversity.antt =====
-- behavior_tracker.go: what the sets hold after the requests of a window.
use guard_go.Base.{
  ℕ, ◌≡◌, ◌≢◌, ◌⊎◌, ◌↔◌, ◌∙◌, refl, sym, ap, false, List, [], ◌∷◌, ◌++◌, Option, none, some, arith,
  ◌==◌, ==_iff, ==_false_iff, Bool-cases, inl, inr, Elem,
}
use guard_go.Base.Int.{ℤ, ltb_ℤ, ◌+ℤ◌}
use guard_go.Text.{Bytes, is_empty, same_text, same_text_refl, same_text-eq}
use guard_go.Config.{BehavioralConfig}
use guard_go.Dfa.Search.{Unique, Elem-mark, mark-Unique}
use guard_go.Rules.{Url}
use guard_go.Http.{Header, HttpRequest}
use guard_go.Behavior.{
  Behavior, Store, header_signature, mark_query, mark_header, entry_for, note_request, observe,
}

module _ (hash64 : Bytes → ℕ) (cfg : BehavioralConfig) where
  -- The query of the URL is not empty and has that hash; the header has that signature, not 0.
  abbrev pub Asks : ℕ → Option Url → Type 0
  Asks h none = ⊥
  Asks h (some url) = (is_empty url.raw_query ≡ false) × (h ≡ hash64 url.raw_query)

  abbrev pub Shows : ℕ → Header → Type 0
  Shows h header = (h ≡ header_signature hash64 cfg header) × (h ≢ 0)

  Elem-mark_query :
      (h : ℕ) (url : Option Url) (queries : List ℕ)
      → Elem h (mark_query hash64 cfg url queries) ↔ (Elem h queries ⊎ Asks h url)
  unfolding mark_query
  Elem-mark_query h none queries = (λ e. inl e, λ e. elim e [ inl l ↦ l | inr f ↦ absurd f ])
  Elem-mark_query h (some u) queries = elim (Bool-cases (is_empty u.raw_query)) [
    | inl blank ↦
        rw blank (
          λ e. inl e,
          λ e. elim e [ inl l ↦ l | inr (filled, _) ↦ absurd (ground (arith, filled)) ],
        )
    | inr asked ↦
        let iff = Elem-mark h queries (hash64 u.raw_query) in
        rw asked (
          λ e. elim (iff.0 e) [ inl l ↦ inl l | inr same ↦ inr (refl, same) ],
          λ e. elim e [ inl l ↦ iff.1 (inl l) | inr (_, same) ↦ iff.1 (inr same) ],
        )
  ]

  Elem-mark_header :
      (h : ℕ) (header : Header) (headers : List ℕ)
      → Elem h (mark_header hash64 cfg header headers) ↔ (Elem h headers ⊎ Shows h header)
  unfolding mark_header
  Elem-mark_header h header headers =
      let signature : ℕ = header_signature hash64 cfg header in
      let iff = Elem-mark h headers signature in
      elim (Bool-cases (signature == 0)) [
        | inl unsigned ↦
            let e0 : signature ≡ 0 = (==_iff signature 0).0 unsigned in
            rw unsigned
              (λ e. inl e, λ e. elim e [ inl l ↦ l | inr (same, ne) ↦ absurd (ne (same ∙ e0)) ])
        | inr signed ↦
            let ne0 : signature ≢ 0 = (==_false_iff signature 0).0 signed in
            rw signed (
              λ e. elim (iff.0 e) [
                | inl l ↦ inl l
                | inr same ↦ inr (same, λ z. ne0 (sym same ∙ z))
              ],
              λ e. elim e [ inl l ↦ iff.1 (inl l) | inr (same, _) ↦ iff.1 (inr same) ],
            )
      ]

  mark_query-Unique :
      (url : Option Url) (queries : List ℕ)
      → Unique queries
      → Unique (mark_query hash64 cfg url queries)
  unfolding mark_query
  mark_query-Unique none queries u = u
  mark_query-Unique (some url) queries u = elim (Bool-cases (is_empty url.raw_query)) [
    | inl blank ↦ rw blank u
    | inr asked ↦ rw asked (mark-Unique queries (hash64 url.raw_query) u)
  ]

  mark_header-Unique :
      (header : Header) (headers : List ℕ)
      → Unique headers
      → Unique (mark_header hash64 cfg header headers)
  unfolding mark_header
  mark_header-Unique header headers u =
      elim (Bool-cases (header_signature hash64 cfg header == 0)) [
        | inl unsigned ↦ rw unsigned u
        | inr signed ↦ rw signed (mark-Unique headers (header_signature hash64 cfg header) u)
      ]

  -- One of the calls has a request with P.
  abbrev pub SomeCall : (HttpRequest → Type 0) → List (HttpRequest × ℤ) → Type 0
  SomeCall P [] = ⊥
  SomeCall P ((r, now) ∷ calls) = SomeCall P calls ⊎ P r

  -- The entry holds what the calls have shown, each once.
  pub record IsSeen (start : ℤ) (calls : List (HttpRequest × ℤ)) (e : Behavior) : Type 0 where
    pub expires : e.expires_at ≡ start +ℤ cfg.risk_window
    pub distinct_queries : Unique e.queries
    pub distinct_headers : Unique e.headers
    pub query_iff : (h : ℕ) → Elem h e.queries ↔ SomeCall (λ r. Asks h r.url) calls
    pub header_iff : (h : ℕ) → Elem h e.headers ↔ SomeCall (λ r. Shows h r.header) calls

  note_request-IsSeen :
      (start now : ℤ) (calls : List (HttpRequest × ℤ)) (r : HttpRequest) (e : Behavior)
      → IsSeen start calls e
      → IsSeen start ((r, now) ∷ calls) (note_request hash64 cfg r e)
  unfolding note_request
  note_request-IsSeen start now calls r e s = record {
    expires = s.expires;
    distinct_queries = mark_query-Unique r.url e.queries s.distinct_queries;
    distinct_headers = mark_header-Unique r.header e.headers s.distinct_headers;
    query_iff = λ h.
        let iff = Elem-mark_query h r.url e.queries in
        (
          λ el. elim (iff.0 el) [ inl l ↦ inl ((s.query_iff h).0 l) | inr a ↦ inr a ],
          λ el. elim el [ inl l ↦ iff.1 (inl ((s.query_iff h).1 l)) | inr a ↦ iff.1 (inr a) ],
        );
    header_iff = λ h.
        let iff = Elem-mark_header h r.header e.headers in
        (
          λ el. elim (iff.0 el) [ inl l ↦ inl ((s.header_iff h).0 l) | inr a ↦ inr a ],
          λ el. elim el [ inl l ↦ iff.1 (inl ((s.header_iff h).1 l)) | inr a ↦ iff.1 (inr a) ],
        );
  }

  -- The store after requests of one address, listed from the last to the first.
  unfoldable pub after_requests : Bytes → List (HttpRequest × ℤ) → Store → Store
  after_requests ip [] store = store
  after_requests ip ((r, now) ∷ calls) store =
      (observe hash64 cfg ip (some r) now (after_requests ip calls store)).1

  -- The calls after the first are not past the window that the first opened.
  abbrev pub InWindow : ℤ → List (HttpRequest × ℤ) → Type 0
  InWindow start [] = Unit
  InWindow start ((r, now) ∷ calls) =
      (ltb_ℤ (start +ℤ cfg.risk_window) now ≡ false) × InWindow start calls

  -- The entry that a request leaves.
  observe-entry :
      (ip : Bytes) (r : HttpRequest) (now : ℤ) (store : Store) (o : Option Behavior)
      → is_empty ip ≡ false
      → store ip ≡ o
      → (observe hash64 cfg ip (some r) now store).1 ip
        ≡ some (note_request hash64 cfg r (entry_for hash64 cfg o now))
  unfolding observe
  observe-entry ip r now store o named at = rw (named, same_text_refl ip, at) refl

  opened-IsSeen : (start : ℤ) → IsSeen start [] (entry_for hash64 cfg none start)
  unfolding entry_for
  opened-IsSeen start = record {
    expires = refl;
    distinct_queries = tt;
    distinct_headers = tt;
    query_iff = λ h. (λ e. absurd e, λ e. absurd e);
    header_iff = λ h. (λ e. absurd e, λ e. absurd e);
  }

  entry_for-live :
      (e : Behavior) (start now : ℤ)
      → e.expires_at ≡ start +ℤ cfg.risk_window
      → ltb_ℤ (start +ℤ cfg.risk_window) now ≡ false
      → entry_for hash64 cfg (some e) now ≡ e
  unfolding entry_for
  entry_for-live e start now at live =
      let live' : ltb_ℤ e.expires_at now ≡ false = rw at live in
      elim (Bool-cases (ltb_ℤ e.expires_at now)) [
        | inl past ↦ absurd (ground (arith, sym past ∙ live'))
        | inr still ↦ rw still refl
      ]

  -- Requests of one address, listed from the last to the first, the first at `start` with no entry in
  -- the store, the others not past the window that it opens: the entry holds the hashes of exactly
  -- the queries that are not empty and the signatures, 0 excepted, of exactly the headers that were
  -- sent, each once.
  pub after_requests-IsSeen :
      (ip : Bytes) (calls : List (HttpRequest × ℤ)) (first : HttpRequest) (start : ℤ)
      (store : Store)
      → is_empty ip ≡ false
      → store ip ≡ none
      → InWindow start calls
      → (e : Behavior) × (after_requests ip (calls ++ (first, start) ∷ []) store ip ≡ some e)
        × IsSeen start (calls ++ (first, start) ∷ []) e
  unfolding after_requests
  after_requests-IsSeen ip [] first start store named fresh within =
      let e0 : Behavior = entry_for hash64 cfg none start in
      let e1 : Behavior = note_request hash64 cfg first e0 in
      (
        e1,
        observe-entry ip first start store none named fresh,
        note_request-IsSeen start start [] first e0 (opened-IsSeen start),
      )
  after_requests-IsSeen ip ((r, now) ∷ calls) first start store named fresh (live, within) =
      let (e, at, seen) = after_requests-IsSeen ip calls first start store named fresh within in
      let store' : Store = after_requests ip (calls ++ (first, start) ∷ []) store in
      let e1 : Behavior = note_request hash64 cfg r e in
      (
        e1,
        observe-entry ip r now store' (some e) named at
            ∙ ap (λ (x : Behavior). some (note_request hash64 cfg r x))
                (entry_for-live e start now seen.expires live),
        note_request-IsSeen start now (calls ++ (first, start) ∷ []) r e seen,
      )

  -- A request of one address leaves the entries of the others alone.
  pub observe_others :
      (ip j : Bytes) (r : Option HttpRequest) (now : ℤ) (store : Store)
      → j ≢ ip
      → (observe hash64 cfg ip r now store).1 j ≡ store j
  unfolding observe
  observe_others ip j none now store ne = refl
  observe_others ip j (some r) now store ne = elim (Bool-cases (is_empty ip)) [
    | inl unnamed ↦ rw unnamed refl
    | inr named ↦ elim (Bool-cases (same_text j ip)) [
      | inl same ↦ absurd (ne (same_text-eq j ip same))
      | inr other ↦ rw (named, other) refl
    ]
  ]
