-- ===== src/Ruleset/Target.antt =====
-- ruleset.go: which matcher the target of a signature rule names.
use guard_go.Base.{◌≡◌, refl, Bool, true, false, if◌then◌else◌, ◌||◌, not, Bool-cases, inl, inr}
use guard_go.Text.{Bytes, Unicode, codes, same_text, same_text-eq, to_lower}
use guard_go.Ruleset.{MatchTarget, query, headers, path, any, target_of}

unfoldable pub same_target : MatchTarget → MatchTarget → Bool
same_target query query = true
same_target headers headers = true
same_target path path = true
same_target any any = true
same_target _ _ = false

-- Whether a text in lower case names t; every text but the three names stands for `any`.
names : MatchTarget → Bytes → Bool
names query m = same_text m (codes "query")
names headers m = same_text m (codes "headers")
names path m = same_text m (codes "path")
names any m =
    not (same_text m (codes "query") || same_text m (codes "headers") || same_text m (codes "path"))

pub wants : Unicode → MatchTarget → Bytes → Bool
wants u t s = names t (to_lower u s)

-- What `target_of` finds, for a text in lower case.
found : Bytes → MatchTarget
found m =
    if same_text m (codes "query")
    then query
    else (if same_text m (codes "headers")
        then headers
        else (if same_text m (codes "path") then path else any))

found-query : (t : MatchTarget) → same_target t (found (codes "query")) ≡ names t (codes "query")
unfolding same_target found names
found-query query = refl
found-query headers = refl
found-query path = refl
found-query any = refl

found-headers :
    (t : MatchTarget) → same_target t (found (codes "headers")) ≡ names t (codes "headers")
unfolding same_target found names
found-headers query = refl
found-headers headers = refl
found-headers path = refl
found-headers any = refl

found-path : (t : MatchTarget) → same_target t (found (codes "path")) ≡ names t (codes "path")
unfolding same_target found names
found-path query = refl
found-path headers = refl
found-path path = refl
found-path any = refl

found-other :
    (t : MatchTarget) (m : Bytes)
    → same_text m (codes "query") ≡ false
    → same_text m (codes "headers") ≡ false
    → same_text m (codes "path") ≡ false
    → same_target t (found m) ≡ names t m
unfolding same_target found names
found-other query m a b c = rw (a, b, c) refl
found-other headers m a b c = rw (a, b, c) refl
found-other path m a b c = rw (a, b, c) refl
found-other any m a b c = rw (a, b, c) refl

found-names : (t : MatchTarget) (m : Bytes) → same_target t (found m) ≡ names t m
found-names t m = elim (Bool-cases (same_text m (codes "query"))) [
  | inl a ↦ rw (same_text-eq m (codes "query") a) (found-query t)
  | inr a ↦ elim (Bool-cases (same_text m (codes "headers"))) [
    | inl b ↦ rw (same_text-eq m (codes "headers") b) (found-headers t)
    | inr b ↦ elim (Bool-cases (same_text m (codes "path"))) [
      | inl c ↦ rw (same_text-eq m (codes "path") c) (found-path t)
      | inr c ↦ found-other t m a b c
    ]
  ]
]

pub target_of-wants :
    (u : Unicode) (t : MatchTarget) (s : Bytes) → same_target t (target_of u s) ≡ wants u t s
unfolding target_of wants found
target_of-wants u t s = found-names t (to_lower u s)
