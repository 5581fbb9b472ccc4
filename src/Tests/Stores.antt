-- ===== src/Tests/Stores.antt =====
-- Maps from byte strings, as functions, for the instances of the tests.
use guard_go.Base.{◌≡◌, ◌≢◌, refl, if◌then◌else◌, inl, inr, Bool-cases}
use guard_go.Text.{Bytes, same_text, same_text_refl, same_text-eq}

unfoldable pub put {ℓ} : {A : Type ℓ} → (Bytes → A) → Bytes → A → Bytes → A
put f k v j = if same_text j k then v else f j

pub put-same {ℓ} : {A : Type ℓ} (f : Bytes → A) (k : Bytes) (v : A) → put f k v k ≡ v
unfolding put
put-same f k v = rw (same_text_refl k) refl

pub put-other {ℓ} : {A : Type ℓ} (f : Bytes → A) (k j : Bytes) (v : A) → j ≢ k → put f k v j ≡ f j
unfolding put
put-other f k j v ne = elim (Bool-cases (same_text j k)) [
  | inl same ↦ absurd (ne (same_text-eq j k same))
  | inr other ↦ rw other refl
]
