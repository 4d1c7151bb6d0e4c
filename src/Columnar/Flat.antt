-- ===== src/Columnar/Flat.antt =====
-- Operations of `Option` and `Vec` that the columns of columnar.rs use.
use rypipe.Prelude.{Bool, true, false, Option, none, some, List, [], ◌∷◌}

abbrev pub is_some {ℓ} : {A : Type ℓ} → Option A → Bool
is_some none = false
is_some (some x) = true

abbrev pub unwrap_or {ℓ} : {A : Type ℓ} → A → Option A → A
unwrap_or d none = d
unwrap_or d (some x) = x

-- `Vec::pop`: what it leaves, and what it returns.
abbrev pub without_last {ℓ} : {A : Type ℓ} → List A → List A
without_last [] = []
without_last (x ∷ []) = []
without_last (x ∷ (y ∷ xs)) = x ∷ without_last (y ∷ xs)

abbrev pub last {ℓ} : {A : Type ℓ} → List A → Option A
last [] = none
last (x ∷ []) = some x
last (x ∷ (y ∷ xs)) = last (y ∷ xs)
