-- ===== src/Go/Identity.antt =====
-- Identity of Go's types, as the keys of a map compare.
use native.Mathlib.Decide.{ℕ_discrete}
use text.Mathlib.Text.{◌==◌ as str_eq}
use text.Mathlib.TextEquality.{eq_iff}
use pureffi.Common.{◌≡◌, ◌↔◌, refl, inl, inr, Bool, true, false, String, Bool-cases, arith}
use pureffi.Go.Types.{GoType}

abbrev String_discrete : Discrete String
String_discrete s t = elim (Bool-cases (str_eq s t)) [
  | inl y ↦ yes ((eq_iff s t).0 y)
  | inr n ↦ no (λ e. let y = (eq_iff s t).1 e in ground arith)
]

unfoldable pub GoType_discrete : Discrete GoType
GoType_discrete = hlevel (ℕ_discrete, String_discrete)

abbrev pub is_yes {ℓ} : {A : Type ℓ} → Dec A → Bool
is_yes (yes p) = true
is_yes (no p) = false

-- t == u for values of reflect.Type
unfoldable pub same : GoType → GoType → Bool
same t u = is_yes (GoType_discrete t u)

pub is_yes_iff {ℓ} : {A : Type ℓ} (d : Dec A) → (is_yes d ≡ true) ↔ A
is_yes_iff (yes p) = (λ h. p, λ p. refl)
is_yes_iff (no q) = (λ h. absurd (ground arith), λ p. absurd (q p))

pub same_iff : (t u : GoType) → (same t u ≡ true) ↔ (t ≡ u)
unfolding same
same_iff t u = is_yes_iff (GoType_discrete t u)
