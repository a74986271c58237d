-- ===== src/Go/Outcome.antt =====
-- What a call leaves: a value or a panic. One constructor of Panic for each panic that the code
-- raises itself or that the runtime raises in it.
use pureffi.Common.{ℕ, ◌≡◌, refl, ◌⊎◌, inl, inr, List}
use pureffi.Go.Types.{GoType}

pub data Panic : Type 0 where
  -- purego.go
  cfn_is_nil not_function_pointer too_many_results second_result_not_error : Panic
  unsupported_kind : GoType → Panic
  callback_not_function : Panic
  -- An error that goffi returned, raised again by panic(err).
  foreign_error : ℕ → Panic
  -- syscall_unix.go
  fn_is_nil too_many_arguments : Panic
  interface_not_prepared : ℕ → ℕ → Panic
  -- cstring.go
  malloc_not_found malloc_failed : Panic
  -- stub_arm.go
  not_supported_on_arm : List ℕ → Panic
  -- RegisterLibFunc: panic(err) with the error's text
  symbol_error : List ℕ → Panic
  -- objc/: the errors of encode, by their cause, and a function of the wrong type
  objc_not_encoded : Panic
  objc_not_a_method : Panic
  wrong_arguments not_an_id not_assignable : Panic
  -- cstrings/nsstrings_darwin.go
  not_a_string : Panic
  -- The runtime and package reflect: an index outside an array, a method of the zero Value, a nil
  -- pointer dereference.
  index_out_of_range zero_value nil_dereference : Panic

pub data Outcome {ℓ} (A : Type ℓ) : Type ℓ where
  ok : A → Outcome A
  panic : Panic → Outcome A

-- One statement after another: a panic skips what follows.
infixl 5 ◌>>=◌
abbrev pub ◌>>=◌ {ℓ κ} : {A : Type ℓ} {B : Type κ} → Outcome A → (A → Outcome B) → Outcome B
panic e >>= next = panic e
ok v >>= next = next v

module _ {ℓ κ} {A : Type ℓ} {B : Type κ} where
  -- Both halves of a chain that returned have returned.
  pub >>=-eq-ok :
      {b : B} (first : Outcome A) (next : A → Outcome B)
      → (first >>= next) ≡ ok b
      → (v : A) × (first ≡ ok v) × (next v ≡ ok b)
  >>=-eq-ok (panic e) next returned = cc
  >>=-eq-ok (ok v) next returned = (v, refl, returned)

pub ok-injective {ℓ} : {A : Type ℓ} {a b : A} → ok a ≡ ok b → a ≡ b
ok-injective e = cc

pub Outcome-cases {ℓ} :
    {A : Type ℓ} (m : Outcome A) → ((a : A) × (m ≡ ok a)) ⊎ ((e : Panic) × (m ≡ panic e))
Outcome-cases (ok a) = inl (a, refl)
Outcome-cases (panic e) = inr (e, refl)

-- A value came out, and it has a property.
abbrev pub Returns {ℓ} : {A : Type ℓ} → (A → Type 0) → Outcome A → Type 0
Returns P (ok a) = P a
Returns P (panic e) = ⊥
