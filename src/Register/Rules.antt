-- ===== src/Register/Rules.antt =====
-- What RegisterFunc guarantees of the value that it leaves in the function variable.
use pureffi.Common.{
  ℕ, Bool, ◌≡◌, ◌≢◌, sym, ◌⊎◌, inl, inr, true, false, List, Option, none, some, if◌then◌else◌,
  arith, Bool-cases,
}
use pureffi.Go.Platform.{Platform}
use pureffi.Go.Types.{Signature}
use pureffi.Go.Outcome.{>>=-eq-ok, ok-injective, ok}
use pureffi.Goffi.{TypeDescriptor, CallInterface}
use pureffi.FastPath.Slots.{Wrapper}
use pureffi.FastPath.Signature.{report}
use pureffi.FastPath.Decision.{fast_wrapper, try_register_fast_path_lem}
use pureffi.Register.{
  Implementation, slow, SlowFunc, Prepare, prepared, settle, interface_of, plan, marker,
  fixed_params, fixed_in_of, implement_fixed, implement, result_rules, arg_types, return_type,
  register_signature,
}

prepared-eq : (prepare : Prepare) (c cif : CallInterface) → prepared prepare c ≡ ok cif → cif ≡ c
prepared-eq prepare c cif h = ground arith

-- The closure with its interface prepared.
abbrev pub with_interface : SlowFunc → SlowFunc
with_interface f = record f { fixed_cif = some (interface_of f) }

-- The implementation of a function that is not variadic, once its interface is prepared.
abbrev pub fixed_implementation : Platform → SlowFunc → Option Implementation
fixed_implementation p f =
    if f.has_error
    then some (slow (with_interface f))
    else settle (with_interface f) (interface_of f) (report (fast_wrapper p f.signature))

implement_fixed-eq-ok :
    (p : Platform) (prepare : Prepare) (f : SlowFunc) (r : Option Implementation)
    → implement_fixed p prepare f ≡ ok r
    → r ≡ fixed_implementation p f
unfolding implement_fixed
implement_fixed-eq-ok p prepare f r h =
    let (cif, e, k) = >>=-eq-ok (prepared prepare (interface_of f)) _ h in
    let same = prepared-eq prepare (interface_of f) cif e in
    sym (rw (try_register_fast_path_lem, same) at (ok-injective k))

pub implement-eq-ok :
    (p : Platform) (prepare : Prepare) (f : SlowFunc) (r : Option Implementation)
    → implement p prepare f ≡ ok r
    → ((f.signature.is_variadic ≡ true) × (r ≡ some (slow f)))
      ⊎ ((f.signature.is_variadic ≡ false) × (r ≡ fixed_implementation p f))
unfolding implement
implement-eq-ok p prepare f r h = elim (Bool-cases f.signature.is_variadic) [
  | inl v ↦ inl (v, ground arith)
  | inr v ↦ inr (v, implement_fixed-eq-ok p prepare f r (ground arith))
]

settle-ne-none :
    (f : SlowFunc) (cif : CallInterface) (o : Option Wrapper) → settle f cif (report o) ≢ none
settle-ne-none f cif none e = ground arith
settle-ne-none f cif (some w) e = ground arith

fixed_implementation-ne-none : (p : Platform) (f : SlowFunc) → fixed_implementation p f ≢ none
fixed_implementation-ne-none p f e =
    ground (arith, settle-ne-none (with_interface f) (interface_of f) (fast_wrapper p f.signature))

implement-ne-none :
    (p : Platform) (prepare : Prepare) (f : SlowFunc) → implement p prepare f ≢ ok none
implement-ne-none p prepare f h = elim (implement-eq-ok p prepare f none h) [
  | inl v ↦ ground arith
  | inr v ↦ fixed_implementation-ne-none p f (sym v.1)
]

-- What a registration that went through has found.
abbrev pub Went : Platform → Prepare → (ℕ → List ℕ) → ℕ → Signature → Option Implementation → Type 0
Went p prepare symbol_name cfn sig r =
    (has_error : Bool) × (types : List TypeDescriptor) × (ret : TypeDescriptor) × (result_rules
        sig.outs
      ≡ ok has_error)
    × (arg_types (fixed_params (marker sig.ins).start_in (fixed_in_of sig) sig.ins) ≡ ok types)
    × (return_type sig.outs has_error ≡ ok ret)
    × (implement p prepare (plan p symbol_name cfn sig has_error types ret) ≡ ok r)

pub register_signature-Went :
    (p : Platform) (prepare : Prepare) (symbol_name : ℕ → List ℕ) (cfn : ℕ) (sig : Signature)
    (r : Option Implementation)
    → register_signature p prepare symbol_name cfn sig ≡ ok r
    → Went p prepare symbol_name cfn sig r
unfolding register_signature
register_signature-Went p prepare symbol_name cfn sig r h =
    let (has_error, a, h₁) = >>=-eq-ok (result_rules sig.outs) _ h in
    let (types, b, h₂) = >>=-eq-ok (arg_types _) _ h₁ in
    let (ret, c, h₃) = >>=-eq-ok (return_type sig.outs has_error) _ h₂ in
    (has_error, types, ret, a, b, c, h₃)

-- RegisterFunc panics or sets the function variable: no function type leaves it nil, also where
-- tryRegisterFastPath takes the interleaved case, which reports success without looking.
pub register_signature-ne-none :
    (p : Platform) (prepare : Prepare) (symbol_name : ℕ → List ℕ) (cfn : ℕ) (sig : Signature)
    → register_signature p prepare symbol_name cfn sig ≢ ok none
register_signature-ne-none p prepare symbol_name cfn sig h =
    let (has_error, types, ret, a, b, c, k) =
      register_signature-Went p prepare symbol_name cfn sig none h in
    implement-ne-none p prepare (plan p symbol_name cfn sig has_error types ret) k
