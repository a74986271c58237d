-- ===== src/SlowCall/Call/Interface.antt =====
-- purego.go, the interface of a call through RegisterFunc's closure, said by the function's type.
use pureffi.Common.{
  ℕ, ◌≡◌, suc, arith, Bool-cases, refl, sym, ap, ap₂, ◌∙◌, ◌&&◌, ◌∷◌, if◌then◌else◌, Bool, true,
  false, ◌⊎◌, inl, inr, List, [], length,
}
use pureffi.Go.Platform.{Platform}
use pureffi.Go.Types.{GoType, Signature}
use pureffi.Go.Outcome.{ok, ok-injective, >>=-eq-ok}
use pureffi.Goffi.{TypeDescriptor, CallInterface, ordinary, variadic}
use pureffi.Descriptor.{go_arg_type_to_ffi_type, go_type_to_ffi_type}
use mathlib.Core.Path.{subst}
use pureffi.SlowCall.Return.Fits.{is_error}
use pureffi.Register.{SlowFunc, interface_of, result_rules, arg_types, return_type, plan}
use pureffi.Register.Markers.{
  first_param, convention_for, is_called_variadic, plan-is_c_variadic, plan-convention,
}
use pureffi.SlowCall.Call.{dynamic_interface}

-- One descriptor for each type, in order.
abbrev pub AreDescribed : List GoType → List TypeDescriptor → Type 0
AreDescribed [] [] = Unit {0}
AreDescribed (t ∷ ts) (d ∷ ds) = (go_arg_type_to_ffi_type t ≡ ok d) × AreDescribed ts ds
AreDescribed _ _ = ⊥

-- The descriptor of what the C function returns: nothing for a function without results or with a sole
-- one of type error, and the first result otherwise.
abbrev pub ReturnsAs : List GoType → TypeDescriptor → Type 0
ReturnsAs [] d = d ≡ TypeDescriptor.void
ReturnsAs (t ∷ []) d =
    ((is_error t ≡ true) × (d ≡ TypeDescriptor.void))
    ⊎ ((is_error t ≡ false) × (go_type_to_ffi_type t ≡ ok d))
ReturnsAs (t ∷ (e ∷ [])) d = (is_error e ≡ true) × (go_type_to_ffi_type t ≡ ok d)
ReturnsAs (t ∷ (e ∷ (u ∷ ts))) d = ⊥

arg_types-AreDescribed :
    (ts : List GoType) (ds : List TypeDescriptor) → arg_types ts ≡ ok ds → AreDescribed ts ds
unfolding arg_types
arg_types-AreDescribed [] ds e = subst (AreDescribed []) (ok-injective e) tt
arg_types-AreDescribed (t ∷ ts) ds e =
    let (d, x, e') = >>=-eq-ok (go_arg_type_to_ffi_type t) _ e in
    let (ds', y, e'') = >>=-eq-ok (arg_types ts) _ e' in
    subst (AreDescribed (t ∷ ts)) (ok-injective e'') (x, arg_types-AreDescribed ts ds' y)

return_type-ReturnsAs :
    (outs : List GoType) (has_error : Bool) (d : TypeDescriptor)
    → result_rules outs ≡ ok has_error
    → return_type outs has_error ≡ ok d
    → ReturnsAs outs d
unfolding result_rules return_type
return_type-ReturnsAs [] has_error d r e = sym (ok-injective e)
return_type-ReturnsAs (t ∷ []) has_error d r e = elim (Bool-cases (is_error t)) [
  | inl y ↦ inl (y, sym (ok-injective (rw (sym (ok-injective r), y) at e)))
  | inr n ↦ inr (n, rw (sym (ok-injective r), n) at e)
]
return_type-ReturnsAs (t ∷ (u ∷ [])) has_error d r e = elim (Bool-cases (is_error u)) [
  | inl y ↦ (y, e)
  | inr n ↦ absurd (ground arith)
]
return_type-ReturnsAs (t ∷ (u ∷ (x ∷ ts))) has_error d r e = absurd (ground arith)

-- The interface that a call needs, for a function with `fixed` fixed arguments and arguments of the types:
-- their descriptors and that of the result, the convention of the marker, and the C-variadic form for a
-- Go variadic function with the marker purego.Variadic or with a symbol name that calls for it.
pub record IsInterface (p : Platform) (symbol_name : ℕ → List ℕ) (cfn : ℕ) (sig : Signature)
    (fixed : ℕ) (types : List GoType) (cif : CallInterface) : Type 0 where
  pub described : AreDescribed types cif.arg_types
  pub returned : ReturnsAs sig.outs cif.ret_type
  pub convention : cif.convention ≡ convention_for (first_param sig.ins)
  pub preparation : cif.preparation ≡ (
      if sig.is_variadic
        && is_called_variadic p (symbol_name cfn) sig.is_variadic (first_param sig.ins)
      then variadic fixed
      else ordinary)

pub length-arg_types :
    (ts : List GoType) (ds : List TypeDescriptor) → arg_types ts ≡ ok ds → length ds ≡ length ts
unfolding arg_types
length-arg_types [] ds e = ap length (sym (ok-injective e))
length-arg_types (t ∷ ts) ds e =
    let (d, x, e') = >>=-eq-ok (go_arg_type_to_ffi_type t) _ e in
    let (ds', y, e'') = >>=-eq-ok (arg_types ts) _ e' in
    ap length (sym (ok-injective e'')) ∙ ap suc (length-arg_types ts ds' y)

module _ (p : Platform) (symbol_name : ℕ → List ℕ) (cfn : ℕ) (sig : Signature) (has_error : Bool)
    (types : List TypeDescriptor) (ret : TypeDescriptor) (f : SlowFunc)
    (ruled : result_rules sig.outs ≡ ok has_error)
    (resulting : return_type sig.outs has_error ≡ ok ret) where
  pub dynamic-IsInterface :
      (n : ℕ) (all : List GoType) (actual : List TypeDescriptor)
      → sig.is_variadic ≡ true
      → f ≡ plan p symbol_name cfn sig has_error types ret
      → length types ≡ n
      → arg_types all ≡ ok actual
      → IsInterface p symbol_name cfn sig n all (dynamic_interface f actual)
  unfolding plan
  dynamic-IsInterface n all actual v e l d = record {
    described = arg_types-AreDescribed all actual d;
    returned =
        return_type-ReturnsAs sig.outs has_error _ ruled
          (resulting ∙ ap (λ t. ok t) (sym (ap (λ g. g.ret_type) e)));
    convention =
        ap (λ g. g.convention) e ∙ plan-convention p symbol_name cfn sig has_error types ret;
    preparation =
        ap₂ (λ b k. if b then variadic k else ordinary)
          (ap (λ g. g.is_c_variadic) e
            ∙ plan-is_c_variadic p symbol_name cfn sig has_error types ret)
          (ap (λ g. length g.fixed_arg_types) e ∙ l)
        ∙ ap
            (λ b.
              if b && is_called_variadic p (symbol_name cfn) sig.is_variadic (first_param sig.ins)
              then variadic n
              else ordinary)
            (sym v);
  }

  pub fixed-IsInterface :
      (n : ℕ) (all : List GoType)
      → sig.is_variadic ≡ false
      → arg_types all ≡ ok types
      → IsInterface p symbol_name cfn sig n all
          (interface_of (plan p symbol_name cfn sig has_error types ret))
  unfolding plan
  fixed-IsInterface n all v d = record {
    described = arg_types-AreDescribed all types d;
    returned = return_type-ReturnsAs sig.outs has_error ret ruled resulting;
    convention = plan-convention p symbol_name cfn sig has_error types ret;
    preparation = rw v refl;
  }
