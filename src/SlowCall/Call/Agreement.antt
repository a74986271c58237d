-- ===== src/SlowCall/Call/Agreement.antt =====
-- The interface of a slow call against its arguments.
use pureffi.Common.{
  ℕ, ◌+◌, ◌≤◌, ◌≡◌, refl, sym, ap, Bool, true, false, ◌⊎◌, inl, inr, List, [], ◌∷◌, ◌++◌, map,
  Option, none, some, length, take, if◌then◌else◌, arith,
}
use pureffi.Go.Platform.{Platform}
use pureffi.Go.Types.{GoType, Signature}
use pureffi.Go.Values.{Value, Heap, type_of}
use pureffi.Go.Outcome.{ok, >>=-eq-ok, ok-injective}
use pureffi.Goffi.{TypeDescriptor, CallInterface}
use pureffi.Descriptor.{go_arg_type_to_ffi_type}
use pureffi.FastPath.Slots.{Wrapper}
use pureffi.FastPath.Signature.{report}
use pureffi.FastPath.Decision.{fast_wrapper}
use pureffi.Register.{
  slow, SlowFunc, Prepare, settle, interface_of, result_rules, marker, fixed_params, fixed_in_of,
  arg_types, return_type, plan, register_signature,
}
use pureffi.Register.Rules.{
  with_interface, fixed_implementation, implement-eq-ok, register_signature-Went,
}
use pureffi.SlowCall.{SlowCallContext, Packing, Element, pack_call}
use pureffi.SlowCall.Steps.{Packable}
use pureffi.SlowCall.Arguments.{Hold}
use pureffi.SlowCall.Call.{call_interface, pass, slow_call}

pub arg_types-append :
    (ts us : List GoType) (ds es : List TypeDescriptor)
    → arg_types ts ≡ ok ds
    → arg_types us ≡ ok es
    → arg_types (ts ++ us) ≡ ok (ds ++ es)
unfolding arg_types
arg_types-append [] us ds es a b = rw (sym (ok-injective a)) b
arg_types-append (t ∷ ts) us ds es a b =
    let (d, x, a') = >>=-eq-ok (go_arg_type_to_ffi_type t) _ a in
    let (ds', y, a'') = >>=-eq-ok (arg_types ts) _ a' in
    rw (x, arg_types-append ts us ds' es y b, sym (ok-injective a'')) refl

pub map-append : (vs ws : List Value) → map type_of (vs ++ ws) ≡ map type_of vs ++ map type_of ws
map-append [] ws = refl
map-append (v ∷ vs) ws = ap (λ l. type_of v ∷ l) (map-append vs ws)

settle-slow :
    (f f' : SlowFunc) (cif : CallInterface) (o : Option Wrapper)
    → settle f cif (report o) ≡ some (slow f')
    → f' ≡ f
settle-slow f f' cif none h = ground arith
settle-slow f f' cif (some w) h = absurd (ground arith)

some_slow-injective : (f g : SlowFunc) → some (slow f) ≡ some (slow g) → f ≡ g
some_slow-injective f g e = cc

choice-slow :
    (b : Bool) (f f' : SlowFunc) (cif : CallInterface) (o : Option Wrapper)
    → (if b then some (slow f) else settle f cif (report o)) ≡ some (slow f')
    → f' ≡ f
choice-slow true f f' cif o h = sym (some_slow-injective f f' h)
choice-slow false f f' cif o h = settle-slow f f' cif o h

fixed_implementation-slow :
    (p : Platform) (f f' : SlowFunc)
    → fixed_implementation p f ≡ some (slow f')
    → f' ≡ with_interface f
fixed_implementation-slow p f f' h =
    choice-slow f.has_error (with_interface f) f' (interface_of f) (fast_wrapper p f.signature) h

-- What a closure was made with.
abbrev pub Closure : Platform → (ℕ → List ℕ) → ℕ → Signature → SlowFunc → Type 0
Closure p symbol_name cfn sig f =
    (has_error : Bool) × (types : List TypeDescriptor) × (ret : TypeDescriptor) × (result_rules
        sig.outs
      ≡ ok has_error)
    × (arg_types (fixed_params (marker sig.ins).start_in (fixed_in_of sig) sig.ins) ≡ ok types)
    × (return_type sig.outs has_error ≡ ok ret)
    × (((sig.is_variadic ≡ true) × (f ≡ plan p symbol_name cfn sig has_error types ret))
        ⊎ ((sig.is_variadic ≡ false)
            × (f ≡ with_interface (plan p symbol_name cfn sig has_error types ret))))

pub register_signature-Closure :
    (p : Platform) (prepare : Prepare) (symbol_name : ℕ → List ℕ) (cfn : ℕ) (sig : Signature)
    (f : SlowFunc)
    → register_signature p prepare symbol_name cfn sig ≡ ok (some (slow f))
    → Closure p symbol_name cfn sig f
unfolding plan
register_signature-Closure p prepare symbol_name cfn sig f h =
    let (e, ts, r, a, b, c, k) =
      register_signature-Went p prepare symbol_name cfn sig (some (slow f)) h in
    elim (implement-eq-ok p prepare (plan p symbol_name cfn sig e ts r) (some (slow f)) k) [
      | inl v ↦ (e, ts, r, a, b, c, inl (v.0, some_slow-injective _ _ v.1))
      | inr v ↦ (
        e,
        ts,
        r,
        a,
        b,
        c,
        inr (v.0, fixed_implementation-slow p (plan p symbol_name cfn sig e ts r) f (sym v.1)),
      )
    ]

-- The arguments of a call, in the types that the function declares for the fixed ones; a function
-- that is not variadic has no variadic slice.
pub record Arguments (sig : Signature) (h : Heap) (fixed : List Value) (elements : List Element)
    (vs : List Value) (ds : List TypeDescriptor) : Type 0 where
  pub typed : map type_of fixed ≡ fixed_params (marker sig.ins).start_in (fixed_in_of sig) sig.ins
  pub held : Hold elements vs
  pub described : arg_types (map type_of vs) ≡ ok ds
  pub count : length fixed + length vs ≤ 32
  pub fixed_packable : Packable h fixed
  pub rest_packable : Packable h vs
  pub no_rest : sig.is_variadic ≡ false → vs ≡ []

pass-eq :
    (prepare : Prepare) (f : SlowFunc) (s : Packing) (cif : CallInterface)
    → call_interface prepare f s.actual_arg_types ≡ ok cif
    → pass prepare f s
      ≡ ok
          (record { cif = cif; pointers = take s.ffi_args_count s.ctx.ffi_args; memory = s.memory })
unfolding pass
pass-eq prepare f s cif e = rw e refl

pub slow_call-eq :
    (prepare : Prepare) (cb : ℕ → ℕ) (f : SlowFunc) (pooled : SlowCallContext) (h : Heap)
    (fixed : List Value) (elements : List Element) (cif : CallInterface)
    → (pack_call cb f.fixed_arg_types pooled h fixed elements).failure ≡ none
    → call_interface prepare f
        (pack_call cb f.fixed_arg_types pooled h fixed elements).packing.actual_arg_types
      ≡ ok cif
    → let s = (pack_call cb f.fixed_arg_types pooled h fixed elements).packing in
      slow_call prepare cb f pooled h fixed elements
      ≡ ok
          (record { cif = cif; pointers = take s.ffi_args_count s.ctx.ffi_args; memory = s.memory })
unfolding slow_call
slow_call-eq prepare cb f pooled h fixed elements cif e k =
    rw (e, slow_call) (pass-eq prepare f _ cif k)
