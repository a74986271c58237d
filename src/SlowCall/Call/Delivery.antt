-- ===== src/SlowCall/Call/Delivery.antt =====
-- What a call of a function variable with RegisterFunc's closure hands to ffi.CallFunction.
use pureffi.Common.{
  ℕ, ◌≡◌, refl, sym, ap, ◌∙◌, Bool, true, false, ◌⊎◌, inl, inr, List, [], ◌++◌, append-nil, map,
  none, some, length, length-map,
}
use pureffi.Go.Platform.{Platform}
use pureffi.Go.Types.{Signature}
use pureffi.Go.Values.{Value, Heap, type_of}
use pureffi.Go.Outcome.{ok, ok-injective}
use pureffi.Goffi.{TypeDescriptor, CallInterface}
use pureffi.Register.{
  slow, SlowFunc, Prepare, prepared, result_rules, arg_types, return_type, plan, register_signature,
}
use pureffi.Register.Rules.{with_interface}
use pureffi.SlowCall.{SlowCallContext, Element, pack_call}
use pureffi.SlowCall.Pack.{AllEncoded}
use pureffi.SlowCall.Arguments.{pack_call-PacksAll}
use pureffi.SlowCall.Call.{dynamic_interface, call_interface, Passed, slow_call}
use pureffi.SlowCall.Call.Agreement.{
  arg_types-append, map-append, register_signature-Closure, Arguments, slow_call-eq,
}
use pureffi.SlowCall.Call.Interface.{
  IsInterface, length-arg_types, dynamic-IsInterface, fixed-IsInterface,
}

prepared-eq-ok :
    (prepare : Prepare) (cif : CallInterface) → prepare cif ≡ none → prepared prepare cif ≡ ok cif
prepared-eq-ok prepare cif e = rw (e, prepared) refl

call_interface-variadic :
    (prepare : Prepare) (f : SlowFunc) (ts : List TypeDescriptor)
    → prepare (dynamic_interface f ts) ≡ none
    → f.signature.is_variadic ≡ true
    → call_interface prepare f ts ≡ ok (dynamic_interface f ts)
unfolding call_interface
call_interface-variadic prepare f ts ready v =
    rw (v, prepared-eq-ok prepare (dynamic_interface f ts) ready) refl

call_interface-fixed :
    (prepare : Prepare) (f : SlowFunc) (cif : CallInterface) (ts : List TypeDescriptor)
    → f.signature.is_variadic ≡ false
    → f.fixed_cif ≡ some cif
    → call_interface prepare f ts ≡ ok cif
unfolding call_interface
call_interface-fixed prepare f cif ts v e = rw (v, e) refl

-- A call of a function variable that has RegisterFunc's closure, with a pooled context that has its 32
-- pointer slots and at most 32 arguments of the declared types that packArg knows, whose memory is in
-- place and the variadic of which goArgTypeToFfiType can describe, where goffi prepares the interface of
-- this call, reaches ffi.CallFunction: with one pointer for each argument, in order, behind which lies
-- that argument in C's form, and with the interface that the call needs: exactly the descriptors of the
-- arguments' types and of the function's result, the convention of the marker, and the C-variadic form
-- exactly for a variadic function with the marker purego.Variadic or a symbol name that calls for it.
pub slow_call-delivers :
    (p : Platform) (prepare : Prepare) (symbol_name : ℕ → List ℕ) (cfn : ℕ) (sig : Signature)
    (f : SlowFunc) (cb : ℕ → ℕ) (pooled : SlowCallContext) (h : Heap) (fixed : List Value)
    (elements : List Element) (vs : List Value) (ds : List TypeDescriptor)
    → register_signature p prepare symbol_name cfn sig ≡ ok (some (slow f))
    → ((c : CallInterface)
        → IsInterface p symbol_name cfn sig (length fixed) (map type_of (fixed ++ vs)) c
        → prepare c ≡ none)
    → length pooled.ffi_args ≡ 32
    → Arguments sig h fixed elements vs ds
    → (passed : Passed) × (slow_call prepare cb f pooled h fixed elements ≡ ok passed)
      × AllEncoded cb passed.memory passed.pointers (fixed ++ vs)
      × IsInterface p symbol_name cfn sig (length fixed) (map type_of (fixed ++ vs)) passed.cif
unfolding plan arg_types
slow_call-delivers p prepare symbol_name cfn sig f cb pooled h fixed elements vs ds r ready l args =
    let (has_error, types, ret, a, b, c, k) =
      register_signature-Closure p prepare symbol_name cfn sig f r in
    let ft : f.fixed_arg_types ≡ types = elim k [
      | inl v ↦ ap (λ g. g.fixed_arg_types) v.1
      | inr v ↦ ap (λ g. g.fixed_arg_types) v.1
    ] in
    let (fails, n, enc, types', ext) =
      pack_call-PacksAll cb f.fixed_arg_types ds pooled h fixed elements vs l args.count args.held
        args.described args.fixed_packable args.rest_packable in
    let (cif, e, d) =
      interface types ret has_error a (rw (sym args.typed) at b) c k
        (pack_call cb f.fixed_arg_types pooled h fixed elements).packing.actual_arg_types
        (types' ∙ ap (λ ts. ts ++ ds) ft) in
    (_, slow_call-eq prepare cb f pooled h fixed elements cif fails e, enc, d)
  where
    described :
        (types : List TypeDescriptor)
        → arg_types (map type_of fixed) ≡ ok types
        → arg_types (map type_of (fixed ++ vs)) ≡ ok (types ++ ds)
    described types b =
        rw (map-append fixed vs)
          (arg_types-append (map type_of fixed) (map type_of vs) types ds b args.described)

    counted :
        (types : List TypeDescriptor)
        → arg_types (map type_of fixed) ≡ ok types
        → length types ≡ length fixed
    counted types b = length-arg_types (map type_of fixed) types b ∙ length-map fixed type_of

    interface :
        (types : List TypeDescriptor) (ret : TypeDescriptor) (has_error : Bool)
        → result_rules sig.outs ≡ ok has_error
        → arg_types (map type_of fixed) ≡ ok types
        → return_type sig.outs has_error ≡ ok ret
        → ((sig.is_variadic ≡ true) × (f ≡ plan p symbol_name cfn sig has_error types ret))
          ⊎ ((sig.is_variadic ≡ false)
              × (f ≡ with_interface (plan p symbol_name cfn sig has_error types ret)))
        → (actual : List TypeDescriptor) → actual ≡ types ++ ds
        → (cif : CallInterface) × (call_interface prepare f actual ≡ ok cif)
          × IsInterface p symbol_name cfn sig (length fixed) (map type_of (fixed ++ vs)) cif
    interface types ret has_error a b c (inl (v, e)) actual q =
        let i =
          dynamic-IsInterface p symbol_name cfn sig has_error types ret f a c (length fixed)
            (map type_of (fixed ++ vs)) actual v e (counted types b)
            (described types b ∙ ap (λ ts. ok ts) (sym q)) in
        (
          dynamic_interface f actual,
          call_interface-variadic prepare f actual (ready (dynamic_interface f actual) i)
              (ap (λ g. g.signature.is_variadic) e ∙ v),
          i,
        )
    interface types ret has_error a b c (inr (v, e)) actual q =
        let none_left : ds ≡ [] = sym (ok-injective (rw (args.no_rest v) at args.described)) in
        let all : types ++ ds ≡ types = ap (λ l. types ++ l) none_left ∙ append-nil types in
        (
          _,
          call_interface-fixed prepare f _ actual (ap (λ g. g.signature.is_variadic) e ∙ v)
              (ap (λ g. g.fixed_cif) e),
          fixed-IsInterface p symbol_name cfn sig has_error types ret f a c (length fixed)
              (map type_of (fixed ++ vs)) v (described types b ∙ ap (λ ts. ok ts) all),
        )
