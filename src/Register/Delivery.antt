-- ===== src/Register/Delivery.antt =====
-- A call of a function variable that RegisterFunc gave a generated wrapper.
use pureffi.Common.{
  ℕ, ◌≤◌, ◌≡◌, refl, sym, ◌∙◌, ap, inl, inr, false, List, [], ◌∷◌, Option, none, some,
  if◌then◌else◌, length, take, arith, Bool-cases,
}
use pureffi.Go.Platform.{Platform}
use pureffi.Go.Types.{GoType, Signature, uintptr, float32, number, pointer, unsafe_pointer}
use pureffi.Go.Outcome.{ok, >>=-eq-ok, ok-injective}
use pureffi.Goffi.{TypeDescriptor, CallInterface, is_float_kind}
use pureffi.Descriptor.{numeric_descriptor, go_arg_type_to_ffi_type}
use pureffi.FastPath.Slots.{Slot, Wrapper}
use pureffi.FastPath.Signature.{has_results, report}
use pureffi.FastPath.Signature.Phases.{slot, slots, is_float_slot, floats}
use pureffi.FastPath.Shape.{has_wrapper}
use pureffi.FastPath.Selection.{both-eq-some}
use pureffi.FastPath.Decision.{fast_wrapper, has_results_lem, length-slots}
use pureffi.FastPath.Call.{FastCallContext, CallFunction, run_wrapper}
use pureffi.FastPath.Call.Links.{ints_in, floats_in, length-in}
use pureffi.FastPath.Call.Order.{Agrees, run_wrapper_lem}
use pureffi.Register.{
  fast, SlowFunc, Prepare, interface_of, settle, marker, fixed_params, arg_types, plan, fixed_in_of,
  register_signature,
}
use pureffi.Register.Rules.{
  with_interface, fixed_implementation, implement-eq-ok, register_signature-Went,
}

-- The descriptor of a parameter agrees with its slot.
slot-descriptor :
    (t : GoType) (x : Slot) (d : TypeDescriptor)
    → slot t ≡ some x
    → go_arg_type_to_ffi_type t ≡ ok d
    → is_float_slot x ≡ is_float_kind d
unfolding slot go_arg_type_to_ffi_type numeric_descriptor
slot-descriptor (number l uintptr) x d e h = ground arith
slot-descriptor (number l float32) x d e h = ground arith
slot-descriptor (pointer l t) x d e h = ground arith
slot-descriptor (unsafe_pointer l) x d e h = ground arith
slot-descriptor _ x d e h = ground arith

slots-Agrees :
    (ts : List GoType) (xs : List Slot) (ds : List TypeDescriptor)
    → slots ts ≡ some xs
    → arg_types ts ≡ ok ds
    → Agrees xs ds
unfolding slots arg_types
slots-Agrees [] xs ds e h =
    let p : xs ≡ [] = ground arith in let q : ds ≡ [] = ground arith in rw (p, q) tt
slots-Agrees (t ∷ ts) xs ds e h =
    let (x, ys, a, b, c) = both-eq-some (slot t) (slots ts) xs e in
    let (d, a', k) = >>=-eq-ok (go_arg_type_to_ffi_type t) _ h in
    let (ds', b', k') = >>=-eq-ok (arg_types ts) _ k in
    rw (c, sym (ok-injective k')) (slot-descriptor t x d a a', slots-Agrees ts ys ds' b b')

floats-Agrees :
    (xs : List Slot) (ds : List TypeDescriptor)
    → Agrees xs ds
    → (floats_in ds ≡ floats xs) × (length ds ≡ length xs)
unfolding floats floats_in
floats-Agrees [] [] a = (refl, refl)
floats-Agrees [] (d ∷ ds) a = absurd a
floats-Agrees (x ∷ xs) [] a = absurd a
floats-Agrees (x ∷ xs) (d ∷ ds) a = ground (arith, floats-Agrees xs ds a.1)

take-length : (ts : List GoType) → take (length ts) ts ≡ ts
take-length [] = refl
take-length (t ∷ ts) = ap (λ l. t ∷ l) (take-length ts)

-- A type with a slot is no marker.
marker-slots : (ts : List GoType) (xs : List Slot) → slots ts ≡ some xs → (marker ts).start_in ≡ 0
unfolding marker slots slot
marker-slots [] xs e = refl
marker-slots (t ∷ ts) xs e = go t e
  where
    go : (t : GoType) → slots (t ∷ ts) ≡ some xs → (marker (t ∷ ts)).start_in ≡ 0
    go (number d k) e = refl
    go _ e = ground arith

settle-fast :
    (f : SlowFunc) (cif' : CallInterface) (o : Option Wrapper) (w : Wrapper) (cif : CallInterface)
    → settle f cif' (report o) ≡ some (fast w cif)
    → (o ≡ some w) × (cif ≡ cif')
settle-fast f cif' none w cif h = absurd (ground arith)
settle-fast f cif' (some w') w cif h = ground arith

fixed_implementation-fast :
    (p : Platform) (f : SlowFunc) (w : Wrapper) (cif : CallInterface)
    → fixed_implementation p f ≡ some (fast w cif)
    → (fast_wrapper p f.signature ≡ some w) × (cif ≡ interface_of f)
fixed_implementation-fast p f w cif h = elim (Bool-cases f.has_error) [
  | inl e ↦ absurd (ground arith)
  | inr e ↦
      settle-fast (with_interface f) (interface_of f) (fast_wrapper p f.signature) w cif
        (ground arith)
]

fixed_in_fixed : (sig : Signature) → sig.is_variadic ≡ false → fixed_in_of sig ≡ length sig.ins
fixed_in_fixed sig v = ground arith

-- What a registration that ended in a wrapper went through.
abbrev WentFast : Platform → Signature → Wrapper → CallInterface → Type 0
WentFast p sig w cif =
    (fast_wrapper p sig ≡ some w)
    × (arg_types (fixed_params (marker sig.ins).start_in (length sig.ins) sig.ins)
        ≡ ok cif.arg_types)

register_signature-fast :
    (p : Platform) (prepare : Prepare) (symbol_name : ℕ → List ℕ) (cfn : ℕ) (sig : Signature)
    (w : Wrapper) (cif : CallInterface)
    → register_signature p prepare symbol_name cfn sig ≡ ok (some (fast w cif))
    → WentFast p sig w cif
unfolding plan
register_signature-fast p prepare symbol_name cfn sig w cif h =
    let (has_error, types, ret, a, b, c, k) =
      register_signature-Went p prepare symbol_name cfn sig (some (fast w cif)) h in
    elim (implement-eq-ok p prepare (plan p symbol_name cfn sig has_error types ret)
      (some (fast w cif)) k) [
        | inl v ↦ absurd (ground arith)
        | inr v ↦
            let (e, q) =
              fixed_implementation-fast p (plan p symbol_name cfn sig has_error types ret) w cif
                (sym v.1) in
            (e, rw (q, sym (fixed_in_fixed sig v.0)) b)
      ]

-- What the description by slots gives.
fast_wrapper-slots :
    (p : Platform) (sig : Signature) (w : Wrapper)
    → fast_wrapper p sig ≡ some w
    → (slots sig.ins ≡ some w.params)
      × (w.has_return ≡ has_results sig.outs)
      × (length sig.ins ≤ 15)
      × (floats w.params ≤ 1)
unfolding has_wrapper
fast_wrapper-slots p sig w h = go (slots sig.ins) refl
  where
    go :
        (o : Option (List Slot))
        → slots sig.ins ≡ o
        → (slots sig.ins ≡ some w.params)
          × (w.has_return ≡ has_results sig.outs)
          × (length sig.ins ≤ 15)
          × (floats w.params ≤ 1)
    go none e = absurd (ground arith)
    go (some xs) e = ground (arith, has_results_lem sig.outs)

all_params :
    (ts : List GoType) (xs : List Slot)
    → slots ts ≡ some xs
    → fixed_params (marker ts).start_in (length ts) ts ≡ ts
unfolding fixed_params
all_params ts xs e = rw (marker-slots ts xs e) (take-length ts)

-- The wrapper and the interface of a registration fit each other and the arrays of fastCallIF.
pub record IsFitting (sig : Signature) (w : Wrapper) (cif : CallInterface) : Type 0 where
  pub described : arg_types sig.ins ≡ ok cif.arg_types
  pub agrees : Agrees w.params cif.arg_types
  pub same_length : length sig.ins ≡ length w.params
  pub few_ints : ints_in cif.arg_types ≤ 15
  pub few_floats : floats_in cif.arg_types ≤ 8
  pub same_return : w.has_return ≡ has_results sig.outs

pub register_signature-IsFitting :
    (p : Platform) (prepare : Prepare) (symbol_name : ℕ → List ℕ) (cfn : ℕ) (sig : Signature)
    (w : Wrapper) (cif : CallInterface)
    → register_signature p prepare symbol_name cfn sig ≡ ok (some (fast w cif))
    → IsFitting sig w cif
register_signature-IsFitting p prepare symbol_name cfn sig w cif h =
    let (f, t) = register_signature-fast p prepare symbol_name cfn sig w cif h in
    let (e, r, n, m) = fast_wrapper-slots p sig w f in
    let t' : arg_types sig.ins ≡ ok cif.arg_types = rw (all_params sig.ins w.params e) at t in
    let a = slots-Agrees sig.ins w.params cif.arg_types e t' in
    let (fl, ln) = floats-Agrees w.params cif.arg_types a in
    let lw = length-slots sig.ins w.params e in
    record {
      described = t';
      agrees = a;
      same_length = omega arith;
      few_ints = omega (arith, length-in cif.arg_types);
      few_floats = omega arith;
      same_return = r;
    }

module _ (call_function : CallFunction) where
  -- Wherever RegisterFunc installs a generated wrapper, a call of the function variable with one word for
  -- each parameter and a pooled context that has its 23 pointer slots reaches the C function with exactly
  -- its arguments in order, under an interface that describes every parameter. The word that the C
  -- function makes of them in a cleared buffer is left in the context, and returned if the function has
  -- a result; the context keeps its pointer slots.
  pub register_signature-delivers :
      (p : Platform) (prepare : Prepare) (symbol_name : ℕ → List ℕ) (cfn : ℕ) (sig : Signature)
      (w : Wrapper) (cif : CallInterface) (pooled : FastCallContext) (vs : List ℕ)
      → register_signature p prepare symbol_name cfn sig ≡ ok (some (fast w cif))
      → length pooled.args ≡ 23
      → length vs ≡ length sig.ins
      → (arg_types sig.ins ≡ ok cif.arg_types)
        × ((after : FastCallContext) × (run_wrapper call_function w pooled cif cfn vs
              ≡ ok
                  (if has_results sig.outs then some (call_function cif cfn vs 0) else none, after))
            × (length after.args ≡ 23)
            × (after.ret ≡ call_function cif cfn vs 0))
  register_signature-delivers p prepare symbol_name cfn sig w cif pooled vs h l lv =
      let f = register_signature-IsFitting p prepare symbol_name cfn sig w cif h in
      (
        f.described,
        rw (sym f.same_return) (
            run_wrapper_lem call_function w pooled cif cfn vs l f.agrees (lv ∙ f.same_length)
              f.few_ints f.few_floats),
      )
