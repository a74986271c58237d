-- ===== src/SlowCall/Arguments.antt =====
-- A call of the slow path that packs all its arguments.
use pureffi.Common.{
  ℕ, true, ◌+◌, ◌≤◌, ◌<◌, ◌≡◌, refl, ap, sym, List, [], ◌∷◌, ◌++◌, append_assoc, append-nil, none,
  length, take, map, arith,
}
use pureffi.Go.Values.{Value, Heap, type_of}
use pureffi.Go.Outcome.{ok, >>=-eq-ok, ok-injective}
use pureffi.Goffi.{TypeDescriptor}
use pureffi.Descriptor.{go_arg_type_to_ffi_type}
use pureffi.Register.{arg_types}
use pureffi.SlowCall.{
  SlowCallContext, Packing, Run, pack_one, pack_fixed, Element, unbox, describe, pack_element,
  pack_variadic, clean_up, Finished, pack_call,
}
use pureffi.SlowCall.Pack.{Extends, Lives, Lives-mono, is_packable, AllEncoded}
use pureffi.SlowCall.Steps.{
  Packable, Packable-mono, Ready, Reaches, then_run-Reaches, length-snoc, pack_one-Reaches,
  pack_fixed-Reaches,
}

-- What the elements of the variadic slice hold.
abbrev pub Hold : List Element → List Value → Type 0
Hold [] [] = Unit {0}
Hold [] (v ∷ vs) = ⊥
Hold (e ∷ es) [] = ⊥
Hold (e ∷ es) (v ∷ vs) = (unbox e ≡ ok v) × Hold es vs

describe-Reaches :
    (cb : ℕ → ℕ) (ts : List TypeDescriptor) (vs : List Value) (d : TypeDescriptor) (s : Packing)
    → Ready cb ts vs s
    → Reaches cb (ts ++ d ∷ []) vs s.memory (describe (ok d) s)
unfolding describe
describe-Reaches cb ts vs d s ready = (
  _,
  refl,
  record {
    types = ap (λ l. l ++ d ∷ []) ready.types;
    args = ready.args;
    count = ready.count;
    kept = ready.kept;
    stored = ready.stored;
  },
  λ a o e. e,
)

pack_element-Reaches :
    (cb : ℕ → ℕ) (ts : List TypeDescriptor) (vs : List Value) (v : Value) (d : TypeDescriptor)
    (s : Packing)
    → length vs < 32
    → go_arg_type_to_ffi_type (type_of v) ≡ ok d
    → is_packable v ≡ true
    → Lives s.memory v
    → Ready cb ts vs s
    → Reaches cb (ts ++ d ∷ []) (vs ++ v ∷ []) s.memory (pack_element cb (ok v) s)
unfolding pack_element
pack_element-Reaches cb ts vs v d s n e k l ready = rw e (
    then_run-Reaches cb (ts ++ d ∷ []) (ts ++ d ∷ []) vs (vs ++ v ∷ []) s.memory (describe (ok d) s)
      (pack_one cb v) (describe-Reaches cb ts vs d s ready)
      (λ s' r f.
        pack_one-Reaches cb (ts ++ d ∷ []) vs v s' n k (Lives-mono s.memory s'.memory v f l) r))

pack_variadic-Reaches :
    (cb : ℕ → ℕ) (ts : List TypeDescriptor) (vs : List Value) (es : List Element) (ws : List Value)
    (ds : List TypeDescriptor) (s : Packing)
    → length vs + length ws ≤ 32
    → Hold es ws
    → arg_types (map type_of ws) ≡ ok ds
    → Packable s.memory ws
    → Ready cb ts vs s
    → Reaches cb (ts ++ ds) (vs ++ ws) s.memory (pack_variadic cb es s)
unfolding pack_variadic arg_types
pack_variadic-Reaches cb ts vs [] [] ds s n hs e k ready =
    (s, refl, rw (append-nil vs, sym (ok-injective e), append-nil ts) ready, λ a o h. h)
pack_variadic-Reaches cb ts vs [] (w ∷ ws) ds s n hs e k ready = absurd hs
pack_variadic-Reaches cb ts vs (x ∷ es) [] ds s n hs e k ready = absurd hs
pack_variadic-Reaches cb ts vs (x ∷ es) (w ∷ ws) ds s n (h, hs) e (k, l, ks) ready =
    let (d, a, e') = >>=-eq-ok (go_arg_type_to_ffi_type (type_of w)) _ e in
    let (ds', b, e'') = >>=-eq-ok (arg_types (map type_of ws)) _ e' in
    rw (h, sym (ok-injective e''))
      (then_run-Reaches cb (ts ++ d ∷ []) (ts ++ d ∷ ds') (vs ++ w ∷ []) (vs ++ w ∷ ws) s.memory
        (pack_element cb (ok w) s) (pack_variadic cb es)
        (pack_element-Reaches cb ts vs w d s (omega arith) a k l ready)
        (λ s' r f.
          rw (sym (append_assoc vs (w ∷ []) ws), sym (append_assoc ts (d ∷ []) ds'))
            (pack_variadic-Reaches cb (ts ++ d ∷ []) (vs ++ w ∷ []) es ws ds' s'
              (omega (arith, length-snoc vs w)) hs b (Packable-mono s.memory s'.memory ws f ks) r)))

-- What a call that packs all its arguments has for the C function: no panic, a pointer for each
-- argument, in order, behind which C finds the argument, and a descriptor for each.
abbrev pub PacksAll : (ℕ → ℕ) → List TypeDescriptor → Heap → List Value → Finished → Type 0
PacksAll cb ts h vs f =
    (f.failure ≡ none)
    × (f.packing.ffi_args_count ≡ length vs)
    × AllEncoded cb f.packing.memory (take f.packing.ffi_args_count f.packing.ctx.ffi_args) vs
    × (f.packing.actual_arg_types ≡ ts)
    × Extends h f.packing.memory

clean_up-PacksAll :
    (cb : ℕ → ℕ) (ts : List TypeDescriptor) (vs : List Value) (h : Heap) (r : Run)
    → Reaches cb ts vs h r
    → PacksAll cb ts h vs (clean_up r)
unfolding clean_up
clean_up-PacksAll cb ts vs h r (s, e, ready, f) =
    rw e (refl, ready.count, ready.stored, ready.types, f)

-- With at most 32 arguments of kinds that packArg knows, the memory they refer to in place, types of the
-- variadic ones that goArgTypeToFfiType can describe, and a pooled context with its 32 pointer slots, the loops end without a panic whatever the pooled
-- context held: the C function gets one pointer for each argument, the fixed ones first, each in
-- order, behind each of which lies that argument in C's form, and the variadic arguments' descriptors
-- follow those of the fixed ones. No object of the heap changes.
pub pack_call-PacksAll :
    (cb : ℕ → ℕ) (ts ds : List TypeDescriptor) (pooled : SlowCallContext) (h : Heap)
    (fixed : List Value) (variadic : List Element) (vs : List Value)
    → length pooled.ffi_args ≡ 32
    → length fixed + length vs ≤ 32
    → Hold variadic vs
    → arg_types (map type_of vs) ≡ ok ds
    → Packable h fixed
    → Packable h vs
    → PacksAll cb (ts ++ ds) h (fixed ++ vs) (pack_call cb ts pooled h fixed variadic)
unfolding pack_call
pack_call-PacksAll cb ts ds pooled h fixed variadic vs l n hold e kf kv =
    clean_up-PacksAll cb (ts ++ ds) (fixed ++ vs) h _ (
      then_run-Reaches cb ts (ts ++ ds) fixed (fixed ++ vs) h (pack_fixed cb fixed _)
        (pack_variadic cb variadic)
        (pack_fixed-Reaches cb ts [] fixed _ (omega arith) kf
          (record { types = refl; args = l; count = refl; kept = refl; stored = tt }))
        (λ s r f.
          pack_variadic-Reaches cb ts fixed variadic vs ds s n hold e
            (Packable-mono h s.memory vs f kv) r))
