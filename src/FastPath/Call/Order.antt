-- ===== src/FastPath/Call/Order.antt =====
-- Splitting arguments by register class and linking them by descriptor gives them back in order.
use native.Mathlib.Nat.{add-zero, zero-add}
use pureffi.Common.{
  ℕ, zero, suc, ◌+◌, ◌≤◌, ◌<◌, ◌≡◌, refl, ap₂, true, false, List, [], ◌∷◌, none, some,
  if◌then◌else◌, arith, map, length, get_or,
}
use pureffi.Go.Outcome.{ok}
use pureffi.Goffi.{TypeDescriptor, CallInterface, is_float_kind}
use pureffi.FastPath.Slots.{Slot, word, ref, float32, float64, Wrapper}
use pureffi.FastPath.Signature.Phases.{is_float_slot}
use pureffi.FastPath.Call.Links.{references, ints_in, floats_in, link_args-Linked, length-in}
use pureffi.FastPath.Call.{
  FastCallContext, load, CallFunction, fast_call_if, int_args, float_args, fill, run_wrapper,
}

-- A float descriptor for each float parameter, and no other.
abbrev pub Agrees : List Slot → List TypeDescriptor → Type 0
Agrees [] [] = Unit {0}
Agrees [] (t ∷ ts) = ⊥
Agrees (x ∷ xs) [] = ⊥
Agrees (x ∷ xs) (t ∷ ts) = (is_float_slot x ≡ is_float_kind t) × Agrees xs ts

-- Words of `array` from position `i` on are those of `vs`.
abbrev Holds : List ℕ → ℕ → ℕ → List ℕ → Type 0
Holds array i n vs = (j : ℕ) → j < n → get_or array (i + j) 0 ≡ get_or vs j 0

Holds-tail :
    (array : List ℕ) (i n v : ℕ) (vs : List ℕ)
    → Holds array i (suc n) (v ∷ vs)
    → Holds array (suc i) n vs
Holds-tail array i n v vs h j lt =
    let k : suc i + j ≡ i + suc j = omega arith in rw k (h (suc j) (omega arith))

Holds-head :
    (array : List ℕ) (i n v : ℕ) (vs : List ℕ)
    → Holds array i (suc n) (v ∷ vs)
    → get_or array i 0 ≡ v
Holds-head array i n v vs h = rw (add-zero i) at (h 0 (omega arith))

-- One argument in `ints`, and the rest.
load-int :
    (ctx : FastCallContext) (t : TypeDescriptor) (ts : List TypeDescriptor) (v : ℕ)
    (is fs vs : List ℕ) (i f : ℕ)
    → false ≡ is_float_kind t
    → Holds ctx.ints i (ints_in (t ∷ ts)) (v ∷ is)
    → Holds ctx.floats f (floats_in (t ∷ ts)) fs
    → (Holds ctx.ints (suc i) (ints_in ts) is
        → Holds ctx.floats f (floats_in ts) fs
        → map (load ctx) (references ts (suc i) f) ≡ vs)
    → map (load ctx) (references (t ∷ ts) i f) ≡ v ∷ vs
unfolding load references ints_in floats_in
load-int ctx t ts v is fs vs i f e hi hf rest =
    let hi' : Holds ctx.ints i (suc (ints_in ts)) (v ∷ is) = λ j lt. hi j (ground arith) in
    let hf' : Holds ctx.floats f (floats_in ts) fs = λ j lt. hf j (ground arith) in
    rw (← e, references)
      (ap₂ ◌∷◌ (Holds-head ctx.ints i _ v is hi') (rest (Holds-tail ctx.ints i _ v is hi') hf'))

-- One argument in `floats`, and the rest.
load-float :
    (ctx : FastCallContext) (t : TypeDescriptor) (ts : List TypeDescriptor) (v : ℕ)
    (is fs vs : List ℕ) (i f : ℕ)
    → true ≡ is_float_kind t
    → Holds ctx.ints i (ints_in (t ∷ ts)) is
    → Holds ctx.floats f (floats_in (t ∷ ts)) (v ∷ fs)
    → (Holds ctx.ints i (ints_in ts) is
        → Holds ctx.floats (suc f) (floats_in ts) fs
        → map (load ctx) (references ts i (suc f)) ≡ vs)
    → map (load ctx) (references (t ∷ ts) i f) ≡ v ∷ vs
unfolding load references ints_in floats_in
load-float ctx t ts v is fs vs i f e hi hf rest =
    let hi' : Holds ctx.ints i (ints_in ts) is = λ j lt. hi j (ground arith) in
    let hf' : Holds ctx.floats f (suc (floats_in ts)) (v ∷ fs) = λ j lt. hf j (ground arith) in
    rw (← e, references)
      (ap₂ ◌∷◌ (Holds-head ctx.floats f _ v fs hf') (rest hi' (Holds-tail ctx.floats f _ v fs hf')))

load-references :
    (ctx : FastCallContext) (xs : List Slot) (ts : List TypeDescriptor) (vs : List ℕ) (i f : ℕ)
    → Agrees xs ts
    → length vs ≡ length xs
    → Holds ctx.ints i (ints_in ts) (int_args xs vs)
    → Holds ctx.floats f (floats_in ts) (float_args xs vs)
    → map (load ctx) (references ts i f) ≡ vs
unfolding references int_args float_args
load-references ctx [] [] [] i f a l hi hf = refl
load-references ctx [] [] (v ∷ vs) i f a l hi hf = absurd (omega arith)
load-references ctx [] (t ∷ ts) vs i f a l hi hf = absurd a
load-references ctx (x ∷ xs) [] vs i f a l hi hf = absurd a
load-references ctx (x ∷ xs) (t ∷ ts) [] i f a l hi hf = absurd (omega arith)
load-references ctx (word ∷ xs) (t ∷ ts) (v ∷ vs) i f a l hi hf =
    load-int ctx t ts v _ _ vs i f a.0 hi hf
      (load-references ctx xs ts vs (suc i) f a.1 (omega arith))
load-references ctx (ref ∷ xs) (t ∷ ts) (v ∷ vs) i f a l hi hf =
    load-int ctx t ts v _ _ vs i f a.0 hi hf
      (load-references ctx xs ts vs (suc i) f a.1 (omega arith))
load-references ctx (float32 ∷ xs) (t ∷ ts) (v ∷ vs) i f a l hi hf =
    load-float ctx t ts v _ _ vs i f a.0 hi hf
      (load-references ctx xs ts vs i (suc f) a.1 (omega arith))
load-references ctx (float64 ∷ xs) (t ∷ ts) (v ∷ vs) i f a l hi hf =
    load-float ctx t ts v _ _ vs i f a.0 hi hf
      (load-references ctx xs ts vs i (suc f) a.1 (omega arith))

get_or-fill : (n : ℕ) (vs : List ℕ) (j : ℕ) → j < n → get_or (fill n vs) j 0 ≡ get_or vs j 0
unfolding fill
get_or-fill zero vs j h = absurd (omega arith)
get_or-fill (suc n) [] zero h = refl
get_or-fill (suc n) [] (suc j) h = get_or-fill n [] j (omega arith)
get_or-fill (suc n) (v ∷ vs) zero h = refl
get_or-fill (suc n) (v ∷ vs) (suc j) h = get_or-fill n vs j (omega arith)

-- The array that a wrapper fills holds its arguments.
fill-Holds : (n k : ℕ) (vs : List ℕ) → k ≤ n → Holds (fill n vs) 0 k vs
fill-Holds n k vs h j lt = rw (zero-add j) (get_or-fill n vs j (omega arith))

-- The references of a wrapper's call find its arguments in the arrays that it filled.
pub load-fill :
    (ctx : FastCallContext) (w : Wrapper) (ts : List TypeDescriptor) (vs : List ℕ)
    → ctx.ints ≡ fill 15 (int_args w.params vs)
    → ctx.floats ≡ fill 8 (float_args w.params vs)
    → Agrees w.params ts
    → length vs ≡ length w.params
    → ints_in ts ≤ 15
    → floats_in ts ≤ 8
    → map (load ctx) (references ts 0 0) ≡ vs
load-fill ctx w ts vs ei ef a lv hi hf =
    load-references ctx w.params ts vs 0 0 a lv (rw ei (fill-Holds 15 (ints_in ts) _ hi))
      (rw ef (fill-Holds 8 (floats_in ts) _ hf))

module _ (call_function : CallFunction) where
  -- A wrapper with one word for each of its parameters, under an interface with a float descriptor for
  -- each float parameter and no other, at most 15 other descriptors and 8 for floats, and a pooled
  -- context that has its 23 pointer slots, runs the C function on exactly its arguments, in the order of
  -- its parameters, whatever the context held before, and on a result buffer that was cleared; no index
  -- leaves an array. The word that the C function makes of them is left in the context, and returned
  -- where the wrapper has a result; the context keeps its pointer slots.
  pub run_wrapper_lem :
      (w : Wrapper) (pooled : FastCallContext) (cif : CallInterface) (cfn : ℕ) (vs : List ℕ)
      → length pooled.args ≡ 23
      → Agrees w.params cif.arg_types
      → length vs ≡ length w.params
      → ints_in cif.arg_types ≤ 15
      → floats_in cif.arg_types ≤ 8
      → (after : FastCallContext) × (run_wrapper call_function w pooled cif cfn vs
          ≡ ok (if w.has_return then some (call_function cif cfn vs 0) else none, after))
        × (length after.args ≡ 23)
        × (after.ret ≡ call_function cif cfn vs 0)
  unfolding run_wrapper fast_call_if
  run_wrapper_lem w pooled cif cfn vs l a lv hi hf =
      let ts = cif.arg_types in
      let is = fill 15 (int_args w.params vs) in
      let fs = fill 8 (float_args w.params vs) in
      let (after, e, q, k) =
        link_args-Linked ts 0 0 0 pooled.args l (omega (arith, length-in ts)) (omega arith)
          (omega arith) in
      let ready : FastCallContext = record { ints = is; floats = fs; args = after; ret = 0 } in
      let seen = load-fill ready w ts vs refl refl a lv hi hf in
      (record ready { ret = call_function cif cfn vs 0 }, rw (e, q, seen), k, refl)
