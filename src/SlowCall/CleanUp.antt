-- ===== src/SlowCall/CleanUp.antt =====
-- The context that a call gives back to the pool.
use pureffi.Common.{
  ℕ, Bool, true, false, ltb, if◌then◌else◌, ◌∙◌, zero, suc, ◌≡◌, refl, ap, List, [], ◌∷◌, Option,
  none, some, length, length-set, set, replicate,
}
use pureffi.Go.Values.{Value, Heap, type_of}
use pureffi.Go.Outcome.{Panic, Outcome, ok, panic}
use pureffi.Descriptor.{go_arg_type_to_ffi_type}
use pureffi.Goffi.{TypeDescriptor}
use pureffi.SlowCall.{
  Kept, Packed, SlowCallContext, Packing, Run, ◌then_run◌, store_arg, store_kept, store_packed,
  pack_one, pack_fixed, Element, describe, pack_element, unbox, pack_variadic, clear, clean_up,
  pack_call, pack_arg,
}

-- From position n on, every entry is nil.
abbrev ClearFrom : ℕ → List (Option Kept) → Type 0
ClearFrom n [] = Unit {0}
ClearFrom zero (k ∷ ks) = (k ≡ none) × ClearFrom zero ks
ClearFrom (suc n) (k ∷ ks) = ClearFrom n ks

ClearFrom-set :
    (n : ℕ) (ks : List (Option Kept)) (k : Option Kept)
    → ClearFrom n ks
    → ClearFrom (suc n) (set ks n k)
ClearFrom-set zero [] k h = tt
ClearFrom-set zero (x ∷ ks) k h = h.1
ClearFrom-set (suc n) [] k h = tt
ClearFrom-set (suc n) (x ∷ ks) k h = ClearFrom-set n ks k h

ClearFrom-replicate : (n : ℕ) → ClearFrom 0 (replicate n none)
ClearFrom-replicate zero = tt
ClearFrom-replicate (suc n) = (refl, ClearFrom-replicate n)

clear-ClearFrom :
    (n : ℕ) (ks : List (Option Kept)) → ClearFrom n ks → clear n ks ≡ replicate (length ks) none
unfolding clear
clear-ClearFrom zero [] h = refl
clear-ClearFrom zero (k ∷ ks) h = rw h.0 (ap (λ l. none ∷ l) (clear-ClearFrom zero ks h.1))
clear-ClearFrom (suc n) [] h = refl
clear-ClearFrom (suc n) (k ∷ ks) h = ap (λ l. none ∷ l) (clear-ClearFrom n ks h)

-- keepAliveCount entries are in use, and no others.
record Tracks (r : Run) : Type 0 where
  sized : length r.0.ctx.keep_alive ≡ 32
  unused : ClearFrom r.0.keep_alive_count r.0.ctx.keep_alive

then_run-Tracks :
    (r : Run) (k : Packing → Run)
    → Tracks r
    → ((s : Packing) → Tracks (s, none) → Tracks (k s))
    → Tracks (r then_run k)
then_run-Tracks (s, none) k h next = next s h
then_run-Tracks (s, some e) k h next = record { sized = h.sized; unused = h.unused }

-- Another way to end, with the same variables.
Tracks-ending : (s : Packing) (e e' : Option Panic) → Tracks (s, e) → Tracks (s, e')
Tracks-ending s e e' h = record { sized = h.sized; unused = h.unused }

Tracks-if : (b : Bool) (x y : Run) → Tracks x → Tracks y → Tracks (if b then x else y)
Tracks-if true x y hx hy = hx
Tracks-if false x y hx hy = hy

store_arg-Tracks : (ptr : ℕ) (s : Packing) → Tracks (s, none) → Tracks (store_arg ptr s)
unfolding store_arg
store_arg-Tracks ptr s h =
    Tracks-if (ltb s.ffi_args_count 32) _ _ (record { sized = h.sized; unused = h.unused })
      (record { sized = h.sized; unused = h.unused })

store_kept-Tracks : (kept : Kept) (s : Packing) → Tracks (s, none) → Tracks (store_kept kept s)
unfolding store_kept
store_kept-Tracks kept s h =
    Tracks-if (ltb s.keep_alive_count 32) _ _
      (record {
        sized = length-set s.ctx.keep_alive s.keep_alive_count (some kept) ∙ h.sized;
        unused = ClearFrom-set s.keep_alive_count s.ctx.keep_alive (some kept) h.unused;
      })
      (record { sized = h.sized; unused = h.unused })

store_packed-Tracks :
    (s : Packing) (o : Outcome Packed) → Tracks (s, none) → Tracks (store_packed s o)
unfolding store_packed
store_packed-Tracks s (panic e) h = Tracks-ending s none (some e) h
store_packed-Tracks s (ok p) h =
    then_run-Tracks (store_arg p.ptr (record s { memory = p.heap })) (store_kept p.kept)
      (store_arg-Tracks p.ptr _ (record { sized = h.sized; unused = h.unused }))
      (store_kept-Tracks p.kept)

pack_one-Tracks :
    (new_callback : ℕ → ℕ) (v : Value) (s : Packing)
    → Tracks (s, none)
    → Tracks (pack_one new_callback v s)
unfolding pack_one
pack_one-Tracks new_callback v s h = store_packed-Tracks s (pack_arg new_callback v s.memory) h

pack_fixed-Tracks :
    (new_callback : ℕ → ℕ) (vs : List Value) (s : Packing)
    → Tracks (s, none)
    → Tracks (pack_fixed new_callback vs s)
unfolding pack_fixed
pack_fixed-Tracks new_callback [] s h = h
pack_fixed-Tracks new_callback (v ∷ vs) s h =
    then_run-Tracks (pack_one new_callback v s) (pack_fixed new_callback vs)
      (pack_one-Tracks new_callback v s h) (pack_fixed-Tracks new_callback vs)

describe-Tracks :
    (o : Outcome TypeDescriptor) (s : Packing) → Tracks (s, none) → Tracks (describe o s)
unfolding describe
describe-Tracks (panic e) s h = Tracks-ending s none (some e) h
describe-Tracks (ok d) s h = record { sized = h.sized; unused = h.unused }

pack_element-Tracks :
    (new_callback : ℕ → ℕ) (o : Outcome Value) (s : Packing)
    → Tracks (s, none)
    → Tracks (pack_element new_callback o s)
unfolding pack_element
pack_element-Tracks new_callback (panic e) s h = Tracks-ending s none (some e) h
pack_element-Tracks new_callback (ok v) s h =
    then_run-Tracks (describe (go_arg_type_to_ffi_type (type_of v)) s) (pack_one new_callback v)
      (describe-Tracks (go_arg_type_to_ffi_type (type_of v)) s h) (pack_one-Tracks new_callback v)

pack_variadic-Tracks :
    (new_callback : ℕ → ℕ) (es : List Element) (s : Packing)
    → Tracks (s, none)
    → Tracks (pack_variadic new_callback es s)
unfolding pack_variadic
pack_variadic-Tracks new_callback [] s h = h
pack_variadic-Tracks new_callback (e ∷ es) s h =
    then_run-Tracks (pack_element new_callback (unbox e) s) (pack_variadic new_callback es)
      (pack_element-Tracks new_callback (unbox e) s h) (pack_variadic-Tracks new_callback es)

clean_up-Tracks : (r : Run) → Tracks r → (clean_up r).returned.keep_alive ≡ replicate 32 none
unfolding clean_up
clean_up-Tracks (s, e) h =
    clear-ClearFrom s.keep_alive_count s.ctx.keep_alive h.unused
    ∙ ap (λ n. replicate n none) h.sized

-- A context that was taken from the pool with all its keepAlive entries nil goes back to it with all
-- of them nil, however packing the arguments ended: on success, after an unsupported argument, a nil
-- interface among the variadic ones, or more than 32 arguments.
pub pack_call-clears :
    (new_callback : ℕ → ℕ) (fixed_arg_types : List TypeDescriptor) (pooled : SlowCallContext)
    (h : Heap) (fixed : List Value) (variadic : List Element)
    → pooled.keep_alive ≡ replicate 32 none
    → (pack_call new_callback fixed_arg_types pooled h fixed variadic).returned.keep_alive
      ≡ replicate 32 none
unfolding pack_call
pack_call-clears new_callback fixed_arg_types pooled h fixed variadic e = clean_up-Tracks _ (
    then_run-Tracks (pack_fixed new_callback fixed _) (pack_variadic new_callback variadic)
      (pack_fixed-Tracks new_callback fixed _
        (record { sized = rw e refl; unused = rw e (ClearFrom-replicate 32) }))
      (pack_variadic-Tracks new_callback variadic))
