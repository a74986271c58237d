-- ===== src/FastPath/Pool/Tests.antt =====
-- zz_fast_func.go, fastCallIF: two goroutines that call the same function at the same time.
use pureffi.FastPath.Pool.Schedule.{Reached, pick, schedule, started}
use pureffi.Common.{
  replicate, ℕ, suc, ◌+◌, ◌<◌, ◌≡◌, refl, ◌⊎◌, Bool, true, false, none, some, List, [], ◌∷◌, ◌++◌,
  arith,
}
use pureffi.Goffi.{TypeDescriptor, CallInterface, default_call, ordinary}
use pureffi.FastPath.Slots.{Slot, Wrapper, word}
use pureffi.FastPath.Call.{CallFunction, store_reference, load, int_args, float_args, fill}
use pureffi.FastPath.Call.Links.{references, ints_in, floats_in}
use pureffi.FastPath.Pool.{FastCall, wrapper_call, returned, exec, System, Move}
use pureffi.FastPath.Pool.Progress.{Run, none_yet, own, other, fast_call-Returns}
use pureffi.FastPath.Pool.Results.{fast_calls-KeepApart}

-- A function that adds its first two arguments and ignores the rest.
abbrev adds_two : CallFunction
adds_two cif cfn (a ∷ (b ∷ vs)) ret = a + b
adds_two cif cfn _ ret = ret

abbrev adder : Wrapper
adder = record { params = word ∷ Slot.float32 ∷ word ∷ []; has_return = true }

abbrev adder_cif : CallInterface
adder_cif = record {
  convention = default_call;
  preparation = ordinary;
  ret_type = TypeDescriptor.uint64;
  arg_types = TypeDescriptor.sint64 ∷ TypeDescriptor.float ∷ TypeDescriptor.uint64 ∷ [];
}

abbrev small_call : FastCall
small_call = wrapper_call adder adder_cif 4096 (1 ∷ 2 ∷ 3 ∷ [])

abbrev large_call : FastCall
large_call = wrapper_call adder adder_cif 4096 (20 ∷ 22 ∷ 7 ∷ [])

-- A run from a state, with the number of steps of goroutine 1.
record Raced (s : System) : Type 0 where
  steps : ℕ
  last : System
  run : Run adds_two 1 steps s last

race : {s : System} → Raced s → List Bool → Raced s
unfolding pick
race r [] = r
race r (true ∷ ts) = elim (pick adds_two large_call r.last 1 (r.last.goroutines 1) refl) [
  | none ↦ r
  | some (t, m) ↦ race (record { steps = suc r.steps; last = t; run = own r.run m }) ts
]
race r (false ∷ ts) = elim (pick adds_two small_call r.last 0 (r.last.goroutines 0) refl) [
  | none ↦ r
  | some (t, m) ↦
      race (record { steps = r.steps; last = t; run = other 0 (λ e. absurd (omega arith)) r.run m })
        ts
]

-- Goroutine 0 makes a call and leaves its context in the pool; goroutine 1 takes that context, and while
-- it is in the C function goroutine 0 makes another call.
abbrev first : ℕ × FastCall
first = (0, small_call)

abbrev second : ℕ × FastCall
second = (1, large_call)

abbrev both : Reached adds_two
both =
    schedule adds_two (started adds_two)
      (replicate 11 first ++ replicate 8 second ++ replicate 12 first ++ replicate 3 second)

both_result :
    (both.last.goroutines 1 ≡ returned large_call 42)
    × (both.last.goroutines 0 ≡ returned small_call 3)
unfolding schedule exec store_reference load wrapper_call int_args float_args fill
both_result = (refl, refl)

large_call_result : ◌≡◌ {A = ℕ} 42 (adds_two adder_cif 4096 (20 ∷ 22 ∷ 7 ∷ []) 0)
unfolding ints_in floats_in
large_call_result =
    fast_calls-KeepApart adds_two adder adder_cif 4096 (20 ∷ 22 ∷ 7 ∷ []) 1 42 both.reach
      both_result.0 (refl, (refl, (refl, tt))) refl (omega arith) (omega arith)

-- Goroutine 1 has entered its call; goroutine 0 has put one context back.
abbrev waiting : Reached adds_two
waiting = schedule adds_two (started adds_two) (replicate 11 first ++ replicate 1 second)

abbrev finished : Raced waiting.last
finished =
    race (record { steps = 0; last = waiting.last; run = none_yet })
      (true ∷ true ∷ false ∷ true ∷ true ∷ false ∷ true ∷ true ∷ false ∷ true ∷ true ∷ false ∷ true
        ∷ true ∷ [])

fast_call-Returns_example :
    ((finished.steps < 10) × (u : System) × Move adds_two 1 finished.last u)
    ⊎ ((finished.steps ≡ 10) × (finished.last.goroutines 1 ≡ returned large_call 42))
unfolding schedule race exec store_reference load wrapper_call int_args float_args fill references
    ints_in floats_in
fast_call-Returns_example =
    fast_call-Returns adds_two 1 large_call waiting.reach refl (omega arith, omega arith)
      finished.run (omega arith)
