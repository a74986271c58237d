-- ===== src/FastPath/Emit.antt =====
-- genfastfunc.go, emitWrapper and the template of emitInterleavedFloat32x1: the closures that the
-- generator writes, statement by statement, and what Go does with such a closure.
pub mod Filling
pub mod Named
pub mod Counts
pub mod Params
pub mod Bodies
pub mod Runs
mod Tests
use pureffi.Common.{
  ℕ, zero, suc, ◌-◌, ◌==◌, ltb, Bool, true, false, List, [], ◌∷◌, ◌++◌, Option, none, some,
  if◌then◌else◌, replicate, set, length,
}
use pureffi.Go.Outcome.{Panic, Outcome, ok, panic}
use pureffi.Goffi.{CallInterface}
use pureffi.FastPath.Slots.{Slot, word, ref, float32, float64}
use pureffi.FastPath.Call.{FastCallContext, CallFunction, fast_call_if}

-- The parameters a1, a2, … and f1 of a closure.
pub data Parameter : Type 0 where
  a : ℕ → Parameter
  f1 : Parameter

pub data Statement : Type 0 where
  -- var ints [15]uintptr
  var_ints : Statement
  -- var floats [8]uintptr
  var_floats : Statement
  -- ints[i] = uintptr(p)
  set_int : ℕ → Parameter → Statement
  -- ints[i] = p
  set_word : ℕ → Parameter → Statement
  -- floats[i] = uintptr(math.Float{bits}bits(p))
  set_float : ℕ → ℕ → Parameter → Statement
  -- r := fastCallIF(cif, cfn, ints, floats)
  call_r : Statement
  -- fastCallIF(cif, cfn, ints, floats)
  call_only : Statement
  -- return fastCallIF(cif, cfn, ints, floats)
  return_call : Statement
  -- runtime.KeepAlive(p)
  keep_alive : Parameter → Statement
  -- return r
  return_r : Statement

-- a{i+1}, …, a{i+n}
unfoldable pub integer_names : ℕ → ℕ → List Parameter
integer_names i zero = []
integer_names i (suc n) = a (suc i) ∷ integer_names (suc i) n

-- params of emitWrapper, by name
unfoldable pub wrapper_names : ℕ → ℕ → List Parameter
wrapper_names n bits = integer_names 0 n ++ (if bits == 0 then [] else f1 ∷ [])

-- A loop that writes one assignment for each of the elements i to i+n-1.
unfoldable pub assignments : (ℕ → Parameter → Statement) → ℕ → ℕ → List Statement
assignments make i zero = []
assignments make i (suc n) = make i (a (suc i)) ∷ assignments make (suc i) n

unfoldable pub keep_alives : ℕ → ℕ → List Statement
keep_alives i zero = []
keep_alives i (suc n) = keep_alive (a (suc i)) ∷ keep_alives (suc i) n

-- The body of `impl` in emitWrapper.
unfoldable pub wrapper_body : ℕ → ℕ → Bool → List Statement
wrapper_body n bits ret =
    var_ints
    ∷ (assignments set_int 0 n
        ++ (var_floats
            ∷ ((if bits == 0 then [] else set_float 0 bits f1 ∷ [])
                ++ ((if ret then call_r else call_only)
                    ∷ (keep_alives 0 n ++ (if ret then return_r ∷ [] else []))))))

-- The loop over i in emitInterleavedFloat32x1, for `left` positions from i on, with intIdx.
unfoldable pub interleaved_names : ℕ → ℕ → ℕ → ℕ → List Parameter
interleaved_names float_pos i int_idx zero = []
interleaved_names float_pos i int_idx (suc left) =
    if i == float_pos
    then f1 ∷ interleaved_names float_pos (suc i) int_idx left
    else a int_idx ∷ interleaved_names float_pos (suc i) (suc int_idx) left

-- The body of `impl` in tmplInterleavedFloat; NumInts is totalArgs - 1.
unfoldable pub interleaved_body : ℕ → Bool → List Statement
interleaved_body total_args ret =
    var_ints
    ∷ (assignments set_word 0 (total_args - 1)
        ++ (var_floats ∷ (set_float 0 32 f1 ∷ ((if ret then return_call else call_only) ∷ []))))

unfoldable pub same_name : Parameter → Parameter → Bool
same_name (a i) (a j) = i == j
same_name f1 f1 = true
same_name (a i) f1 = false
same_name f1 (a j) = false

-- The type and the word of a parameter, if the closure has it.
unfoldable pub lookup : List Parameter → List Slot → List ℕ → Parameter → Option (Slot × ℕ)
lookup (q ∷ ns) (s ∷ ss) (v ∷ vs) p = if same_name p q then some (s, v) else lookup ns ss vs p
lookup _ _ _ p = none

-- uintptr(p), p as a uintptr, and uintptr(math.Float{bits}bits(p)): none where Go rejects the type.
unfoldable pub as_int : Option (Slot × ℕ) → Option ℕ
as_int (some (word, v)) = some v
as_int (some (ref, v)) = some v
as_int _ = none

unfoldable pub as_word : Option (Slot × ℕ) → Option ℕ
as_word (some (word, v)) = some v
as_word _ = none

unfoldable pub as_float : ℕ → Option (Slot × ℕ) → Option ℕ
as_float bits (some (float32, v)) = if bits == 32 then some v else none
as_float bits (some (float64, v)) = if bits == 64 then some v else none
as_float bits _ = none

-- array[i] = v: none where the array is not declared, or Go rejects the index or the value.
unfoldable pub assign : Option (List ℕ) → ℕ → Option ℕ → Option (List ℕ)
assign (some array) i (some v) = if ltb i (length array) then some (set array i v) else none
assign _ i _ = none

-- The local variables, the pooled context, and the parameters kept alive since the call.
pub record Frame : Type 0 where
  pub ints : Option (List ℕ)
  pub floats : Option (List ℕ)
  pub r : Option ℕ
  pub context : FastCallContext
  pub kept : List Parameter

abbrev pub first_frame : FastCallContext → Frame
first_frame pooled = record { ints = none; floats = none; r = none; context = pooled; kept = [] }

-- What running a closure comes to; Go does not compile one that is rejected.
pub data Run : Type 0 where
  returned : Option ℕ → FastCallContext → List Parameter → Run
  panicked : Panic → Run
  rejected : Run

-- After a call of fastCallIF, which returns or panics; none where an array is not declared.
unfoldable pub after_call :
    Option (Outcome (ℕ × FastCallContext)) → (ℕ → FastCallContext → Run) → Run
after_call none next = rejected
after_call (some (panic e)) next = panicked e
after_call (some (ok (v, ctx))) next = next v ctx

module _ (call_function : CallFunction) (cif : CallInterface) (cfn : ℕ)
    (value : Parameter → Option (Slot × ℕ)) where
  unfoldable pub call_with : Frame → Option (Outcome (ℕ × FastCallContext))
  call_with f = elim f.ints [
    | none ↦ none
    | some ints ↦ elim f.floats [
      | none ↦ none
      | some floats ↦ some (fast_call_if call_function f.context cif cfn ints floats)
    ]
  ]

  -- A closure with a result must return one, and one without must not. A call starts the list of
  -- what is kept alive anew.
  unfoldable pub exec : Bool → List Statement → Frame → Run
  exec ret [] f = if ret then rejected else returned none f.context f.kept
  exec ret (var_ints ∷ ss) f = exec ret ss (record f { ints = some (replicate 15 0) })
  exec ret (var_floats ∷ ss) f = exec ret ss (record f { floats = some (replicate 8 0) })
  exec ret (set_int i p ∷ ss) f = elim (assign f.ints i (as_int (value p))) [
    | none ↦ rejected
    | some ints ↦ exec ret ss (record f { ints = some ints })
  ]
  exec ret (set_word i p ∷ ss) f = elim (assign f.ints i (as_word (value p))) [
    | none ↦ rejected
    | some ints ↦ exec ret ss (record f { ints = some ints })
  ]
  exec ret (set_float i bits p ∷ ss) f = elim (assign f.floats i (as_float bits (value p))) [
    | none ↦ rejected
    | some floats ↦ exec ret ss (record f { floats = some floats })
  ]
  exec ret (call_r ∷ ss) f =
      after_call (call_with f)
        (λ v ctx. exec ret ss (record f { r = some v; context = ctx; kept = [] }))
  exec ret (call_only ∷ ss) f =
      after_call (call_with f) (λ v ctx. exec ret ss (record f { context = ctx; kept = [] }))
  exec ret (return_call ∷ ss) f =
      after_call (call_with f) (λ v ctx. if ret then returned (some v) ctx [] else rejected)
  exec ret (keep_alive p ∷ ss) f = elim (value p) [
    | none ↦ rejected
    | some _ ↦ exec ret ss (record f { kept = f.kept ++ p ∷ [] })
  ]
  exec ret (return_r ∷ ss) f = elim f.r [
    | none ↦ rejected
    | some v ↦ if ret then returned (some v) f.context f.kept else rejected
  ]

-- A call of a closure with the given parameters and body.
unfoldable pub run_closure :
    CallFunction
    → List Parameter
    → List Slot
    → List Statement
    → Bool
    → FastCallContext
    → CallInterface
    → ℕ
    → List ℕ
    → Run
run_closure call_function names slots body ret pooled cif cfn vs =
    exec call_function cif cfn (lookup names slots vs) ret body (first_frame pooled)
