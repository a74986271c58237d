-- ===== src/FastPath/Dispatch.antt =====
-- genfastfunc.go, emitDispatch and emitInterleavedFloat32x1, and the switch statements that they
-- write: registerFastFunc and registerFastFuncInterleavedFloat32x1 of zz_fast_func.go.
pub mod Table
use mathlib.Core.Option
use pureffi.Common.{
  ℕ, zero, suc, ◌+◌, ◌-◌, ◌^◌, ◌==◌, leb, Bool, List, [], ◌∷◌, Option, none, some, if◌then◌else◌,
}
use pureffi.FastPath.Slots.{Wrapper, fast_ints, interleaved}

-- The cases of a Go switch on an integer, in the order in which they are written.
abbrev pub Cases : Type 0 → Type 0
Cases A = List (ℕ × A)

module _ {A : Type 0} where
  -- Runs the case of a value; a value with no case falls out of the switch.
  unfoldable pub switch : ℕ → Cases A → Option A
  switch value [] = none
  switch value ((key, body) ∷ cases) = if key == value then some body else switch value cases

  -- for key := first; key < first+count; key++ { the case of key }
  unfoldable pub emit_cases : ℕ → ℕ → (ℕ → A) → Cases A
  emit_cases first zero body = []
  emit_cases first (suc count) body = (first, body first) ∷ emit_cases (suc first) count body

abbrev pub max_pointer_mask_args : ℕ
max_pointer_mask_args = 6

-- The largest count of integer arguments for a float width.
unfoldable pub max_ints : ℕ → ℕ
max_ints bits = if bits == 0 then 15 else 14

-- The number of pointer masks that get an instantiation for n integer arguments.
unfoldable pub masks : ℕ → ℕ
masks n = if leb n max_pointer_mask_args then 2 ^ n else 1

abbrev MaskSwitch : Type 0
MaskSwitch = Cases (Bool → Wrapper)

emit_mask_switch : ℕ → ℕ → MaskSwitch
emit_mask_switch bits n = emit_cases 0 (masks n) (λ mask. fast_ints bits n mask)

emit_int_switch : ℕ → Cases MaskSwitch
emit_int_switch bits = emit_cases 0 (suc (max_ints bits)) (emit_mask_switch bits)

emit_dispatch : Cases (Cases MaskSwitch)
emit_dispatch = (0, emit_int_switch 0) ∷ (32, emit_int_switch 32) ∷ (64, emit_int_switch 64) ∷ []

-- The wrapper that registerFastFunc installs; `none` where it reports false.
pub register_fast_func : ℕ → ℕ → ℕ → Bool → Option Wrapper
register_fast_func num_ints ptr_mask float_bits has_return =
    Option.bind (switch float_bits emit_dispatch) λ by_ints.
      Option.bind (switch num_ints by_ints)
        λ by_mask. Option.map (λ wrapper. wrapper has_return) (switch ptr_mask by_mask)

-- for totalArgs := 2; totalArgs <= 15, and for floatPos := 0; floatPos <= totalArgs-2
emit_interleaved_float32x1 : Cases (Cases (Bool → Wrapper))
emit_interleaved_float32x1 =
    emit_cases 2 14 λ total_args. emit_cases 0 (total_args - 1) (λ pos. interleaved total_args pos)

-- The wrapper that is installed; `none` where no case matches and `fn` keeps its value.
pub register_fast_func_interleaved_float32x1 : ℕ → ℕ → Bool → Option Wrapper
register_fast_func_interleaved_float32x1 total_args float_pos has_return =
    Option.bind (switch total_args emit_interleaved_float32x1)
      λ by_pos. Option.map (λ wrapper. wrapper has_return) (switch float_pos by_pos)
