-- ===== src/FastPath/Slots.antt =====
-- The generated wrapper functions: their parameter types, one slot for each parameter.
use pureffi.Common.{ℕ, zero, suc, ◌/◌, ◌%◌, ◌==◌, Bool, List, [], ◌∷◌, ◌++◌, if◌then◌else◌}

-- A parameter of a wrapper: `uintptr`, `unsafe.Pointer`, `float32` or `float64`.
pub data Slot : Type 0 where
  word ref float32 float64 : Slot

-- The function that forceFuncPtr installs: the types of its parameters, and whether it returns a
-- uintptr.
pub record Wrapper : Type 0 where
  pub params : List Slot
  pub has_return : Bool

-- The type arguments of one instantiation: argument i is a pointer where bit i of the mask is set.
unfoldable pub type_arguments : ℕ → ℕ → List Slot
type_arguments zero mask = []
type_arguments (suc n) mask = (if mask % 2 == 1 then ref else word) ∷ type_arguments n (mask / 2)

-- The parameter f1 of a wrapper for a trailing float: none for 0 bits.
unfoldable pub float_parameter : ℕ → List Slot
float_parameter bits = if bits == 32 then float32 ∷ [] else if bits == 64 then float64 ∷ [] else []

-- fastInts{n}{F bits}{R|V}[type arguments]
unfoldable pub fast_ints : ℕ → ℕ → ℕ → Bool → Wrapper
unfolding type_arguments float_parameter
fast_ints bits n mask ret = record {
  params = type_arguments n mask ++ float_parameter bits;
  has_return = ret;
}

-- The parameters of an interleaved wrapper: a float32 at one position, a uintptr at the others,
-- for `left` positions from position i on.
unfoldable pub interleaved_params : ℕ → ℕ → ℕ → List Slot
interleaved_params float_pos i zero = []
interleaved_params float_pos i (suc left) =
    (if i == float_pos then float32 else word) ∷ interleaved_params float_pos (suc i) left

unfoldable pub interleaved : ℕ → ℕ → Bool → Wrapper
unfolding interleaved_params
interleaved total_args float_pos ret = record {
  params = interleaved_params float_pos 0 total_args;
  has_return = ret;
}
