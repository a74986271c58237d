-- ===== src/FastPath/Names.antt =====
-- genfastfunc.go, emitWrappers, wrapperName and the parts of emitWrapper and emitDispatch that name a
-- wrapper: the generated functions are declared under names, and the generated switch calls them by name.
pub mod Resolved
use mathlib.Core.Option
use pureffi.Common.{
  ℕ, zero, suc, ◌+◌, ◌/◌, ◌%◌, ◌==◌, ltb, Bool, true, false, ◌&&◌, List, [], ◌∷◌, ◌++◌, Option,
  none, some, length, codes, if◌then◌else◌,
}
use pureffi.FastPath.Slots.{Slot, Wrapper, float_parameter}
use pureffi.FastPath.Dispatch.{max_ints}
use pureffi.InternalStrings.{list_eq}

-- fmt.Sprintf("%d", n), on fuel; a number has fewer digits than itself and one.
unfoldable pub digits : ℕ → ℕ → List ℕ
digits zero n = []
digits (suc fuel) n =
    let rest = digits fuel (n / 10) in
    if ltb n 10 then (48 + n) ∷ [] else rest ++ (48 + n % 10) ∷ []

unfoldable pub decimal : ℕ → List ℕ
decimal n = digits (suc n) n

unfoldable pub wrapper_name : ℕ → ℕ → Bool → List ℕ
wrapper_name n bits ret =
    codes "fastInts"
    ++ decimal n
    ++ (if bits == 0 then [] else codes "F" ++ decimal bits)
    ++ (if ret then codes "R" else codes "V")

-- A generated function: its name, the number of its type parameters, one for each of the closure's first
-- parameters, the float parameter after them, and whether the closure returns a uintptr.
pub record Declaration : Type 0 where
  pub name : List ℕ
  pub type_params : ℕ
  pub last : List Slot
  pub has_return : Bool

unfoldable pub emit_wrapper : ℕ → ℕ → Bool → Declaration
emit_wrapper n bits ret = record {
  name = wrapper_name n bits ret;
  type_params = n;
  last = float_parameter bits;
  has_return = ret;
}

-- for n := first; n < first+count; n++ { for _, ret := range []bool{true, false} }
unfoldable pub emit_counts : ℕ → ℕ → ℕ → List Declaration
emit_counts bits first zero = []
emit_counts bits first (suc count) =
    emit_wrapper first bits true
    ∷ emit_wrapper first bits false
    ∷ emit_counts bits (suc first) count

unfoldable pub emit_wrappers : List Declaration
emit_wrappers =
    emit_counts 0 0 (suc (max_ints 0))
    ++ emit_counts 32 0 (suc (max_ints 32))
    ++ emit_counts 64 0 (suc (max_ints 64))

-- The declarations of a name: Go wants exactly one.
unfoldable pub declared : List ℕ → List Declaration → List Declaration
declared name [] = []
declared name (d ∷ ds) = if list_eq d.name name then d ∷ declared name ds else declared name ds

-- The instantiation of a declared function with type arguments.
unfoldable pub instantiate : List Declaration → List Slot → Option Wrapper
instantiate (d ∷ []) targs =
    if length targs == d.type_params
    then some (record { params = targs ++ d.last; has_return = d.has_return })
    else none
instantiate _ targs = none
