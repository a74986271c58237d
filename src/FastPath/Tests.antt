-- ===== src/FastPath/Tests.antt =====
-- Signatures of fast_path_layout_test.go and fast_path_test.go, and runs at concrete inputs.
use pureffi.Common.{codes, ◌+◌, ◌≡◌, refl, true, false, [], ◌∷◌, none, some, arith, length}
use pureffi.Go.Platform.{Platform, linux, amd64, windows}
use pureffi.Go.Types.{
  Numeric, literal, int, int32, uint, uintptr, float32, float64, uint8, GoType, number, pointer,
  unsafe_pointer, Signature,
}
use pureffi.Go.Outcome.{ok}
use pureffi.Goffi.{TypeDescriptor, CallInterface, default_call, ordinary}
use pureffi.FastPath.Names.{digits, decimal, wrapper_name, emit_wrappers, declared, instantiate}
use pureffi.FastPath.Names.Resolved.{register_fast_func-instantiate}
use pureffi.FastPath.Slots.{Slot, word, ref, type_arguments, fast_ints, interleaved}
use pureffi.FastPath.Dispatch.{
  max_ints, masks, register_fast_func, register_fast_func_interleaved_float32x1,
}
use pureffi.FastPath.Dispatch.Table.{register_fast_func_lem, interleaved_lem}
use pureffi.FastPath.Signature.{report, refused, accepts_results, try_register_fast_path}
use pureffi.FastPath.Signature.Phases.{slot, slots, floats}
use pureffi.FastPath.Shape.{has_wrapper, refs, doubles, ends_in_float}
use pureffi.FastPath.Decision.{try_register_fast_path_lem}
use pureffi.FastPath.Call.{FastCallContext, new_context, CallFunction, run_wrapper}
use pureffi.FastPath.Call.Links.{ints_in, floats_in}
use pureffi.FastPath.Call.Order.{run_wrapper_lem}

abbrev linux_amd64 : Platform
linux_amd64 = record { goos = linux; goarch = amd64 }

abbrev num : Numeric → GoType
num k = number literal k

-- func(*byte, unsafe.Pointer) int32
abbrev pointers : Signature
pointers = record {
  ins = pointer literal (num uint8) ∷ unsafe_pointer literal ∷ [];
  is_variadic = false;
  outs = num int32 ∷ [];
}

-- func(uintptr, float64)
abbrev trailing_float64 : Signature
trailing_float64 = record { ins = num uintptr ∷ num float64 ∷ []; is_variadic = false; outs = [] }

-- func(int32, uintptr)
abbrev narrow : Signature
narrow = record { ins = num int32 ∷ num uintptr ∷ []; is_variadic = false; outs = [] }

-- func(int, float32, uint) uintptr
abbrev interleaved_float : Signature
interleaved_float = record {
  ins = num int ∷ num float32 ∷ num uint ∷ [];
  is_variadic = false;
  outs = num uintptr ∷ [];
}

try_register_fast_path_lem_example :
    try_register_fast_path linux_amd64 pointers
    ≡ report (some (record { params = ref ∷ ref ∷ []; has_return = true }))
unfolding slots slot has_wrapper floats refs doubles ends_in_float accepts_results
try_register_fast_path_lem_example = try_register_fast_path_lem linux_amd64 pointers

accepts_trailing_float64 :
    try_register_fast_path linux_amd64 trailing_float64
    ≡ report (some (record { params = word ∷ Slot.float64 ∷ []; has_return = false }))
unfolding slots slot has_wrapper floats refs doubles ends_in_float accepts_results
accepts_trailing_float64 = try_register_fast_path_lem linux_amd64 trailing_float64

accepts_interleaved :
    try_register_fast_path linux_amd64 interleaved_float
    ≡ report (some (record { params = word ∷ Slot.float32 ∷ word ∷ []; has_return = true }))
unfolding slots slot has_wrapper floats refs doubles ends_in_float accepts_results
accepts_interleaved = try_register_fast_path_lem linux_amd64 interleaved_float

refuses_narrow : try_register_fast_path linux_amd64 narrow ≡ refused
unfolding slots slot has_wrapper floats refs doubles ends_in_float accepts_results
refuses_narrow = try_register_fast_path_lem linux_amd64 narrow

refuses_windows :
    try_register_fast_path (record { goos = windows; goarch = amd64 }) pointers ≡ refused
refuses_windows = try_register_fast_path_lem (record { goos = windows; goarch = amd64 }) pointers

register_fast_func_lem_example :
    register_fast_func 2 1 32 true
    ≡ some (record { params = ref ∷ word ∷ Slot.float32 ∷ []; has_return = true })
unfolding fast_ints max_ints masks
register_fast_func_lem_example = register_fast_func_lem 2 1 32 true

no_seven_pointers : register_fast_func 7 1 0 true ≡ none
unfolding fast_ints max_ints masks
no_seven_pointers = register_fast_func_lem 7 1 0 true

interleaved_lem_example :
    register_fast_func_interleaved_float32x1 3 1 false
    ≡ some (record { params = word ∷ Slot.float32 ∷ word ∷ []; has_return = false })
unfolding interleaved
interleaved_lem_example = interleaved_lem 3 1 false

-- A function that adds its first two arguments and ignores the rest.
abbrev adds : CallFunction
adds cif cfn (a ∷ (b ∷ vs)) ret = a + b
adds cif cfn _ ret = ret

abbrev int_float_uint : CallInterface
int_float_uint = record {
  convention = default_call;
  preparation = ordinary;
  ret_type = TypeDescriptor.uint64;
  arg_types = TypeDescriptor.sint64 ∷ TypeDescriptor.float ∷ TypeDescriptor.uint64 ∷ [];
}

run_wrapper_lem_example :
    (after : FastCallContext) × (run_wrapper adds
        (record { params = word ∷ Slot.float32 ∷ word ∷ []; has_return = true })
        new_context
        int_float_uint
        4096
        (20 ∷ 22 ∷ 7 ∷ [])
      ≡ ok (some 42, after))
    × (length after.args ≡ 23)
    × (after.ret ≡ 42)
unfolding ints_in floats_in
run_wrapper_lem_example =
    run_wrapper_lem adds (record { params = word ∷ Slot.float32 ∷ word ∷ []; has_return = true })
      new_context int_float_uint 4096 (20 ∷ 22 ∷ 7 ∷ []) refl (refl, (refl, (refl, tt))) refl
      (omega arith) (omega arith)

-- fastInts2F32R[unsafe.Pointer, uintptr]
register_fast_func-instantiate_example :
    instantiate (declared (wrapper_name 2 32 true) emit_wrappers) (type_arguments 2 1)
    ≡ some (record { params = ref ∷ word ∷ Slot.float32 ∷ []; has_return = true })
unfolding fast_ints max_ints masks
register_fast_func-instantiate_example =
    register_fast_func-instantiate 2 1 32 true
      (record { params = ref ∷ word ∷ Slot.float32 ∷ []; has_return = true })
      register_fast_func_lem_example

names_it : wrapper_name 12 64 false ≡ codes "fastInts12F64V"
unfolding wrapper_name decimal digits
names_it = refl
