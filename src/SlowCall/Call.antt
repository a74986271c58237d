-- ===== src/SlowCall/Call.antt =====
-- purego.go, the closure that RegisterFunc makes, after its arguments are packed: the interface of
-- the call, and what ffi.CallFunction is given.
pub mod Agreement
pub mod Interface
pub mod Delivery
mod Tests
use pureffi.Common.{ℕ, Bool, true, false, List, Option, none, some, length, take, if◌then◌else◌}
use pureffi.Go.Values.{Value, Heap}
use pureffi.Go.Outcome.{Outcome, ok, panic, ◌>>=◌}
use pureffi.Goffi.{TypeDescriptor, default_call, Preparation, ordinary, variadic, CallInterface}
use pureffi.Register.{SlowFunc, Prepare, prepared}
use pureffi.SlowCall.{SlowCallContext, Packing, Element, Finished, pack_call}

-- var fixedCif types.CallInterface
abbrev pub zero_interface : CallInterface
zero_interface = record {
  convention = default_call;
  preparation = ordinary;
  ret_type = TypeDescriptor.void;
  arg_types = List.[];
}

-- dynamicCif, by PrepareVariadicCallInterface or by PrepareCallInterface.
abbrev pub dynamic_interface : SlowFunc → List TypeDescriptor → CallInterface
dynamic_interface f actual_arg_types = record {
  convention = f.convention;
  preparation = if f.is_c_variadic then variadic (length f.fixed_arg_types) else ordinary;
  ret_type = f.ret_type;
  arg_types = actual_arg_types;
}

unfoldable pub call_interface : Prepare → SlowFunc → List TypeDescriptor → Outcome CallInterface
call_interface prepare f actual_arg_types =
    if f.signature.is_variadic
    then prepared prepare (dynamic_interface f actual_arg_types)
    else ok (elim f.fixed_cif [ none ↦ zero_interface | some cif ↦ cif ])

-- cif, ctx.ffiArgs[:ffiArgsCount], and the memory that the pointers lead to.
pub record Passed : Type 0 where
  pub cif : CallInterface
  pub pointers : List (Option ℕ)
  pub memory : Heap

unfoldable pub pass : Prepare → SlowFunc → Packing → Outcome Passed
pass prepare f s = call_interface prepare f s.actual_arg_types >>= λ cif.
    ok (record { cif = cif; pointers = take s.ffi_args_count s.ctx.ffi_args; memory = s.memory })

-- The closure up to ffi.CallFunction, less errno and the result buffer, from the fixed arguments and the variadic slice's elements.
unfoldable pub slow_call :
    Prepare
    → (ℕ → ℕ)
    → SlowFunc
    → SlowCallContext
    → Heap
    → List Value
    → List Element
    → Outcome Passed
slow_call prepare new_callback f pooled h fixed elements =
    let done = pack_call new_callback f.fixed_arg_types pooled h fixed elements in
    elim done.failure [ some e ↦ panic e | none ↦ pass prepare f done.packing ]
