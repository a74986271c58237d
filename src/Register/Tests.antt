-- ===== src/Register/Tests.antt =====
-- Registrations at concrete function types.
use pureffi.Common.{
  ℕ, ◌≡◌, ◌≢◌, refl, false, true, List, [], ◌∷◌, none, some, length, codes, ◌+◌, ◌++◌, replicate,
}
use pureffi.Go.Platform.{Platform, linux, amd64}
use pureffi.Go.Types.{
  literal, int32, uintptr, uint8, number, pointer, string, slice, other, interface, defined,
  Signature,
}
use pureffi.Go.Outcome.{ok}
use pureffi.Goffi.{TypeDescriptor, CallInterface, default_call, ordinary}
use pureffi.FastPath.Slots.{word, ref, Wrapper}
use pureffi.FastPath.Call.{
  FastCallContext, new_context, CallFunction, run_wrapper, store_reference, load, int_args,
  float_args, fill,
}
use pureffi.Register.{
  fast, Prepare, result_rules, marker, guess_c_variadic, fixed_params, return_type, plan, implement,
  implement_fixed, register_signature, arg_types,
}
use pureffi.Descriptor.{go_arg_type_to_ffi_type, go_type_to_ffi_type, numeric_descriptor}
use pureffi.FastPath.Signature.{accepts_results}
use pureffi.FastPath.Signature.Phases.{slots, slot, floats}
use pureffi.FastPath.Shape.{has_wrapper, refs, doubles, ends_in_float}
use pureffi.FastPath.Decision.{try_register_fast_path_lem}
use pureffi.Register.Rules.{register_signature-ne-none}
use pureffi.Register.Delivery.{register_signature-delivers}
use pureffi.Register.Concurrent.{registered_calls-KeepApart}
use pureffi.FastPath.Pool.{FastCall, wrapper_call, returned, exec}
use pureffi.FastPath.Pool.Schedule.{Reached, schedule, started}

abbrev linux_amd64 : Platform
linux_amd64 = record { goos = linux; goarch = amd64 }

-- A function that adds its first two arguments and ignores the rest.
abbrev adds : CallFunction
adds cif cfn (a ∷ (b ∷ vs)) ret = a + b
adds cif cfn _ ret = ret

abbrev any_interface : Prepare
any_interface cif = none

abbrev nameless : ℕ → List ℕ
nameless cfn = []

-- func(*byte, uintptr) int32
abbrev read : Signature
read = record {
  ins = pointer literal (number literal uint8) ∷ number literal uintptr ∷ [];
  is_variadic = false;
  outs = number literal int32 ∷ [];
}

abbrev read_interface : CallInterface
read_interface = record {
  convention = default_call;
  preparation = ordinary;
  ret_type = TypeDescriptor.sint32;
  arg_types = TypeDescriptor.pointer ∷ TypeDescriptor.uint64 ∷ [];
}

abbrev read_wrapper : Wrapper
read_wrapper = record { params = ref ∷ word ∷ []; has_return = true }

registers_read :
    register_signature linux_amd64 any_interface nameless 4096 read
    ≡ ok (some (fast read_wrapper read_interface))
unfolding register_signature result_rules marker fixed_params arg_types return_type plan implement
    implement_fixed go_arg_type_to_ffi_type go_type_to_ffi_type numeric_descriptor slots slot
    has_wrapper floats refs doubles ends_in_float accepts_results
registers_read = rw (try_register_fast_path_lem) refl

register_signature-delivers_example :
    (arg_types read.ins ≡ ok read_interface.arg_types)
    × ((after : FastCallContext) × (run_wrapper adds read_wrapper new_context read_interface 4096
            (20 ∷ 22 ∷ [])
          ≡ ok (some 42, after))
        × (length after.args ≡ 23)
        × (after.ret ≡ 42))
register_signature-delivers_example =
    register_signature-delivers adds linux_amd64 any_interface nameless 4096 read read_wrapper
      read_interface new_context (20 ∷ 22 ∷ []) registers_read refl refl

-- func(string, ...any) error
abbrev print : Signature
print = record {
  ins = string literal ∷ slice literal (other literal interface) ∷ [];
  is_variadic = true;
  outs = other (defined "" "error") interface ∷ [];
}

register_signature-ne-none_example :
    register_signature linux_amd64 any_interface nameless 4096 print ≢ ok none
register_signature-ne-none_example =
    register_signature-ne-none linux_amd64 any_interface nameless 4096 print

print_reports_errno : result_rules print.outs ≡ ok true
unfolding result_rules
print_reports_errno = refl

message_dispatch_is_fixed : guess_c_variadic linux_amd64 (codes "objc_msgSendSuper") ≡ false
unfolding guess_c_variadic
message_dispatch_is_fixed = refl

-- Two goroutines call `read`; the second is in the C function while the first one uses the pool again.
abbrev read_call : ℕ → ℕ → FastCall
read_call a b = wrapper_call read_wrapper read_interface 4096 (a ∷ b ∷ [])

abbrev two_readers : Reached adds
two_readers = schedule adds (started adds) (
    replicate 10 (0, read_call 1 2)
    ++ replicate 7 (1, read_call 20 22)
    ++ replicate 11 (0, read_call 3 4)
    ++ replicate 3 (1, read_call 20 22))

two_readers_returned : two_readers.last.goroutines 1 ≡ returned (read_call 20 22) 42
unfolding schedule exec store_reference load wrapper_call int_args float_args fill
two_readers_returned = refl

registered_calls-KeepApart_example :
    (arg_types read.ins ≡ ok read_interface.arg_types)
    × (42 ≡ adds read_interface 4096 (20 ∷ 22 ∷ []) 0)
registered_calls-KeepApart_example =
    registered_calls-KeepApart adds linux_amd64 any_interface nameless 4096 read read_wrapper
      read_interface (20 ∷ 22 ∷ []) two_readers.last 1 42 registers_read refl two_readers.reach
      two_readers_returned
