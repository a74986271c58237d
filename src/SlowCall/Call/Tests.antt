-- ===== src/SlowCall/Call/Tests.antt =====
-- A call of printf through the closure.
use pureffi.Common.{
  ℕ, ◌+◌, ◌≡◌, refl, arith, true, false, List, [], ◌∷◌, ◌++◌, map, none, some, codes,
}
use pureffi.Go.Platform.{Platform, linux, amd64}
use pureffi.Go.Types.{literal, int32, float64, interface, GoType, Signature}
use pureffi.Go.Values.{Value, number, string, type_of}
use pureffi.Go.Outcome.{ok}
use pureffi.Goffi.{TypeDescriptor}
use pureffi.Descriptor.{go_arg_type_to_ffi_type, go_type_to_ffi_type, numeric_descriptor}
use pureffi.Register.{
  slow, SlowFunc, Prepare, result_rules, marker, guess_c_variadic, fixed_params, arg_types,
  return_type, plan, implement, register_signature,
}
use pureffi.SlowCall.{new_context, Element, boxed, ends_in_nul}
use pureffi.SlowCall.Pack.{AllEncoded}
use pureffi.SlowCall.Call.{Passed, slow_call}
use pureffi.SlowCall.Call.Agreement.{Arguments}
use pureffi.SlowCall.Call.Delivery.{slow_call-delivers}
use pureffi.SlowCall.Call.Interface.{IsInterface}

abbrev linux_amd64 : Platform
linux_amd64 = record { goos = linux; goarch = amd64 }

abbrev any_interface : Prepare
any_interface cif = none

abbrev nameless : ℕ → List ℕ
nameless cfn = []

abbrev callbacks_at : ℕ → ℕ
callbacks_at f = f + 4096

-- func(string, ...any) int32
abbrev printf : Signature
printf = record {
  ins = GoType.string literal ∷ GoType.slice literal (GoType.other literal interface) ∷ [];
  is_variadic = true;
  outs = GoType.number literal int32 ∷ [];
}

abbrev printf_closure : SlowFunc
printf_closure =
    plan linux_amd64 nameless 4096 printf false (TypeDescriptor.pointer ∷ []) TypeDescriptor.sint32

registers_printf :
    register_signature linux_amd64 any_interface nameless 4096 printf
    ≡ ok (some (slow printf_closure))
unfolding register_signature result_rules marker guess_c_variadic fixed_params arg_types return_type
    plan implement go_arg_type_to_ffi_type go_type_to_ffi_type numeric_descriptor
registers_printf = refl

-- printf("%d %g", int32(7), 2.5)
abbrev format : List Value
format = string literal 0 (codes "%d %g") ∷ []

abbrev tail : List Value
tail = number literal int32 7 ∷ number literal float64 4612811918334230528 ∷ []

abbrev boxed_tail : List Element
boxed_tail =
    boxed (some (number literal int32 7))
    ∷ boxed (some (number literal float64 4612811918334230528))
    ∷ []

printf-Arguments :
    Arguments printf [] format boxed_tail tail (TypeDescriptor.sint32 ∷ TypeDescriptor.double ∷ [])
unfolding marker fixed_params arg_types go_arg_type_to_ffi_type go_type_to_ffi_type
    numeric_descriptor ends_in_nul
printf-Arguments = record {
  typed = refl;
  held = (refl, (refl, tt));
  described = refl;
  count = omega arith;
  fixed_packable = (refl, λ e. absurd (ground arith), tt);
  rest_packable = (refl, tt, (refl, tt, tt));
  no_rest = λ e. absurd (ground arith);
}

slow_call-delivers_example :
    (passed : Passed) × (slow_call any_interface callbacks_at printf_closure new_context [] format
        boxed_tail
      ≡ ok passed)
    × AllEncoded callbacks_at passed.memory passed.pointers (format ++ tail)
    × IsInterface linux_amd64 nameless 4096 printf 1 (map type_of (format ++ tail)) passed.cif
slow_call-delivers_example =
    slow_call-delivers linux_amd64 any_interface nameless 4096 printf printf_closure callbacks_at
      new_context [] format boxed_tail tail (TypeDescriptor.sint32 ∷ TypeDescriptor.double ∷ [])
      registers_printf (λ c i. refl) refl printf-Arguments
