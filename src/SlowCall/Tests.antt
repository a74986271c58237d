-- ===== src/SlowCall/Tests.antt =====
-- Packing of concrete arguments.
use pureffi.Common.{ℕ, ◌+◌, ◌≡◌, refl, arith, [], ◌∷◌, none, some, replicate, codes}
use pureffi.Go.Types.{literal, int32, float64}
use pureffi.Go.Values.{Value, number, string}
use pureffi.Go.Outcome.{index_out_of_range, zero_value}
use pureffi.Goffi.{TypeDescriptor}
use pureffi.Descriptor.{go_arg_type_to_ffi_type, go_type_to_ffi_type, numeric_descriptor}
use pureffi.Register.{arg_types}
use pureffi.SlowCall.{
  ends_in_nul, new_context, boxed, plain, pack_arg, store_arg, store_kept, store_packed, pack_one,
  pack_fixed, pack_element, pack_variadic, clean_up, pack_call,
}
use pureffi.SlowCall.CleanUp.{pack_call-clears}
use pureffi.SlowCall.Arguments.{PacksAll, pack_call-PacksAll}

abbrev callbacks_at : ℕ → ℕ
callbacks_at f = f + 4096

-- printf("%d %g", int32(7), 2.5)
abbrev format : Value
format = string literal 0 (codes "%d %g")

abbrev seven : Value
seven = number literal int32 7

abbrev half : Value
half = number literal float64 4612811918334230528

pack_call-PacksAll_example :
    PacksAll callbacks_at
      (TypeDescriptor.pointer ∷ TypeDescriptor.sint32 ∷ TypeDescriptor.double ∷ [])
      []
      (format ∷ seven ∷ half ∷ [])
      (pack_call callbacks_at
        (TypeDescriptor.pointer ∷ [])
        new_context
        []
        (format ∷ [])
        (boxed (some seven) ∷ plain half ∷ []))
unfolding arg_types go_arg_type_to_ffi_type go_type_to_ffi_type numeric_descriptor ends_in_nul
pack_call-PacksAll_example =
    pack_call-PacksAll callbacks_at (TypeDescriptor.pointer ∷ [])
      (TypeDescriptor.sint32 ∷ TypeDescriptor.double ∷ []) new_context [] (format ∷ [])
      (boxed (some seven) ∷ plain half ∷ []) (seven ∷ half ∷ []) refl (omega arith)
      (refl, (refl, tt)) refl (refl, λ e. absurd (ground arith), tt) (refl, tt, (refl, tt, tt))

-- printf("%d %g", nil)
pack_call-clears_example :
    (pack_call callbacks_at
      (TypeDescriptor.pointer ∷ [])
      new_context
      []
      (format ∷ [])
      (boxed none ∷ [])).returned.keep_alive
    ≡ replicate 32 none
pack_call-clears_example =
    pack_call-clears callbacks_at (TypeDescriptor.pointer ∷ []) new_context [] (format ∷ [])
      (boxed none ∷ []) refl

nil_in_the_tail :
    (pack_call callbacks_at
      (TypeDescriptor.pointer ∷ [])
      new_context
      []
      (format ∷ [])
      (boxed none ∷ [])).failure
    ≡ some zero_value
unfolding pack_call clean_up pack_fixed pack_one store_packed pack_arg ends_in_nul store_arg
    store_kept pack_variadic pack_element
nil_in_the_tail = refl

too_many :
    (pack_call callbacks_at [] new_context [] (replicate 33 seven) []).failure
    ≡ some index_out_of_range
unfolding pack_call clean_up pack_fixed pack_one store_packed pack_arg store_arg store_kept
    pack_variadic
too_many = refl
