-- ===== src/SlowCall/Return/Tests.antt =====
-- Results of concrete calls.
use pureffi.Common.{◌≡◌, ◌≤◌, refl, true, false, List, [], ◌∷◌, none, some, replicate}
use pureffi.Go.Types.{
  literal, defined, uint8, interface, GoType, number, string, bool, struct, other, end, field,
}
use pureffi.Go.Layout.{size, round_up, width, align}
use pureffi.Go.Outcome.{ok, panic, cfn_is_nil}
use pureffi.Register.{result_rules}
use pureffi.CString.{Memory}
use pureffi.SlowCall.Return.{
  return_buffer, text, RegisterFunc, unpack_ret, value, error, Returned, closure_results,
}
use pureffi.SlowCall.Return.Room.{return_buffer-capacity}
use pureffi.SlowCall.Return.Fits.{Fits, closure_results-Fits}

abbrev error_type : GoType
error_type = other (defined "" "error") interface

abbrev no_functions : RegisterFunc
no_functions t cfn = panic cfn_is_nil

abbrev blank : Memory
blank a = 0

-- func(…) (bool, error), with 1 in the buffer and errno 2
closure_results-Fits_example :
    (rs : List Returned) × (closure_results
        (λ t. unpack_ret no_functions 1 blank t (1 ∷ replicate 31 0))
        (bool literal ∷ error_type ∷ [])
        true
        2
      ≡ ok rs)
    × Fits no_functions blank (1 ∷ replicate 31 0) 2 (bool literal ∷ error_type ∷ []) rs
unfolding result_rules
closure_results-Fits_example =
    closure_results-Fits no_functions 1 blank (1 ∷ replicate 31 0) (bool literal ∷ error_type ∷ [])
      true 2 refl tt

-- func(…) error, with errno 0
no_error :
    closure_results (λ t. unpack_ret no_functions 1 blank t []) (error_type ∷ []) true 0
    ≡ ok (error none ∷ [])
unfolding closure_results
no_error = refl

-- func(…) string, with a nil pointer
nil_text :
    closure_results
      (λ t. unpack_ret no_functions 1 blank t (replicate 32 0))
      (string literal ∷ [])
      false
      0
    ≡ ok (value (text (some [])) ∷ [])
unfolding closure_results unpack_ret
nil_text = refl

-- struct { A, B, C byte }
abbrev three_bytes : GoType
three_bytes = struct literal (
    field "A" (number literal uint8)
      (field "B" (number literal uint8) (field "C" (number literal uint8) end)))

return_buffer-capacity_example : 8 ≤ 10
unfolding return_buffer size round_up width align
return_buffer-capacity_example = return_buffer-capacity three_bytes
