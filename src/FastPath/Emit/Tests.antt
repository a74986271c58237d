-- ===== src/FastPath/Emit/Tests.antt =====
-- genfastfunc.go: closures that it writes, on concrete arguments.
use pureffi.Common.{◌+◌, ◌≡◌, refl, true, [], ◌∷◌, arith}
use pureffi.Goffi.{TypeDescriptor, CallInterface, default_call, ordinary}
use pureffi.FastPath.Slots.{fast_ints, interleaved}
use pureffi.FastPath.Call.{CallFunction, new_context, run_wrapper}
use pureffi.FastPath.Emit.{
  a, f1, set_int, set_float, var_ints, var_floats, call_r, keep_alive, return_r, integer_names,
  wrapper_names, assignments, keep_alives, wrapper_body, interleaved_names, interleaved_body,
  run_closure,
}
use pureffi.FastPath.Emit.Bodies.{as_run}
use pureffi.FastPath.Emit.Runs.{by_count, by_position, emitted-Runs}

-- fastInts2F32R
wrapper_body_2_f32 :
    wrapper_body 2 32 true
    ≡ var_ints
      ∷ set_int 0 (a 1)
      ∷ set_int 1 (a 2)
      ∷ var_floats
      ∷ set_float 0 32 f1
      ∷ call_r
      ∷ keep_alive (a 1)
      ∷ keep_alive (a 2)
      ∷ return_r
      ∷ []
unfolding wrapper_body assignments keep_alives
wrapper_body_2_f32 = refl

-- case 3, floatPos 1
interleaved_names_3_1 : interleaved_names 1 0 1 3 ≡ a 1 ∷ f1 ∷ a 2 ∷ []
unfolding interleaved_names
interleaved_names_3_1 = refl

abbrev adds_words : CallFunction
adds_words cif cfn (v ∷ (w ∷ vs)) ret = v + w
adds_words cif cfn _ ret = ret

abbrev three_words : CallInterface
three_words = record {
  convention = default_call;
  preparation = ordinary;
  ret_type = TypeDescriptor.uint64;
  arg_types = TypeDescriptor.pointer ∷ TypeDescriptor.sint64 ∷ TypeDescriptor.float ∷ [];
}

emitted-Runs_example :
    run_closure adds_words
      (wrapper_names 2 32)
      (fast_ints 32 2 1 true).params
      (wrapper_body 2 32 true)
      true
      new_context
      three_words
      4096
      (20 ∷ 22 ∷ 7 ∷ [])
    ≡ as_run (integer_names 0 2) (
        run_wrapper adds_words
          (fast_ints 32 2 1 true)
          new_context
          three_words
          4096
          (20 ∷ 22 ∷ 7 ∷ []))
unfolding fast_ints
emitted-Runs_example =
    emitted-Runs adds_words new_context three_words 4096 (wrapper_names 2 32)
      (wrapper_body 2 32 true) (fast_ints 32 2 1 true) (integer_names 0 2) (20 ∷ 22 ∷ 7 ∷ [])
      (by_count 32 2 1 true refl (omega arith)) refl

-- The closure of case 3, floatPos 1.
interleaved_3_1 :
    run_closure adds_words
      (interleaved_names 1 0 1 3)
      (interleaved 3 1 true).params
      (interleaved_body 3 true)
      true
      new_context
      three_words
      4096
      (20 ∷ 22 ∷ 7 ∷ [])
    ≡ as_run [] (
        run_wrapper adds_words
          (interleaved 3 1 true)
          new_context
          three_words
          4096
          (20 ∷ 22 ∷ 7 ∷ []))
unfolding interleaved
interleaved_3_1 =
    emitted-Runs adds_words new_context three_words 4096 (interleaved_names 1 0 1 3)
      (interleaved_body 3 true) (interleaved 3 1 true) [] (20 ∷ 22 ∷ 7 ∷ [])
      (by_position 3 1 true (omega arith) (omega arith)) refl
