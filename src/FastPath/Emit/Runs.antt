-- ===== src/FastPath/Emit/Runs.antt =====
-- genfastfunc.go, emitWrapper and tmplInterleavedFloat: what the closures that are written do.
use pureffi.Common.{
  ℕ, ◌-◌, ◌≤◌, ◌<◌, ◌==◌, ◌≡◌, refl, ◌∙◌, Bool, true, false, List, [], ◌++◌, some, arith, length,
  inl, inr, ◌⊎◌,
}
use pureffi.Goffi.{CallInterface}
use pureffi.FastPath.Slots.{
  Wrapper, type_arguments, float_parameter, fast_ints, interleaved, interleaved_params,
}
use pureffi.FastPath.Dispatch.Table.{is_float_width}
use pureffi.FastPath.Call.{FastCallContext, CallFunction, int_args, fill, run_wrapper}
use pureffi.FastPath.Emit.{
  Parameter, Statement, set_int, set_word, integer_names, wrapper_names, wrapper_body,
  interleaved_names, interleaved_body, lookup, as_int, as_word, first_frame, run_closure,
}
use pureffi.FastPath.Emit.Filling.{set_int-Assigns, set_word-Assigns}
use pureffi.FastPath.Emit.Params.{wrapper-AreParams, interleaved-AreParams, floats_of-wrapper}
use pureffi.FastPath.Emit.Counts.{length-int_args, floats_of}
use pureffi.FastPath.Emit.Bodies.{
  as_run, named, exec-ints, exec-one_float, exec-width, exec-wrapper_end, exec-interleaved_end,
}

width-floats :
    (bits n mask : ℕ)
    → (bits ≡ 0) ⊎ (bits ≡ 32) ⊎ (bits ≡ 64)
    → let ss = type_arguments n mask ++ float_parameter bits in
      ((bits ≡ 0) × (floats_of ss ≡ 0)) ⊎ (((bits == 0) ≡ false) × (floats_of ss ≡ 1))
unfolding float_parameter floats_of
width-floats bits n mask (inl e) = inl (e, floats_of-wrapper n mask bits ∙ rw e refl)
width-floats bits n mask (inr (inl e)) = inr (rw e refl, floats_of-wrapper n mask bits ∙ rw e refl)
width-floats bits n mask (inr (inr e)) = inr (rw e refl, floats_of-wrapper n mask bits ∙ rw e refl)

width-cases : (bits : ℕ) → is_float_width bits ≡ true → (bits ≡ 0) ⊎ (bits ≡ 32) ⊎ (bits ≡ 64)
width-cases bits h = ground arith

-- A closure that the generator writes, by its parameters and its body, the wrapper that it is written
-- for, and its parameters that can be pointers.
pub data IsEmitted : List Parameter → List Statement → Wrapper → List Parameter → Type 0 where
  by_count :
      (bits n mask : ℕ) (ret : Bool)
      → is_float_width bits ≡ true
      → n ≤ 15
      → IsEmitted
          (wrapper_names n bits)
          (wrapper_body n bits ret)
          (fast_ints bits n mask ret)
          (integer_names 0 n)
  by_position :
      (total_args float_pos : ℕ) (ret : Bool)
      → float_pos < total_args
      → total_args ≤ 15
      → IsEmitted
          (interleaved_names float_pos 0 1 total_args)
          (interleaved_body total_args ret)
          (interleaved total_args float_pos ret)
          []

module _ (call_function : CallFunction) (pooled : FastCallContext) (cif : CallInterface)
    (cfn : ℕ) where
  -- A closure of emitWrapper.
  wrapper_body-Runs :
      (bits n mask : ℕ) (ret : Bool) (vs : List ℕ)
      → is_float_width bits ≡ true
      → n ≤ 15
      → length vs ≡ length (fast_ints bits n mask ret).params
      → run_closure call_function
          (wrapper_names n bits)
          (fast_ints bits n mask ret).params
          (wrapper_body n bits ret)
          ret
          pooled
          cif
          cfn
          vs
        ≡ as_run
            (integer_names 0 n)
            (run_wrapper call_function (fast_ints bits n mask ret) pooled cif cfn vs)
  unfolding run_closure wrapper_body fast_ints run_wrapper
  wrapper_body-Runs bits n mask ret vs h small l =
      let cases = width-cases bits h in
      let ns = wrapper_names n bits in
      let ss = type_arguments n mask ++ float_parameter bits in
      let are = wrapper-AreParams bits n mask cases in
      let value = lookup ns ss vs in
      let f = first_frame pooled in
      exec-ints call_function cif cfn ret as_int bits n ns ss vs are l f set_int _ small
        (set_int-Assigns call_function cif cfn value ret f)
      ∙ exec-width call_function cif cfn ret as_int bits n ns ss vs are l
          (record f { ints = some (fill 15 (int_args ss vs)) }) _ (width-floats bits n mask cases)
      ∙ exec-wrapper_end call_function cif cfn value f _ _ ret (int_args ss vs) n
          (length-int_args ss vs l ∙ are.ints)
          (named call_function cif cfn ret as_int bits n ns ss vs are l)

  -- A closure of a case of emitInterleavedFloat32x1.
  interleaved_body-Runs :
      (total_args float_pos : ℕ) (ret : Bool) (vs : List ℕ)
      → float_pos < total_args
      → total_args ≤ 15
      → length vs ≡ length (interleaved total_args float_pos ret).params
      → run_closure call_function
          (interleaved_names float_pos 0 1 total_args)
          (interleaved total_args float_pos ret).params
          (interleaved_body total_args ret)
          ret
          pooled
          cif
          cfn
          vs
        ≡ as_run []
            (run_wrapper call_function (interleaved total_args float_pos ret) pooled cif cfn vs)
  unfolding run_closure interleaved_body interleaved run_wrapper
  interleaved_body-Runs total_args float_pos ret vs h small l =
      let n = total_args - 1 in
      let ns = interleaved_names float_pos 0 1 total_args in
      let ss = interleaved_params float_pos 0 total_args in
      let (are, z) = interleaved-AreParams total_args float_pos h in
      let value = lookup ns ss vs in
      let f = first_frame pooled in
      exec-ints call_function cif cfn ret as_word 32 n ns ss vs are l f set_word _ (omega arith)
        (set_word-Assigns call_function cif cfn value ret f)
      ∙ exec-one_float call_function cif cfn ret as_word 32 n ns ss vs are l
          (record f { ints = some (fill 15 (int_args ss vs)) }) _ z
      ∙ exec-interleaved_end call_function cif cfn value f _ _ ret

  -- Each closure that emitWrapper or the interleaved template writes, for at most 15 arguments, does what
  -- the wrapper is modelled to do, when it is called with a word for each parameter: Go rejects nothing
  -- in it under the parameters' types, and where it returns, every parameter that can be a pointer has
  -- been kept alive until after the call.
  pub emitted-Runs :
      (ns : List Parameter) (body : List Statement) (w : Wrapper) (kept : List Parameter)
      (vs : List ℕ)
      → IsEmitted ns body w kept
      → length vs ≡ length w.params
      → run_closure call_function ns w.params body w.has_return pooled cif cfn vs
        ≡ as_run kept (run_wrapper call_function w pooled cif cfn vs)
  unfolding fast_ints interleaved
  emitted-Runs ns body w kept vs (by_count bits n mask ret h small) l =
      wrapper_body-Runs bits n mask ret vs h small l
  emitted-Runs ns body w kept vs (by_position total_args float_pos ret h small) l =
      interleaved_body-Runs total_args float_pos ret vs h small l
