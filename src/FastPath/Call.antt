-- ===== src/FastPath/Call.antt =====
-- zz_fast_func.go (from the templates of genfastfunc.go): fastCallContext, fastCallIF and the body of
-- the installed wrappers.
pub mod Links
pub mod Order
use pureffi.Common.{
  ℕ, zero, suc, ltb, Bool, true, false, List, [], ◌∷◌, Option, none, some, if◌then◌else◌, map,
  get_or, set, take, replicate,
}
use pureffi.Go.Outcome.{Outcome, ok, panic, index_out_of_range, ◌>>=◌}
use pureffi.Goffi.{TypeDescriptor, CallInterface, is_float_kind}
use pureffi.FastPath.Slots.{Slot, word, ref, float32, float64, Wrapper}

-- A value of ctx.args: nil, &ctx.ints[i] or &ctx.floats[i].
pub data Reference : Type 0 where
  nil : Reference
  int_at float_at : ℕ → Reference

-- The arrays hold 15 integer words, 8 floating-point words and 23 pointers.
pub record FastCallContext : Type 0 where
  pub ints : List ℕ
  pub floats : List ℕ
  pub args : List Reference
  pub ret : ℕ

-- &fastCallContext{}
abbrev pub new_context : FastCallContext
new_context = record {
  ints = replicate 15 0;
  floats = replicate 8 0;
  args = replicate 23 nil;
  ret = 0;
}

-- The word behind a pointer of ctx.args.
unfoldable pub load : FastCallContext → Reference → ℕ
load ctx nil = 0
load ctx (int_at i) = get_or ctx.ints i 0
load ctx (float_at i) = get_or ctx.floats i 0

-- ctx.args[argIdx] = &array[i], where the array has `size` elements.
unfoldable pub store_reference : List Reference → ℕ → ℕ → ℕ → Reference → Outcome (List Reference)
store_reference args arg_idx i size r =
    if ltb i size
    then (if ltb arg_idx 23 then ok (set args arg_idx r) else panic index_out_of_range)
    else panic index_out_of_range

-- The loop over cif.ArgTypes, with its three counters; the number of arguments comes out.
unfoldable pub link_args :
    List TypeDescriptor → ℕ → ℕ → ℕ → List Reference → Outcome (ℕ × List Reference)
link_args [] arg_idx i_idx f_idx args = ok (arg_idx, args)
link_args (t ∷ ts) arg_idx i_idx f_idx args = elim (is_float_kind t) [
  | true ↦
      store_reference args arg_idx f_idx 8 (float_at f_idx)
      >>= link_args ts (suc arg_idx) i_idx (suc f_idx)
  | false ↦
      store_reference args arg_idx i_idx 15 (int_at i_idx)
      >>= link_args ts (suc arg_idx) (suc i_idx) f_idx
]

-- ffi.CallFunction over word-sized values: from the interface, the function's address, the words
-- behind the argument pointers and the old content of the return buffer, its new content.
abbrev pub CallFunction : Type 0
CallFunction = CallInterface → ℕ → List ℕ → ℕ → ℕ

module _ (call_function : CallFunction) where
  -- With the context that the pool hands out; the context goes back to the pool at the end.
  unfoldable pub fast_call_if :
      FastCallContext → CallInterface → ℕ → List ℕ → List ℕ → Outcome (ℕ × FastCallContext)
  fast_call_if pooled cif cfn ints floats = do
    let ctx = record pooled { ints = ints; floats = floats }
    linked ← link_args cif.arg_types 0 0 0 ctx.args
    let ready = record ctx { args = linked.1; ret = 0 }
    let ret = call_function cif cfn (map (load ready) (take linked.0 ready.args)) ready.ret
    ok (ret, record ready { ret = ret })

-- The arguments that a wrapper puts into `ints` and into `floats`, in the order of its parameters.
unfoldable pub int_args : List Slot → List ℕ → List ℕ
int_args (word ∷ ps) (v ∷ vs) = v ∷ int_args ps vs
int_args (ref ∷ ps) (v ∷ vs) = v ∷ int_args ps vs
int_args (float32 ∷ ps) (v ∷ vs) = int_args ps vs
int_args (float64 ∷ ps) (v ∷ vs) = int_args ps vs
int_args _ _ = []

unfoldable pub float_args : List Slot → List ℕ → List ℕ
float_args (word ∷ ps) (v ∷ vs) = float_args ps vs
float_args (ref ∷ ps) (v ∷ vs) = float_args ps vs
float_args (float32 ∷ ps) (v ∷ vs) = v ∷ float_args ps vs
float_args (float64 ∷ ps) (v ∷ vs) = v ∷ float_args ps vs
float_args _ _ = []

-- var a [n]uintptr; a[0] = …; a[1] = …
unfoldable pub fill : ℕ → List ℕ → List ℕ
fill zero vs = []
fill (suc n) [] = 0 ∷ fill n []
fill (suc n) (v ∷ vs) = v ∷ fill n vs

module _ (call_function : CallFunction) where
  -- The body of an installed wrapper, called with one word for each parameter (a float as its bit
  -- pattern). A wrapper with no result drops the word that comes back.
  unfoldable pub run_wrapper :
      Wrapper → FastCallContext → CallInterface → ℕ → List ℕ → Outcome (Option ℕ × FastCallContext)
  run_wrapper w pooled cif cfn vs = do
    called ←
        fast_call_if call_function pooled cif cfn (fill 15 (int_args w.params vs))
          (fill 8 (float_args w.params vs))
    ok (if w.has_return then some called.0 else none, called.1)
