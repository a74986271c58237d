-- ===== src/FastPath/Emit/Bodies.antt =====
-- genfastfunc.go, emitWrapper and tmplInterleavedFloat: the parts of the bodies that are written.
use pureffi.Common.{
  ℕ, ◌≤◌, ◌==◌, ◌≡◌, refl, ◌∙◌, Bool, true, false, List, [], ◌∷◌, ◌++◌, Option, none, some,
  if◌then◌else◌, arith, length, inl, inr, ◌⊎◌,
}
use pureffi.Go.Outcome.{Outcome, ok, panic, Outcome-cases, ◌>>=◌}
use pureffi.Goffi.{CallInterface}
use pureffi.FastPath.Slots.{Slot}
use pureffi.FastPath.Call.{FastCallContext, CallFunction, fast_call_if, int_args, float_args, fill}
use pureffi.FastPath.Emit.{
  Parameter, f1, Statement, set_float, var_ints, var_floats, call_r, call_only, return_r,
  return_call, integer_names, assignments, keep_alives, lookup, as_int, as_float, assign, Frame,
  Run, returned, panicked, after_call, call_with, exec,
}
use pureffi.FastPath.Emit.Filling.{IsNamed, Assigns, exec-assignments, exec-keep_alives}
use pureffi.FastPath.Emit.Named.{IsNumbered-IsNamed, as_float-lookup}
use pureffi.FastPath.Emit.Params.{AreParams}
use pureffi.FastPath.Emit.Counts.{length-int_args, no_float, one_float, floats_of}

-- A wrapper that returned or panicked, as the run of a closure that has kept parameters alive.
abbrev pub as_run : List Parameter → Outcome (Option ℕ × FastCallContext) → Run
as_run kept (ok (result, ctx)) = returned result ctx kept
as_run kept (panic e) = panicked e

module _ (call_function : CallFunction) (cif : CallInterface) (cfn : ℕ) (ret : Bool)
    (read : Option (Slot × ℕ) → Option ℕ) (bits n : ℕ) (ns : List Parameter) (ss : List Slot)
    (vs : List ℕ) (are : AreParams read bits n ns ss) (l : length vs ≡ length ss) where
  pub named : IsNamed read (lookup ns ss vs) 0 (int_args ss vs)
  named = IsNumbered-IsNamed read ns ss vs 0 are.numbered are.readable l

  pub exec-ints :
      (f : Frame) (make : ℕ → Parameter → Statement) (rest : List Statement)
      → n ≤ 15
      → Assigns call_function cif cfn (lookup ns ss vs) ret f read make
      → exec call_function cif cfn
          (lookup ns ss vs)
          ret
          (var_ints ∷ (assignments make 0 n ++ rest))
          f
        ≡ exec call_function cif cfn
            (lookup ns ss vs)
            ret
            rest
            (record f { ints = some (fill 15 (int_args ss vs)) })
  unfolding exec fill
  exec-ints f make rest small m =
      exec-assignments call_function cif cfn (lookup ns ss vs) ret f read make m (int_args ss vs) []
        0 n rest refl (length-int_args ss vs l ∙ are.ints) (omega arith) named

  pub exec-one_float :
      (f : Frame) (rest : List Statement)
      → floats_of ss ≡ 1
      → exec call_function cif cfn
          (lookup ns ss vs)
          ret
          (var_floats ∷ (set_float 0 bits f1 ∷ rest))
          f
        ≡ exec call_function cif cfn
            (lookup ns ss vs)
            ret
            rest
            (record f { floats = some (fill 8 (float_args ss vs)) })
  unfolding exec fill assign
  exec-one_float f rest z =
      let (w, e) = one_float ss vs l z in
      let q : as_float bits (lookup ns ss vs f1) ≡ some w =
        as_float-lookup bits w ns ss vs [] 0 are.numbered are.wide e in
      rw (exec, q, e) refl

  exec-no_float :
      (f : Frame) (rest : List Statement)
      → floats_of ss ≡ 0
      → exec call_function cif cfn (lookup ns ss vs) ret (var_floats ∷ rest) f
        ≡ exec call_function cif cfn
            (lookup ns ss vs)
            ret
            rest
            (record f { floats = some (fill 8 (float_args ss vs)) })
  unfolding exec fill
  exec-no_float f rest z = let e = no_float ss vs l z in rw (exec, e) refl

  -- The float part of a wrapper of emitWrapper, for each of the three widths.
  pub exec-width :
      (f : Frame) (rest : List Statement)
      → ((bits ≡ 0) × (floats_of ss ≡ 0)) ⊎ (((bits == 0) ≡ false) × (floats_of ss ≡ 1))
      → exec call_function cif cfn
          (lookup ns ss vs)
          ret
          (var_floats ∷ ((if bits == 0 then [] else set_float 0 bits f1 ∷ []) ++ rest))
          f
        ≡ exec call_function cif cfn
            (lookup ns ss vs)
            ret
            rest
            (record f { floats = some (fill 8 (float_args ss vs)) })
  exec-width f rest (inl (e, z)) = rw e (exec-no_float f rest z)
  exec-width f rest (inr (e, z)) = rw e (exec-one_float f rest z)

module _ (call_function : CallFunction) (cif : CallInterface) (cfn : ℕ)
    (value : Parameter → Option (Slot × ℕ)) (f : Frame) (is fs : List ℕ) where
  -- The call and what follows it, in a wrapper of emitWrapper.
  pub exec-wrapper_end :
      (ret : Bool) (vs : List ℕ) (n : ℕ)
      → length vs ≡ n
      → IsNamed as_int value 0 vs
      → exec call_function cif cfn value ret
          ((if ret then call_r else call_only)
            ∷ (keep_alives 0 n ++ (if ret then return_r ∷ [] else [])))
          (record f { ints = some is; floats = some fs })
        ≡ as_run (integer_names 0 n) (
            fast_call_if call_function f.context cif cfn is fs >>= λ called.
            ok (if ret then some called.0 else none, called.1))
  unfolding exec after_call call_with
  exec-wrapper_end true vs n l k =
      elim (Outcome-cases (fast_call_if call_function f.context cif cfn is fs)) [
        | inl (called, e) ↦
            rw (exec, call_with, e, after_call)
              (exec-keep_alives call_function cif cfn value true
                (record {
                  ints = some is;
                  floats = some fs;
                  r = some called.0;
                  context = called.1;
                  kept = [];
                })
                vs [] 0 n (return_r ∷ []) l k)
        | inr (x, e) ↦ rw (exec, call_with, e, after_call) refl
      ]
  exec-wrapper_end false vs n l k =
      elim (Outcome-cases (fast_call_if call_function f.context cif cfn is fs)) [
        | inl (called, e) ↦
            rw (exec, call_with, e, after_call)
              (exec-keep_alives call_function cif cfn value false
                (record {
                  ints = some is;
                  floats = some fs;
                  r = f.r;
                  context = called.1;
                  kept = [];
                })
                vs [] 0 n [] l k)
        | inr (x, e) ↦ rw (exec, call_with, e, after_call) refl
      ]

  -- The call that ends an interleaved wrapper.
  pub exec-interleaved_end :
      (ret : Bool)
      → exec call_function cif cfn value ret
          ((if ret then return_call else call_only) ∷ [])
          (record f { ints = some is; floats = some fs })
        ≡ as_run [] (
            fast_call_if call_function f.context cif cfn is fs >>= λ called.
            ok (if ret then some called.0 else none, called.1))
  unfolding exec after_call call_with
  exec-interleaved_end true =
      elim (Outcome-cases (fast_call_if call_function f.context cif cfn is fs)) [
        | inl (called, e) ↦ rw (exec, call_with, e, after_call) refl
        | inr (x, e) ↦ rw (exec, call_with, e, after_call) refl
      ]
  exec-interleaved_end false =
      elim (Outcome-cases (fast_call_if call_function f.context cif cfn is fs)) [
        | inl (called, e) ↦ rw (exec, call_with, e, after_call) refl
        | inr (x, e) ↦ rw (exec, call_with, e, after_call) refl
      ]
