-- ===== src/Register/Concurrent.antt =====
-- purego.go and zz_fast_func.go: goroutines that call registered functions at the same time.
use pureffi.Common.{ℕ, ◌≡◌, ◌∙◌, List, some, length}
use pureffi.Go.Platform.{Platform}
use pureffi.Go.Types.{Signature}
use pureffi.Go.Outcome.{ok}
use pureffi.Goffi.{CallInterface}
use pureffi.FastPath.Slots.{Wrapper}
use pureffi.FastPath.Call.{CallFunction}
use pureffi.FastPath.Pool.{System, Reach, wrapper_call, returned}
use pureffi.FastPath.Pool.Results.{fast_calls-KeepApart}
use pureffi.Register.{fast, Prepare, arg_types, register_signature}
use pureffi.Register.Delivery.{register_signature-IsFitting}

module _ (call_function : CallFunction) where
  -- Whatever goroutines are in fastCallIF at the same time, with the contexts that they get from the
  -- pool: where RegisterFunc installed a generated wrapper, a call of the function variable that has
  -- returned gives the word that the C function leaves in a cleared buffer for this call's own
  -- arguments, in order, under an interface that describes every parameter.
  pub registered_calls-KeepApart :
      (p : Platform) (prepare : Prepare) (symbol_name : ℕ → List ℕ) (cfn : ℕ) (sig : Signature)
      (w : Wrapper) (cif : CallInterface) (vs : List ℕ) (s : System) (g ret : ℕ)
      → register_signature p prepare symbol_name cfn sig ≡ ok (some (fast w cif))
      → length vs ≡ length sig.ins
      → Reach call_function s
      → s.goroutines g ≡ returned (wrapper_call w cif cfn vs) ret
      → (arg_types sig.ins ≡ ok cif.arg_types) × (ret ≡ call_function cif cfn vs 0)
  registered_calls-KeepApart p prepare symbol_name cfn sig w cif vs s g ret h l r e =
      let f = register_signature-IsFitting p prepare symbol_name cfn sig w cif h in
      (
        f.described,
        fast_calls-KeepApart call_function w cif cfn vs g ret r e f.agrees (l ∙ f.same_length)
            f.few_ints f.few_floats,
      )
