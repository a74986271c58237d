-- ===== src/SlowCall/Closure/Results.antt =====
-- What a call of the closure returns.
use pureffi.Common.{
  ℕ, ◌==◌, ◌≡◌, ◌≢◌, refl, sym, ap, ◌∙◌, ◌⊎◌, inl, inr, true, false, List, some, if◌then◌else◌,
  arith,
}
use pureffi.Go.Values.{Value}
use pureffi.Go.Outcome.{ok, ok-injective}
use pureffi.Go.Platform.{Platform}
use pureffi.Go.Types.{Signature}
use pureffi.Register.{slow, SlowFunc, Prepare, plan, register_signature, result_rules}
use pureffi.Errno.{Cells, get_errno_ptr, clear_errno, read_errno}
use pureffi.SlowCall.{Element}
use pureffi.SlowCall.Call.{Passed, slow_call}
use pureffi.SlowCall.Call.Agreement.{Closure, register_signature-Closure}
use pureffi.SlowCall.Return.{unpack_ret, Returned, closure_results}
use pureffi.SlowCall.Return.Fits.{Readable, Fits, closure_results-Fits}
use pureffi.SlowCall.Closure.{After, Env, Start, or_panic, closure_call}

or_panic-ok : (o : ℕ ⊎ After) (a : After) → or_panic o ≡ ok a → o ≡ inr a
or_panic-ok (inl e) a h = absurd (ground arith)
or_panic-ok (inr b) a h = ground arith

-- A function that was registered with a last result of type error has has_error set, and its type.
Closure-has_error :
    (p : Platform) (symbol_name : ℕ → List ℕ) (cfn : ℕ) (sig : Signature) (f : SlowFunc)
    → Closure p symbol_name cfn sig f
    → (result_rules sig.outs ≡ ok f.has_error) × (f.signature ≡ sig)
unfolding plan
Closure-has_error p symbol_name cfn sig f (e, ts, r, a, b, c, inl (v, k)) =
    (a ∙ ap (λ g. ok g.has_error) (sym k), ap (λ g. g.signature) k)
Closure-has_error p symbol_name cfn sig f (e, ts, r, a, b, c, inr (v, k)) =
    (a ∙ ap (λ g. ok g.has_error) (sym k), ap (λ g. g.signature) k)

-- The address of a thread's errno, as getErrnoPtr finds it.
abbrev pub errno_address : Env → Start → ℕ
errno_address env s =
    (get_errno_ptr env.os env.get_symbol (λ fn. env.location fn s.thread) s.errno_vars).0

-- A thread's errno cell set to 0.
abbrev pub cleared : ℕ → Cells → Cells
cleared a cells b = if b == a then 0 else cells b

clear_errno_lem : (a : ℕ) (cells : Cells) → a ≢ 0 → clear_errno a cells ≡ cleared a cells
unfolding clear_errno
clear_errno_lem a cells h = let z : (a == 0) ≡ false = ground arith in rw z refl

read_errno_lem : (a : ℕ) (cells : Cells) → a ≢ 0 → read_errno a cells ≡ cells a
unfolding read_errno
read_errno_lem a cells h = ground arith

closure_call-has_error :
    (f : SlowFunc) (env : Env) (cfn : ℕ) (s : Start) (fixed : List Value) (elements : List Element)
    (passed : Passed) (a : After)
    → f.has_error ≡ true
    → errno_address env s ≢ 0
    → slow_call env.prepare env.new_callback f s.pooled s.heap fixed elements ≡ ok passed
    → env.call_function passed cfn s.thread (cleared (errno_address env s) s.cells) ≡ inr a
    → closure_call env f cfn s fixed elements
      ≡ closure_results
          (λ t. unpack_ret env.register env.fuel a.memory t a.bytes)
          f.signature.outs
          true
          (a.cells (errno_address env s))
unfolding closure_call
closure_call-has_error f env cfn s fixed elements passed a h nz e k =
    rw
      (
        e,
        h,
        clear_errno_lem (errno_address env s) s.cells nz,
        k,
        read_errno_lem (errno_address env s) a.cells nz,
      )
      refl

-- A call of a registered function whose last result is an error, where getErrnoPtr finds the address of
-- the thread's errno, the arguments can be packed, goffi reports no error, the text of a first result
-- has a NUL byte in reach of the fuel and a function pointer as first result can be registered: the C
-- function runs on the thread whose errno was cleared before the arguments were packed, wherever the
-- scheduler would move the goroutine, and the call returns the value that the bytes of a first of two
-- results stand for, and as the error what the C function itself leaves in that thread's errno, nil for
-- 0, whatever an earlier call had left there.
pub closure_call-errno :
    (p : Platform) (prepare : Prepare) (symbol_name : ℕ → List ℕ) (sig : Signature) (f : SlowFunc)
    (env : Env) (cfn : ℕ) (s : Start) (fixed : List Value) (elements : List Element)
    (passed : Passed) (a : After)
    → register_signature p prepare symbol_name cfn sig ≡ ok (some (slow f))
    → result_rules sig.outs ≡ ok true
    → errno_address env s ≢ 0
    → slow_call env.prepare env.new_callback f s.pooled s.heap fixed elements ≡ ok passed
    → env.call_function passed cfn s.thread (cleared (errno_address env s) s.cells) ≡ inr a
    → Readable env.register env.fuel a.memory a.bytes sig.outs
    → (rs : List Returned) × (closure_call env f cfn s fixed elements ≡ ok rs)
      × Fits env.register a.memory a.bytes (a.cells (errno_address env s)) sig.outs rs
closure_call-errno p prepare symbol_name sig f env cfn s fixed elements passed a r rules nz e k
      readable =
    let (h, same) =
      Closure-has_error p symbol_name cfn sig f
        (register_signature-Closure p prepare symbol_name cfn sig f r) in
    let he : f.has_error ≡ true = sym (ok-injective (sym rules ∙ h)) in
    let q = closure_call-has_error f env cfn s fixed elements passed a he nz e k in
    let q' =
      q
      ∙ ap
          (λ g.
            closure_results (λ t. unpack_ret env.register env.fuel a.memory t a.bytes) g.outs true
              (a.cells (errno_address env s)))
          same in
    let (rs, c, fits) =
      closure_results-Fits env.register env.fuel a.memory a.bytes sig.outs true
        (a.cells (errno_address env s)) rules readable in
    (rs, q' ∙ c, fits)
