-- ===== src/SlowCall/Closure.antt =====
-- purego.go, the closure that RegisterFunc makes, from LockOSThread to its results.
pub mod Results
mod Tests
use pureffi.Common.{ℕ, ◌⊎◌, inl, inr, Bool, true, false, List, if◌then◌else◌}
use pureffi.Go.Platform.{Os}
use pureffi.Go.Values.{Value, Heap}
use pureffi.Go.Outcome.{Outcome, ok, panic, foreign_error, ◌>>=◌}
use pureffi.Register.{SlowFunc, Prepare}
use pureffi.CString.{Memory}
use pureffi.Loader.{GetSymbol}
use pureffi.Errno.{Cells, ErrnoVars, get_errno_ptr, clear_errno, read_errno}
use pureffi.SlowCall.{SlowCallContext, Element}
use pureffi.SlowCall.Call.{Passed, slow_call}
use pureffi.SlowCall.Return.{RegisterFunc, unpack_ret, Returned, closure_results}

-- What a C function leaves: the bytes in the result buffer, and the memories.
pub record After : Type 0 where
  pub bytes : List ℕ
  pub cells : Cells
  pub memory : Memory

-- ffi.CallFunction, by what it is given, the function's address, the thread that it runs on and the
-- errno cells before the call: an error, or what the function leaves.
abbrev pub CallFunction : Type 0
CallFunction = Passed → ℕ → ℕ → Cells → ℕ ⊎ After

-- The code around the closure.
pub record Env : Type 0 where
  pub os : Os
  pub get_symbol : GetSymbol
  pub prepare : Prepare
  pub new_callback : ℕ → ℕ
  pub call_function : CallFunction
  -- The address of a thread's errno, by the C function that returns it.
  pub location : ℕ → ℕ → ℕ
  pub register : RegisterFunc
  -- For the loop over a C string.
  pub fuel : ℕ

-- What a call starts from: a pooled context, the heap, the threads that the goroutine is on at first and,
-- if the scheduler moves it, at the call, the variables of errno, and the errno cells.
pub record Start : Type 0 where
  pub pooled : SlowCallContext
  pub heap : Heap
  pub thread : ℕ
  pub thread' : ℕ
  pub errno_vars : ErrnoVars
  pub cells : Cells

-- if hasError { _, getErr = clrAndGetErrno() }: the pointer that getErr has kept.
abbrev pub errno_ptr : Env → SlowFunc → Start → ℕ
errno_ptr env f s =
    if f.has_error
    then (get_errno_ptr env.os env.get_symbol (λ fn. env.location fn s.thread) s.errno_vars).0
    else 0

-- LockOSThread keeps the goroutine on its thread.
abbrev pub call_thread : SlowFunc → Start → ℕ
call_thread f s = if f.has_error then s.thread else s.thread'

-- if err != nil { panic(err) }
abbrev pub or_panic : ℕ ⊎ After → Outcome After
or_panic (inl e) = panic (foreign_error e)
or_panic (inr a) = ok a

unfoldable pub closure_call :
    Env → SlowFunc → ℕ → Start → List Value → List Element → Outcome (List Returned)
closure_call env f cfn s fixed elements =
    let errno = errno_ptr env f s in
    let cells = clear_errno errno s.cells in
    slow_call env.prepare env.new_callback f s.pooled s.heap fixed elements >>= λ passed.
    or_panic (env.call_function passed cfn (call_thread f s) cells) >>= λ a.
    closure_results (λ t. unpack_ret env.register env.fuel a.memory t a.bytes) f.signature.outs
      f.has_error (read_errno errno a.cells)
