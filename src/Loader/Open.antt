-- ===== src/Loader/Open.antt =====
-- dlfcn_linux.go: Dlopen through the C library's dlopen and dlerror.
use pureffi.Common.{
  ℕ, ◌^◌, ◌%◌, ◌==◌, ◌⊎◌, inl, inr, Bool, true, false, List, ◌++◌, Option, none, some,
  if◌then◌else◌, codes, is_empty,
}
use pureffi.Go.Platform.{linux}
use pureffi.Go.Types.{GoType, func, string, number, int32, uintptr, literal, nil, cons}
use pureffi.Go.Outcome.{Outcome, ok, panic, Panic, nil_dereference}
use pureffi.Register.{Implementation}
use pureffi.Loader.{LoadError, dlerror, GetSymbol, dlsym, rtld_default_linux}

-- dlopenOnce, dlopenFn, dlerrorFn and dlopenErr. A function variable is nil until it is set.
pub record Opener : Type 0 where
  pub done : Bool
  pub dlopen_fn : Option Implementation
  pub dlerror_fn : Option Implementation
  pub dlopen_err : Option LoadError

abbrev pub fresh : Opener
fresh = record { done = false; dlopen_fn = none; dlerror_fn = none; dlopen_err = none }

-- func(string, int32) uintptr, and func() string
abbrev pub dlopen_type : GoType
dlopen_type =
    func literal (cons (string literal) (cons (number literal int32) nil)) false
      (cons (number literal uintptr) nil)

abbrev pub dlerror_type : GoType
dlerror_type = func literal nil false (cons (string literal) nil)

-- A panic with the variables that it leaves.
abbrev pub Init : Type 0
Init = Opener × Option Panic

-- The two calls of RegisterFunc.
unfoldable pub set_functions :
    (GoType → ℕ → Outcome (Option Implementation)) → ℕ → ℕ → Opener → Init
set_functions register dlopen_addr dlerror_addr o = elim (register dlopen_type dlopen_addr) [
  | panic e ↦ (o, some e)
  | ok f ↦ elim (register dlerror_type dlerror_addr) [
    | panic e ↦ (record o { dlopen_fn = f }, some e)
    | ok g ↦ (record o { dlopen_fn = f; dlerror_fn = g }, none)
  ]
]

unfoldable pub init_dlopen :
    GetSymbol → (GoType → ℕ → Outcome (Option Implementation)) → Opener → Init
init_dlopen get_symbol register o =
    elim (dlsym linux get_symbol rtld_default_linux (codes "dlopen")) [
      | inl e ↦ (record o { dlopen_err = some e }, none)
      | inr dlopen_addr ↦ elim (dlsym linux get_symbol rtld_default_linux (codes "dlerror")) [
        | inl e ↦ (record o { dlopen_err = some e }, none)
        | inr dlerror_addr ↦ set_functions register dlopen_addr dlerror_addr o
      ]
    ]

-- dlopenOnce.Do(initDlopen): a panic in it counts as done.
unfoldable pub do_once : GetSymbol → (GoType → ℕ → Outcome (Option Implementation)) → Opener → Init
do_once get_symbol register o =
    if o.done then (o, none) else init_dlopen get_symbol register (record o { done = true })

-- What the C functions behind dlopenFn and dlerrorFn do, on the thread's pending error text.
pub record LibC : Type 0 where
  pub call_dlopen : Implementation → List ℕ → ℕ → List ℕ → ℕ × List ℕ
  pub call_dlerror : Implementation → List ℕ → List ℕ × List ℕ

-- From LockOSThread on, with the functions registered.
unfoldable pub open_on_thread :
    LibC → Implementation → Implementation → List ℕ → ℕ → List ℕ → (LoadError ⊎ ℕ) × List ℕ
open_on_thread c f g path mode pending =
    let cleared = (c.call_dlerror g pending).1 in
    let (handle, pending') = c.call_dlopen f path (mode % 2 ^ 32) cleared in
    let (message, pending'') = c.call_dlerror g pending' in
    if handle == 0
    then (if is_empty message
        then (inl (dlerror (codes "dlopen failed: " ++ path)), pending'')
        else (inl (dlerror message), pending''))
    else (inr handle, pending')

-- A result of Dlopen, or a panic, with the variables and the thread's pending error after it.
pub record Opened : Type 0 where
  pub result : Outcome (LoadError ⊎ ℕ)
  pub opener : Opener
  pub pending : List ℕ

abbrev pub call_functions :
    LibC → List ℕ → ℕ → List ℕ → Opener → Option Implementation → Option Implementation → Opened
call_functions c path mode pending o (some f) (some g) =
    let (r, pending') = open_on_thread c f g path mode pending in
    record { result = ok r; opener = o; pending = pending' }
call_functions c path mode pending o (some f) none = record {
  result = panic nil_dereference;
  opener = o;
  pending = pending;
}
call_functions c path mode pending o none g = record {
  result = panic nil_dereference;
  opener = o;
  pending = pending;
}

abbrev pub after_once : LibC → List ℕ → ℕ → List ℕ → Init → Opened
after_once c path mode pending (o, some e) = record {
  result = panic e;
  opener = o;
  pending = pending;
}
after_once c path mode pending (o, none) = elim o.dlopen_err [
  | some e ↦ record { result = ok (inl e); opener = o; pending = pending }
  | none ↦ call_functions c path mode pending o o.dlopen_fn o.dlerror_fn
]

unfoldable pub dlopen :
    GetSymbol
    → (GoType → ℕ → Outcome (Option Implementation))
    → LibC
    → Opener
    → List ℕ
    → List ℕ
    → ℕ
    → Opened
dlopen get_symbol register c o pending path mode =
    after_once c path mode pending (do_once get_symbol register o)
