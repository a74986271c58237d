-- ===== src/Probe/Passed.antt =====
-- cmd/universal-probe/main.go: what the text of success stands for.
use pureffi.Common.{
  ℕ, ◌+◌, ◌-◌, ◌%◌, ◌^◌, ◌≤◌, ◌==◌, ◌≡◌, ◌≢◌, refl, ◌⊎◌, inl, inr, Bool, true, false, List, [], ◌∷◌,
  Option, none, some, codes, if◌then◌else◌, arith, Bool-cases,
}
use pureffi.Go.Outcome.{Outcome, ok, panic}
use pureffi.Go.Platform.{linux}
use pureffi.Loader.{LoadError, dlsym, dlclose}
use pureffi.Probe.{
  Environment, Failure, Exit, probe_ok, is_linux, now_global, cmp, greater, in_order, or_fail,
  or_panic, fail_if, close_library, probe_callback, probe_syscalls, probe_functions, main,
}

-- An array of int32 whose numbers do not fall, by their bit patterns.
abbrev pub IsSorted : List ℕ → Type 0
IsSorted [] = Unit {0}
IsSorted (a ∷ []) = Unit {0}
IsSorted (a ∷ (b ∷ rest)) = ((a + 2 ^ 31) % 2 ^ 32 ≤ (b + 2 ^ 31) % 2 ^ 32) × IsSorted (b ∷ rest)

-- What a run saw from the call of NewCallback on: qsort, called with the five numbers and the address of
-- a callback, left an array in order, and Dlclose reported no error.
abbrev pub CallbackPassed : Environment → ℕ → Type 0
CallbackPassed env handle =
    (qsort : List ℕ → ℕ → ℕ → ℕ → List ℕ) × (env.register_sorter handle (codes "qsort") ≡ ok qsort)
    × IsSorted (qsort (5 ∷ 3 ∷ 9 ∷ 1 ∷ 4 ∷ []) 5 4 (env.new_callback cmp))
    × (dlclose env.os env.free_library handle ≡ none)

-- From the look-up of getpid on: its result was not 0, and close of -1 left an errno.
abbrev pub SyscallsPassed : Environment → ℕ → Type 0
SyscallsPassed env handle =
    ((getpid : ℕ) × (pid : ℕ × ℕ × ℕ) × (dlsym env.os env.get_symbol handle (codes "getpid")
        ≡ inr getpid)
      × (env.syscall_n getpid [] ≡ ok pid)
      × (pid.0 ≢ 0))
    × ((close : ℕ) × (closed : ℕ × ℕ × ℕ) × (dlsym env.os env.get_symbol handle (codes "close")
          ≡ inr close)
        × (env.syscall_n close ((2 ^ 64 - 1) ∷ []) ≡ ok closed)
        × (closed.2 ≢ 0))
    × CallbackPassed env handle

-- From the first RegisterLibFunc on: strlen counted five bytes, and atof read 3.5.
abbrev pub FunctionsPassed : Environment → ℕ → Type 0
FunctionsPassed env handle =
    ((strlen : List ℕ → ℕ) × (env.register_counter handle (codes "strlen") ≡ ok strlen)
      × (strlen (codes "hello") ≡ 5))
    × ((atof : List ℕ → ℕ) × (env.register_reader handle (codes "atof") ≡ ok atof)
        × (atof (codes "3.5") ≡ 0x400C000000000000))
    × SyscallsPassed env handle

or_fail-ok {ℓ κ} :
    {E : Type ℓ} {A : Type κ} (f : E → Failure) (x : E ⊎ A) (next : A → Exit)
    → or_fail f x next ≡ probe_ok
    → (a : A) × (x ≡ inr a) × (next a ≡ probe_ok)
or_fail-ok f (inl e) next h = absurd (ground arith)
or_fail-ok f (inr a) next h = (a, refl, h)

or_panic-ok {ℓ} :
    {A : Type ℓ} (x : Outcome A) (next : A → Exit)
    → or_panic x next ≡ probe_ok
    → (a : A) × (x ≡ ok a) × (next a ≡ probe_ok)
or_panic-ok (panic e) next h = absurd (ground arith)
or_panic-ok (ok a) next h = (a, refl, h)

fail_if-ok :
    (b : Bool) (f : Failure) (next : Exit)
    → fail_if b f next ≡ probe_ok
    → (b ≡ false) × (next ≡ probe_ok)
fail_if-ok true f next h = absurd (ground arith)
fail_if-ok false f next h = (refl, h)

in_order-IsSorted : (xs : List ℕ) → in_order xs ≡ true → IsSorted xs
unfolding in_order greater
in_order-IsSorted [] h = tt
in_order-IsSorted (a ∷ []) h = tt
in_order-IsSorted (a ∷ (b ∷ rest)) h = elim (Bool-cases (greater a b)) [
  | inl y ↦ absurd (ground arith)
  | inr n ↦ (ground arith, in_order-IsSorted (b ∷ rest) (rw (in_order, n) at h))
]

close_library-ok :
    (env : Environment) (handle : ℕ)
    → close_library env handle ≡ probe_ok
    → dlclose env.os env.free_library handle ≡ none
unfolding close_library
close_library-ok env handle h = closes (dlclose env.os env.free_library handle) refl
  where
    closes :
        (o : Option LoadError)
        → dlclose env.os env.free_library handle ≡ o
        → dlclose env.os env.free_library handle ≡ none
    closes none e = e
    closes (some x) e = let k = rw (close_library, e) at h in absurd (ground arith)

probe_callback-CallbackPassed :
    (env : Environment) (handle : ℕ)
    → probe_callback env handle ≡ probe_ok
    → CallbackPassed env handle
unfolding probe_callback
probe_callback-CallbackPassed env handle h =
    let (qsort, e, k) = or_panic-ok (env.register_sorter handle (codes "qsort")) _ h in
    let arr = qsort (5 ∷ 3 ∷ 9 ∷ 1 ∷ 4 ∷ []) 5 4 (env.new_callback cmp) in
    elim (Bool-cases (in_order arr)) [
      | inl y ↦ (qsort, e, in_order-IsSorted arr y, close_library-ok env handle (rw y at k))
      | inr n ↦ let k' = rw n at k in absurd (ground arith)
    ]

probe_syscalls-SyscallsPassed :
    (env : Environment) (handle : ℕ)
    → probe_syscalls env handle ≡ probe_ok
    → SyscallsPassed env handle
unfolding probe_syscalls
probe_syscalls-SyscallsPassed env handle h =
    let (getpid, e1, h1) = or_fail-ok _ (dlsym env.os env.get_symbol handle (codes "getpid")) _ h in
    let (pid, e2, h2) = or_panic-ok (env.syscall_n getpid []) _ h1 in
    let (n, h3) = fail_if-ok (pid.0 == 0) _ _ h2 in
    let (close, e3, h4) = or_fail-ok _ (dlsym env.os env.get_symbol handle (codes "close")) _ h3 in
    let (closed, e4, h5) = or_panic-ok (env.syscall_n close ((2 ^ 64 - 1) ∷ [])) _ h4 in
    let (m, h6) = fail_if-ok (closed.2 == 0) _ _ h5 in
    (
      (getpid, pid, e1, e2, ground (arith, n)),
      (close, closed, e3, e4, ground (arith, m)),
      probe_callback-CallbackPassed env handle h6,
    )

equal : (a b : ℕ) → (if a == b then false else true) ≡ false → a ≡ b
equal a b h = ground arith

probe_functions-FunctionsPassed :
    (env : Environment) (handle : ℕ)
    → probe_functions env handle ≡ probe_ok
    → FunctionsPassed env handle
unfolding probe_functions
probe_functions-FunctionsPassed env handle h =
    let (strlen, e1, h1) = or_panic-ok (env.register_counter handle (codes "strlen")) _ h in
    let (five, h2) = fail_if-ok _ _ _ h1 in
    let (atof, e2, h3) = or_panic-ok (env.register_reader handle (codes "atof")) _ h2 in
    let (value, h4) = fail_if-ok _ _ _ h3 in
    (
      (strlen, e1, equal _ _ five),
      (atof, e2, equal _ _ value),
      probe_syscalls-SyscallsPassed env handle h4,
    )

-- Where the probe prints its text of success, it ran on Linux, Dlopen gave libc.so.6, and every check held
-- on what that library's functions gave: strlen counted five bytes, atof read 3.5, the result of getpid was
-- not 0, close of -1 left an errno, qsort with the address of the Go comparison left the five numbers in
-- the order of int32, and Dlclose reported no error.
pub main-Passed :
    (env : Environment)
    → main env ≡ probe_ok
    → (env.os ≡ linux)
      × ((handle : ℕ) × (env.dlopen (codes "libc.so.6") now_global ≡ inr handle)
          × FunctionsPassed env handle)
unfolding main
main-Passed env h = elim (Bool-cases (is_linux env.os)) [
  | inl y ↦
      let (handle, e, k) = or_fail-ok _ (env.dlopen (codes "libc.so.6") now_global) _ (rw y at h) in
      (ground (arith, y), (handle, e, probe_functions-FunctionsPassed env handle k))
  | inr n ↦ let k = rw n at h in absurd (ground arith)
]
