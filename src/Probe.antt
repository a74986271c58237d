-- ===== src/Probe.antt =====
-- cmd/universal-probe/main.go: the program that exercises the package, over a system that is given.
pub mod Passed
mod Tests
use pureffi.Common.{
  ℕ, ◌+◌, ◌-◌, ◌%◌, ◌^◌, ◌==◌, ltb, ◌⊎◌, inl, inr, Bool, true, false, List, [], ◌∷◌, Option, none,
  some, codes, length, if◌then◌else◌,
}
use pureffi.Go.Outcome.{Outcome, ok, panic, Panic}
use pureffi.Go.Platform.{Os, linux}
use pureffi.Loader.{LoadError, GetSymbol, dlsym, dlclose}
use pureffi.Loader.Modes.{modes}

-- What the system gives: Dlopen; what a call of a variable of one of three types does after
-- RegisterLibFunc with a handle and a symbol's name; Dlsym's
-- and Dlclose's part of goffi; SyscallN; NewCallback, and what calling its address from C does. An
-- int32 is its bit pattern, as is a float64.
pub record Environment : Type 0 where
  pub os : Os
  pub dlopen : List ℕ → ℕ → LoadError ⊎ ℕ
  pub get_symbol : GetSymbol
  pub free_library : ℕ → Option (List ℕ)
  -- func(string) int
  pub register_counter : ℕ → List ℕ → Outcome (List ℕ → ℕ)
  -- func(string) float64
  pub register_reader : ℕ → List ℕ → Outcome (List ℕ → ℕ)
  -- func(base *int32, n, size, cmp uintptr), with the elements behind base before and after
  pub register_sorter : ℕ → List ℕ → Outcome (List ℕ → ℕ → ℕ → ℕ → List ℕ)
  pub syscall_n : ℕ → List ℕ → Outcome (ℕ × ℕ × ℕ)
  pub new_callback : (ℕ → ℕ → ℕ) → ℕ
  pub calls : ℕ → ℕ → ℕ → ℕ

-- The calls of fail, by what they report.
pub data Failure : Type 0 where
  dlopen_failed : LoadError → Failure
  strlen_wrong atof_wrong : ℕ → Failure
  getpid_not_found close_not_found : LoadError → Failure
  getpid_zero errno_not_set : Failure
  not_sorted : List ℕ → Failure
  dlclose_failed : LoadError → Failure

-- How main ends: with the text PUREFFI-UNIVERSAL-PROBE-OK, with nothing to do, by fail, or by a panic.
pub data Exit : Type 0 where
  probe_ok nothing_to_do : Exit
  failed : Failure → Exit
  panicked : Panic → Exit

abbrev pub is_linux : Os → Bool
is_linux linux = true
is_linux _ = false

-- RTLD_NOW|RTLD_GLOBAL: the flags have no bit in common.
abbrev pub now_global : ℕ
now_global = (modes linux).rtld_now + (modes linux).rtld_global

-- func(a, b *int32) int32 { return *a - *b }
unfoldable pub cmp : ℕ → ℕ → ℕ
cmp a b = (a + 2 ^ 32 - b) % 2 ^ 32

-- a > b for int32
unfoldable pub greater : ℕ → ℕ → Bool
greater a b = ltb ((b + 2 ^ 31) % 2 ^ 32) ((a + 2 ^ 31) % 2 ^ 32)

abbrev pub numbers : List ℕ
numbers = 5 ∷ 3 ∷ 9 ∷ 1 ∷ 4 ∷ []

-- The loop over i from 1: whether arr[i-1] > arr[i] for no i.
unfoldable pub in_order : List ℕ → Bool
in_order [] = true
in_order (a ∷ []) = true
in_order (a ∷ (b ∷ rest)) = if greater a b then false else in_order (b ∷ rest)

abbrev pub or_fail {ℓ κ} : {E : Type ℓ} {A : Type κ} → (E → Failure) → E ⊎ A → (A → Exit) → Exit
or_fail f (inl e) next = failed (f e)
or_fail f (inr a) next = next a

abbrev pub or_panic {ℓ} : {A : Type ℓ} → Outcome A → (A → Exit) → Exit
or_panic (ok a) next = next a
or_panic (panic e) next = panicked e

-- if b { fail(f) }
abbrev pub fail_if : Bool → Failure → Exit → Exit
fail_if b f next = if b then failed f else next

-- From the call of Dlclose on.
unfoldable pub close_library : Environment → ℕ → Exit
close_library env handle = elim (dlclose env.os env.free_library handle) [
  | none ↦ probe_ok
  | some e ↦ failed (dlclose_failed e)
]

-- From the call of NewCallback on.
unfoldable pub probe_callback : Environment → ℕ → Exit
probe_callback env handle =
    let address = env.new_callback cmp in
    or_panic (env.register_sorter handle (codes "qsort")) λ qsort.
      let arr = qsort numbers (length numbers) 4 address in
      if in_order arr then close_library env handle else failed (not_sorted arr)

-- From the look-up of getpid on.
unfoldable pub probe_syscalls : Environment → ℕ → Exit
probe_syscalls env handle =
    or_fail getpid_not_found (dlsym env.os env.get_symbol handle (codes "getpid")) λ getpid.
      or_panic (env.syscall_n getpid []) λ pid. fail_if (pid.0 == 0) getpid_zero (
        or_fail close_not_found (dlsym env.os env.get_symbol handle (codes "close")) λ close.
          or_panic (env.syscall_n close ((2 ^ 64 - 1) ∷ []))
            λ r. fail_if (r.2 == 0) errno_not_set (probe_callback env handle))

-- The two function variables of Go types; the number below is the float64 3.5.
unfoldable pub probe_functions : Environment → ℕ → Exit
probe_functions env handle = or_panic (env.register_counter handle (codes "strlen")) λ strlen.
    let got = strlen (codes "hello") in
    fail_if (if got == 5 then false else true) (strlen_wrong got) (
      or_panic (env.register_reader handle (codes "atof")) λ atof.
        let value = atof (codes "3.5") in
        fail_if (if value == 0x400C000000000000 then false else true) (atof_wrong value)
          (probe_syscalls env handle))

unfoldable pub main : Environment → Exit
main env =
    if is_linux env.os
    then or_fail dlopen_failed (env.dlopen (codes "libc.so.6") now_global) (probe_functions env)
    else nothing_to_do
