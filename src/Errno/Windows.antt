-- ===== src/Errno/Windows.antt =====
-- syscall_windows.go: SyscallN, and clrAndGetErrno over the last error of each thread.
use pureffi.Common.{ℕ, ◌==◌, ==-refl, ◌≡◌, refl, List, Option, none, some, if◌then◌else◌}

-- syscall.SyscallN: r1, r2 and the number of the error.
abbrev NativeSyscall : Type 0
NativeSyscall = ℕ → List ℕ → ℕ × ℕ × ℕ

abbrev syscall_n : NativeSyscall → ℕ → List ℕ → ℕ × ℕ × ℕ
syscall_n native fn args = let r = native fn args in (r.0, r.1, r.2)

-- The last error of each thread.
abbrev LastErrors : Type 0
LastErrors = ℕ → ℕ

-- procSetLastError.Call(0) on a thread, and the pointer that clrAndGetErrno returns.
abbrev clr_and_get_errno : ℕ → LastErrors → ℕ × LastErrors
clr_and_get_errno thread errors = (0, λ t. if t == thread then 0 else errors t)

-- The function that clrAndGetErrno returns; `none` is nil, also for the error with the number 0.
abbrev read_errno : ℕ → LastErrors → Option ℕ
read_errno thread errors = if errors thread == 0 then none else some (errors thread)

-- An earlier error of the thread is not read again.
read_errno-clr_and_get_errno :
    (thread : ℕ) (errors : LastErrors)
    → read_errno thread (clr_and_get_errno thread errors).1 ≡ none
read_errno-clr_and_get_errno thread errors = rw (==-refl thread) refl
