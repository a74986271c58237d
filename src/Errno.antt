-- ===== src/Errno.antt =====
-- syscall_unix.go: initErrno, getErrnoPtr and clrAndGetErrno.
pub mod Windows
use pureffi.Common.{ℕ, ◌==◌, ◌⊎◌, inl, inr, Bool, true, codes, if◌then◌else◌}
use pureffi.Go.Platform.{Os}
use pureffi.Loader.{LoadError, GetSymbol, dlsym, rtld_default}

-- errnoOnce and errnoFn.
pub record ErrnoVars : Type 0 where
  pub done : Bool
  pub errno_fn : ℕ

-- if err == nil && sym != 0 { errnoFn = sym }
abbrev pub keep_symbol : LoadError ⊎ ℕ → ErrnoVars → ErrnoVars
keep_symbol (inl e) v = v
keep_symbol (inr sym) v = if sym == 0 then v else record v { errno_fn = sym }

unfoldable pub init_errno : Os → GetSymbol → ErrnoVars → ErrnoVars
init_errno os get_symbol v =
    elim (dlsym os get_symbol (rtld_default os) (codes "__errno_location")) [
      | inl e ↦ keep_symbol (dlsym os get_symbol (rtld_default os) (codes "__error")) v
      | inr sym ↦ keep_symbol (inr sym) v
    ]

-- errnoOnce.Do(initErrno)
unfoldable pub errno_once : Os → GetSymbol → ErrnoVars → ErrnoVars
errno_once os get_symbol v =
    if v.done then v else init_errno os get_symbol (record v { done = true })

-- `location` is what the C function behind errnoFn returns on the calling thread.
unfoldable pub get_errno_ptr : Os → GetSymbol → (ℕ → ℕ) → ErrnoVars → ℕ × ErrnoVars
get_errno_ptr os get_symbol location v =
    let v' = errno_once os get_symbol v in
    (if v'.errno_fn == 0 then 0 else location v'.errno_fn, v')

-- The int32 at each address, as its bit pattern.
abbrev pub Cells : Type 0
Cells = ℕ → ℕ

-- if ptr != 0 { *ptr = 0 }
unfoldable pub clear_errno : ℕ → Cells → Cells
clear_errno ptr cells = if ptr == 0 then cells else (λ a. if a == ptr then 0 else cells a)

-- The function that clrAndGetErrno returns, before the conversion of a number other than 0 to an error.
unfoldable pub read_errno : ℕ → Cells → ℕ
read_errno ptr cells = if ptr == 0 then 0 else cells ptr
