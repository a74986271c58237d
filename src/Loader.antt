-- ===== src/Loader.antt =====
-- dlfcn_linux.go, dlfcn_darwin.go, dlfcn_bsd.go, dlfcn_windows.go: Dlopen, Dlsym, Dlclose, and the
-- handles that the other files pass to Dlsym.
pub mod Open
pub mod Handles
pub mod Once
pub mod Settles
pub mod Modes
mod Tests
use mathlib.Core.Option
use pureffi.Common.{
  Option, none, some, ℕ, ◌-◌, ◌^◌, ◌⊎◌, inl, inr, List, Bool, true, false, if◌then◌else◌, codes,
}
use pureffi.Go.Platform.{
  Os, linux, android, darwin, ios, freebsd, netbsd, openbsd, dragonfly, solaris, illumos, windows,
  other, Platform, arm, is_windows, has_negative_default,
}

-- An error value: a Dlerror, one that goffi returned, or another with its text.
pub data LoadError : Type 0 where
  dlerror foreign plain : List ℕ → LoadError

-- ffi.GetSymbol: by the handle and the name, an error's text or the address.
abbrev pub GetSymbol : Type 0
GetSymbol = ℕ → List ℕ → List ℕ ⊎ ℕ

-- return 0, Dlerror{err.Error()}; on Windows the error itself.
abbrev pub wrap_error : Os → List ℕ → LoadError
wrap_error os e = if is_windows os then foreign e else dlerror e

unfoldable pub dlsym : Os → GetSymbol → ℕ → List ℕ → LoadError ⊎ ℕ
dlsym os get_symbol handle name = elim (get_symbol handle name) [
  | inl e ↦ inl (wrap_error os e)
  | inr a ↦ inr a
]

-- ffi.FreeLibrary: `none` for a nil error.
unfoldable pub dlclose : Os → (ℕ → Option (List ℕ)) → ℕ → Option LoadError
dlclose os free_library handle = Option.map (wrap_error os) (free_library handle)

-- Dlopen on the BSDs, darwin and Windows, by ffi.LoadLibrary; the mode is not used.
unfoldable pub dlopen_by_goffi : Os → (List ℕ → List ℕ ⊎ ℕ) → List ℕ → ℕ → LoadError ⊎ ℕ
dlopen_by_goffi os load_library path mode = elim (load_library path) [
  | inl e ↦ inl (wrap_error os e)
  | inr h ↦ inr h
]

-- ^uintptr(0) - 1
abbrev pub minus_two : ℕ
minus_two = 2 ^ 64 - 2

-- The constant RTLD_DEFAULT of dlfcn_linux.go, and of the file that is built for a system, other than on
-- arm; `none` where there is no such file.
abbrev pub rtld_default_linux : ℕ
rtld_default_linux = 0

abbrev pub rtld_default_constant : Os → Option ℕ
rtld_default_constant linux = some rtld_default_linux
rtld_default_constant android = some rtld_default_linux
rtld_default_constant windows = some 0
rtld_default_constant other = none
rtld_default_constant _ = some minus_two

-- var rtldDefault, of initErrno and getSymbolName.
unfoldable pub rtld_default : Os → ℕ
rtld_default os = if has_negative_default os then minus_two else 0
