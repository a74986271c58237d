-- ===== src/Loader/Modes.antt =====
-- dlfcn_linux.go, dlfcn_bsd.go, dlfcn_darwin.go, dlfcn_windows.go: the flags for the mode of Dlopen.
use pureffi.Common.{ℕ}
use pureffi.Go.Platform.{Os, darwin, ios, windows}

pub record Modes : Type 0 where
  pub rtld_lazy : ℕ
  pub rtld_now : ℕ
  pub rtld_local : ℕ
  pub rtld_global : ℕ

abbrev apple_modes : Modes
apple_modes = record { rtld_lazy = 1; rtld_now = 2; rtld_local = 4; rtld_global = 8 }

abbrev unix_modes : Modes
unix_modes = record { rtld_lazy = 1; rtld_now = 2; rtld_local = 0; rtld_global = 0x100 }

-- The constants of the file that is built for a system, other than on arm.
abbrev pub modes : Os → Modes
modes darwin = apple_modes
modes ios = apple_modes
modes windows = apple_modes
modes _ = unix_modes
