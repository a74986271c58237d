-- ===== src/Go/Platform.antt =====
-- runtime.GOOS and runtime.GOARCH, and the build constraints made of them.
use pureffi.Common.{Bool, true, false, ◌&&◌, not}

pub data Os : Type 0 where
  linux android darwin ios freebsd netbsd openbsd dragonfly solaris illumos windows other : Os

pub data Arch : Type 0 where
  amd64 arm64 arm other : Arch

pub record Platform : Type 0 where
  pub goos : Os
  pub goarch : Arch

abbrev pub is_windows : Os → Bool
is_windows windows = true
is_windows _ = false

abbrev pub is_darwin : Os → Bool
is_darwin darwin = true
is_darwin _ = false

abbrev pub is_wide : Arch → Bool
is_wide amd64 = true
is_wide arm64 = true
is_wide _ = false

-- Where the code takes -2 for RTLD_DEFAULT: the comparisons of runtime.GOOS in initErrno, initMalloc
-- and getSymbolName.
abbrev pub has_negative_default : Os → Bool
has_negative_default darwin = true
has_negative_default freebsd = true
has_negative_default netbsd = true
has_negative_default _ = false

-- darwin || freebsd || linux || netbsd: the tag darwin holds on ios too, and linux on android.
abbrev pub is_fast_os : Os → Bool
is_fast_os linux = true
is_fast_os android = true
is_fast_os ios = true
is_fast_os os = has_negative_default os

-- //go:build (amd64 || arm64) && (darwin || freebsd || linux || netbsd) && !windows
abbrev pub builds_fast_path : Platform → Bool
builds_fast_path p = (is_wide p.goarch && is_fast_os p.goos) && not (is_windows p.goos)
