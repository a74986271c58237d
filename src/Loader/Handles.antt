-- ===== src/Loader/Handles.antt =====
-- The handle for a lookup in all libraries.
use pureffi.Common.{some, ◌≡◌, arith, Bool, true, false, ◌↔◌}
use pureffi.Go.Platform.{Os, ios, openbsd, dragonfly, solaris, illumos, other}
use pureffi.Loader.{rtld_default_constant, rtld_default}

-- The systems that the files with RTLD_DEFAULT as -2 are built for and that initErrno, initMalloc and
-- getSymbolName do not name, and those without such a file.
abbrev pub is_overlooked : Os → Bool
is_overlooked ios = true
is_overlooked openbsd = true
is_overlooked dragonfly = true
is_overlooked solaris = true
is_overlooked illumos = true
is_overlooked other = true
is_overlooked _ = false

-- initErrno and getSymbolName look their symbols up under RTLD_DEFAULT exactly on the systems other
-- than ios, openbsd, dragonfly, solaris, illumos and those without the constant.
pub rtld_default_iff :
    (os : Os) → (rtld_default_constant os ≡ some (rtld_default os)) ↔ (is_overlooked os ≡ false)
unfolding rtld_default
rtld_default_iff ios = (λ e. absurd (ground arith), λ e. absurd (ground arith))
rtld_default_iff _ = (λ e. ground arith, λ e. ground arith)
