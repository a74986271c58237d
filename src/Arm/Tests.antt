-- ===== src/Arm/Tests.antt =====
-- stub_arm.go: no function of the package works, and each says so.
use pureffi.Common.{ℕ, ◌≡◌, refl, inl, List, some, codes}
use pureffi.Go.Outcome.{panic, not_supported_on_arm}
use pureffi.Loader.{plain}
use pureffi.Arm.{
  dlopen, dlsym, dlclose, register_lib_func, register_func, new_callback, syscall_n, c_string,
  go_string,
}

libraries_refused :
    (path name : List ℕ) (mode handle : ℕ)
    → (dlopen path mode ≡ inl (plain (codes "purego: Dlopen not supported on arm")))
      × (dlsym handle name ≡ inl (plain (codes "purego: Dlsym not supported on arm")))
      × (dlclose handle ≡ some (plain (codes "purego: Dlclose not supported on arm")))
libraries_refused path name mode handle = (refl, refl, refl)

calls_refused :
    (fptr fn : ℕ) (name : List ℕ) (args : List ℕ)
    → (register_lib_func {F = ℕ} fptr fn name
        ≡ panic (not_supported_on_arm (codes "purego: RegisterLibFunc not supported on arm")))
      × (register_func {F = ℕ} fptr fn
          ≡ panic (not_supported_on_arm (codes "purego: RegisterFunc not supported on arm")))
      × (new_callback fn
          ≡ panic (not_supported_on_arm (codes "purego: NewCallback not supported on arm")))
      × (syscall_n fn args
          ≡ panic (not_supported_on_arm (codes "purego: SyscallN not supported on arm")))
      × (c_string name
          ≡ panic (not_supported_on_arm (codes "purego: CString not supported on arm")))
      × (go_string fn
          ≡ panic (not_supported_on_arm (codes "purego: GoString not supported on arm")))
calls_refused fptr fn name args = (refl, refl, refl, refl, refl, refl)
