-- ===== src/Arm.antt =====
-- stub_arm.go: the functions of the package on arm, which goffi does not support.
mod Tests
use pureffi.Common.{ℕ, ◌⊎◌, inl, List, ◌++◌, Option, some, codes}
use pureffi.Go.Outcome.{Outcome, panic, not_supported_on_arm}
use pureffi.Loader.{LoadError, plain}

-- The text of every error and panic, for the name of a function.
abbrev not_supported : List ℕ → List ℕ
not_supported name = codes "purego: " ++ name ++ codes " not supported on arm"

abbrev stub {ℓ} : {A : Type ℓ} → List ℕ → Outcome A
stub name = panic (not_supported_on_arm (not_supported name))

abbrev pub dlopen : List ℕ → ℕ → LoadError ⊎ ℕ
dlopen path mode = inl (plain (not_supported (codes "Dlopen")))

abbrev pub dlsym : ℕ → List ℕ → LoadError ⊎ ℕ
dlsym handle name = inl (plain (not_supported (codes "Dlsym")))

abbrev pub dlclose : ℕ → Option LoadError
dlclose handle = some (plain (not_supported (codes "Dlclose")))

abbrev pub register_lib_func {ℓ} : {F : Type ℓ} → ℕ → ℕ → List ℕ → Outcome F
register_lib_func fptr handle name = stub (codes "RegisterLibFunc")

abbrev pub register_func {ℓ} : {F : Type ℓ} → ℕ → ℕ → Outcome F
register_func fptr cfn = stub (codes "RegisterFunc")

abbrev pub new_callback {ℓ} : {F : Type ℓ} → F → Outcome ℕ
new_callback fn = stub (codes "NewCallback")

abbrev pub syscall_n : ℕ → List ℕ → Outcome (ℕ × ℕ × ℕ)
syscall_n fn args = stub (codes "SyscallN")

abbrev pub c_string : List ℕ → Outcome ℕ
c_string s = stub (codes "CString")

abbrev pub go_string : ℕ → Outcome (List ℕ)
go_string c = stub (codes "GoString")
