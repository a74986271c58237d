-- ===== src/CString/Allocate.antt =====
-- cstring.go: initMalloc.
use pureffi.Common.{ℕ, ◌==◌, ◌⊎◌, inl, inr, List, Option, none, some, codes, if◌then◌else◌}
use pureffi.Go.Platform.{Os, is_windows}
use pureffi.Loader.{LoadError, GetSymbol, dlsym, dlopen_by_goffi, rtld_default}

-- h, _ = …: the value that comes with an error is 0.
abbrev pub value_of : LoadError ⊎ ℕ → ℕ
value_of (inl e) = 0
value_of (inr a) = a

-- `handle`, or `none` for the early return.
unfoldable pub malloc_handle : Os → (List ℕ → List ℕ ⊎ ℕ) → Option ℕ
malloc_handle os load_library =
    if is_windows os
    then (let h : ℕ = elim (dlopen_by_goffi os load_library (codes "msvcrt.dll") 0) [
      | inl e ↦ value_of (dlopen_by_goffi os load_library (codes "ucrtbase.dll") 0)
      | inr a ↦ a
    ] in
        if h == 0 then none else some h)
    else some (rtld_default os)

-- mallocFn after initMalloc.
unfoldable pub init_malloc : Os → (List ℕ → List ℕ ⊎ ℕ) → GetSymbol → ℕ
init_malloc os load_library get_symbol = elim (malloc_handle os load_library) [
  | none ↦ 0
  | some handle ↦ value_of (dlsym os get_symbol handle (codes "malloc"))
]
