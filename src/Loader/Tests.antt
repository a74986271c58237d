-- ===== src/Loader/Tests.antt =====
-- Dlopen on Linux, against a C library that knows one file.
use pureffi.Common.{ℕ, ◌≡◌, ◌↔◌, refl, inl, inr, false, List, [], ◌∷◌, none, some, codes}
use pureffi.Go.Platform.{Platform, linux, openbsd, amd64}
use pureffi.Go.Outcome.{ok}
use pureffi.Go.Types.{string, number, int32, uintptr, literal}
use pureffi.Goffi.{TypeDescriptor}
use pureffi.Descriptor.{go_arg_type_to_ffi_type, go_type_to_ffi_type, numeric_descriptor}
use pureffi.FastPath.Signature.{accepts_results}
use pureffi.FastPath.Signature.Phases.{slots, slot, floats}
use pureffi.FastPath.Shape.{has_wrapper, refs, doubles, ends_in_float}
use pureffi.FastPath.Decision.{try_register_fast_path_lem}
use pureffi.Register.{
  Implementation, slow, Prepare, result_rules, marker, fixed_params, arg_types, return_type, plan,
  implement, implement_fixed, register_signature, register_func,
}
use pureffi.Register.Rules.{with_interface}
use pureffi.Loader.{dlerror, GetSymbol, rtld_default, rtld_default_constant}
use pureffi.Loader.Handles.{is_overlooked, rtld_default_iff}
use pureffi.Loader.Open.{fresh, dlopen_type, dlerror_type, LibC, Opened, dlopen}
use pureffi.Loader.Once.{Found, ready, dlopen_lem}
use pureffi.Loader.Settles.{Settles, dlopen-Settles}

abbrev linux_amd64 : Platform
linux_amd64 = record { goos = linux; goarch = amd64 }

abbrev any_interface : Prepare
any_interface cif = none

abbrev nameless : ℕ → List ℕ
nameless cfn = []

-- Every name at 4096.
abbrev symbols : GetSymbol
symbols handle name = inr 4096

abbrev dlopen_closure : Implementation
dlopen_closure = slow (
    with_interface (
      plan linux_amd64 nameless 4096
        (record {
          ins = string literal ∷ number literal int32 ∷ [];
          is_variadic = false;
          outs = number literal uintptr ∷ [];
        })
        false (TypeDescriptor.pointer ∷ TypeDescriptor.sint32 ∷ []) TypeDescriptor.uint64))

abbrev dlerror_closure : Implementation
dlerror_closure = slow (
    with_interface (
      plan linux_amd64 nameless 4096
        (record { ins = []; is_variadic = false; outs = string literal ∷ [] }) false []
        TypeDescriptor.pointer))

registers_dlopen :
    register_func linux_amd64 any_interface nameless dlopen_type 4096 ≡ ok (some dlopen_closure)
unfolding register_func register_signature result_rules marker fixed_params arg_types return_type
    plan implement implement_fixed go_arg_type_to_ffi_type go_type_to_ffi_type numeric_descriptor
    slots slot has_wrapper floats refs doubles ends_in_float accepts_results
registers_dlopen = rw (try_register_fast_path_lem) refl

registers_dlerror :
    register_func linux_amd64 any_interface nameless dlerror_type 4096 ≡ ok (some dlerror_closure)
unfolding register_func register_signature result_rules marker fixed_params arg_types return_type
    plan implement implement_fixed go_arg_type_to_ffi_type go_type_to_ffi_type numeric_descriptor
    slots slot has_wrapper floats refs doubles ends_in_float accepts_results
registers_dlerror = rw (try_register_fast_path_lem) refl

symbols-Found : Found linux_amd64 any_interface nameless symbols dlopen_closure dlerror_closure
symbols-Found = record {
  dlopen_addr = 4096;
  dlerror_addr = 4096;
  finds_dlopen = refl;
  finds_dlerror = refl;
  registers_dlopen = registers_dlopen;
  registers_dlerror = registers_dlerror;
}

-- A C library that finds no file, and says so.
abbrev nothing_there : LibC
nothing_there = record {
  call_dlopen = λ f path mode pending. (0, codes "no such file");
  call_dlerror = λ g pending. (pending, []);
}

-- With the text of an earlier failure pending.
dlopen_lem_example :
    ((dlopen symbols
        (register_func linux_amd64 any_interface nameless)
        nothing_there
        fresh
        (codes "old")
        (codes "libx.so")
        2).result
      ≡ ok (inl (dlerror (codes "no such file"))))
    × ((dlopen symbols
          (register_func linux_amd64 any_interface nameless)
          nothing_there
          fresh
          (codes "old")
          (codes "libx.so")
          2).opener
        ≡ ready dlopen_closure dlerror_closure)
dlopen_lem_example =
    dlopen_lem linux_amd64 any_interface nameless symbols dlopen_closure dlerror_closure
      symbols-Found nothing_there fresh (codes "old") (codes "libx.so") 2 (λ p. refl) (inl refl)

-- Both functions are missing on the first call and there on the second.
abbrev no_symbols : GetSymbol
no_symbols handle name = inl []

abbrev too_early : Opened
too_early =
    dlopen no_symbols (register_func linux_amd64 any_interface nameless) nothing_there fresh []
      (codes "libx.so") 2

abbrev too_late : Opened
too_late =
    dlopen symbols (register_func linux_amd64 any_interface nameless) nothing_there too_early.opener
      [] (codes "libx.so") 2

dlopen-Settles_example :
    (too_late.opener ≡ too_early.opener)
    × Settles no_symbols (register_func linux_amd64 any_interface nameless) too_early too_late
dlopen-Settles_example =
    dlopen-Settles no_symbols symbols (register_func linux_amd64 any_interface nameless)
      (register_func linux_amd64 any_interface nameless) nothing_there nothing_there [] []
      (codes "libx.so") (codes "libx.so") 2 2

rtld_default_iff_example :
    (rtld_default_constant openbsd ≡ some (rtld_default openbsd)) ↔ (is_overlooked openbsd ≡ false)
rtld_default_iff_example = rtld_default_iff openbsd
