-- ===== src/Probe/Tests.antt =====
-- cmd/universal-probe/main.go: a system on which all is well, and one with a library missing.
use pureffi.Common.{
  ℕ, ◌-◌, ◌^◌, ◌==◌, ◌≡◌, refl, inl, inr, [], ◌∷◌, none, codes, if◌then◌else◌, length,
}
use pureffi.Go.Outcome.{ok}
use pureffi.Go.Platform.{linux}
use pureffi.Loader.{plain, dlsym, dlclose}
use pureffi.InternalStrings.{list_eq}
use pureffi.Probe.{
  Environment, probe_ok, failed, dlopen_failed, cmp, now_global, in_order, greater, close_library,
  probe_callback, probe_syscalls, probe_functions, main,
}
use pureffi.Probe.Passed.{FunctionsPassed, main-Passed}

-- getpid is at address 16 and close at 24.
abbrev small_libc : Environment
small_libc = record {
  os = linux;
  dlopen = λ path mode. if list_eq path (codes "libc.so.6") then inr 8 else inl (plain []);
  get_symbol = λ handle name. if list_eq name (codes "getpid") then inr 16 else inr 24;
  free_library = λ handle. none;
  register_counter = λ handle name. ok length;
  register_reader = λ handle name. ok (λ text. 0x400C000000000000);
  register_sorter = λ handle name. ok (λ xs n size address. 1 ∷ 3 ∷ 4 ∷ 5 ∷ 9 ∷ []);
  syscall_n = λ fn args. if fn == 16 then ok (321, 0, 0) else ok (2 ^ 64 - 1, 0, 9);
  new_callback = λ f. 4096;
  calls = λ address. cmp;
}

small_libc_passes : main small_libc ≡ probe_ok
unfolding main probe_functions probe_syscalls probe_callback close_library in_order greater dlsym
    dlclose
small_libc_passes = refl

main-Passed_example :
    (small_libc.os ≡ linux)
    × ((handle : ℕ) × (small_libc.dlopen (codes "libc.so.6") now_global ≡ inr handle)
        × FunctionsPassed small_libc handle)
main-Passed_example = main-Passed small_libc small_libc_passes

without_libc :
    main (record small_libc { dlopen = λ path mode. inl (plain []) })
    ≡ failed (dlopen_failed (plain []))
unfolding main
without_libc = refl
