-- ===== src/Syscall/Tests.antt =====
-- Calls of SyscallN with concrete arguments.
use pureffi.Common.{◌≡◌, refl, [], ◌∷◌, none, replicate}
use pureffi.Go.Outcome.{ok, panic, too_many_arguments}
use pureffi.Register.{Prepare}
use pureffi.Syscall.{CallFunction, SyscallContext, new_context, init_syscall_cifs, syscall_n}
use pureffi.Syscall.Delivery.{Linked, new_context-Linked, syscall_spec, syscall_n_lem}

-- open(2) that fails with ENOENT, as a 32-bit int.
abbrev fails : CallFunction
fails cif fn args r = ((4294967295, 0), 2)

abbrev any_interface : Prepare
any_interface cif = none

syscall_n_lem_example :
    (after : SyscallContext) × (syscall_n fails
        (init_syscall_cifs any_interface)
        4096
        (64 ∷ 0 ∷ [])
        new_context
      ≡ ok (record { r1 = 4294967295; r2 = 0; err = 2 }, after))
    × Linked after
unfolding syscall_spec
syscall_n_lem_example =
    syscall_n_lem fails any_interface 4096 (64 ∷ 0 ∷ []) new_context new_context-Linked

thirty_three :
    syscall_n fails (init_syscall_cifs any_interface) 4096 (replicate 33 0) new_context
    ≡ panic too_many_arguments
unfolding syscall_n
thirty_three = refl
