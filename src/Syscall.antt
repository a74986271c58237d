-- ===== src/Syscall.antt =====
-- syscall_unix.go: SyscallN, its prepared interfaces and its pooled contexts, and the errno access of
-- RegisterFunc's closure.
pub mod Delivery
mod Tests
use pureffi.Common.{
  ℕ, zero, suc, ◌+◌, ◌-◌, ◌%◌, ◌^◌, ◌==◌, ltb, Bool, true, false, List, [], ◌∷◌, Option, none, some,
  length, get_elem?, get_or, take, replicate, map, if◌then◌else◌,
}
use pureffi.Go.Outcome.{
  Outcome, ok, panic, fn_is_nil, too_many_arguments, interface_not_prepared, index_out_of_range,
}
use pureffi.Goffi.{TypeDescriptor, Members, member, CallInterface, default_call, ordinary}
use pureffi.Register.{Prepare}

-- &types.TypeDescriptor{Kind: types.StructType, …}: two words
abbrev pub result_type : TypeDescriptor
result_type =
    TypeDescriptor.struct 16 8
      (member TypeDescriptor.uint64 (member TypeDescriptor.uint64 Members.none))

abbrev pub syscall_interface : ℕ → CallInterface
syscall_interface n = record {
  convention = default_call;
  preparation = ordinary;
  ret_type = result_type;
  arg_types = replicate n TypeDescriptor.pointer;
}

-- syscallCIFs[i] and syscallCIFErrors[i]
pub record Prepared : Type 0 where
  pub cif : CallInterface
  pub error : Option ℕ

-- `count` turns of the loop, from i on.
unfoldable pub prepare_from : Prepare → ℕ → ℕ → List Prepared
prepare_from prepare i zero = []
prepare_from prepare i (suc count) =
    record { cif = syscall_interface i; error = prepare (syscall_interface i) }
    ∷ prepare_from prepare (suc i) count

-- for i := 0; i <= 32; i++
unfoldable pub init_syscall_cifs : Prepare → List Prepared
init_syscall_cifs prepare = prepare_from prepare 0 33

-- syscallContext: ffiArgs[i] is the index of the entry of args that it points to.
pub record SyscallContext : Type 0 where
  pub args : List ℕ
  pub ffi_args : List ℕ
  pub result : ℕ × ℕ

unfoldable pub count_up : ℕ → ℕ → List ℕ
count_up i zero = []
count_up i (suc n) = i ∷ count_up (suc i) n

-- syscallPool.New
unfoldable pub new_context : SyscallContext
new_context = record { args = replicate 32 0; ffi_args = count_up 0 32; result = (0, 0) }

-- copy(dst, src)
unfoldable pub copy : List ℕ → List ℕ → List ℕ
copy [] src = []
copy (d ∷ dst) [] = d ∷ dst
copy (d ∷ dst) (s ∷ src) = s ∷ copy dst src

-- ffi.CallFunction: from the interface, the function, the words behind the argument pointers and
-- the result buffer, the buffer after the call and the errno that was captured.
abbrev pub CallFunction : Type 0
CallFunction = CallInterface → ℕ → List ℕ → ℕ × ℕ → (ℕ × ℕ) × ℕ

-- int32(r1) == -1
unfoldable pub is_minus_one : ℕ → Bool
is_minus_one r1 = r1 % 2 ^ 32 == 4294967295

-- The results r1, r2 and err.
pub record Results : Type 0 where
  pub r1 : ℕ
  pub r2 : ℕ
  pub err : ℕ

unfoldable pub results : (ℕ × ℕ) × ℕ → Results
results (r, errno) = record { r1 = r.0; r2 = r.1; err = if is_minus_one r.0 then errno else 0 }

-- From `cif := &syscallCIFs[nArgs]` on, with a pooled context; the context goes back to the pool.
unfoldable pub call :
    CallFunction → CallInterface → ℕ → List ℕ → SyscallContext → Results × SyscallContext
call call_function cif fn args pooled =
    let stored = copy pooled.args args in
    let pointed = map (λ i. get_or stored i 0) (take (length args) pooled.ffi_args) in
    let outcome = call_function cif fn pointed (0, 0) in
    (results outcome, record { args = stored; ffi_args = pooled.ffi_args; result = outcome.0 })

-- `cifs` is what initSyscallCIFs has left.
unfoldable pub syscall_n :
    CallFunction → List Prepared → ℕ → List ℕ → SyscallContext → Outcome (Results × SyscallContext)
syscall_n call_function cifs fn args pooled =
    if fn == 0
    then panic fn_is_nil
    else if ltb 32 (length args)
    then panic too_many_arguments
    else elim (get_elem? cifs (length args)) [
      | none ↦ panic index_out_of_range
      | some p ↦ elim p.error [
        | some e ↦ panic (interface_not_prepared (length args) e)
        | none ↦ ok (call call_function p.cif fn args pooled)
      ]
    ]
