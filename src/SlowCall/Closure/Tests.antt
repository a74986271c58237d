-- ===== src/SlowCall/Closure/Tests.antt =====
-- A call of close through the closure: func(int32) error.
use pureffi.Common.{
  ℕ, ◌==◌, ◌≡◌, ◌+◌, inr, refl, arith, true, false, List, [], ◌∷◌, none, some, if◌then◌else◌,
}
use pureffi.Go.Platform.{Platform, linux, amd64}
use pureffi.Go.Types.{literal, defined, int32, interface, number, other, Signature}
use pureffi.Go.Values.{Value, scalar}
use pureffi.Go.Outcome.{ok, panic, cfn_is_nil}
use pureffi.Goffi.{TypeDescriptor}
use pureffi.Descriptor.{go_arg_type_to_ffi_type, go_type_to_ffi_type, numeric_descriptor}
use pureffi.Register.{
  slow, SlowFunc, Prepare, interface_of, result_rules, marker, fixed_params, arg_types, return_type,
  plan, implement, implement_fixed, register_signature,
}
use pureffi.Register.Rules.{with_interface}
use pureffi.Loader.{dlsym, rtld_default}
use pureffi.Errno.{init_errno, errno_once, get_errno_ptr}
use pureffi.SlowCall.{
  new_context, pack_arg, store_arg, store_kept, store_packed, pack_one, pack_fixed, pack_variadic,
  clean_up, pack_call,
}
use pureffi.SlowCall.Call.{Passed, call_interface, pass, slow_call}
use pureffi.SlowCall.Return.{Returned}
use pureffi.SlowCall.Return.Fits.{Fits}
use pureffi.SlowCall.Closure.{Env, Start, closure_call}
use pureffi.SlowCall.Closure.Results.{errno_address, cleared, closure_call-errno}

abbrev linux_amd64 : Platform
linux_amd64 = record { goos = linux; goarch = amd64 }

abbrev any_interface : Prepare
any_interface cif = none

abbrev nameless : ℕ → List ℕ
nameless cfn = []

-- func(int32) error
abbrev close : Signature
close = record {
  ins = number literal int32 ∷ [];
  is_variadic = false;
  outs = other (defined "" "error") interface ∷ [];
}

abbrev close_closure : SlowFunc
close_closure =
    with_interface
      (plan linux_amd64 nameless 4096 close true (TypeDescriptor.sint32 ∷ []) TypeDescriptor.void)

registers_close :
    register_signature linux_amd64 any_interface nameless 4096 close
    ≡ ok (some (slow close_closure))
unfolding register_signature result_rules marker fixed_params arg_types return_type plan implement
    implement_fixed go_arg_type_to_ffi_type go_type_to_ffi_type numeric_descriptor
registers_close = refl

-- Thread t has its errno at 64 + t, and close fails with EBADF.
abbrev env : Env
env = record {
  os = linux;
  get_symbol = λ handle name. inr 512;
  prepare = any_interface;
  new_callback = λ f. f;
  call_function = λ passed cfn thread cells. inr (record {
    bytes = [];
    cells = λ a. if a == 64 + thread then 9 else cells a;
    memory = λ a. 0;
  });
  location = λ fn thread. 64 + thread;
  register = λ t cfn. panic cfn_is_nil;
  fuel = 1;
}

-- On thread 1, with ENOENT left in its errno; the scheduler would move the call to thread 2.
abbrev start : Start
start = record {
  pooled = new_context;
  heap = [];
  thread = 1;
  thread' = 2;
  errno_vars = record { done = false; errno_fn = 0 };
  cells = λ a. 2;
}

abbrev args : List Value
args = Value.number literal int32 7 ∷ []

abbrev passed : Passed
passed = record {
  cif = interface_of close_closure;
  pointers = some 0 ∷ [];
  memory = scalar int32 7 ∷ [];
}

passes_close : slow_call any_interface (λ f. f) close_closure new_context [] args [] ≡ ok passed
unfolding slow_call pass call_interface pack_call clean_up pack_fixed pack_one store_packed pack_arg
    store_arg store_kept pack_variadic plan
passes_close = refl

address_is_65 : errno_address env start ≡ 65
unfolding get_errno_ptr errno_once init_errno dlsym rtld_default
address_is_65 = refl

closure_call-errno_example :
    (rs : List Returned) × (closure_call env close_closure 4096 start args [] ≡ ok rs)
    × Fits env.register (λ a. 0) [] 9 close.outs rs
unfolding result_rules get_errno_ptr errno_once init_errno dlsym rtld_default
closure_call-errno_example =
    closure_call-errno linux_amd64 any_interface nameless close close_closure env 4096 start args []
      passed
      (record {
        bytes = [];
        cells = λ a. if a == 65 then 9 else cleared 65 (λ b. 2) a;
        memory = λ a. 0;
      })
      registers_close refl (omega arith) passes_close refl tt
