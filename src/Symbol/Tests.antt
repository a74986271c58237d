-- ===== src/Symbol/Tests.antt =====
-- The symbol at an address, in a memory that holds "ob".
use pureffi.Common.{
  ℕ, ◌==◌, ◌≡◌, inl, inr, refl, arith, true, false, ◌&&◌, ◌||◌, not, List, [], ◌∷◌, none, some,
  codes, has_prefix, is_empty, if◌then◌else◌,
}
use pureffi.Go.Platform.{Platform, linux, amd64}
use pureffi.Go.Types.{literal, int32, number, interface, slice, other, Signature}
use pureffi.Go.Outcome.{ok, panic, symbol_error, cfn_is_nil}
use pureffi.Goffi.{TypeDescriptor}
use pureffi.Descriptor.{go_arg_type_to_ffi_type, go_type_to_ffi_type, numeric_descriptor}
use pureffi.Register.{
  slow, SlowFunc, Prepare, result_rules, marker, guess_c_variadic, fixed_params, arg_types,
  return_type, plan, implement, register_signature, register_func,
}
use pureffi.CString.{Memory}
use pureffi.Loader.{GetSymbol, dlsym}
use pureffi.Symbol.{SymbolVars, init_dladdr, dladdr_once, get_symbol_name, register_lib_func}
use pureffi.Symbol.Name.{Known, IsName, symbol_name_of, get_symbol_name-IsName}

abbrev linux_amd64 : Platform
linux_amd64 = record { goos = linux; goarch = amd64 }

-- "ob" at address 64, and NUL bytes elsewhere.
abbrev text_at_64 : Memory
text_at_64 a = if a == 64 then 111 else if a == 65 then 98 else 0

abbrev found : GetSymbol
found handle name = inr 512

abbrev unset : SymbolVars
unset = record { done = false; dladdr_fn = 0 }

abbrev any_interface : Prepare
any_interface cif = none

-- func(int32, ...any)
abbrev logs : Signature
logs = record {
  ins = number literal int32 ∷ slice literal (other literal interface) ∷ [];
  is_variadic = true;
  outs = [];
}

abbrev name_at : ℕ → List ℕ
name_at = symbol_name_of linux found (λ fn addr. (1, 64)) 8 text_at_64 unset

abbrev logs_closure : SlowFunc
logs_closure =
    plan linux_amd64 name_at 4096 logs false (TypeDescriptor.sint32 ∷ []) TypeDescriptor.void

registers_logs :
    register_signature linux_amd64 any_interface name_at 4096 logs ≡ ok (some (slow logs_closure))
unfolding register_signature result_rules marker guess_c_variadic fixed_params arg_types return_type
    plan implement go_arg_type_to_ffi_type go_type_to_ffi_type numeric_descriptor
registers_logs = refl

get_symbol_name-IsName_example :
    (name : List ℕ) × ((get_symbol_name linux found (λ fn addr. (1, 64)) 8 text_at_64 unset 4096).0
      ≡ some name)
    × IsName text_at_64 (1, 64) name
    × (logs_closure.is_c_variadic
        ≡ not (has_prefix (codes "objc_msgSend") name || (is_empty name && false)))
unfolding dladdr_once init_dladdr dlsym
get_symbol_name-IsName_example =
    get_symbol_name-IsName linux_amd64 found (λ fn addr. (1, 64)) 8 text_at_64 unset any_interface
      4096 logs logs_closure refl (omega arith)
      (Known.named 2 (omega arith) (omega arith) refl (omega arith)) refl registers_logs

missing_symbol :
    register_lib_func linux_amd64
      (λ c. none)
      (λ a. [])
      (λ h n. inl (codes "undefined"))
      (number literal int32)
      0
      (codes "f")
    ≡ panic (symbol_error (codes "undefined"))
unfolding register_lib_func dlsym
missing_symbol = refl

null_symbol :
    register_lib_func linux_amd64
      (λ c. none)
      (λ a. [])
      (λ h n. inr 0)
      (number literal int32)
      0
      (codes "f")
    ≡ panic cfn_is_nil
unfolding register_lib_func dlsym register_func
null_symbol = refl
