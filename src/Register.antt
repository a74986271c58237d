-- ===== src/Register.antt =====
-- purego.go, RegisterFunc and RegisterLibFunc up to the call: the checks on the function type, the
-- interface that is prepared, and which implementation the function variable gets.
pub mod Markers
pub mod Rules
pub mod Delivery
pub mod Concurrent
mod Tests
use mathlib.Core.Option
use pureffi.Common.{
  ℕ, zero, suc, ◌-◌, ◌==◌, ltb, Bool, true, false, ◌&&◌, ◌||◌, not, List, [], ◌∷◌, Option, none,
  some, if◌then◌else◌, length, take, drop, codes, has_prefix, is_empty,
}
use pureffi.Go.Platform.{Platform, is_darwin}
use pureffi.Go.Types.{GoType, func, struct, Signature, to_list, is_declared, decl}
use pureffi.Go.Outcome.{
  Outcome, ok, panic, cfn_is_nil, not_function_pointer, too_many_results, second_result_not_error,
  foreign_error, symbol_error, ◌>>=◌,
}
use pureffi.Goffi.{
  TypeDescriptor, Convention, default_call, unix_calling_convention, Preparation, ordinary,
  CallInterface,
}
use pureffi.Descriptor.{go_type_to_ffi_type, go_arg_type_to_ffi_type}
use pureffi.FastPath.Slots.{Wrapper}
use pureffi.FastPath.Signature.{Attempt, try_register_fast_path}

abbrev pub is_error_type : GoType → Bool
is_error_type t = is_declared "" "error" (decl t)

-- The markers are the struct types CDecl and Variadic of this package.
abbrev pub is_cdecl : GoType → Bool
is_cdecl (struct d fs) = is_declared "github.com/ebitengine/purego" "CDecl" d
is_cdecl _ = false

abbrev pub is_variadic_marker : GoType → Bool
is_variadic_marker (struct d fs) = is_declared "github.com/ebitengine/purego" "Variadic" d
is_variadic_marker _ = false

-- The checks on the results: whether the last of them reports errno.
unfoldable pub result_rules : List GoType → Outcome Bool
result_rules [] = ok false
result_rules (r ∷ []) = ok (is_error_type r)
result_rules (r ∷ (e ∷ [])) = if is_error_type e then ok true else panic second_result_not_error
result_rules (r ∷ (e ∷ (x ∷ xs))) = panic too_many_results

-- convention, isCVariadic by its marker, and startIn
pub record Marker : Type 0 where
  pub convention : Convention
  pub is_c_variadic : Bool
  pub start_in : ℕ

unfoldable pub marker : List GoType → Marker
marker [] = record { convention = default_call; is_c_variadic = false; start_in = 0 }
marker (t ∷ ts) =
    if is_cdecl t
    then record { convention = unix_calling_convention; is_c_variadic = false; start_in = 1 }
    else if is_variadic_marker t
    then record { convention = default_call; is_c_variadic = true; start_in = 1 }
    else record { convention = default_call; is_c_variadic = false; start_in = 0 }

-- The heuristic for a Go variadic function without the marker, from the C function's symbol name.
unfoldable pub guess_c_variadic : Platform → List ℕ → Bool
guess_c_variadic p sym_name =
    if has_prefix (codes "objc_msgSend") sym_name
    then false
    else if is_empty sym_name && is_darwin p.goos
    then false
    else true

-- for i := startIn; i < fixedIn; i++
unfoldable pub fixed_params : ℕ → ℕ → List GoType → List GoType
fixed_params start_in fixed_in ins = drop start_in (take fixed_in ins)

unfoldable pub arg_types : List GoType → Outcome (List TypeDescriptor)
arg_types [] = ok []
arg_types (t ∷ ts) = do d ← go_arg_type_to_ffi_type t; ds ← arg_types ts; ok (d ∷ ds)

unfoldable pub return_type : List GoType → Bool → Outcome TypeDescriptor
return_type (r ∷ (e ∷ es)) has_error = go_type_to_ffi_type r
return_type (r ∷ []) has_error = if has_error then ok TypeDescriptor.void else go_type_to_ffi_type r
return_type [] has_error = ok TypeDescriptor.void

-- What the slow path's closure captures.
pub record SlowFunc : Type 0 where
  pub signature : Signature
  pub has_error : Bool
  pub start_in : ℕ
  pub fixed_in : ℕ
  pub is_c_variadic : Bool
  pub convention : Convention
  pub fixed_arg_types : List TypeDescriptor
  pub ret_type : TypeDescriptor
  -- nil stands for the zero CallInterface of a variadic function.
  pub fixed_cif : Option CallInterface

-- What fn is set to: a generated wrapper over the prepared interface, or the reflect closure.
pub data Implementation : Type 0 where
  fast : Wrapper → CallInterface → Implementation
  slow : SlowFunc → Implementation

-- ffi.PrepareCallInterface and ffi.PrepareVariadicCallInterface: `none` for a nil error.
abbrev pub Prepare : Type 0
Prepare = CallInterface → Option ℕ

abbrev pub prepared : Prepare → CallInterface → Outcome CallInterface
prepared prepare cif = elim (prepare cif) [ none ↦ ok cif | some e ↦ panic (foreign_error e) ]

-- `if tryRegisterFastPath(…) { return }`, and else fn.Set(v). An attempt that reports true without
-- setting fn would leave fn nil.
abbrev pub settle : SlowFunc → CallInterface → Attempt → Option Implementation
settle f cif a = if a.reported then Option.map (λ w. fast w cif) a.installed else some (slow f)

-- The interface of a function that is not variadic, prepared at once.
abbrev pub interface_of : SlowFunc → CallInterface
interface_of f = record {
  convention = f.convention;
  preparation = ordinary;
  ret_type = f.ret_type;
  arg_types = f.fixed_arg_types;
}

unfoldable pub implement_fixed : Platform → Prepare → SlowFunc → Outcome (Option Implementation)
implement_fixed p prepare f = do
  cif ← prepared prepare (interface_of f)
  let f' = record f { fixed_cif = some cif }
  ok (if f.has_error then some (slow f') else settle f' cif (try_register_fast_path p f.signature))

unfoldable pub implement : Platform → Prepare → SlowFunc → Outcome (Option Implementation)
implement p prepare f =
    if f.signature.is_variadic then ok (some (slow f)) else implement_fixed p prepare f

-- fixedIn
abbrev pub fixed_in_of : Signature → ℕ
fixed_in_of sig = if sig.is_variadic then length sig.ins - 1 else length sig.ins

-- The variables of RegisterFunc before an interface is prepared; `symbol_name` is getSymbolName.
unfoldable pub plan :
    Platform → (ℕ → List ℕ) → ℕ → Signature → Bool → List TypeDescriptor → TypeDescriptor → SlowFunc
plan p symbol_name cfn sig has_error types ret = record {
  signature = sig;
  has_error = has_error;
  start_in = (marker sig.ins).start_in;
  fixed_in = fixed_in_of sig;
  is_c_variadic =
      if sig.is_variadic && not (marker sig.ins).is_c_variadic
      then guess_c_variadic p (symbol_name cfn)
      else (marker sig.ins).is_c_variadic;
  convention = (marker sig.ins).convention;
  fixed_arg_types = types;
  ret_type = ret;
  fixed_cif = none;
}

-- The body of RegisterFunc from `numOut := ty.NumOut()` on.
unfoldable pub register_signature :
    Platform → Prepare → (ℕ → List ℕ) → ℕ → Signature → Outcome (Option Implementation)
register_signature p prepare symbol_name cfn sig = do
  has_error ← result_rules sig.outs
  types ← arg_types (fixed_params (marker sig.ins).start_in (fixed_in_of sig) sig.ins)
  ret ← return_type sig.outs has_error
  implement p prepare (plan p symbol_name cfn sig has_error types ret)

-- RegisterFunc, given the type of *fptr; the value that *fptr gets.
unfoldable pub register_func :
    Platform → Prepare → (ℕ → List ℕ) → GoType → ℕ → Outcome (Option Implementation)
register_func p prepare symbol_name (func d ins v outs) cfn =
    if cfn == 0
    then panic cfn_is_nil
    else register_signature p prepare symbol_name cfn
        (record { ins = to_list ins; is_variadic = v; outs = to_list outs })
register_func p prepare symbol_name t cfn =
    if cfn == 0 then panic cfn_is_nil else panic not_function_pointer
