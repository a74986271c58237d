-- ===== src/Symbol.antt =====
-- sym_unix.go: getSymbolName; purego.go: RegisterLibFunc.
pub mod Name
mod Tests
use pureffi.Common.{
  ℕ, ◌==◌, ◌⊎◌, inl, inr, Bool, true, false, ◌&&◌, not, List, [], Option, none, some, codes,
  if◌then◌else◌,
}
use pureffi.Go.Platform.{Os, Platform, is_windows}
use pureffi.Go.Types.{GoType}
use pureffi.Go.Outcome.{Outcome, ok, panic, symbol_error}
use pureffi.Register.{Implementation, Prepare, register_func}
use pureffi.CString.{Memory, c_string_to_go_string}
use pureffi.Loader.{LoadError, dlerror, foreign, plain, GetSymbol, dlsym, rtld_default}

-- dladdrOnce and dladdrFn.
pub record SymbolVars : Type 0 where
  pub done : Bool
  pub dladdr_fn : ℕ

-- The function that dladdrOnce runs.
unfoldable pub init_dladdr : Os → GetSymbol → SymbolVars → SymbolVars
init_dladdr os get_symbol v = elim (dlsym os get_symbol (rtld_default os) (codes "dladdr")) [
  | inl e ↦ v
  | inr sym ↦ if sym == 0 then v else record v { dladdr_fn = sym }
]

unfoldable pub dladdr_once : Os → GetSymbol → SymbolVars → SymbolVars
dladdr_once os get_symbol v =
    if v.done then v else init_dladdr os get_symbol (record v { done = true })

-- The call of dladdr: res, and info.dli_sname.
abbrev pub Dladdr : Type 0
Dladdr = ℕ → ℕ → ℕ × ℕ

abbrev pub name_from : ℕ → Memory → ℕ × ℕ → Option (List ℕ)
name_from fuel m (res, sname) =
    if not (res == 0) && not (sname == 0) then c_string_to_go_string fuel m sname else some []

-- `none`: out of fuel. On Windows the function returns "".
unfoldable pub get_symbol_name :
    Os → GetSymbol → Dladdr → ℕ → Memory → SymbolVars → ℕ → Option (List ℕ) × SymbolVars
get_symbol_name os get_symbol dladdr fuel m v addr =
    if is_windows os
    then (some [], v)
    else (let v' = dladdr_once os get_symbol v in
        (if v'.dladdr_fn == 0 then some [] else name_from fuel m (dladdr v'.dladdr_fn addr), v'))

-- err.Error()
abbrev pub error_text : LoadError → List ℕ
error_text (dlerror s) = s
error_text (foreign s) = s
error_text (plain s) = s

unfoldable pub register_lib_func :
    Platform
    → Prepare
    → (ℕ → List ℕ)
    → GetSymbol
    → GoType
    → ℕ
    → List ℕ
    → Outcome (Option Implementation)
register_lib_func p prepare symbol_name get_symbol type handle name =
    elim (dlsym p.goos get_symbol handle name) [
      | inl e ↦ panic (symbol_error (error_text e))
      | inr sym ↦ register_func p prepare symbol_name type sym
    ]
