-- ===== src/NsStrings.antt =====
-- cstrings/nsstrings_darwin.go: init, and NSStringToString with the messages that it sends.
pub mod Reads
mod Tests
use pureffi.Common.{
  ℕ, ◌+◌, ◌==◌, ◌⊎◌, inl, inr, List, [], ◌∷◌, ◌++◌, Option, none, some, codes, if◌then◌else◌,
}
use pureffi.Go.Outcome.{Outcome, ok, panic, symbol_error, not_a_string}
use pureffi.Go.Platform.{darwin}
use pureffi.Loader.{LoadError}
use pureffi.Loader.Modes.{modes}
use pureffi.Symbol.{error_text}
use pureffi.CString.{Memory}
use pureffi.InternalStrings.{go_string}

-- sel_isKindOf, sel_UTF8String and class_NSString.
pub record Symbols : Type 0 where
  pub sel_is_kind_of : ℕ
  pub sel_utf8_string : ℕ
  pub class_ns_string : ℕ

-- purego.Dlopen, objc.RegisterName, objc.GetClass, and (objc.ID).Send with arguments that are words.
pub record Runtime : Type 0 where
  pub dlopen : List ℕ → ℕ → LoadError ⊎ ℕ
  pub register_name : List ℕ → ℕ
  pub get_class : List ℕ → ℕ
  pub send : ℕ → ℕ → List ℕ → ℕ

abbrev pub foundation_path : List ℕ
foundation_path = codes "/System/Library/Frameworks/Foundation.framework/Foundation"

-- RTLD_GLOBAL|RTLD_NOW: the flags have no bit in common.
abbrev pub global_now : ℕ
global_now = (modes darwin).rtld_global + (modes darwin).rtld_now

unfoldable pub init : Runtime → Outcome Symbols
init objc = elim (objc.dlopen foundation_path global_now) [
  | inl e ↦ panic (symbol_error (codes "cstrings: " ++ error_text e))
  | inr handle ↦ ok (record {
    sel_is_kind_of = objc.register_name (codes "isKindOfClass:");
    sel_utf8_string = objc.register_name (codes "UTF8String");
    class_ns_string = objc.get_class (codes "NSString");
  })
]

-- `none` in the result: out of fuel.
unfoldable pub ns_string_to_string : Runtime → Symbols → ℕ → Memory → ℕ → Outcome (Option (List ℕ))
ns_string_to_string objc s fuel m str =
    if str == 0
    then ok (some [])
    else if objc.send str s.sel_is_kind_of (s.class_ns_string ∷ []) == 0
    then panic not_a_string
    else ok (go_string fuel m (objc.send str s.sel_utf8_string []))
