-- ===== src/Objc/Accessor.antt =====
-- objc/objc_runtime_darwin.go: the functions that RegisterClass makes for the setter and the getter of a
-- field of an object.
pub mod RoundTrip
mod Tests
use pureffi.Common.{ℕ, ◌+◌, ◌==◌, Bool, List, [], ◌∷◌, length, if◌then◌else◌}
use pureffi.Go.Types.{GoType}
use pureffi.Go.Layout.{size}
use pureffi.Go.Identity.{same}
use pureffi.Go.Outcome.{Outcome, ok, panic, wrong_arguments, not_an_id, not_assignable}
use pureffi.CString.{Memory, copy, read}
use pureffi.Objc.Class.{is_id}

-- A reflect.Value by its type and the bytes of its memory; `word` is the number that an ID is.
pub record Arg : Type 0 where
  pub type : GoType
  pub word : ℕ
  pub bytes : List ℕ

-- reflect.NewAt(ivar.Type, id+offset).Elem().Set(value)
abbrev pub set_at : GoType → ℕ → Arg → Memory → Outcome Memory
set_at t a value m = if same t value.type then ok (copy m a value.bytes) else panic not_assignable

unfoldable pub run_setter : GoType → ℕ → List Arg → Memory → Outcome Memory
run_setter t offset (id ∷ (cmd ∷ (value ∷ []))) m =
    if is_id id.type then set_at t (id.word + offset) value m else panic not_an_id
run_setter t offset args m = panic wrong_arguments

-- The bytes of reflect.NewAt(ivar.Type, id+offset).Elem()
unfoldable pub run_getter : GoType → ℕ → List Arg → Memory → Outcome (List ℕ)
run_getter t offset (id ∷ (cmd ∷ [])) m =
    if is_id id.type then ok (read m (id.word + offset) (size t)) else panic not_an_id
run_getter t offset args m = panic wrong_arguments
