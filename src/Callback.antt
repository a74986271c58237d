-- ===== src/Callback.antt =====
-- purego.go: NewCallback, which hides a marker parameter from goffi.
pub mod Forward
mod Tests
use pureffi.Common.{
  ℕ, Bool, true, false, ◌||◌, List, [], ◌∷◌, ◌++◌, Option, if◌then◌else◌, replicate,
}
use pureffi.Go.Types.{GoType, struct, func, literal, Types, nil, cons}
use pureffi.Go.Layout.{size}
use pureffi.Go.Values.{Value}
use pureffi.Go.Outcome.{Outcome, ok, panic, callback_not_function}
use pureffi.Register.{is_cdecl, is_variadic_marker}

-- A Go function: its type, and what reflect's Call of it returns.
pub record Function : Type 0 where
  pub type : GoType
  pub run : List Value → List Value

unfoldable pub has_marker : Types → Bool
has_marker nil = false
has_marker (cons t ts) = is_cdecl t || is_variadic_marker t

-- for i := 1; i < ty.NumIn(); i++
abbrev pub rest : Types → Types
rest nil = nil
rest (cons t ts) = ts

-- reflect.Zero(ty.In(0)), for a marker.
abbrev pub zero_marker : Types → List Value
zero_marker (cons (struct d fs) ts) =
    Value.struct d fs (replicate (size (struct d fs)) 0) Option.none ∷ []
zero_marker _ = []

-- The closure of the wrapper: realArgs[0] is the marker, and the arguments follow.
abbrev pub forward : Types → (List Value → List Value) → List Value → List Value
forward ins run args = run (zero_marker ins ++ args)

-- The function that ffi.NewCallback is given.
unfoldable pub callback_function : Function → Outcome Function
callback_function f = elim f.type [
  | func d ins v outs ↦
      if has_marker ins
      then ok (record { type = func literal (rest ins) v outs; run = forward ins f.run })
      else ok f
  | _ ↦ panic callback_not_function
]
