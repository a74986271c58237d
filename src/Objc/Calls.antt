-- ===== src/Objc/Calls.antt =====
-- objc/objc_runtime_darwin.go: the calls that package objc makes of the Objective-C runtime, as a log, and
-- statements that make them and may end early.
use pureffi.Common.{ℕ, Bool, List, ◌∷◌, if◌then◌else◌}
use pureffi.Go.Types.{GoType}
use pureffi.Go.Outcome.{Outcome, ok, panic, Panic}
use pureffi.Objc.{EncodeError, Coded, encoded, refused}

-- The functions that get an IMP: one of the caller's, and the accessors of a field of a type at an
-- offset, which reflect.MakeFunc makes.
pub data Method : Type 0 where
  given : ℕ → Method
  setter getter : GoType → ℕ → Method

-- One call of the runtime, or of purego.NewCallback; texts are lists of bytes.
pub data Call : Type 0 where
  allocate_class_pair : ℕ → List ℕ → Call
  add_protocol : ℕ → ℕ → Call
  new_callback : Method → GoType → Call
  register_name : List ℕ → Call
  add_method : ℕ → ℕ → ℕ → List ℕ → Call
  add_ivar : ℕ → List ℕ → ℕ → ℕ → List ℕ → Call
  get_instance_variable : ℕ → List ℕ → Call
  get_offset : ℕ → Call
  register_class_pair : ℕ → Call

-- The calls that have been made, the last one first.
abbrev pub Log : Type 0
Log = List Call

-- What the other code does: what a call of the runtime returns after the calls before it, false being
-- 0; what purego.NewCallback returns, or its panic; string(unicode.ToUpper(rune(b))) for a byte.
pub record Env : Type 0 where
  pub answer : Log → Call → ℕ
  pub callback : Log → Method → GoType → Outcome ℕ
  pub upper : ℕ → List ℕ

-- The errors of RegisterClass; fields are named by their names, methods by their indices.
pub data ClassError : Type 0 where
  class_not_created : List ℕ → ClassError
  protocol_not_added : ℕ → ClassError
  imp_not_created method_not_added : ℕ → ClassError
  method_not_encoded : ℕ → EncodeError → ClassError
  ivar_name_refused ivar_not_added : List ℕ → ClassError
  ivar_not_encoded accessor_not_encoded : List ℕ → EncodeError → ClassError
  unknown_attribute : ℕ → ClassError

-- A statement goes on with a value, returns an error, or panics.
pub data End {ℓ} (A : Type ℓ) : Type ℓ where
  done : A → End A
  failed : ClassError → End A
  panicked : Panic → End A

abbrev pub Run {ℓ} : Type ℓ → Type ℓ
Run A = Log → End A × Log

abbrev pub go_on {ℓ κ} : {A : Type ℓ} {B : Type κ} → (A → Run B) → End A × Log → End B × Log
go_on k (done a, log) = k a log
go_on k (failed e, log) = (failed e, log)
go_on k (panicked p, log) = (panicked p, log)

infixl 5 ◌>>=◌
unfoldable pub ◌>>=◌ {ℓ κ} : {A : Type ℓ} {B : Type κ} → Run A → (A → Run B) → Run B
(r >>= k) log = go_on k (r log)

infixl 5 ◌>>◌
abbrev pub ◌>>◌ {ℓ} : {B : Type ℓ} → Run (Unit {0}) → Run B → Run B
r >> s = r >>= λ u. s

unfoldable pub pure {ℓ} : {A : Type ℓ} → A → Run A
pure a log = (done a, log)

unfoldable pub fail {ℓ} : {A : Type ℓ} → ClassError → Run A
fail e log = (failed e, log)

unfoldable pub raise {ℓ} : {A : Type ℓ} → Panic → Run A
raise p log = (panicked p, log)

abbrev pub ends_in : Outcome ℕ → End ℕ
ends_in (ok n) = done n
ends_in (panic p) = panicked p

unfoldable pub ask : Env → Call → Run ℕ
ask env c log = (done (env.answer log c), c ∷ log)

unfoldable pub ask_callback : Env → Method → GoType → Run ℕ
ask_callback env fn typ log = (ends_in (env.callback log fn typ), new_callback fn typ ∷ log)

-- if !b { return 0, e }
unfoldable pub ensure : Bool → ClassError → Run (Unit {0})
ensure b e = if b then pure tt else fail e

-- if err != nil { return 0, e(err) }
unfoldable pub text_or : (EncodeError → ClassError) → Coded → Run (List ℕ)
text_or e (encoded s) = pure s
text_or e (refused r) = fail (e r)

abbrev pub recover_from : ClassError → End ℕ × Log → End ℕ × Log
recover_from e (panicked p, log) = (failed e, log)
recover_from e (done n, log) = (done n, log)
recover_from e (failed f, log) = (failed f, log)

-- A statement with a deferred recover.
unfoldable pub recovered : ClassError → Run ℕ → Run ℕ
recovered e r log = recover_from e (r log)
