-- ===== src/Objc/Send.antt =====
-- objc/objc_runtime_darwin.go: Send and SendSuper with a result type, up to the function that they call.
pub mod Plain
mod Tests
use pureffi.Common.{ℕ, ltb, Bool, true, false, ◌&&◌, List, Option, if◌then◌else◌}
use pureffi.Go.Platform.{Platform, Arch, amd64}
use pureffi.Go.Types.{
  GoType, struct, slice, pointer, other, interface, func, literal, defined, nil, cons, field, end,
}
use pureffi.Go.Layout.{size}
use pureffi.Go.Outcome.{Outcome}
use pureffi.Register.{Implementation, Prepare, register_func}
use pureffi.Objc.Class.{id_type, sel_type}

-- objc_msgSend_fn, objc_msgSend_stret_fn, objc_msgSendSuper2_fn and objc_msgSendSuper2_stret_fn
pub record MessageFunctions : Type 0 where
  pub msg_send : ℕ
  pub msg_send_stret : ℕ
  pub msg_send_super2 : ℕ
  pub msg_send_super2_stret : ℕ

abbrev pub max_reg_alloc_struct_size : ℕ
max_reg_alloc_struct_size = 16

abbrev pub is_struct : GoType → Bool
is_struct (struct d fs) = true
is_struct _ = false

abbrev pub is_amd64 : Arch → Bool
is_amd64 amd64 = true
is_amd64 _ = false

abbrev pub returns_by_stret : Platform → GoType → Bool
returns_by_stret p t = is_amd64 p.goarch && is_struct t && ltb max_reg_alloc_struct_size (size t)

-- ...any
abbrev pub args_type : GoType
args_type = slice literal (other literal interface)

-- *objc_super, without its padding
abbrev pub super_type : GoType
super_type = pointer literal (
    struct (defined "github.com/ebitengine/purego/objc" "objc_super")
      (field "receiver" id_type (field "superClass" id_type end)))

-- func(id ID, sel SEL, args ...any) T, and with *objc_super in place of ID
abbrev pub message_type : GoType → GoType → GoType
message_type receiver t =
    func literal (cons receiver (cons sel_type (cons args_type nil))) true (cons t nil)

abbrev pub send_address : Platform → MessageFunctions → GoType → ℕ
send_address p m t = if returns_by_stret p t then m.msg_send_stret else m.msg_send

abbrev pub send_super_address : Platform → MessageFunctions → GoType → ℕ
send_super_address p m t =
    if returns_by_stret p t then m.msg_send_super2_stret else m.msg_send_super2

-- The value of fn in Send[T] and SendSuper[T].
unfoldable pub send :
    Platform → Prepare → (ℕ → List ℕ) → MessageFunctions → GoType → Outcome (Option Implementation)
send p prepare symbol_name m t =
    register_func p prepare symbol_name (message_type id_type t) (send_address p m t)

unfoldable pub send_super :
    Platform → Prepare → (ℕ → List ℕ) → MessageFunctions → GoType → Outcome (Option Implementation)
send_super p prepare symbol_name m t =
    register_func p prepare symbol_name (message_type super_type t) (send_super_address p m t)
