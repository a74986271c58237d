-- ===== src/Descriptor.antt =====
-- purego.go, goTypeToFfiType and goArgTypeToFfiType: the descriptor that goffi is given for a Go type.
pub mod Domain
mod Tests
use pureffi.Common.{ℕ, zero, suc}
use pureffi.Go.Types.{
  Decl, Numeric, int, int8, int16, int32, int64, uint, uint8, uint16, uint32, uint64, uintptr,
  float32, float64, GoType, bool, number, string, unsafe_pointer, pointer, slice, array, struct,
  func, other, Fields, end, field,
}
use pureffi.Go.Layout.{size, align}
use pureffi.Go.Outcome.{Outcome, ok, panic, unsupported_kind, ◌>>=◌}
use pureffi.Goffi.{TypeDescriptor, Members, repeat_member}

unfoldable pub numeric_descriptor : Numeric → TypeDescriptor
numeric_descriptor int8 = TypeDescriptor.sint8
numeric_descriptor uint8 = TypeDescriptor.uint8
numeric_descriptor int16 = TypeDescriptor.sint16
numeric_descriptor uint16 = TypeDescriptor.uint16
numeric_descriptor int32 = TypeDescriptor.sint32
numeric_descriptor uint32 = TypeDescriptor.uint32
numeric_descriptor int64 = TypeDescriptor.sint64
numeric_descriptor int = TypeDescriptor.sint64
numeric_descriptor uint64 = TypeDescriptor.uint64
numeric_descriptor uint = TypeDescriptor.uint64
numeric_descriptor uintptr = TypeDescriptor.uint64
numeric_descriptor float32 = TypeDescriptor.float
numeric_descriptor float64 = TypeDescriptor.double

unfoldable mutual
  pub go_type_to_ffi_type : GoType → Outcome TypeDescriptor
  go_type_to_ffi_type (bool d) = ok TypeDescriptor.uint8
  go_type_to_ffi_type (number d k) = ok (numeric_descriptor k)
  go_type_to_ffi_type (string d) = ok TypeDescriptor.pointer
  go_type_to_ffi_type (unsafe_pointer d) = ok TypeDescriptor.pointer
  go_type_to_ffi_type (pointer d t) = ok TypeDescriptor.pointer
  go_type_to_ffi_type (slice d t) = ok TypeDescriptor.pointer
  go_type_to_ffi_type (array d n t) = do
    elem_desc ← go_type_to_ffi_type t
    ok (
        TypeDescriptor.struct (size (array d n t)) (align (array d n t))
          (repeat_member n elem_desc))
  go_type_to_ffi_type (struct d fs) = do
    members ← field_descriptors fs
    ok (TypeDescriptor.struct (size (struct d fs)) (align (struct d fs)) members)
  go_type_to_ffi_type (func d ins v outs) = ok TypeDescriptor.pointer
  go_type_to_ffi_type (other d k) = panic (unsupported_kind (other d k))

  -- The loop over t.Field(i).
  pub field_descriptors : Fields → Outcome Members
  field_descriptors end = ok Members.none
  field_descriptors (field name t fs) = do
    d ← go_type_to_ffi_type t
    ds ← field_descriptors fs
    ok (Members.member d ds)

-- An array argument decays to a pointer, as in C.
unfoldable pub go_arg_type_to_ffi_type : GoType → Outcome TypeDescriptor
unfolding go_type_to_ffi_type
go_arg_type_to_ffi_type (array d n t) = ok TypeDescriptor.pointer
go_arg_type_to_ffi_type t = go_type_to_ffi_type t
