-- ===== src/Descriptor/Tests.antt =====
-- Descriptors of concrete types.
use pureffi.Common.{◌≡◌, refl}
use pureffi.Go.Types.{
  literal, interface, int32, uint8, GoType, number, array, struct, other, end, field,
}
use pureffi.Go.Outcome.{ok}
use pureffi.Goffi.{TypeDescriptor, Members, repeat_member}
use pureffi.Go.Layout.{size, align, width, round_up}
use pureffi.Descriptor.{go_type_to_ffi_type, numeric_descriptor}
use pureffi.Descriptor.Domain.{Meets, Verdict, go_type_to_ffi_type-Verdict}

-- struct { tag uint8; values [2]int32 }
abbrev tagged : GoType
tagged = struct literal (
    field "tag" (number literal uint8)
      (field "values" (array literal 2 (number literal int32)) end))

tagged_descriptor :
    go_type_to_ffi_type tagged
    ≡ ok (
        TypeDescriptor.struct 12 4 (
          Members.member TypeDescriptor.uint8 (
            Members.member
              (TypeDescriptor.struct 8 4 (
                Members.member TypeDescriptor.sint32
                  (Members.member TypeDescriptor.sint32 Members.none)))
              Members.none)))
unfolding go_type_to_ffi_type numeric_descriptor repeat_member size align width round_up
tagged_descriptor = refl

go_type_to_ffi_type-Verdict_example :
    Verdict
      (λ u. Meets u (array literal 3 (other literal interface)))
      (go_type_to_ffi_type (array literal 3 (other literal interface)))
go_type_to_ffi_type-Verdict_example =
    go_type_to_ffi_type-Verdict (array literal 3 (other literal interface))
