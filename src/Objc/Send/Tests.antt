-- ===== src/Objc/Send/Tests.antt =====
-- A message that returns a struct of 24 bytes, on amd64 and arm64.
use pureffi.Common.{ℕ, ◌≡◌, refl, List, codes, none, some, if◌then◌else◌, ◌==◌, arith}
use pureffi.Go.Platform.{Platform, darwin, amd64, arm64}
use pureffi.Go.Types.{GoType, struct, field, end, number, float64, literal, defined}
use pureffi.Go.Layout.{size, size_fields, align, align_fields, width, round_up}
use pureffi.Go.Outcome.{ok}
use pureffi.Goffi.{TypeDescriptor, Members}
use pureffi.Descriptor.{go_type_to_ffi_type, field_descriptors, numeric_descriptor}
use pureffi.Register.{slow, Prepare}
use pureffi.Objc.Class.{id_type}
use pureffi.Objc.Send.{
  MessageFunctions, super_type, send, send_super, send_address, send_super_address,
}
use pureffi.Objc.Send.Plain.{Sender, send-Sender}

abbrev functions : MessageFunctions
functions = record {
  msg_send = 16;
  msg_send_stret = 32;
  msg_send_super2 = 48;
  msg_send_super2_stret = 64;
}

-- Each address's symbol.
abbrev name_of : ℕ → List ℕ
name_of addr = if addr == 32 then codes "objc_msgSend_stret" else codes "objc_msgSendSuper2_stret"

abbrev intel : Platform
intel = record { goos = darwin; goarch = amd64 }

-- struct { X, Y, Z float64 }
abbrev vector : GoType
vector = struct (defined "main" "Vector") (
    field "X" (number literal float64)
      (field "Y" (number literal float64) (field "Z" (number literal float64) end)))

abbrev any_interface : Prepare
any_interface cif = none

chooses_stret : send_address intel functions vector ≡ 32
unfolding size size_fields align align_fields width round_up
chooses_stret = refl

chooses_super_stret : send_super_address intel functions vector ≡ 64
unfolding size size_fields align align_fields width round_up
chooses_super_stret = refl

-- arm64 has no stret functions.
chooses_plain : send_address (record { goos = darwin; goarch = arm64 }) functions vector ≡ 16
chooses_plain = refl

abbrev vector_descriptor : TypeDescriptor
vector_descriptor = TypeDescriptor.struct 24 8 (
    Members.member TypeDescriptor.double
      (Members.member TypeDescriptor.double (Members.member TypeDescriptor.double Members.none)))

describes_vector : go_type_to_ffi_type vector ≡ ok vector_descriptor
unfolding go_type_to_ffi_type field_descriptors numeric_descriptor size size_fields align
    align_fields width round_up
describes_vector = refl

send-Sender_example :
    (send intel any_interface name_of functions vector
      ≡ ok (some (slow (Sender TypeDescriptor.uint64 vector_descriptor id_type vector))))
    × (send_super intel any_interface name_of functions vector
        ≡ ok (some (slow (Sender TypeDescriptor.pointer vector_descriptor super_type vector))))
send-Sender_example =
    send-Sender intel any_interface name_of functions vector vector_descriptor refl describes_vector
      (rw chooses_stret (ground arith)) (rw chooses_super_stret (ground arith))
      (rw chooses_stret refl) (rw chooses_super_stret refl)
