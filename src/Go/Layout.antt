-- ===== src/Go/Layout.antt =====
-- t.Size() and t.Align() of package reflect on the 64-bit targets of gc.
use pureffi.Common.{ℕ, ◌+◌, ◌-◌, ◌*◌, ◌/◌, max, ◌==◌, if◌then◌else◌}
use pureffi.Go.Types.{
  Numeric, int, int8, int16, int32, int64, uint, uint8, uint16, uint32, uint64, uintptr, float32,
  float64, Opaque, chan, dictionary, interface, complex64, complex128, GoType, bool, number, string,
  unsafe_pointer, pointer, slice, array, struct, func, other, Fields, end, field,
}

unfoldable pub width : Numeric → ℕ
width int = 8
width int8 = 1
width int16 = 2
width int32 = 4
width int64 = 8
width uint = 8
width uint8 = 1
width uint16 = 2
width uint32 = 4
width uint64 = 8
width uintptr = 8
width float32 = 4
width float64 = 8

unfoldable pub opaque_size : Opaque → ℕ
opaque_size chan = 8
opaque_size dictionary = 8
opaque_size interface = 16
opaque_size complex64 = 8
opaque_size complex128 = 16

unfoldable pub opaque_align : Opaque → ℕ
opaque_align complex64 = 4
opaque_align _ = 8

-- The least multiple of `a` that is not below `n`.
unfoldable pub round_up : ℕ → ℕ → ℕ
round_up n a = (n + a - 1) / a * a

unfoldable mutual
  pub align : GoType → ℕ
  align (bool d) = 1
  align (number d k) = width k
  align (string d) = 8
  align (unsafe_pointer d) = 8
  align (pointer d t) = 8
  align (slice d t) = 8
  align (array d n t) = align t
  align (struct d fs) = align_fields fs
  align (func d ins v outs) = 8
  align (other d k) = opaque_align k

  pub align_fields : Fields → ℕ
  align_fields end = 1
  align_fields (field name t fs) = max (align t) (align_fields fs)

-- A final field of size 0 is followed by a byte of padding, so that its address stays inside.
abbrev pub pad_end : ℕ → ℕ → ℕ
pad_end size offset = if size == 0 then (if offset == 0 then 0 else offset + 1) else offset + size

unfoldable mutual
  pub size : GoType → ℕ
  size (bool d) = 1
  size (number d k) = width k
  size (string d) = 16
  size (unsafe_pointer d) = 8
  size (pointer d t) = 8
  size (slice d t) = 24
  size (array d n t) = n * size t
  size (struct d fs) = round_up (size_fields fs 0) (align_fields fs)
  size (func d ins v outs) = 8
  size (other d k) = opaque_size k

  -- Where the fields end, when the first of them starts at or after an offset.
  pub size_fields : Fields → ℕ → ℕ
  size_fields end offset = offset
  size_fields (field name t end) offset = pad_end (size t) (round_up offset (align t))
  size_fields (field name t (field m u fs)) offset =
      size_fields (field m u fs) (round_up offset (align t) + size t)
