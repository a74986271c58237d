-- ===== src/SlowCall/Return/Room.antt =====
-- The room in a result buffer.
use pureffi.Common.{ℕ, ◌+◌, ◌≤◌, arith}
use pureffi.Go.Types.{
  GoType, bool, number, string, unsafe_pointer, pointer, slice, array, struct, func, other,
}
use pureffi.Go.Layout.{size, round_up}
use pureffi.SlowCall.Return.{Buffer, ret_buf, struct_ret_buf, new_value, return_buffer}

-- The bytes behind rvalue.
abbrev pub capacity : Buffer → ℕ
capacity (ret_buf n) = n
capacity (struct_ret_buf n) = n
capacity (new_value n) = n

-- The bytes that C may write: whole words for a struct, that is stored by registers, and for a result
-- that unpackRet reads as a word; the bytes of the type for a number and for what goffi has no kind for.
abbrev pub needs : GoType → ℕ
needs (number d k) = size (number d k)
needs (array d n t) = size (array d n t)
needs (other d k) = size (other d k)
needs t = round_up (size t) 8

round_up-le : (n : ℕ) → round_up n 8 ≤ n + 7
unfolding round_up
round_up-le n = omega arith

-- The memory that rvalue points to has room for the whole words that a struct, a string, a Boolean, a
-- pointer, a slice or a function pointer takes up, also where the last word is written in full, and
-- for the bytes of any other result.
pub return_buffer-capacity : (t : GoType) → needs t ≤ capacity (return_buffer t)
unfolding return_buffer size
return_buffer-capacity (struct d fs) = round_up-le (size (struct d fs))
return_buffer-capacity (number d k) = omega arith
return_buffer-capacity (array d n t) = omega arith
return_buffer-capacity (other d k) = omega arith
return_buffer-capacity (string d) = omega (arith, round_up-le 16)
return_buffer-capacity (bool d) = omega (arith, round_up-le 1)
return_buffer-capacity (pointer d t) = omega (arith, round_up-le 8)
return_buffer-capacity (unsafe_pointer d) = omega (arith, round_up-le 8)
return_buffer-capacity (slice d t) = omega (arith, round_up-le 24)
return_buffer-capacity (func d ins v outs) = omega (arith, round_up-le 8)
