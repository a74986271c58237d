-- ===== src/SlowCall/Return.antt =====
-- purego.go, the closure that RegisterFunc makes, after ffi.CallFunction: the result buffer, unpackRet
-- and the values that the closure returns.
pub mod Fits
pub mod Room
mod Tests
use pureffi.Common.{
  ℕ, zero, suc, ◌+◌, ◌*◌, ◌==◌, Bool, true, false, List, [], ◌∷◌, Option, none, some, take,
  replicate, if◌then◌else◌,
}
use pureffi.Go.Types.{
  GoType, bool, number, string, unsafe_pointer, pointer, slice, array, struct, func, other,
}
use pureffi.Go.Layout.{size}
use pureffi.Go.Outcome.{Outcome, ok, panic, ◌>>=◌}
use pureffi.Register.{Implementation}
use pureffi.CString.{Memory, c_string_to_go_string}

-- Where rvalue points: ctx.retBuf, structRetBuf, or the memory of retVal, with the number of bytes.
pub data Buffer : Type 0 where
  ret_buf struct_ret_buf new_value : ℕ → Buffer

-- switch outType.Kind()
unfoldable pub return_buffer : GoType → Buffer
return_buffer (string d) = ret_buf 32
return_buffer (bool d) = ret_buf 32
return_buffer (pointer d t) = ret_buf 32
return_buffer (unsafe_pointer d) = ret_buf 32
return_buffer (func d ins v outs) = ret_buf 32
return_buffer (slice d t) = ret_buf 32
return_buffer (struct d fs) = struct_ret_buf (size (struct d fs) + 7)
return_buffer (number d k) = new_value (size (number d k))
return_buffer (array d n t) = new_value (size (array d n t))
return_buffer (other d k) = new_value (size (other d k))

-- *(*uintptr)(rvalue), little endian
abbrev pub word_of : ℕ → List ℕ → ℕ
word_of zero bs = 0
word_of (suc n) [] = 0
word_of (suc n) (b ∷ bs) = b + 256 * word_of n bs

-- *(*uint8)(rvalue) != 0
abbrev pub is_set : List ℕ → Bool
is_set [] = false
is_set (b ∷ bs) = if b == 0 then false else true

-- retVal.Elem() after unpackRet.
pub data Unpacked : Type 0 where
  -- `none`: the loop over the text ran out of fuel.
  text : Option (List ℕ) → Unpacked
  truth : Bool → Unpacked
  address : ℕ → Unpacked
  nil_func : Unpacked
  -- What RegisterFunc has set the variable to.
  made_func : Option Implementation → Unpacked
  raw : List ℕ → Unpacked

-- RegisterFunc(retVal.Interface(), addr), by the type of the variable.
abbrev pub RegisterFunc : Type 0
RegisterFunc = GoType → ℕ → Outcome (Option Implementation)

-- unpackRet on the bytes that the call has left in the buffer, with the copy out of structRetBuf.
unfoldable pub unpack_ret : RegisterFunc → ℕ → Memory → GoType → List ℕ → Outcome Unpacked
unpack_ret register fuel m (string d) bs =
    if word_of 8 bs == 0
    then ok (text (some []))
    else ok (text (c_string_to_go_string fuel m (word_of 8 bs)))
unpack_ret register fuel m (bool d) bs = ok (truth (is_set bs))
unpack_ret register fuel m (pointer d t) bs = ok (address (word_of 8 bs))
unpack_ret register fuel m (unsafe_pointer d) bs = ok (address (word_of 8 bs))
unpack_ret register fuel m (slice d t) bs = ok (address (word_of 8 bs))
unpack_ret register fuel m (func d ins v outs) bs =
    if word_of 8 bs == 0
    then ok nil_func
    else register (func d ins v outs) (word_of 8 bs) >>= λ i. ok (made_func i)
unpack_ret register fuel m t bs = ok (raw (take (size t) bs))

-- A result of the closure; `error none` is a nil error.
pub data Returned : Type 0 where
  value : Unpacked → Returned
  error : Option ℕ → Returned

-- getErr(), from the errno that the call has left.
abbrev pub error_of : ℕ → Option ℕ
error_of errno = if errno == 0 then none else some errno

-- From `if numOut == 2` on; `unpack` is unpackRet of the first result.
unfoldable pub closure_results :
    (GoType → Outcome Unpacked) → List GoType → Bool → ℕ → Outcome (List Returned)
closure_results unpack (t ∷ (e ∷ [])) has_error errno =
    unpack t >>= λ v. ok (value v ∷ error (if has_error then error_of errno else none) ∷ [])
closure_results unpack (t ∷ []) true errno = ok (error (error_of errno) ∷ [])
closure_results unpack (t ∷ []) false errno = unpack t >>= λ v. ok (value v ∷ [])
closure_results unpack _ has_error errno = ok []
