-- ===== src/Objc.antt =====
-- objc/objc_runtime_darwin.go (encodeType, encodeFunc) and objc/objc_block_darwin.go (encode): the
-- Objective-C type encodings of Go types, as lists of code points.
pub mod Grammar
pub mod Methods
pub mod Calls
pub mod Class
pub mod Send
pub mod Init
pub mod Accessor
pub mod Lists
mod Tests
use pureffi.Common.{ℕ, Bool, true, false, ◌||◌, List, [], ◌∷◌, ◌++◌, String, codes, if◌then◌else◌}
use pureffi.Go.Types.{
  Decl, literal, Numeric, int, int8, int16, int32, int64, uint, uint8, uint16, uint32, uint64,
  uintptr, float32, float64, GoType, bool, number, string, unsafe_pointer, pointer, slice, array,
  struct, func, other, Types, Fields, end, field, decl, is_declared, type_name, to_list,
}

pub data EncodeError : Type 0 where
  unhandled : GoType → EncodeError
  not_a_func too_many_outputs without_self_and_selector : EncodeError
  without_block : EncodeError

-- (string, error)
pub data Coded : Type 0 where
  encoded : List ℕ → Coded
  refused : EncodeError → Coded

abbrev pub and_then : Coded → (List ℕ → Coded) → Coded
and_then (encoded s) k = k s
and_then (refused e) k = refused e

abbrev pub numeric_code : Numeric → List ℕ
numeric_code int = codes "l"
numeric_code int8 = codes "c"
numeric_code int16 = codes "s"
numeric_code int32 = codes "i"
numeric_code int64 = codes "L"
numeric_code uint = codes "L"
numeric_code uint8 = codes "C"
numeric_code uint16 = codes "S"
numeric_code uint32 = codes "I"
numeric_code uint64 = codes "L"
numeric_code uintptr = codes "^"
numeric_code float32 = codes "f"
numeric_code float64 = codes "d"

-- Class, ID, Block and SEL are declared as uintptr, or as one another.
abbrev pub is_objc : String → Decl → Bool
is_objc name d = is_declared "github.com/ebitengine/purego/objc" name d

unfoldable pub encode_number : Decl → Numeric → List ℕ
encode_number d k =
    if is_objc "Class" d
    then codes "#"
    else if is_objc "ID" d || is_objc "Block" d
    then codes "@"
    else if is_objc "SEL" d
    then codes ":"
    else numeric_code k

-- The error text comes with the pointer's "^", which no caller reads.
unfoldable pub encode_pointer : Coded → Coded
encode_pointer c = and_then c (λ s. encoded (codes "^" ++ s))

unfoldable mutual
  pub encode_type : Bool → GoType → Coded
  encode_type inside_ptr (bool d) = encoded (codes "B")
  encode_type inside_ptr (number d k) = encoded (encode_number d k)
  encode_type inside_ptr (pointer d t) = encode_pointer (encode_type true t)
  encode_type true (struct d fs) = encoded (codes "{" ++ codes (type_name d) ++ codes "}")
  encode_type false (struct d fs) =
      and_then (encode_fields fs)
        (λ s. encoded (codes "{" ++ codes (type_name d) ++ codes "=" ++ s ++ codes "}"))
  encode_type inside_ptr (unsafe_pointer d) = encoded (codes "^v")
  encode_type inside_ptr (string d) = encoded (codes "*")
  encode_type inside_ptr (slice d t) = refused (unhandled (slice d t))
  encode_type inside_ptr (array d n t) = refused (unhandled (array d n t))
  encode_type inside_ptr (func d ins v outs) = refused (unhandled (func d ins v outs))
  encode_type inside_ptr (other d k) = refused (unhandled (other d k))

  -- The loop over the fields.
  pub encode_fields : Fields → Coded
  encode_fields end = encoded []
  encode_fields (field name t fs) =
      and_then (encode_type false t) (λ s. and_then (encode_fields fs) (λ r. encoded (s ++ r)))

-- The loop over the parameters after the first.
unfoldable pub encode_params : List GoType → Coded
encode_params [] = encoded []
encode_params (t ∷ ts) =
    and_then (encode_type false t) (λ s. and_then (encode_params ts) (λ r. encoded (s ++ r)))

-- The switch on typ.NumOut() in encodeFunc.
unfoldable pub encode_result : List GoType → Coded
encode_result [] = encoded (codes "v")
encode_result (t ∷ []) = encode_type false t
encode_result (t ∷ (u ∷ ts)) = refused too_many_outputs

-- encodeFunc after its switch: a method's first two parameters are an ID and a SEL.
unfoldable pub encode_method_params : List GoType → Coded
encode_method_params [] = refused without_self_and_selector
encode_method_params (t ∷ []) = refused without_self_and_selector
encode_method_params (t ∷ (u ∷ ts)) =
    and_then (encode_params (u ∷ ts)) (λ s. encoded (codes "@" ++ s))

unfoldable pub encode_func : GoType → Coded
encode_func (func d ins v outs) =
    and_then (encode_result (to_list outs))
      (λ r. and_then (encode_method_params (to_list ins)) (λ s. encoded (r ++ s)))
encode_func _ = refused not_a_func

-- The switch in (*blockCache).encode: a result after the first is ignored.
unfoldable pub encode_block_result : List GoType → Coded
encode_block_result [] = encoded (codes "v")
encode_block_result (t ∷ ts) = encode_type false t

abbrev pub is_block : GoType → Bool
is_block (number d k) = is_objc "Block" d
is_block _ = false

unfoldable pub encode_block_params : List GoType → Coded
encode_block_params [] = refused without_block
encode_block_params (t ∷ ts) =
    if is_block t
    then and_then (encode_params ts) (λ s. encoded (codes "@" ++ s))
    else refused without_block

-- (*blockCache).encode, with the terminator that it appends; a refusal is a panic there.
unfoldable pub encode_block : GoType → Coded
encode_block (func d ins v outs) =
    and_then (encode_block_result (to_list outs))
      (λ r. and_then (encode_block_params (to_list ins)) (λ s. encoded ((r ++ s) ++ 0 ∷ [])))
encode_block _ = refused not_a_func
