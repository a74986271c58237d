-- ===== src/Objc/Tests.antt =====
-- Encodings of concrete functions, after objc_runtime_darwin_test.go.
use pureffi.Common.{ℕ, ◌≡◌, refl, false, List, [], ◌∷◌, ◌++◌, String, codes}
use pureffi.Go.Types.{
  literal, defined, int32, int64, float64, uintptr, uint64, GoType, number, pointer, struct, bool,
  func, nil, cons, end, field,
}
use pureffi.Objc.{
  encoded, encode_number, encode_pointer, encode_type, encode_params, encode_result,
  encode_method_params, encode_func, encode_block_result, encode_block_params, encode_block,
}
use pureffi.Objc.Grammar.{Codes}
use pureffi.Objc.Methods.{encode_func-Codes, encode_block-Codes}

abbrev objc : String
objc = "github.com/ebitengine/purego/objc"

abbrev id : GoType
id = number (defined objc "ID") uintptr

abbrev sel : GoType
sel = number (defined objc "SEL") uintptr

abbrev block : GoType
block = number (defined objc "Block") uintptr

-- type CGPoint struct { X, Y float64 }
abbrev point : GoType
point =
    struct (defined "main" "CGPoint")
      (field "X" (number literal float64) (field "Y" (number literal float64) end))

-- func(ID, SEL, CGPoint, *CGPoint) bool
abbrev method : GoType
method =
    func literal (cons id (cons sel (cons point (cons (pointer literal point) nil)))) false
      (cons (bool literal) nil)

encodes_method : encode_func method ≡ encoded (codes "B@:{CGPoint=dd}^{CGPoint}")
unfolding encode_func encode_result encode_method_params encode_params encode_type encode_pointer
    encode_number
encodes_method = refl

encode_func-Codes_example : Codes 5 (codes "B@:{CGPoint=dd}^{CGPoint}")
encode_func-Codes_example =
    encode_func-Codes literal (cons id (cons sel (cons point (cons (pointer literal point) nil))))
      false (cons (bool literal) nil) (codes "B@:{CGPoint=dd}^{CGPoint}") refl refl encodes_method

-- func(Block, int32)
abbrev handler : GoType
handler = func literal (cons block (cons (number literal int32) nil)) false nil

encodes_handler : encode_block handler ≡ encoded (codes "v@i" ++ 0 ∷ [])
unfolding encode_block encode_block_result encode_block_params encode_params encode_type
    encode_number
encodes_handler = refl

encode_block-Codes_example : (r : List ℕ) × (codes "v@i" ++ 0 ∷ [] ≡ r ++ 0 ∷ []) × Codes 3 r
encode_block-Codes_example =
    encode_block-Codes literal (cons block (cons (number literal int32) nil)) false nil
      (codes "v@i" ++ 0 ∷ []) refl refl encodes_handler

-- A bare uintptr has a code with nothing behind it, and a signed 64-bit integer that of an unsigned.
encodes_uintptr : encode_type false (number literal uintptr) ≡ encoded (codes "^")
unfolding encode_type encode_number
encodes_uintptr = refl

encodes_int64 : encode_type false (number literal int64) ≡ encode_type false (number literal uint64)
unfolding encode_type encode_number
encodes_int64 = refl
