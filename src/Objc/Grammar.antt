-- ===== src/Objc/Grammar.antt =====
-- The form of a method's type encoding: one type code for the result and one for each parameter.
use pureffi.Common.{
  ℕ, suc, ◌==◌, ◌≡◌, refl, Bool, true, false, ◌&&◌, ◌||◌, not, List, [], ◌∷◌, ◌++◌, codes, &&-true,
  Bool-cases, inl, inr, arith,
}
use mathlib.Core.Path.{subst}
use pureffi.Go.Types.{
  Decl, Numeric, uintptr, GoType, bool, number, string, unsafe_pointer, pointer, slice, array,
  struct, func, other, Fields, end, field, type_name,
}
use pureffi.Objc.{
  Coded, encoded, refused, and_then, is_objc, numeric_code, encode_number, encode_pointer,
  encode_type, encode_fields,
}

abbrev is_in : ℕ → List ℕ → Bool
is_in c [] = false
is_in c (d ∷ ds) = c == d || is_in c ds

-- The codes of one letter.
abbrev pub is_letter : ℕ → Bool
is_letter c = is_in c (codes "cCsSiIlLfdBv*@#:")

-- A struct's name runs up to "=" or "}".
abbrev pub is_name : List ℕ → Bool
is_name [] = true
is_name (c ∷ cs) = not (is_in c (codes "=}")) && is_name cs

-- A type code, and a sequence of them, as the Objective-C runtime reads them.
mutual
  pub data Code : List ℕ → Type 0 where
    letter : (c : ℕ) → is_letter c ≡ true → Code (c ∷ [])
    to : (s : List ℕ) → Code s → Code (codes "^" ++ s)
    opaque_struct : (n : List ℕ) → is_name n ≡ true → Code (codes "{" ++ n ++ codes "}")
    struct_of :
        (n s : List ℕ) (k : ℕ)
        → is_name n ≡ true
        → Codes k s
        → Code (codes "{" ++ n ++ codes "=" ++ s ++ codes "}")

  pub data Codes : ℕ → List ℕ → Type 0 where
    none : Codes 0 []
    more : (s r : List ℕ) (k : ℕ) → Code s → Codes k r → Codes (suc k) (s ++ r)

abbrev is_uintptr : Numeric → Bool
is_uintptr uintptr = true
is_uintptr _ = false

-- No bare uintptr, whose code would be "^" with nothing behind it, and names that a code can carry.
abbrev mutual
  pub is_codable : Bool → GoType → Bool
  is_codable inside_ptr (number d k) =
      is_objc "Class" d
      || (is_objc "ID" d || is_objc "Block" d)
      || is_objc "SEL" d
      || not (is_uintptr k)
  is_codable inside_ptr (pointer d t) = is_codable true t
  is_codable true (struct d fs) = is_name (codes (type_name d))
  is_codable false (struct d fs) = is_name (codes (type_name d)) && are_codable fs
  is_codable inside_ptr _ = true

  pub are_codable : Fields → Bool
  are_codable end = true
  are_codable (field name t fs) = is_codable false t && are_codable fs

pub and_then-encoded :
    (c : Coded) (k : List ℕ → Coded) (s : List ℕ)
    → and_then c k ≡ encoded s
    → (r : List ℕ) × (c ≡ encoded r) × (k r ≡ encoded s)
and_then-encoded (encoded r) k s h = (r, refl, h)
and_then-encoded (refused e) k s h = absurd (ground arith)

pub encoded-injective : (s r : List ℕ) → encoded s ≡ encoded r → s ≡ r
encoded-injective s r e = cc

-- A text of one letter.
abbrev is_letter_text : List ℕ → Bool
is_letter_text [] = false
is_letter_text (c ∷ []) = is_letter c
is_letter_text (c ∷ (d ∷ s)) = false

letter-Code : (s : List ℕ) → is_letter_text s ≡ true → Code s
letter-Code [] h = absurd (ground arith)
letter-Code (c ∷ []) h = Code.letter c h
letter-Code (c ∷ (d ∷ s)) h = absurd (ground arith)

numeric_code-letter :
    (k : Numeric) → not (is_uintptr k) ≡ true → is_letter_text (numeric_code k) ≡ true
numeric_code-letter uintptr h = absurd (ground arith)
numeric_code-letter _ h = refl

encode_number-letter :
    (d : Decl) (k : Numeric)
    → is_codable false (number d k) ≡ true
    → is_letter_text (encode_number d k) ≡ true
unfolding encode_number
encode_number-letter d k h = elim (Bool-cases (is_objc "Class" d)) [
  | inl a ↦ rw a refl
  | inr a ↦ elim (Bool-cases (is_objc "ID" d || is_objc "Block" d)) [
    | inl b ↦ rw (a, b) refl
    | inr b ↦ elim (Bool-cases (is_objc "SEL" d)) [
      | inl c ↦ rw (a, b, c) refl
      | inr c ↦ rw (a, b, c) (numeric_code-letter k (rw (a, b, c) at h))
    ]
  ]
]

struct-Code :
    (n s r : List ℕ) (k : ℕ)
    → is_name n ≡ true
    → Codes k s
    → encoded (codes "{" ++ n ++ codes "=" ++ s ++ codes "}") ≡ encoded r
    → Code r
struct-Code n s r k h c e = subst Code (encoded-injective _ r e) (Code.struct_of n s k h c)

mutual
  unfolding encode_type encode_pointer

  pub encode_type-Code :
      (b : Bool) (t : GoType) (s : List ℕ)
      → is_codable b t ≡ true
      → encode_type b t ≡ encoded s
      → Code s
  encode_type-Code b (bool d) s k e = subst Code (encoded-injective _ s e) (Code.letter _ refl)
  encode_type-Code b (number d n) s k e =
      subst Code (encoded-injective _ s e)
        (letter-Code (encode_number d n) (encode_number-letter d n k))
  encode_type-Code b (pointer d t) s k e =
      let (r, a, e') = and_then-encoded (encode_type true t) _ s e in
      subst Code (encoded-injective _ s e') (Code.to r (encode_type-Code true t r k a))
  encode_type-Code true (struct d fs) s k e =
      subst Code (encoded-injective _ s e) (Code.opaque_struct (codes (type_name d)) k)
  encode_type-Code false (struct d fs) s k e =
      let (kn, kf) = &&-true (is_name (codes (type_name d))) (are_codable fs) k in
      let (r, a, e') = and_then-encoded (encode_fields fs) _ s e in
      let (n, c) = encode_fields-Codes fs r kf a in struct-Code (codes (type_name d)) r s n kn c e'
  encode_type-Code b (unsafe_pointer d) s k e =
      subst Code (encoded-injective _ s e) (Code.to (codes "v") (Code.letter _ refl))
  encode_type-Code b (string d) s k e = subst Code (encoded-injective _ s e) (Code.letter _ refl)
  encode_type-Code b (slice d t) s k e = absurd (ground arith)
  encode_type-Code b (array d n t) s k e = absurd (ground arith)
  encode_type-Code b (func d ins v outs) s k e = absurd (ground arith)
  encode_type-Code b (other d n) s k e = absurd (ground arith)

  encode_fields-Codes :
      (fs : Fields) (s : List ℕ)
      → are_codable fs ≡ true
      → encode_fields fs ≡ encoded s
      → (k : ℕ) × Codes k s
  encode_fields-Codes end s k e = (0, subst (Codes 0) (encoded-injective _ s e) Codes.none)
  encode_fields-Codes (field name t fs) s k e =
      let (kt, kf) = &&-true (is_codable false t) (are_codable fs) k in
      let (r, a, e') = and_then-encoded (encode_type false t) _ s e in
      let (q, b, e'') = and_then-encoded (encode_fields fs) _ s e' in
      let (n, c) = encode_fields-Codes fs q kf b in
      (
        suc n,
        subst (Codes (suc n)) (encoded-injective _ s e'')
            (Codes.more r q n (encode_type-Code false t r kt a) c),
      )
