-- ===== src/Objc/Methods.antt =====
-- The encodings of methods and of blocks.
use mathlib.Core.Path.{subst}
use pureffi.Common.{
  ℕ, suc, ◌≡◌, refl, sym, Bool, true, false, ◌&&◌, List, [], ◌∷◌, ◌++◌, length, codes, &&-true,
  Bool-cases, inl, inr, arith,
}
use pureffi.Go.Types.{Decl, GoType, func, to_list, Types}
use pureffi.Objc.{
  encoded, is_block, encode_type, encode_params, encode_result, encode_method_params, encode_func,
  encode_block_result, encode_block_params, encode_block,
}
use pureffi.Objc.Grammar.{
  Code, Codes, is_codable, and_then-encoded, encoded-injective, encode_type-Code,
}

abbrev pub all_codable : List GoType → Bool
all_codable [] = true
all_codable (t ∷ ts) = is_codable false t && all_codable ts

encode_params-Codes :
    (ts : List GoType) (s : List ℕ)
    → all_codable ts ≡ true
    → encode_params ts ≡ encoded s
    → Codes (length ts) s
unfolding encode_params
encode_params-Codes [] s k e = subst (Codes 0) (encoded-injective _ s e) Codes.none
encode_params-Codes (t ∷ ts) s k e =
    let (kt, kts) = &&-true (is_codable false t) (all_codable ts) k in
    let (r, a, e') = and_then-encoded (encode_type false t) _ s e in
    let (q, b, e'') = and_then-encoded (encode_params ts) _ s e' in
    subst (Codes (suc (length ts))) (encoded-injective _ s e'') (
      Codes.more r q (length ts) (encode_type-Code false t r kt a) (encode_params-Codes ts q kts b))

encode_result-Code :
    (ts : List GoType) (s : List ℕ) → all_codable ts ≡ true → encode_result ts ≡ encoded s → Code s
unfolding encode_result
encode_result-Code [] s k e = subst Code (encoded-injective _ s e) (Code.letter _ refl)
encode_result-Code (t ∷ []) s k e =
    encode_type-Code false t s (&&-true (is_codable false t) _ k).0 e
encode_result-Code (t ∷ (u ∷ ts)) s k e = absurd (ground arith)

encode_method_params-Codes :
    (ts : List GoType) (s : List ℕ)
    → all_codable ts ≡ true
    → encode_method_params ts ≡ encoded s
    → Codes (length ts) s
unfolding encode_method_params
encode_method_params-Codes [] s k e = absurd (ground arith)
encode_method_params-Codes (t ∷ []) s k e = absurd (ground arith)
encode_method_params-Codes (t ∷ (u ∷ ts)) s k e =
    let (r, a, e') = and_then-encoded (encode_params (u ∷ ts)) _ s e in
    subst (Codes (suc (suc (length ts)))) (encoded-injective _ s e') (
      Codes.more (codes "@") r (suc (length ts)) (Code.letter _ refl)
        (encode_params-Codes (u ∷ ts) r (&&-true (is_codable false t) _ k).1 a))

-- Where encodeFunc succeeds, its text is one type code for the result and one for each parameter of
-- the function, the receiver and the selector among them, provided that no parameter, result or field
-- of a struct is a bare uintptr and no struct's name contains "=" or "}".
pub encode_func-Codes :
    (d : Decl) (ins : Types) (v : Bool) (outs : Types) (s : List ℕ)
    → all_codable (to_list ins) ≡ true
    → all_codable (to_list outs) ≡ true
    → encode_func (func d ins v outs) ≡ encoded s
    → Codes (suc (length (to_list ins))) s
unfolding encode_func
encode_func-Codes d ins v outs s ki ko e =
    let (r, a, e') = and_then-encoded (encode_result (to_list outs)) _ s e in
    let (q, b, e'') = and_then-encoded (encode_method_params (to_list ins)) _ s e' in
    subst (Codes _) (encoded-injective _ s e'') (
      Codes.more r q _ (encode_result-Code (to_list outs) r ko a)
        (encode_method_params-Codes (to_list ins) q ki b))

encode_block_params-Codes :
    (ts : List GoType) (s : List ℕ)
    → all_codable ts ≡ true
    → encode_block_params ts ≡ encoded s
    → Codes (length ts) s
unfolding encode_block_params
encode_block_params-Codes [] s k e = absurd (ground arith)
encode_block_params-Codes (t ∷ ts) s k e = elim (Bool-cases (is_block t)) [
  | inl y ↦
      let (r, a, e') = and_then-encoded (encode_params ts) _ s (rw y at e) in
      subst (Codes (suc (length ts))) (encoded-injective _ s e') (
        Codes.more (codes "@") r (length ts) (Code.letter _ refl)
          (encode_params-Codes ts r (&&-true (is_codable false t) _ k).1 a))
  | inr n ↦ absurd (ground arith)
]

encode_block_result-Code :
    (ts : List GoType) (s : List ℕ)
    → all_codable ts ≡ true
    → encode_block_result ts ≡ encoded s
    → Code s
unfolding encode_block_result
encode_block_result-Code [] s k e = subst Code (encoded-injective _ s e) (Code.letter _ refl)
encode_block_result-Code (t ∷ ts) s k e =
    encode_type-Code false t s (&&-true (is_codable false t) _ k).0 e

-- Where the encoding of a block's function type succeeds, it is one type code for the result and one
-- for each parameter, the block first, and a NUL byte, under the same provisos; results after the
-- first have no code.
pub encode_block-Codes :
    (d : Decl) (ins : Types) (v : Bool) (outs : Types) (s : List ℕ)
    → all_codable (to_list ins) ≡ true
    → all_codable (to_list outs) ≡ true
    → encode_block (func d ins v outs) ≡ encoded s
    → (r : List ℕ) × (s ≡ r ++ 0 ∷ []) × Codes (suc (length (to_list ins))) r
unfolding encode_block
encode_block-Codes d ins v outs s ki ko e =
    let (r, a, e') = and_then-encoded (encode_block_result (to_list outs)) _ s e in
    let (q, b, e'') = and_then-encoded (encode_block_params (to_list ins)) _ s e' in
    (
      r ++ q,
      sym (encoded-injective _ s e''),
      Codes.more r q _ (encode_block_result-Code (to_list outs) r ko a)
          (encode_block_params-Codes (to_list ins) q ki b),
    )
