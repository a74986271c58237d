-- ===== src/FastPath/Emit/Counts.antt =====
-- genfastfunc.go: how many arguments of each class a closure has.
use pureffi.Common.{ℕ, suc, ◌≡◌, refl, ◌∙◌, ap, List, [], ◌∷◌, arith, length}
use pureffi.FastPath.Slots.{Slot, word, ref, float32, float64}
use pureffi.FastPath.Call.{int_args, float_args}

-- The numbers of integer and of float parameters.
unfoldable pub ints_of : List Slot → ℕ
ints_of [] = 0
ints_of (word ∷ ss) = suc (ints_of ss)
ints_of (ref ∷ ss) = suc (ints_of ss)
ints_of (_ ∷ ss) = ints_of ss

unfoldable pub floats_of : List Slot → ℕ
floats_of [] = 0
floats_of (float32 ∷ ss) = suc (floats_of ss)
floats_of (float64 ∷ ss) = suc (floats_of ss)
floats_of (_ ∷ ss) = floats_of ss

pub length-int_args :
    (ss : List Slot) (vs : List ℕ) → length vs ≡ length ss → length (int_args ss vs) ≡ ints_of ss
unfolding int_args ints_of
length-int_args [] vs l = refl
length-int_args (s ∷ ss) [] l = absurd (omega arith)
length-int_args (word ∷ ss) (v ∷ vs) l = ap suc (length-int_args ss vs (omega arith))
length-int_args (ref ∷ ss) (v ∷ vs) l = ap suc (length-int_args ss vs (omega arith))
length-int_args (float32 ∷ ss) (v ∷ vs) l = length-int_args ss vs (omega arith)
length-int_args (float64 ∷ ss) (v ∷ vs) l = length-int_args ss vs (omega arith)

length-float_args :
    (ss : List Slot) (vs : List ℕ)
    → length vs ≡ length ss
    → length (float_args ss vs) ≡ floats_of ss
unfolding float_args floats_of
length-float_args [] vs l = refl
length-float_args (s ∷ ss) [] l = absurd (omega arith)
length-float_args (word ∷ ss) (v ∷ vs) l = length-float_args ss vs (omega arith)
length-float_args (ref ∷ ss) (v ∷ vs) l = length-float_args ss vs (omega arith)
length-float_args (float32 ∷ ss) (v ∷ vs) l = ap suc (length-float_args ss vs (omega arith))
length-float_args (float64 ∷ ss) (v ∷ vs) l = ap suc (length-float_args ss vs (omega arith))

no_words : (vs : List ℕ) → length vs ≡ 0 → vs ≡ []
no_words [] l = refl
no_words (v ∷ vs) l = absurd (omega arith)

one_word : (vs : List ℕ) → length vs ≡ 1 → (w : ℕ) × (vs ≡ w ∷ [])
one_word [] l = absurd (omega arith)
one_word (v ∷ vs) l = (v, ap (λ ws. v ∷ ws) (no_words vs (omega arith)))

pub no_float :
    (ss : List Slot) (vs : List ℕ)
    → length vs ≡ length ss
    → floats_of ss ≡ 0
    → float_args ss vs ≡ []
no_float ss vs l z = no_words (float_args ss vs) (length-float_args ss vs l ∙ z)

pub one_float :
    (ss : List Slot) (vs : List ℕ)
    → length vs ≡ length ss
    → floats_of ss ≡ 1
    → (w : ℕ) × (float_args ss vs ≡ w ∷ [])
one_float ss vs l z = one_word (float_args ss vs) (length-float_args ss vs l ∙ z)
