-- ===== src/FastPath/Signature/Mask.antt =====
-- The pointer mask as a list of parameter types: what setting the next bit appends.
use native.Mathlib.Nat.{pow-suc, div-eq_of_lt}
use pureffi.Common.{
  ℕ, zero, suc, ◌+◌, ◌/◌, ◌%◌, ◌^◌, ◌<◌, ◌==◌, ◌≡◌, refl, [], ◌∷◌, ◌++◌, if◌then◌else◌, arith,
  length, replicate, ap,
}
use pureffi.FastPath.Slots.{word, ref, type_arguments}
use pureffi.FastPath.Signature.{set_bit}

pow_pos : (n : ℕ) → 0 < 2 ^ n
pow_pos zero = omega arith
pow_pos (suc n) = omega (arith, pow-suc 2 n, pow_pos n)

pub length-type_arguments : (n m : ℕ) → length (type_arguments n m) ≡ n
unfolding type_arguments
length-type_arguments zero m = refl
length-type_arguments (suc n) m = ap suc (length-type_arguments n (m / 2))

pub type_arguments-word :
    (n m : ℕ) → m < 2 ^ n → type_arguments (suc n) m ≡ type_arguments n m ++ word ∷ []
unfolding type_arguments
type_arguments-word zero m h = ground arith
type_arguments-word (suc n) m h =
    ap (λ l. (if m % 2 == 1 then ref else word) ∷ l)
      (type_arguments-word n (m / 2) (omega (arith, pow-suc 2 n)))

half_high : (n m : ℕ) → (m + 2 ^ suc n) / 2 ≡ m / 2 + 2 ^ n
half_high n m = omega (arith, pow-suc 2 n)

odd_high : (n m : ℕ) → (m + 2 ^ suc n) % 2 ≡ m % 2
odd_high n m = omega (arith, pow-suc 2 n)

pub type_arguments-ref :
    (n m : ℕ) → m < 2 ^ n → type_arguments (suc n) (m + 2 ^ n) ≡ type_arguments n m ++ ref ∷ []
unfolding type_arguments
type_arguments-ref zero m h = ground arith
type_arguments-ref (suc n) m h =
    rw (half_high n m, odd_high n m)
      (ap (λ l. (if m % 2 == 1 then ref else word) ∷ l)
        (type_arguments-ref n (m / 2) (omega (arith, pow-suc 2 n))))

pub set_bit_fresh : (m n : ℕ) → m < 2 ^ n → set_bit m n ≡ m + 2 ^ n
unfolding set_bit
set_bit_fresh m n h = ground (arith, div-eq_of_lt h)

pub type_arguments-zero : (n : ℕ) → type_arguments n 0 ≡ replicate n word
unfolding type_arguments
type_arguments-zero zero = refl
type_arguments-zero (suc n) = ap (λ l. word ∷ l) (type_arguments-zero n)
