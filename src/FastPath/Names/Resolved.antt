-- ===== src/FastPath/Names/Resolved.antt =====
-- The names in the generated switch.
use pureffi.Common.{
  ==-refl, ℕ, zero, suc, ◌+◌, ◌/◌, ◌≤◌, ◌<◌, ◌==◌, ltb, leb, ◌≡◌, refl, sym, ◌∙◌, ap, ◌⊎◌, inl, inr,
  Bool, true, false, ◌&&◌, [], ◌∷◌, some, none, length, if◌then◌else◌, arith, &&-true, Bool-cases,
}
use mathlib.Core.Path.{subst}
use pureffi.FastPath.Slots.{Wrapper, type_arguments, float_parameter, fast_ints}
use pureffi.FastPath.Dispatch.{max_ints, masks, register_fast_func}
use pureffi.FastPath.Dispatch.Table.{register_fast_func_lem, is_float_width}
use pureffi.FastPath.Names.{
  digits, decimal, wrapper_name, emit_wrapper, emit_counts, emit_wrappers, declared, instantiate,
}

-- The name has one declaration, which is the one that was written for it.
abbrev IsDeclared : ℕ → ℕ → Bool → Type 0
IsDeclared bits n ret =
    declared (wrapper_name n bits ret) emit_wrappers ≡ emit_wrapper n bits ret ∷ []

-- `All P i k`: P from i on, k times
abbrev All : (ℕ → Type 0) → ℕ → ℕ → Type 0
All P i zero = Unit {0}
All P i (suc k) = P i × All P (suc i) k

All-at : (P : ℕ → Type 0) (i k n : ℕ) → All P i k → i ≤ n → n < i + k → P n
All-at P i zero n h a b = absurd (omega arith)
All-at P i (suc k) n (x, y) a b = elim (Bool-cases (n == i)) [
  | inl e ↦ let q : n ≡ i = ground arith in rw q x
  | inr e ↦ All-at P (suc i) k n y (ground arith) (omega arith)
]

IsDeclared-plain : (ret : Bool) → All (λ n. IsDeclared 0 n ret) 0 16
unfolding declared wrapper_name emit_wrappers emit_counts emit_wrapper decimal digits max_ints
    float_parameter
IsDeclared-plain true = search (refl, tt)
IsDeclared-plain false = search (refl, tt)

IsDeclared-float32 : (ret : Bool) → All (λ n. IsDeclared 32 n ret) 0 15
unfolding declared wrapper_name emit_wrappers emit_counts emit_wrapper decimal digits max_ints
    float_parameter
IsDeclared-float32 true = search (refl, tt)
IsDeclared-float32 false = search (refl, tt)

IsDeclared-float64 : (ret : Bool) → All (λ n. IsDeclared 64 n ret) 0 15
unfolding declared wrapper_name emit_wrappers emit_counts emit_wrapper decimal digits max_ints
    float_parameter
IsDeclared-float64 true = search (refl, tt)
IsDeclared-float64 false = search (refl, tt)

length-type_arguments : (n mask : ℕ) → length (type_arguments n mask) ≡ n
unfolding type_arguments
length-type_arguments zero mask = refl
length-type_arguments (suc n) mask = ap suc (length-type_arguments n (mask / 2))

instantiate-IsDeclared :
    (bits n mask : ℕ) (ret : Bool)
    → IsDeclared bits n ret
    → instantiate (declared (wrapper_name n bits ret) emit_wrappers) (type_arguments n mask)
      ≡ some (fast_ints bits n mask ret)
unfolding instantiate emit_wrapper fast_ints
instantiate-IsDeclared bits n mask ret h =
    rw h (rw (length-type_arguments n mask) (rw (==-refl n) refl))

width-cases : (bits : ℕ) → is_float_width bits ≡ true → (bits ≡ 0) ⊎ (bits ≡ 32) ⊎ (bits ≡ 64)
width-cases bits h = ground arith

leb-max_ints : (bits n k : ℕ) → leb n (max_ints bits) ≡ true → suc (max_ints bits) ≡ k → n < 0 + k
leb-max_ints bits n k h e = let l : n ≤ max_ints bits = ground arith in omega arith

IsDeclared-within :
    (bits n : ℕ) (ret : Bool)
    → (bits ≡ 0) ⊎ (bits ≡ 32) ⊎ (bits ≡ 64)
    → leb n (max_ints bits) ≡ true
    → IsDeclared bits n ret
unfolding max_ints
IsDeclared-within bits n ret (inl e) l =
    subst (λ b. leb n (max_ints b) ≡ true → IsDeclared b n ret) (sym e)
      (λ h.
        All-at (λ n. IsDeclared 0 n ret) 0 16 n (IsDeclared-plain ret) (omega arith)
          (leb-max_ints 0 n 16 h refl))
      l
IsDeclared-within bits n ret (inr (inl e)) l =
    subst (λ b. leb n (max_ints b) ≡ true → IsDeclared b n ret) (sym e)
      (λ h.
        All-at (λ n. IsDeclared 32 n ret) 0 15 n (IsDeclared-float32 ret) (omega arith)
          (leb-max_ints 32 n 15 h refl))
      l
IsDeclared-within bits n ret (inr (inr e)) l =
    subst (λ b. leb n (max_ints b) ≡ true → IsDeclared b n ret) (sym e)
      (λ h.
        All-at (λ n. IsDeclared 64 n ret) 0 15 n (IsDeclared-float64 ret) (omega arith)
          (leb-max_ints 64 n 15 h refl))
      l

some-injective : {u w : Wrapper} → some u ≡ some w → u ≡ w
some-injective e = cc

selected : (b : Bool) (u w : Wrapper) → (if b then some u else none) ≡ some w → (b ≡ true) × (u ≡ w)
selected true u w h = (refl, some-injective h)
selected false u w h = absurd (ground arith)

-- Wherever registerFastFunc installs a wrapper, the name that its case calls is declared exactly once by
-- emitWrappers, with as many type parameters as the case gives type arguments, and the instantiation is
-- that wrapper.
pub register_fast_func-instantiate :
    (num_ints ptr_mask float_bits : ℕ) (has_return : Bool) (w : Wrapper)
    → register_fast_func num_ints ptr_mask float_bits has_return ≡ some w
    → instantiate
        (declared (wrapper_name num_ints float_bits has_return) emit_wrappers)
        (type_arguments num_ints ptr_mask)
      ≡ some w
register_fast_func-instantiate n mask bits ret w h =
    let (c, e) =
      selected (is_float_width bits && (leb n (max_ints bits) && ltb mask (masks n)))
        (fast_ints bits n mask ret) w (sym (register_fast_func_lem n mask bits ret) ∙ h) in
    let (a, b) = &&-true (is_float_width bits) (leb n (max_ints bits) && ltb mask (masks n)) c in
    let (l, m) = &&-true (leb n (max_ints bits)) (ltb mask (masks n)) b in
    instantiate-IsDeclared bits n mask ret (IsDeclared-within bits n ret (width-cases bits a) l)
    ∙ ap (λ u. some u) e
