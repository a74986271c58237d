-- ===== src/FastPath/Emit/Params.antt =====
-- genfastfunc.go, emitWrapper and emitInterleavedFloat32x1: the parameters of the closures that are
-- written, by name and by type.
use native.Mathlib.Nat.{add-zero}
use pureffi.Common.{
  ℕ, zero, suc, ◌+◌, ◌-◌, ◌≤◌, ◌<◌, ◌==◌, ◌≡◌, refl, ap, false, List, [], ◌∷◌, ◌++◌, Option, arith,
  Bool-cases, inl, inr, ◌⊎◌, ◌/◌, ◌%◌,
}
use pureffi.FastPath.Slots.{
  Slot, float32, float64, type_arguments, float_parameter, interleaved_params,
}
use pureffi.FastPath.Emit.{
  Parameter, f1, integer_names, wrapper_names, interleaved_names, as_int, as_word,
}
use pureffi.FastPath.Emit.Named.{IsNumbered, AllRead, AllWide, as_int-AllRead}
use pureffi.FastPath.Emit.Counts.{ints_of, floats_of}

-- Type parameters in front of what follows.
IsNumbered-type_arguments :
    (n mask i : ℕ) (ns : List Parameter) (ss : List Slot)
    → IsNumbered (i + n) ns ss
    → IsNumbered i (integer_names i n ++ ns) (type_arguments n mask ++ ss)
unfolding integer_names type_arguments
IsNumbered-type_arguments zero mask i ns ss h = rw add-zero at h
IsNumbered-type_arguments (suc n) mask i ns ss h =
    let k : i + suc n ≡ suc i + n = omega arith in
    let rest = IsNumbered-type_arguments n (mask / 2) (suc i) ns ss (rw k at h) in
    elim (Bool-cases (mask % 2 == 1)) [
      | inl e ↦ rw (type_arguments, e) (refl, rest)
      | inr e ↦ rw (type_arguments, e) (refl, rest)
    ]

AllWide-type_arguments :
    (bits n mask : ℕ) (ss : List Slot)
    → AllWide bits ss
    → AllWide bits (type_arguments n mask ++ ss)
unfolding type_arguments
AllWide-type_arguments bits zero mask ss h = h
AllWide-type_arguments bits (suc n) mask ss h = elim (Bool-cases (mask % 2 == 1)) [
  | inl e ↦ rw (type_arguments, e) (AllWide-type_arguments bits n (mask / 2) ss h)
  | inr e ↦ rw (type_arguments, e) (AllWide-type_arguments bits n (mask / 2) ss h)
]

counts-type_arguments :
    (n mask : ℕ) (ss : List Slot)
    → (ints_of (type_arguments n mask ++ ss) ≡ n + ints_of ss)
      × (floats_of (type_arguments n mask ++ ss) ≡ floats_of ss)
unfolding type_arguments ints_of floats_of
counts-type_arguments zero mask ss = (omega arith, refl)
counts-type_arguments (suc n) mask ss =
    let rest = counts-type_arguments n (mask / 2) ss in
    elim (Bool-cases (mask % 2 == 1)) [
      | inl e ↦ rw (type_arguments, e, ints_of, floats_of) (omega (arith, rest.0), rest.1)
      | inr e ↦ rw (type_arguments, e, ints_of, floats_of) (omega (arith, rest.0), rest.1)
    ]

-- What running a body needs of a closure's parameters, with n integers; `read` is how the body reads
-- them, and `bits` the width of f1.
pub record AreParams (read : Option (Slot × ℕ) → Option ℕ) (bits n : ℕ) (ns : List Parameter)
    (ss : List Slot) : Type 0 where
  pub numbered : IsNumbered 0 ns ss
  pub readable : AllRead read ss
  pub wide : AllWide bits ss
  pub ints : ints_of ss ≡ n

last-AreParams :
    (bits n mask : ℕ) (ns : List Parameter) (ss : List Slot)
    → IsNumbered (0 + n) ns ss
    → AllWide bits ss
    → ints_of ss ≡ 0
    → AreParams as_int bits n (integer_names 0 n ++ ns) (type_arguments n mask ++ ss)
last-AreParams bits n mask ns ss h w z = record {
  numbered = IsNumbered-type_arguments n mask 0 ns ss h;
  readable = as_int-AllRead (type_arguments n mask ++ ss);
  wide = AllWide-type_arguments bits n mask ss w;
  ints = omega (arith, (counts-type_arguments n mask ss).0, z);
}

-- The parameters of the wrappers, for each of the three widths.
pub wrapper-AreParams :
    (bits n mask : ℕ)
    → (bits ≡ 0) ⊎ (bits ≡ 32) ⊎ (bits ≡ 64)
    → AreParams as_int bits n (wrapper_names n bits) (type_arguments n mask ++ float_parameter bits)
unfolding wrapper_names float_parameter ints_of
wrapper-AreParams bits n mask (inl e) = rw e (last-AreParams 0 n mask [] [] tt tt refl)
wrapper-AreParams bits n mask (inr (inl e)) =
    rw e (last-AreParams 32 n mask (f1 ∷ []) (float32 ∷ []) tt (refl, tt) refl)
wrapper-AreParams bits n mask (inr (inr e)) =
    rw e (last-AreParams 64 n mask (f1 ∷ []) (float64 ∷ []) tt (refl, tt) refl)

pub floats_of-wrapper :
    (n mask bits : ℕ)
    → floats_of (type_arguments n mask ++ float_parameter bits) ≡ floats_of (float_parameter bits)
floats_of-wrapper n mask bits = (counts-type_arguments n mask (float_parameter bits)).1

interleaved-IsNumbered :
    (float_pos i k left : ℕ)
    → IsNumbered k
        (interleaved_names float_pos i (suc k) left)
        (interleaved_params float_pos i left)
unfolding interleaved_names interleaved_params
interleaved-IsNumbered float_pos i k zero = tt
interleaved-IsNumbered float_pos i k (suc left) = elim (Bool-cases (i == float_pos)) [
  | inl e ↦
      rw (interleaved_names, interleaved_params, e)
        (interleaved-IsNumbered float_pos (suc i) k left)
  | inr e ↦
      rw (interleaved_names, interleaved_params, e)
        (refl, interleaved-IsNumbered float_pos (suc i) (suc k) left)
]

interleaved-AllRead : (float_pos i left : ℕ) → AllRead as_word (interleaved_params float_pos i left)
unfolding interleaved_params as_word
interleaved-AllRead float_pos i zero = tt
interleaved-AllRead float_pos i (suc left) = elim (Bool-cases (i == float_pos)) [
  | inl e ↦ rw (interleaved_params, e) (interleaved-AllRead float_pos (suc i) left)
  | inr e ↦ rw (interleaved_params, e) (λ v. refl, interleaved-AllRead float_pos (suc i) left)
]

interleaved-AllWide : (float_pos i left : ℕ) → AllWide 32 (interleaved_params float_pos i left)
unfolding interleaved_params
interleaved-AllWide float_pos i zero = tt
interleaved-AllWide float_pos i (suc left) = elim (Bool-cases (i == float_pos)) [
  | inl e ↦ rw (interleaved_params, e) (refl, interleaved-AllWide float_pos (suc i) left)
  | inr e ↦ rw (interleaved_params, e) (interleaved-AllWide float_pos (suc i) left)
]

-- Past the float's position all parameters are integers.
interleaved-after :
    (float_pos i left : ℕ)
    → float_pos < i
    → (ints_of (interleaved_params float_pos i left) ≡ left)
      × (floats_of (interleaved_params float_pos i left) ≡ 0)
unfolding interleaved_params ints_of floats_of
interleaved-after float_pos i zero h = (refl, refl)
interleaved-after float_pos i (suc left) h =
    let n : (i == float_pos) ≡ false = ground arith in
    let rest = interleaved-after float_pos (suc i) left (omega arith) in
    rw (interleaved_params, n, ints_of, floats_of) (ap suc rest.0, rest.1)

interleaved-counts :
    (float_pos i left : ℕ)
    → i ≤ float_pos
    → float_pos < i + left
    → (suc (ints_of (interleaved_params float_pos i left)) ≡ left)
      × (floats_of (interleaved_params float_pos i left) ≡ 1)
unfolding interleaved_params ints_of floats_of
interleaved-counts float_pos i zero h k = absurd (omega arith)
interleaved-counts float_pos i (suc left) h k = elim (Bool-cases (i == float_pos)) [
  | inl e ↦
      let rest = interleaved-after float_pos (suc i) left (ground arith) in
      rw (interleaved_params, e, ints_of, floats_of) (ap suc rest.0, ap suc rest.1)
  | inr e ↦
      let rest = interleaved-counts float_pos (suc i) left (ground arith) (omega arith) in
      rw (interleaved_params, e, ints_of, floats_of) (ap suc rest.0, rest.1)
]

pub interleaved-AreParams :
    (total_args float_pos : ℕ)
    → float_pos < total_args
    → AreParams as_word 32
        (total_args - 1)
        (interleaved_names float_pos 0 1 total_args)
        (interleaved_params float_pos 0 total_args)
      × (floats_of (interleaved_params float_pos 0 total_args) ≡ 1)
interleaved-AreParams total_args float_pos h =
    let counts = interleaved-counts float_pos 0 total_args (omega arith) (omega arith) in
    (
      record {
        numbered = interleaved-IsNumbered float_pos 0 0 total_args;
        readable = interleaved-AllRead float_pos 0 total_args;
        wide = interleaved-AllWide float_pos 0 total_args;
        ints = omega (arith, counts.0);
      },
      counts.1,
    )
