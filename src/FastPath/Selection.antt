-- ===== src/FastPath/Selection.antt =====
-- The last part of tryRegisterFastPath, the choice of a wrapper, for each shape of slot list.
use pureffi.Common.{
  ℕ, zero, suc, ◌^◌, ◌≤◌, ◌<◌, ◌≡◌, ◌==◌, leb, ltb, refl, sym, ap, ◌∙◌, Bool, true, false, ◌&&◌,
  List, [], ◌∷◌, ◌++◌, Option, none, some, if◌then◌else◌, arith, length, length-append, get_elem?,
  replicate, length-replicate, append-nil,
}
use pureffi.Go.Types.{Numeric, GoType, number}
use pureffi.FastPath.Slots.{
  Slot, word, ref, Wrapper, type_arguments, fast_ints, interleaved, interleaved_params,
  float_parameter,
}
use pureffi.FastPath.Dispatch.{
  register_fast_func, register_fast_func_interleaved_float32x1, max_ints,
}
use pureffi.FastPath.Dispatch.Table.{is_float_width, register_fast_func_lem, interleaved_lem}
use pureffi.FastPath.Signature.{Attempt, refused, report, is_number}
use pureffi.FastPath.Signature.Mask.{length-type_arguments, type_arguments-zero}
use pureffi.FastPath.Signature.Phases.{slot, slots, both, is_float_slot}
use pureffi.FastPath.Shape.{
  has_wrapper, floats-type_arguments, doubles-type_arguments, ltb-masks, refs-type_arguments,
  interleaved_params_lem, has_wrapper-trailing, has_wrapper-inner, is_float32_slot,
}

-- The wrapper with the given parameters.
abbrev pub wrapper : List Slot → Bool → Wrapper
wrapper xs ret = record { params = xs; has_return = ret }

-- What selection should come to for a slot list.
abbrev pub Selects : List Slot → Bool → Attempt → Type 0
Selects xs ret a = a ≡ (if has_wrapper xs then report (some (wrapper xs ret)) else refused)

abbrev pub is_float_number : Slot → Numeric → Bool
is_float_number Slot.float32 Numeric.float32 = true
is_float_number Slot.float64 Numeric.float64 = true
is_float_number _ _ = false

abbrev pub at_slot : Option Slot → Numeric → Bool
at_slot none k = false
at_slot (some x) k = is_float_number x k

is_number-slot :
    (t : GoType) (x : Slot)
    → slot t ≡ some x
    → (is_number Numeric.float32 (some t) ≡ is_float_number x Numeric.float32)
      × (is_number Numeric.float64 (some t) ≡ is_float_number x Numeric.float64)
unfolding slot
is_number-slot (number d Numeric.float32) x e = ground arith
is_number-slot (number d Numeric.float64) x e = ground arith
is_number-slot (number d k) x e = ground arith
is_number-slot _ x e = ground arith

pub both-eq-some :
    (o : Option Slot) (os : Option (List Slot)) (xs : List Slot)
    → both o os ≡ some xs
    → (x : Slot) × (ys : List Slot) × (o ≡ some x) × (os ≡ some ys) × (xs ≡ x ∷ ys)
both-eq-some none os xs e = absurd (ground arith)
both-eq-some (some x) none xs e = absurd (ground arith)
both-eq-some (some x) (some ys) xs e = (x, ys, refl, refl, ground arith)

-- The type at a position is the float of the slot there.
pub is_number-slots :
    (ts : List GoType) (xs : List Slot) (i : ℕ)
    → slots ts ≡ some xs
    → (is_number Numeric.float32 (get_elem? ts i) ≡ at_slot (get_elem? xs i) Numeric.float32)
      × (is_number Numeric.float64 (get_elem? ts i) ≡ at_slot (get_elem? xs i) Numeric.float64)
unfolding slots
is_number-slots [] xs i e = ground arith
is_number-slots (t ∷ ts) xs zero e =
    let (x, ys, a, b, c) = both-eq-some (slot t) (slots ts) xs e in rw c (is_number-slot t x a)
is_number-slots (t ∷ ts) xs (suc i) e =
    let (x, ys, a, b, c) = both-eq-some (slot t) (slots ts) xs e in rw c (is_number-slots ts ys i b)

report-if :
    (c : Bool) (w : Wrapper)
    → report (if c then some w else none) ≡ (if c then report (some w) else refused)
report-if true w = refl
report-if false w = refl

pub select-plain :
    (ts : List GoType) (xs : List Slot) (ret : Bool) (n m : ℕ)
    → m < 2 ^ n
    → n ≤ 15
    → xs ≡ type_arguments n m
    → Selects xs ret (report (register_fast_func n m 0 ret))
unfolding has_wrapper max_ints fast_ints
select-plain ts xs ret n m h le e =
    rw
      (
        register_fast_func_lem,
        e,
        ltb-masks n m h,
        floats-type_arguments n m,
        length-type_arguments n m,
        report-if,
        append-nil,
      )
      (ground arith)

pub select-trailing :
    (xs : List Slot) (ret : Bool) (n m : ℕ) (f : Slot) (bits : ℕ)
    → f ∷ [] ≡ float_parameter bits
    → is_float_width bits ≡ true
    → max_ints bits ≡ 14
    → m < 2 ^ n
    → length xs ≤ 15
    → xs ≡ type_arguments n m ++ f ∷ []
    → is_float_slot f ≡ true
    → Selects xs ret (report (register_fast_func n m bits ret))
unfolding fast_ints
select-trailing xs ret n m f bits ef ew em h le e i =
    rw
      (
        register_fast_func_lem,
        ew,
        em,
        e,
        has_wrapper-trailing (type_arguments n m) f (floats-type_arguments n m) i,
        ltb-masks n m h,
        length-type_arguments n m,
        report-if,
        sym ef,
      )
      (ground (arith, bound))
  where
    bound : n ≤ 14
    bound =
        omega (
          arith,
          ap length e,
          length-append (type_arguments n m) (f ∷ []),
          length-type_arguments n m,
        )

replicate-split :
    (n : ℕ) (xs ys : List Slot)
    → replicate n word ≡ xs ++ ys
    → (xs ≡ replicate (length xs) word) × (ys ≡ replicate (length ys) word)
replicate-split n [] ys e = (refl, all_words n ys e)
  where
    all_words : (n : ℕ) (ys : List Slot) → replicate n word ≡ ys → ys ≡ replicate (length ys) word
    all_words n ys e = rw (sym e, length-replicate n word)
replicate-split zero (x ∷ xs) ys e = absurd (ground arith)
replicate-split (suc n) (x ∷ xs) ys e = ground (arith, replicate-split n xs ys (ground arith))

-- Without pointers, the interleaved wrapper has the very parameters of the signature.
interleaved-inner :
    (n m : ℕ) (pre : List Slot) (x : Slot) (post : List Slot)
    → m ≡ 0
    → type_arguments n m ≡ pre ++ x ∷ post
    → interleaved_params (length pre) 0 (length (pre ++ Slot.float32 ∷ x ∷ post))
      ≡ pre ++ Slot.float32 ∷ x ∷ post
interleaved-inner n m pre x post z t =
    let (a, b) = replicate-split n pre (x ∷ post) (sym (type_arguments-zero n) ∙ rw z at t) in
    interleaved_params_lem (length pre) 0 (length pre) (length (x ∷ post)) _ (omega arith)
      (length-append pre (Slot.float32 ∷ x ∷ post))
    ∙ sym (rw (← a, ← b))

pub select-inner :
    (xs : List Slot) (ret : Bool) (n m : ℕ) (pre : List Slot) (f x : Slot) (post : List Slot)
    → m < 2 ^ n
    → length xs ≤ 15
    → xs ≡ pre ++ f ∷ x ∷ post
    → type_arguments n m ≡ pre ++ x ∷ post
    → is_float_slot f ≡ true
    → Selects xs ret (
        if m == 0 && is_float_number f Numeric.float32
        then record {
          reported = true;
          installed = register_fast_func_interleaved_float32x1 (length xs) (length pre) ret;
        }
        else refused)
unfolding interleaved
select-inner xs ret n m pre f x post h le e t i =
    rw
      (
        e,
        has_wrapper-inner pre f x post (rw t at (floats-type_arguments n m))
            (rw t at (doubles-type_arguments n m)) i,
        sym t,
        refs-type_arguments n m h,
        interleaved_lem,
      )
      (decide f e)
  where
    decide :
        (f : Slot)
        → xs ≡ pre ++ f ∷ x ∷ post
        → (if m == 0 && is_float_number f Numeric.float32
            then record {
              reported = true;
              installed =
                  if leb 2 (length (pre ++ f ∷ x ∷ post))
                    && (leb (length (pre ++ f ∷ x ∷ post)) 15
                        && ltb (suc (length pre)) (length (pre ++ f ∷ x ∷ post)))
                  then some (interleaved (length (pre ++ f ∷ x ∷ post)) (length pre) ret)
                  else none;
            }
            else refused)
          ≡ (if is_float32_slot f && m == 0
              then report (some (wrapper (pre ++ f ∷ x ∷ post) ret))
              else refused)
    decide word e = ground arith
    decide ref e = ground arith
    decide Slot.float64 e = ground arith
    decide Slot.float32 e = ground (
      arith,
      λ (z : m ≡ 0). interleaved-inner n m pre x post z t,
      ap length e,
      length-append pre (Slot.float32 ∷ x ∷ post),
    )
