-- ===== src/FastPath/Shape.antt =====
-- Which slot lists have a wrapper, described by the list alone.
use native.Mathlib.Nat.{pow-suc}
use pureffi.Common.{
  ℕ, zero, suc, ◌+◌, ◌^◌, ◌/◌, ◌<◌, ◌≡◌, ◌==◌, leb, ltb, refl, sym, append_assoc, Bool, true, false,
  ◌&&◌, ◌||◌, List, [], ◌∷◌, ◌++◌, if◌then◌else◌, arith, length, length-append, replicate,
}
use pureffi.FastPath.Slots.{Slot, word, ref, type_arguments, interleaved_params}
use pureffi.FastPath.Dispatch.{masks}
use pureffi.FastPath.Signature.Phases.{is_float_slot, floats, floats-append}

unfoldable pub refs : List Slot → ℕ
refs [] = 0
refs (ref ∷ xs) = suc (refs xs)
refs (_ ∷ xs) = refs xs

unfoldable pub ends_in_float : List Slot → Bool
ends_in_float [] = false
ends_in_float (x ∷ []) = is_float_slot x
ends_in_float (x ∷ (y ∷ ys)) = ends_in_float (y ∷ ys)

unfoldable pub doubles : List Slot → ℕ
doubles [] = 0
doubles (Slot.float64 ∷ xs) = suc (doubles xs)
doubles (_ ∷ xs) = doubles xs

-- No float, or one float at the end: any words, with pointers only up to six words beside it.
-- One float before a word: a float32, and no pointer.
unfoldable pub has_wrapper : List Slot → Bool
has_wrapper xs =
    if floats xs == 0
    then leb (length xs) 6 || refs xs == 0
    else if floats xs == 1
    then (if ends_in_float xs
        then leb (length xs) 7 || refs xs == 0
        else doubles xs == 0 && refs xs == 0)
    else false

pub refs-append : (xs ys : List Slot) → refs (xs ++ ys) ≡ refs xs + refs ys
unfolding refs
refs-append [] ys = omega arith
refs-append (ref ∷ xs) ys = omega (arith, refs-append xs ys)
refs-append (word ∷ xs) ys = refs-append xs ys
refs-append (Slot.float32 ∷ xs) ys = refs-append xs ys
refs-append (Slot.float64 ∷ xs) ys = refs-append xs ys

pub doubles-append : (xs ys : List Slot) → doubles (xs ++ ys) ≡ doubles xs + doubles ys
unfolding doubles
doubles-append [] ys = omega arith
doubles-append (Slot.float64 ∷ xs) ys = omega (arith, doubles-append xs ys)
doubles-append (word ∷ xs) ys = doubles-append xs ys
doubles-append (Slot.float32 ∷ xs) ys = doubles-append xs ys
doubles-append (ref ∷ xs) ys = doubles-append xs ys

pub floats-type_arguments : (n m : ℕ) → floats (type_arguments n m) ≡ 0
unfolding type_arguments floats
floats-type_arguments zero m = refl
floats-type_arguments (suc n) m = ground (arith, floats-type_arguments n (m / 2))

pub doubles-type_arguments : (n m : ℕ) → doubles (type_arguments n m) ≡ 0
unfolding type_arguments doubles
doubles-type_arguments zero m = refl
doubles-type_arguments (suc n) m = ground (arith, doubles-type_arguments n (m / 2))

-- A mask within the count is 0 exactly where no argument is a pointer.
pub refs-type_arguments : (n m : ℕ) → m < 2 ^ n → (refs (type_arguments n m) == 0) ≡ (m == 0)
unfolding type_arguments refs
refs-type_arguments zero m h = ground arith
refs-type_arguments (suc n) m h = ground (arith, refs-type_arguments n (m / 2), pow-suc 2 n)

-- The masks that have an instantiation, in terms of the slots.
pub ltb-masks :
    (n m : ℕ) → m < 2 ^ n → ltb m (masks n) ≡ (leb n 6 || refs (type_arguments n m) == 0)
unfolding masks
ltb-masks n m h = rw (refs-type_arguments n m h) (ground arith)

pub ends_in_float-snoc :
    (xs : List Slot) (f : Slot) → ends_in_float (xs ++ f ∷ []) ≡ is_float_slot f
unfolding ends_in_float
ends_in_float-snoc [] f = refl
ends_in_float-snoc (x ∷ []) f = refl
ends_in_float-snoc (x ∷ (y ∷ ys)) f = ends_in_float-snoc (y ∷ ys) f

-- Where only words follow, the list does not end in a float.
pub ends_in_float-words :
    (xs : List Slot) (y : Slot) (ys : List Slot)
    → floats (y ∷ ys) ≡ 0
    → ends_in_float (xs ++ y ∷ ys) ≡ false
unfolding ends_in_float floats
ends_in_float-words [] y [] h = ground arith
ends_in_float-words [] y (z ∷ zs) h = ends_in_float-words [] z zs (ground arith)
ends_in_float-words (x ∷ []) y ys h = ends_in_float-words [] y ys h
ends_in_float-words (x ∷ (x' ∷ xs)) y ys h = ends_in_float-words (x' ∷ xs) y ys h

interleaved-words : (pos i left : ℕ) → pos < i → interleaved_params pos i left ≡ replicate left word
unfolding interleaved_params
interleaved-words pos i zero h = refl
interleaved-words pos i (suc left) h = ground (arith, interleaved-words pos (suc i) left)

-- The interleaved parameters are words with one float32 among them.
pub interleaved_params_lem :
    (pos i before after left : ℕ)
    → pos ≡ i + before
    → left ≡ before + suc after
    → interleaved_params pos i left ≡ replicate before word ++ Slot.float32 ∷ replicate after word
unfolding interleaved_params
interleaved_params_lem pos i before after zero e e' = absurd (omega arith)
interleaved_params_lem pos i zero after (suc left) e e' =
    ground (arith, interleaved-words pos (suc i) left)
interleaved_params_lem pos i (suc before) after (suc left) e e' =
    ground (arith, interleaved_params_lem pos (suc i) before after left)

abbrev pub is_float32_slot : Slot → Bool
is_float32_slot Slot.float32 = true
is_float32_slot _ = false

single_refs : (f : Slot) (xs : List Slot) → is_float_slot f ≡ true → refs (f ∷ xs) ≡ refs xs
unfolding refs
single_refs Slot.float32 xs i = refl
single_refs Slot.float64 xs i = refl
single_refs word xs i = refl
single_refs ref xs i = absurd (ground arith)

single_doubles :
    (f : Slot) (xs : List Slot)
    → is_float_slot f ≡ true
    → doubles (f ∷ xs) ≡ (if is_float32_slot f then doubles xs else suc (doubles xs))
unfolding doubles
single_doubles Slot.float32 xs i = refl
single_doubles Slot.float64 xs i = refl
single_doubles word xs i = absurd (ground arith)
single_doubles ref xs i = absurd (ground arith)

floats-cons :
    (f : Slot) (xs : List Slot) → is_float_slot f ≡ true → floats (f ∷ xs) ≡ suc (floats xs)
unfolding floats
floats-cons f xs i = ground arith

floats_nil : floats [] ≡ 0
unfolding floats
floats_nil = refl

refs_nil : refs [] ≡ 0
unfolding refs
refs_nil = refl

pub has_wrapper-trailing :
    (ws : List Slot) (f : Slot)
    → floats ws ≡ 0
    → is_float_slot f ≡ true
    → has_wrapper (ws ++ f ∷ []) ≡ (leb (length ws) 6 || refs ws == 0)
unfolding has_wrapper
has_wrapper-trailing ws f z i = ground (
  arith,
  floats-append ws (f ∷ []),
  floats-cons f [],
  floats_nil,
  refs-append ws (f ∷ []),
  single_refs f [],
  refs_nil,
  length-append ws (f ∷ []),
  ends_in_float-snoc ws f,
)

pub has_wrapper-inner :
    (pre : List Slot) (f x : Slot) (post : List Slot)
    → floats (pre ++ x ∷ post) ≡ 0
    → doubles (pre ++ x ∷ post) ≡ 0
    → is_float_slot f ≡ true
    → has_wrapper (pre ++ f ∷ x ∷ post) ≡ (is_float32_slot f && refs (pre ++ x ∷ post) == 0)
unfolding has_wrapper
has_wrapper-inner pre f x post z w i = ground (
  arith,
  floats-append pre (f ∷ (x ∷ post)),
  floats-append pre (x ∷ post),
  floats-cons f (x ∷ post),
  refs-append pre (f ∷ (x ∷ post)),
  refs-append pre (x ∷ post),
  single_refs f (x ∷ post),
  doubles-append pre (f ∷ (x ∷ post)),
  doubles-append pre (x ∷ post),
  single_doubles f (x ∷ post),
  inner_end,
)
  where
    inner_end : ends_in_float (pre ++ f ∷ x ∷ post) ≡ false
    inner_end =
        rw (sym (append_assoc pre (f ∷ []) (x ∷ post)))
          (ends_in_float-words (pre ++ f ∷ []) x post (omega (arith, floats-append pre (x ∷ post))))
