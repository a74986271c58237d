-- ===== src/FastPath/Signature/Phases.antt =====
-- The loop over the parameters against the list of slots that they stand for.
use pureffi.Common.{
  ℕ, suc, ◌+◌, ◌^◌, ◌≤◌, ◌<◌, ◌≡◌, refl, Bool, true, false, List, [], ◌∷◌, ◌++◌, append_assoc,
  append-nil, Option, none, some, if◌then◌else◌, arith, length, length-append,
}
use native.Mathlib.Nat.{pow-suc}
use pureffi.Go.Types.{
  int, int64, uint, uint64, uintptr, float32, float64, GoType, number, unsafe_pointer, pointer,
}
use pureffi.FastPath.Slots.{Slot, word, ref, type_arguments}
use pureffi.FastPath.Signature.{
  Class, integer, address, floating, unsupported, classify, set_bit, Scan, scan_start, scan_integer,
  scan_float, scan,
}
use pureffi.FastPath.Signature.Mask.{
  length-type_arguments, type_arguments-word, type_arguments-ref, set_bit_fresh,
}

-- The slot of a parameter type in Go's own calling convention: a full integer word, a pointer that
-- the collector sees, or a floating-point register. Narrower and composite types have none.
unfoldable pub slot : GoType → Option Slot
slot (number d uintptr) = some word
slot (number d uint) = some word
slot (number d uint64) = some word
slot (number d int) = some word
slot (number d int64) = some word
slot (number d float32) = some Slot.float32
slot (number d float64) = some Slot.float64
slot (unsafe_pointer d) = some ref
slot (pointer d t) = some ref
slot _ = none

abbrev pub both : Option Slot → Option (List Slot) → Option (List Slot)
both (some x) (some xs) = some (x ∷ xs)
both _ _ = none

-- The slots of a parameter list, if each parameter has one.
unfoldable pub slots : List GoType → Option (List Slot)
slots [] = some []
slots (t ∷ ts) = both (slot t) (slots ts)

abbrev pub is_float_slot : Slot → Bool
is_float_slot Slot.float32 = true
is_float_slot Slot.float64 = true
is_float_slot _ = false

unfoldable pub floats : List Slot → ℕ
floats [] = 0
floats (x ∷ xs) = (if is_float_slot x then 1 else 0) + floats xs

pub floats-append : (xs ys : List Slot) → floats (xs ++ ys) ≡ floats xs + floats ys
unfolding floats
floats-append [] ys = omega arith
floats-append (x ∷ xs) ys = omega (arith, floats-append xs ys)

abbrev pub plain_scan : ℕ → ℕ → Scan
plain_scan n m = record {
  num_floats = 0;
  num_ints = n;
  ptr_mask = m;
  trailing_floats = true;
  seen_float = false;
  float_pos = none;
}

abbrev pub float_scan : Bool → ℕ → ℕ → ℕ → Scan
float_scan last n m pos = record {
  num_floats = 1;
  num_ints = n;
  ptr_mask = m;
  trailing_floats = last;
  seen_float = true;
  float_pos = some pos;
}

-- What the loop's variables say of the slots that it has passed.
pub data Phase (ps : List Slot) (s : Scan) : Type 0 where
  plain : (n m : ℕ) → m < 2 ^ n → ps ≡ type_arguments n m → s ≡ plain_scan n m → Phase ps s
  trailing :
      (n m : ℕ) (f : Slot)
      → is_float_slot f ≡ true
      → m < 2 ^ n
      → ps ≡ type_arguments n m ++ f ∷ []
      → s ≡ float_scan true n m n
      → Phase ps s
  inner :
      (n m : ℕ) (pre : List Slot) (f x : Slot) (post : List Slot)
      → is_float_slot f ≡ true
      → m < 2 ^ n
      → ps ≡ pre ++ f ∷ x ∷ post
      → type_arguments n m ≡ pre ++ x ∷ post
      → s ≡ float_scan false n m (length pre)
      → Phase ps s
  many : 2 ≤ floats ps → 2 ≤ s.num_floats → Phase ps s

abbrev int_slot : Bool → Slot
int_slot b = if b then ref else word

abbrev next_mask : Bool → ℕ → ℕ → ℕ
next_mask b n m = if b then set_bit m n else m

type_arguments-next :
    (b : Bool) (n m : ℕ)
    → m < 2 ^ n
    → type_arguments (suc n) (next_mask b n m) ≡ type_arguments n m ++ int_slot b ∷ []
type_arguments-next false n m h = type_arguments-word n m h
type_arguments-next true n m h = rw (set_bit_fresh m n h) (type_arguments-ref n m h)

next_mask-lt : (b : Bool) (n m : ℕ) → m < 2 ^ n → next_mask b n m < 2 ^ suc n
next_mask-lt false n m h = omega (arith, pow-suc 2 n)
next_mask-lt true n m h = omega (arith, pow-suc 2 n, set_bit_fresh m n h)

Phase-integer :
    (b : Bool) (ps : List Slot) (s : Scan)
    → Phase ps s
    → Phase (ps ++ int_slot b ∷ []) (scan_integer b s)
unfolding scan_integer
Phase-integer b ps s (plain n m h e q) =
    plain (suc n) (next_mask b n m) (next_mask-lt b n m h) (rw (e, type_arguments-next b n m h))
      (rw q)
Phase-integer b ps s (trailing n m f i h e q) =
    inner (suc n) (next_mask b n m) (type_arguments n m) f (int_slot b) [] i (next_mask-lt b n m h)
      (rw (e, append_assoc)) (type_arguments-next b n m h) (rw (q, length-type_arguments n m))
Phase-integer b ps s (inner n m pre f x post i h e t q) =
    inner (suc n) (next_mask b n m) pre f x (post ++ int_slot b ∷ []) i (next_mask-lt b n m h)
      (rw (e, append_assoc)) (rw (type_arguments-next b n m h, t, append_assoc)) (rw q)
Phase-integer b ps s (many c h) = many (omega (arith, floats-append ps (int_slot b ∷ []))) h

floats-single : (f : Slot) → is_float_slot f ≡ true → floats (f ∷ []) ≡ 1
unfolding floats
floats-single f i = ground arith

-- A float anywhere in a list counts.
floats_pos :
    (xs : List Slot) (f : Slot) (ys : List Slot)
    → is_float_slot f ≡ true
    → 1 ≤ floats (xs ++ f ∷ ys)
unfolding floats
floats_pos xs f ys i = ground (arith, floats-append xs (f ∷ ys))

-- The next float, where the list already has one.
floats_second :
    (f : Slot) (ps : List Slot) → is_float_slot f ≡ true → 1 ≤ floats ps → 2 ≤ floats (ps ++ f ∷ [])
floats_second f ps i h = omega (arith, floats-append ps (f ∷ []), floats-single f i)

Phase-float :
    (f : Slot) (ps : List Slot) (s : Scan)
    → is_float_slot f ≡ true
    → Phase ps s
    → Phase (ps ++ f ∷ []) (scan_float (length ps) s)
unfolding scan_float
Phase-float f ps s i (plain n m h e q) =
    trailing n m f i h (rw e) (rw (q, e, length-type_arguments n m))
Phase-float f ps s i (trailing n m g j h e q) =
    many (floats_second f ps i (rw e (floats_pos (type_arguments n m) g [] j))) (rw q (omega arith))
Phase-float f ps s i (inner n m pre g x post j h e t q) =
    many (floats_second f ps i (rw e (floats_pos pre g (x ∷ post) j))) (rw q (omega arith))
Phase-float f ps s i (many c h) = many (omega (arith, floats-append ps (f ∷ []))) (omega arith)

-- How the loop's switch sorts a type that has a slot.
abbrev class_of : Option Slot → Class
class_of none = unsupported
class_of (some word) = integer
class_of (some ref) = address
class_of (some f) = floating

classify-slot : (t : GoType) → classify t ≡ class_of (slot t)
unfolding classify slot
classify-slot (number d int) = refl
classify-slot (number d float32) = refl
classify-slot (number d float64) = refl
classify-slot _ = refl

-- The loop ends exactly where every parameter has a slot, with variables that describe the slots.
abbrev pub Scanned : List Slot → Option (List Slot) → Option Scan → Type 0
Scanned ps none r = r ≡ none
Scanned ps (some xs) r = (s : Scan) × (r ≡ some s) × Phase (ps ++ xs) s

Scanned-both :
    (x : Slot) (ps : List Slot) (xs : Option (List Slot)) (r : Option Scan)
    → Scanned (ps ++ x ∷ []) xs r
    → Scanned ps (both (some x) xs) r
Scanned-both x ps none r h = h
Scanned-both x ps (some xs) r (s, e, h) = (s, e, rw append_assoc at h)

-- One round of the loop, given what the rest of the loop does.
scan_round :
    (o : Option Slot) (ps : List Slot) (xs : Option (List Slot)) (s : Scan)
    (rest : Scan → Option Scan)
    → Phase ps s
    → ((x : Slot) (s' : Scan) → Phase (ps ++ x ∷ []) s' → Scanned (ps ++ x ∷ []) xs (rest s'))
    → Scanned ps (both o xs) (elim (class_of o) [
      | integer ↦ rest (scan_integer false s)
      | address ↦ rest (scan_integer true s)
      | floating ↦ rest (scan_float (length ps) s)
      | unsupported ↦ none
    ])
scan_round none ps xs s rest h next = refl
scan_round (some word) ps xs s rest h next =
    Scanned-both word ps xs _ (next word _ (Phase-integer false ps s h))
scan_round (some ref) ps xs s rest h next =
    Scanned-both ref ps xs _ (next ref _ (Phase-integer true ps s h))
scan_round (some Slot.float32) ps xs s rest h next =
    Scanned-both Slot.float32 ps xs _ (next Slot.float32 _ (Phase-float Slot.float32 ps s refl h))
scan_round (some Slot.float64) ps xs s rest h next =
    Scanned-both Slot.float64 ps xs _ (next Slot.float64 _ (Phase-float Slot.float64 ps s refl h))

length-snoc : (ps : List Slot) (x : Slot) → length (ps ++ x ∷ []) ≡ suc (length ps)
length-snoc ps x = omega (arith, length-append ps (x ∷ []))

scan-Scanned :
    (ps : List Slot) (ts : List GoType) (s : Scan)
    → Phase ps s
    → Scanned ps (slots ts) (scan (length ps) ts s)
unfolding scan slots
scan-Scanned ps [] s h = (s, refl, rw append-nil h)
scan-Scanned ps (t ∷ ts) s h =
    rw (classify-slot t, scan)
      (scan_round (slot t) ps (slots ts) s (scan (suc (length ps)) ts) h
        λ x s' h'. rw (length-snoc ps x) at (scan-Scanned (ps ++ x ∷ []) ts s' h'))

-- The loop of tryRegisterFastPath over a whole parameter list.
pub scan_start-Scanned : (ts : List GoType) → Scanned [] (slots ts) (scan 0 ts scan_start)
unfolding type_arguments
scan_start-Scanned ts = scan-Scanned [] ts scan_start (plain 0 0 (omega arith) refl refl)
