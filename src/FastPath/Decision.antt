-- ===== src/FastPath/Decision.antt =====
-- tryRegisterFastPath against the description by slots.
use pureffi.Common.{
  ℕ, suc, ◌≤◌, ◌<◌, ◌^◌, ◌≡◌, leb, ltb, refl, sym, ap, not, Bool, true, false, ◌&&◌, List, [], ◌∷◌,
  ◌++◌, Option, none, some, if◌then◌else◌, arith, Bool-cases, ◌||◌, ◌⊎◌, inl, inr, length,
  length-append, get_elem?, get_elem?-append_length,
}
use pureffi.Go.Platform.{
  Platform, Os, Arch, builds_fast_path, is_fast_os, is_windows, is_wide, linux, android, darwin,
  ios, freebsd, netbsd, openbsd, dragonfly, solaris, illumos, windows, amd64, arm64, arm,
}
use pureffi.Go.Types.{
  Numeric, GoType, Signature, bool, number, string, unsafe_pointer, pointer, slice, array, struct,
  func, other,
}
use pureffi.FastPath.Slots.{Slot, Wrapper, type_arguments, float_parameter}
use pureffi.FastPath.Dispatch.{max_ints, register_fast_func}
use pureffi.FastPath.Signature.{
  Scan, Attempt, refused, report, select_wrapper, after_scan, is_fast_result, accepts_results,
  has_results, try_register_fast_path, scan, scan_start,
}
use pureffi.FastPath.Signature.Mask.{length-type_arguments}
use pureffi.FastPath.Signature.Phases.{
  slot, slots, is_float_slot, floats, Phase, plain, trailing, inner, many, scan_start-Scanned,
}
use pureffi.FastPath.Shape.{has_wrapper}
use pureffi.FastPath.Selection.{
  wrapper, Selects, both-eq-some, is_float_number, is_number-slots, select-plain, select-trailing,
  select-inner,
}

-- The wrapper that a slot list calls for.
abbrev pub wrapper_for : Option (List Slot) → Bool → Option Wrapper
wrapper_for none ret = none
wrapper_for (some xs) ret = if has_wrapper xs then some (wrapper xs ret) else none

-- A result that comes back in a general register: no result, or a first one that is a Boolean, an
-- integer or a pointer.
abbrev pub fits_word : List GoType → Bool
fits_word [] = true
fits_word (bool d ∷ ts) = true
fits_word (number d Numeric.float32 ∷ ts) = false
fits_word (number d Numeric.float64 ∷ ts) = false
fits_word (number d k ∷ ts) = true
fits_word (unsafe_pointer d ∷ ts) = true
fits_word (pointer d t ∷ ts) = true
fits_word (t ∷ ts) = false

abbrev pub gives_result : List GoType → Bool
gives_result [] = false
gives_result (t ∷ ts) = true

-- The systems that the wrappers are for.
abbrev pub is_listed : Os → Bool
is_listed linux = true
is_listed android = true
is_listed darwin = true
is_listed ios = true
is_listed freebsd = true
is_listed netbsd = true
is_listed _ = false

abbrev pub is_word64 : Arch → Bool
is_word64 amd64 = true
is_word64 arm64 = true
is_word64 _ = false

abbrev pub has_fast_path : Platform → Bool
has_fast_path p = is_listed p.goos && is_word64 p.goarch

-- The wrapper that a function type should get on a platform: its own parameters slot for slot, if
-- the platform has wrappers, there are at most 15 parameters, every one has a slot, the result comes
-- back in a general register, and the slots have a wrapper.
abbrev pub fast_wrapper : Platform → Signature → Option Wrapper
fast_wrapper p sig =
    if has_fast_path p && (leb (length sig.ins) 15 && fits_word sig.outs)
    then wrapper_for (slots sig.ins) (gives_result sig.outs)
    else none

accepts_results_lem : (ts : List GoType) → accepts_results ts ≡ fits_word ts
unfolding accepts_results is_fast_result
accepts_results_lem [] = refl
accepts_results_lem (bool d ∷ ts) = refl
accepts_results_lem (number d Numeric.int ∷ ts) = refl
accepts_results_lem (number d Numeric.int8 ∷ ts) = refl
accepts_results_lem (number d Numeric.int16 ∷ ts) = refl
accepts_results_lem (number d Numeric.int32 ∷ ts) = refl
accepts_results_lem (number d Numeric.int64 ∷ ts) = refl
accepts_results_lem (number d Numeric.uint ∷ ts) = refl
accepts_results_lem (number d Numeric.uint8 ∷ ts) = refl
accepts_results_lem (number d Numeric.uint16 ∷ ts) = refl
accepts_results_lem (number d Numeric.uint32 ∷ ts) = refl
accepts_results_lem (number d Numeric.uint64 ∷ ts) = refl
accepts_results_lem (number d Numeric.uintptr ∷ ts) = refl
accepts_results_lem (number d Numeric.float32 ∷ ts) = refl
accepts_results_lem (number d Numeric.float64 ∷ ts) = refl
accepts_results_lem (string d ∷ ts) = refl
accepts_results_lem (unsafe_pointer d ∷ ts) = refl
accepts_results_lem (pointer d t ∷ ts) = refl
accepts_results_lem (slice d t ∷ ts) = refl
accepts_results_lem (array d n t ∷ ts) = refl
accepts_results_lem (struct d fs ∷ ts) = refl
accepts_results_lem (func d ins v outs ∷ ts) = refl
accepts_results_lem (other d k ∷ ts) = refl

pub has_results_lem : (ts : List GoType) → has_results ts ≡ gives_result ts
has_results_lem [] = refl
has_results_lem (t ∷ ts) = refl

is_listed_lem : (os : Os) → is_fast_os os && not (is_windows os) ≡ is_listed os
is_listed_lem linux = refl
is_listed_lem android = refl
is_listed_lem darwin = refl
is_listed_lem ios = refl
is_listed_lem freebsd = refl
is_listed_lem netbsd = refl
is_listed_lem openbsd = refl
is_listed_lem dragonfly = refl
is_listed_lem solaris = refl
is_listed_lem illumos = refl
is_listed_lem windows = refl
is_listed_lem Os.other = refl

is_word64_lem : (a : Arch) → is_wide a ≡ is_word64 a
is_word64_lem amd64 = refl
is_word64_lem arm64 = refl
is_word64_lem arm = refl
is_word64_lem Arch.other = refl

-- The two tests at the start of the function, for the build and again in its body.
refuses_lem :
    (p : Platform)
    → (not (builds_fast_path p) || not (is_wide p.goarch && not (is_windows p.goos)))
      ≡ not (has_fast_path p)
refuses_lem p =
    absorb (is_wide p.goarch) _ (is_fast_os p.goos) (not (is_windows p.goos)) _
      (is_listed_lem p.goos) (is_word64_lem p.goarch)
  where
    absorb :
        (a a' b c d : Bool)
        → b && c ≡ d
        → a ≡ a'
        → (not ((a && b) && c) || not (a && c)) ≡ not (d && a')
    absorb a a' b c d e f = ground arith

settled :
    (a f l : Bool) (n : ℕ) (o : Option Wrapper) (s : Attempt)
    → a ≡ not f
    → (n ≤ 15 → s ≡ (if l then report o else refused))
    → (if a then refused else if ltb 15 n then refused else s)
      ≡ report (if f && (leb n 15 && l) then o else none)
settled a f l n o s e h = elim (Bool-cases (leb n 15)) [
  | inl k ↦ let q = h (ground arith) in ground arith
  | inr k ↦ ground arith
]

-- The slot at the position of the float.
slot_at :
    (xs pre : List Slot) (f : Slot) (post : List Slot) (n : ℕ)
    → xs ≡ pre ++ f ∷ post
    → length pre ≡ n
    → get_elem? xs n ≡ some f
slot_at xs pre f post n q l = rw (q, ← l) (get_elem?-append_length pre post f)

many-refused : (xs : List Slot) → 2 ≤ floats xs → has_wrapper xs ≡ false
unfolding has_wrapper
many-refused xs c = ground arith

trailing-Selects :
    (xs : List Slot) (ret : Bool) (n m : ℕ) (f : Slot)
    → m < 2 ^ n
    → length xs ≤ 15
    → xs ≡ type_arguments n m ++ f ∷ []
    → is_float_slot f ≡ true
    → Selects xs ret (
        if is_float_number f Numeric.float32
        then report (register_fast_func n m 32 ret)
        else if is_float_number f Numeric.float64
        then report (register_fast_func n m 64 ret)
        else refused)
unfolding float_parameter max_ints
trailing-Selects xs ret n m Slot.float32 h le q i =
    select-trailing xs ret n m Slot.float32 32 refl refl refl h le q i
trailing-Selects xs ret n m Slot.float64 h le q i =
    select-trailing xs ret n m Slot.float64 64 refl refl refl h le q i
trailing-Selects xs ret n m Slot.word h le q i = absurd (ground arith)
trailing-Selects xs ret n m Slot.ref h le q i = absurd (ground arith)

select-Phase :
    (ts : List GoType) (xs : List Slot) (ret : Bool) (s : Scan)
    → slots ts ≡ some xs
    → length xs ≡ length ts
    → length xs ≤ 15
    → Phase xs s
    → Selects xs ret (select_wrapper ts ret s)
unfolding select_wrapper
select-Phase ts xs ret s e l le (plain n m h q r) =
    rw r (select-plain ts xs ret n m h (omega (arith, ap length q, length-type_arguments n m)) q)
select-Phase ts xs ret s e l le (trailing n m f i h q r) =
    let (a, b) = is_number-slots ts xs n e in
    rw (r, a, b, slot_at xs (type_arguments n m) f [] n q (length-type_arguments n m))
      (trailing-Selects xs ret n m f h le q i)
select-Phase ts xs ret s e l le (inner n m pre f x post i h q t r) =
    let (a, b) = is_number-slots ts xs (length pre) e in
    rw (r, a, slot_at xs pre f (x ∷ post) (length pre) q refl, ← l)
      (select-inner xs ret n m pre f x post h le q t i)
select-Phase ts xs ret s e l le (many c d) = rw (many-refused xs c) (ground arith)

pub length-slots : (ts : List GoType) (xs : List Slot) → slots ts ≡ some xs → length xs ≡ length ts
unfolding slots
length-slots [] xs e = ground arith
length-slots (t ∷ ts) xs e =
    let (x, ys, a, b, c) = both-eq-some (slot t) (slots ts) xs e in
    rw c (ap suc (length-slots ts ys b))

-- The bounds that are tested after the loop never refuse what the selection would take.
bounded :
    (ts : List GoType) (xs : List Slot) (s : Scan)
    → length xs ≤ 15
    → Phase xs s
    → (ltb 8 s.num_floats || ltb 15 s.num_ints ≡ false) ⊎ (has_wrapper xs ≡ false)
bounded ts xs s le (plain n m h q r) =
    inl (rw r (ground (arith, ap length q, length-type_arguments n m)))
bounded ts xs s le (trailing n m f i h q r) = inl (
    rw r (
      ground (
        arith,
        ap length q,
        length-append (type_arguments n m) (f ∷ []),
        length-type_arguments n m,
      )))
bounded ts xs s le (inner n m pre f x post i h q t r) = inl (
    rw r (
      ground (
        arith,
        ap length q,
        ap length t,
        length-append pre (f ∷ (x ∷ post)),
        length-append pre (x ∷ post),
        length-type_arguments n m,
      )))
bounded ts xs s le (many c d) = inr (many-refused xs c)

after_scan-Phase :
    (sig : Signature) (xs : List Slot) (s : Scan)
    → slots sig.ins ≡ some xs
    → length xs ≤ 15
    → Phase xs s
    → after_scan sig (some s) ≡ (
        if accepts_results sig.outs
        then report (wrapper_for (some xs) (has_results sig.outs))
        else refused)
after_scan-Phase sig xs s e le h = ground (
  arith,
  bounded sig.ins xs s le h,
  select-Phase sig.ins xs (has_results sig.outs) s e (length-slots sig.ins xs e) le h,
)

after_scan_lem :
    (sig : Signature)
    → length sig.ins ≤ 15
    → after_scan sig (scan 0 sig.ins scan_start) ≡ (
        if accepts_results sig.outs
        then report (wrapper_for (slots sig.ins) (has_results sig.outs))
        else refused)
after_scan_lem sig le = go (slots sig.ins) refl
  where
    go :
        (o : Option (List Slot))
        → slots sig.ins ≡ o
        → after_scan sig (scan 0 sig.ins scan_start) ≡ (
            if accepts_results sig.outs
            then report (wrapper_for o (has_results sig.outs))
            else refused)
    go none e = rw (rw e at (scan_start-Scanned sig.ins)) (ground arith)
    go (some xs) e =
        let (s, r, h) = rw e at (scan_start-Scanned sig.ins) in
        rw r (after_scan-Phase sig xs s e (omega (arith, length-slots sig.ins xs e)) h)

-- tryRegisterFastPath installs, and reports, exactly the wrapper whose parameters are the registered
-- function's own slot for slot: on amd64 or arm64 under linux, android, darwin, ios, freebsd or
-- netbsd, for at most 15 parameters that all have slots, no result or a first one that is an integer,
-- a Boolean or a pointer, and a slot list that has a wrapper. In every other case it leaves fn alone
-- and reports false.
pub try_register_fast_path_lem :
    (p : Platform) (sig : Signature) → try_register_fast_path p sig ≡ report (fast_wrapper p sig)
unfolding try_register_fast_path
try_register_fast_path_lem p sig =
    settled _ (has_fast_path p) (fits_word sig.outs) (length sig.ins) _ _ (refuses_lem p) (λ le.
      rw (sym (accepts_results_lem sig.outs), sym (has_results_lem sig.outs))
        (after_scan_lem sig le))
