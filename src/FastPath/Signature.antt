-- ===== src/FastPath/Signature.antt =====
-- genfastfunc.go, tryRegisterFastPath (in zz_fast_func.go as it is built): whether a function type
-- gets a wrapper, and which. zz_fast_func_fallback.go is the version for the other targets.
pub mod Mask
pub mod Phases
use pureffi.Common.{
  ℕ, zero, suc, ◌+◌, ◌/◌, ◌%◌, ◌^◌, ◌==◌, ltb, Bool, true, false, ◌&&◌, ◌||◌, not, List, [], ◌∷◌,
  Option, none, some, if◌then◌else◌, length, get_elem?,
}
use pureffi.Go.Platform.{Platform, builds_fast_path, is_windows, is_wide}
use pureffi.Go.Types.{
  Numeric, int, int64, uint, uint64, uintptr, float32, float64, GoType, bool, number,
  unsafe_pointer, pointer, Signature, is_float,
}
use pureffi.FastPath.Slots.{Wrapper}
use pureffi.FastPath.Dispatch.{register_fast_func, register_fast_func_interleaved_float32x1}

-- The branches of the switch on ty.In(i).Kind(): an integer or a pointer of a full word, a float,
-- or the default, which gives up.
pub data Class : Type 0 where
  integer address floating unsupported : Class

unfoldable pub numeric_class : Numeric → Class
numeric_class uintptr = integer
numeric_class uint = integer
numeric_class uint64 = integer
numeric_class int = integer
numeric_class int64 = integer
numeric_class float32 = floating
numeric_class float64 = floating
numeric_class _ = unsupported

unfoldable pub classify : GoType → Class
unfolding numeric_class
classify (number d k) = numeric_class k
classify (unsafe_pointer d) = address
classify (pointer d t) = address
classify _ = unsupported

-- mask | 1<<i
unfoldable pub set_bit : ℕ → ℕ → ℕ
set_bit mask i = if mask / 2 ^ i % 2 == 1 then mask else mask + 2 ^ i

-- The variables of the loop over the parameters; float_pos is `none` for -1.
pub record Scan : Type 0 where
  pub num_floats : ℕ
  pub num_ints : ℕ
  pub ptr_mask : ℕ
  pub trailing_floats : Bool
  pub seen_float : Bool
  pub float_pos : Option ℕ

abbrev pub scan_start : Scan
scan_start = record {
  num_floats = 0;
  num_ints = 0;
  ptr_mask = 0;
  trailing_floats = true;
  seen_float = false;
  float_pos = none;
}

unfoldable pub scan_integer : Bool → Scan → Scan
unfolding set_bit
scan_integer is_pointer s = record s {
  num_ints = suc s.num_ints;
  ptr_mask = if is_pointer then set_bit s.ptr_mask s.num_ints else s.ptr_mask;
  trailing_floats = if s.seen_float then false else s.trailing_floats;
}

unfoldable pub scan_float : ℕ → Scan → Scan
scan_float i s = record s {
  num_floats = suc s.num_floats;
  seen_float = true;
  float_pos = if s.seen_float then s.float_pos else some i;
}

-- The loop from parameter i on; `none` is the default branch, `return false`.
unfoldable pub scan : ℕ → List GoType → Scan → Option Scan
unfolding scan_integer scan_float classify
scan i [] s = some s
scan i (t ∷ ts) s = elim (classify t) [
  | integer ↦ scan (suc i) ts (scan_integer false s)
  | address ↦ scan (suc i) ts (scan_integer true s)
  | floating ↦ scan (suc i) ts (scan_float i s)
  | unsupported ↦ none
]

-- The switch on ty.Out(0).Kind(): an integer, a Boolean or a pointer.
unfoldable pub is_fast_result : GoType → Bool
is_fast_result (bool d) = true
is_fast_result (number d k) = not (is_float k)
is_fast_result (unsafe_pointer d) = true
is_fast_result (pointer d t) = true
is_fast_result _ = false

-- if hasReturn { … }: no result at all is accepted as well.
unfoldable pub accepts_results : List GoType → Bool
unfolding is_fast_result
accepts_results [] = true
accepts_results (t ∷ ts) = is_fast_result t

abbrev pub has_results : List GoType → Bool
has_results [] = false
has_results (t ∷ ts) = true

-- ty.In(i).Kind() == reflect.Float32, and Float64
abbrev pub is_number : Numeric → Option GoType → Bool
is_number float32 (some (number d float32)) = true
is_number float64 (some (number d float64)) = true
is_number _ _ = false

-- ty.In(floatPos), where there is one.
abbrev pub in_at : List GoType → Option ℕ → Option GoType
in_at ins none = none
in_at ins (some i) = get_elem? ins i

-- What tryRegisterFastPath reports, and the wrapper that it leaves in fn, if it sets fn at all.
pub record Attempt : Type 0 where
  pub reported : Bool
  pub installed : Option Wrapper

abbrev pub refused : Attempt
refused = record { reported = false; installed = none }

-- return registerFastFunc(…)
abbrev pub report : Option Wrapper → Attempt
report none = refused
report (some w) = record { reported = true; installed = some w }

abbrev pub try_interleaved : ℕ → Option ℕ → Bool → Option Wrapper
try_interleaved num_in none has_return = none
try_interleaved num_in (some i) has_return =
    register_fast_func_interleaved_float32x1 num_in i has_return

-- The choice of the wrapper, once the parameters are counted. The interleaved case reports true
-- whatever the switch that it calls has done.
unfoldable pub select_wrapper : List GoType → Bool → Scan → Attempt
select_wrapper ins has_return s =
    if s.num_floats == 0
    then report (register_fast_func s.num_ints s.ptr_mask 0 has_return)
    else if (s.num_floats == 1 && s.trailing_floats) && is_number float32 (get_elem? ins s.num_ints)
    then report (register_fast_func s.num_ints s.ptr_mask 32 has_return)
    else if (s.num_floats == 1 && s.trailing_floats) && is_number float64 (get_elem? ins s.num_ints)
    then report (register_fast_func s.num_ints s.ptr_mask 64 has_return)
    else if (s.num_floats == 1 && not s.trailing_floats)
        && (s.ptr_mask == 0 && is_number float32 (in_at ins s.float_pos))
    then record { reported = true; installed = try_interleaved (length ins) s.float_pos has_return }
    else refused

abbrev pub after_scan : Signature → Option Scan → Attempt
after_scan sig none = refused
after_scan sig (some s) =
    if (ltb 8 s.num_floats || ltb 15 s.num_ints) || not (accepts_results sig.outs)
    then refused
    else select_wrapper sig.ins (has_results sig.outs) s

unfoldable pub try_register_fast_path : Platform → Signature → Attempt
try_register_fast_path p sig =
    if not (builds_fast_path p) || not (is_wide p.goarch && not (is_windows p.goos))
    then refused
    else if ltb 15 (length sig.ins)
    then refused
    else after_scan sig (scan 0 sig.ins scan_start)
