-- ===== src/FastPath/Dispatch/Table.antt =====
-- What the generated switches select, against the bounds of the generator's loops.
use mathlib.Core.Option
use pureffi.Common.{
  ℕ, zero, suc, ◌+◌, ◌==◌, ltb, leb, ◌≡◌, refl, Bool, true, false, ◌&&◌, ◌||◌, Option, none, some,
  if◌then◌else◌, arith,
}
use pureffi.FastPath.Slots.{fast_ints, interleaved}
use pureffi.FastPath.Dispatch.{
  switch, emit_cases, max_ints, masks, emit_mask_switch, emit_int_switch, emit_dispatch,
  register_fast_func, emit_interleaved_float32x1, register_fast_func_interleaved_float32x1,
}

-- A switch over the cases of a loop selects exactly the keys that the loop passes through.
switch-emit_cases :
    {A : Type 0} (value first count : ℕ) (body : ℕ → A)
    → switch value (emit_cases first count body)
      ≡ (if leb first value && ltb value (first + count) then some (body value) else none)
unfolding switch emit_cases
switch-emit_cases value first zero body = ground arith
switch-emit_cases value first (suc count) body =
    ground (arith, switch-emit_cases value (suc first) count body)

-- A lookup in a loop's cases by a key that starts at 0.
switch-from-zero :
    {A : Type 0} (value count : ℕ) (body : ℕ → A)
    → switch value (emit_cases 0 count body) ≡ (if ltb value count then some (body value) else none)
switch-from-zero value count body = ground (arith, switch-emit_cases value 0 count body)

-- The float widths that have wrappers.
abbrev pub is_float_width : ℕ → Bool
is_float_width bits = bits == 0 || (bits == 32 || bits == 64)

switch-emit_dispatch :
    (bits : ℕ)
    → switch bits emit_dispatch
      ≡ (if is_float_width bits then some (emit_int_switch bits) else none)
unfolding switch emit_dispatch
switch-emit_dispatch bits = ground arith

module _ {A B : Type 0} where
  bind-if :
      (b : Bool) (a : A) (f : A → Option B)
      → Option.bind (if b then some a else none) f ≡ (if b then f a else none)
  unfolding Option.bind
  bind-if true a f = refl
  bind-if false a f = refl

  map-if :
      (b : Bool) (a : A) (f : A → B)
      → Option.map f (if b then some a else none) ≡ (if b then some (f a) else none)
  map-if true a f = refl
  map-if false a f = refl

if-and {ℓ} :
    {A : Type ℓ} (b c : Bool) (x y : A)
    → (if b then (if c then x else y) else y) ≡ (if b && c then x else y)
if-and true c x y = refl
if-and false c x y = refl

ruleset selection = (bind-if, map-if, if-and)

-- registerFastFunc installs a wrapper exactly for the widths 0, 32 and 64, up to 15 integer arguments
-- (14 beside a float) and, beyond six of them, for no pointer; the wrapper is the instantiation for
-- the count, the mask, the width and the return shape that it was called with.
pub register_fast_func_lem :
    (num_ints ptr_mask float_bits : ℕ) (has_return : Bool)
    → register_fast_func num_ints ptr_mask float_bits has_return ≡ (
        if is_float_width float_bits
          && (leb num_ints (max_ints float_bits) && ltb ptr_mask (masks num_ints))
        then some (fast_ints float_bits num_ints ptr_mask has_return)
        else none)
unfolding register_fast_func emit_int_switch emit_mask_switch
register_fast_func_lem num_ints ptr_mask float_bits has_return =
    simp (switch-emit_dispatch, switch-from-zero, selection) (ground arith)

-- The interleaved switch has a case for every signature of 2 to 15 arguments and every position of
-- the float but the last.
pub interleaved_lem :
    (total_args float_pos : ℕ) (has_return : Bool)
    → register_fast_func_interleaved_float32x1 total_args float_pos has_return ≡ (
        if leb 2 total_args && (leb total_args 15 && ltb (suc float_pos) total_args)
        then some (interleaved total_args float_pos has_return)
        else none)
unfolding register_fast_func_interleaved_float32x1 emit_interleaved_float32x1
interleaved_lem total_args float_pos has_return = simp (switch-emit_cases, selection) (ground arith)
