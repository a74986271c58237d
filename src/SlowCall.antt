-- ===== src/SlowCall.antt =====
-- purego.go, the closure that RegisterFunc makes for functions without a generated wrapper: packArg,
-- slowCallContext, the packing loops and the deferred clean-up.
pub mod Pack
pub mod Steps
pub mod Arguments
pub mod CleanUp
pub mod Call
pub mod Return
pub mod Closure
mod Tests
use pureffi.Common.{
  ℕ, zero, suc, ◌==◌, ltb, Bool, true, false, List, [], ◌∷◌, ◌++◌, Option, none, some,
  if◌then◌else◌, set, replicate,
}
use pureffi.Go.Types.{GoType}
use pureffi.Go.Values.{
  Value, bool, number, string, unsafe_pointer, pointer, slice, func, array, struct, other, type_of,
  Object, bytes, scalar, address, Heap, allocate,
}
use pureffi.Go.Outcome.{
  Panic, Outcome, ok, panic, unsupported_kind, index_out_of_range, zero_value, ◌>>=◌,
}
use pureffi.Goffi.{TypeDescriptor}
use pureffi.Descriptor.{go_arg_type_to_ffi_type}

-- What `kept` holds on to: an object, or a copy of a value.
pub data Kept : Type 0 where
  object : ℕ → Kept
  copy : List ℕ → Kept

-- packArg's results, and the heap after it.
pub record Packed : Type 0 where
  pub ptr : ℕ
  pub kept : Kept
  pub heap : Heap

-- len(s) > 0 && s[len(s)-1] == '\x00'
unfoldable pub ends_in_nul : List ℕ → Bool
ends_in_nul [] = false
ends_in_nul (c ∷ []) = c == 0
ends_in_nul (c ∷ (d ∷ s)) = ends_in_nul (d ∷ s)

-- return unsafe.Pointer(&ptr), kept: the local variable `ptr` is moved to the heap.
abbrev pub pack_cell : Object → Kept → Heap → Packed
pack_cell o kept h = let (cell, h') = allocate o h in record { ptr = cell; kept = kept; heap = h' }

-- A cell that is its own kept object.
abbrev pub pack_self : Object → Heap → Packed
pack_self o h =
    let (cell, h') = allocate o h in record { ptr = cell; kept = object cell; heap = h' }

-- if !v.CanAddr() { copy }
abbrev pub addressable : List ℕ → Option ℕ → Heap → ℕ × Heap
addressable bs (some a) h = (a, h)
addressable bs none h = allocate (bytes bs) h

-- `new_callback` is ffi.NewCallback.
unfoldable pub pack_arg : (ℕ → ℕ) → Value → Heap → Outcome Packed
pack_arg new_callback (string d a s) h =
    if ends_in_nul s
    then ok (pack_cell (address a) (object a) h)
    else (let (b, h') = allocate (bytes (s ++ 0 ∷ [])) h in
        ok (pack_cell (address b) (object b) h'))
pack_arg new_callback (bool d b) h = ok (pack_self (bytes ((if b then 1 else 0) ∷ [])) h)
pack_arg new_callback (number d k n) h = ok (pack_self (scalar k n) h)
pack_arg new_callback (pointer d t a) h = ok (pack_cell (address a) (object a) h)
pack_arg new_callback (unsafe_pointer d a) h = ok (pack_cell (address a) (object a) h)
pack_arg new_callback (slice d t a) h = ok (pack_cell (address a) (object a) h)
pack_arg new_callback (func d ins v outs f) h = ok (pack_self (address (new_callback f)) h)
pack_arg new_callback (array d n t bs a) h =
    let (b, h') = addressable bs a h in ok (pack_cell (address b) (copy bs) h')
pack_arg new_callback (struct d fs bs a) h =
    let (b, h') = addressable bs a h in ok (record { ptr = b; kept = copy bs; heap = h' })
pack_arg new_callback (other d k) h = panic (unsupported_kind (GoType.other d k))

-- slowCallContext: keepAlive and ffiArgs are arrays of 32; nil is `none`.
pub record SlowCallContext : Type 0 where
  pub keep_alive : List (Option Kept)
  pub ffi_args : List (Option ℕ)

abbrev pub new_context : SlowCallContext
new_context = record { keep_alive = replicate 32 none; ffi_args = replicate 32 none }

-- The closure's variables while it packs.
pub record Packing : Type 0 where
  pub ctx : SlowCallContext
  pub ffi_args_count : ℕ
  pub keep_alive_count : ℕ
  pub actual_arg_types : List TypeDescriptor
  pub memory : Heap

-- A statement that may panic half-way: the variables that it leaves, and how it ended.
abbrev pub Run : Type 0
Run = Packing × Option Panic

infixl 5 ◌then_run◌
abbrev pub ◌then_run◌ : Run → (Packing → Run) → Run
(s, none) then_run k = k s
(s, some e) then_run k = (s, some e)

-- ctx.ffiArgs[ffiArgsCount] = ptr; ffiArgsCount++
unfoldable pub store_arg : ℕ → Packing → Run
store_arg ptr s =
    if ltb s.ffi_args_count 32
    then (
      record s {
        ctx = record s.ctx { ffi_args = set s.ctx.ffi_args s.ffi_args_count (some ptr) };
        ffi_args_count = suc s.ffi_args_count;
      },
      none,
    )
    else (s, some index_out_of_range)

-- ctx.keepAlive[keepAliveCount] = kept; keepAliveCount++
unfoldable pub store_kept : Kept → Packing → Run
store_kept kept s =
    if ltb s.keep_alive_count 32
    then (
      record s {
        ctx = record s.ctx { keep_alive = set s.ctx.keep_alive s.keep_alive_count (some kept) };
        keep_alive_count = suc s.keep_alive_count;
      },
      none,
    )
    else (s, some index_out_of_range)

unfoldable pub store_packed : Packing → Outcome Packed → Run
store_packed s (panic e) = (s, some e)
store_packed s (ok p) = store_arg p.ptr (record s { memory = p.heap }) then_run store_kept p.kept

-- One turn of the loop over the fixed arguments.
unfoldable pub pack_one : (ℕ → ℕ) → Value → Packing → Run
pack_one new_callback v s = store_packed s (pack_arg new_callback v s.memory)

unfoldable pub pack_fixed : (ℕ → ℕ) → List Value → Packing → Run
pack_fixed new_callback [] s = (s, none)
pack_fixed new_callback (v ∷ vs) s = pack_one new_callback v s then_run pack_fixed new_callback vs

-- An element of the variadic slice: of a concrete type, or an interface that holds a value or nil.
pub data Element : Type 0 where
  plain : Value → Element
  boxed : Option Value → Element

-- elem = elem.Elem(); the methods of the zero Value panic.
abbrev pub unbox : Element → Outcome Value
unbox (plain v) = ok v
unbox (boxed (some v)) = ok v
unbox (boxed none) = panic zero_value

unfoldable pub describe : Outcome TypeDescriptor → Packing → Run
describe (panic e) s = (s, some e)
describe (ok d) s = (record s { actual_arg_types = s.actual_arg_types ++ d ∷ [] }, none)

unfoldable pub pack_element : (ℕ → ℕ) → Outcome Value → Packing → Run
pack_element new_callback (panic e) s = (s, some e)
pack_element new_callback (ok v) s =
    describe (go_arg_type_to_ffi_type (type_of v)) s then_run pack_one new_callback v

unfoldable pub pack_variadic : (ℕ → ℕ) → List Element → Packing → Run
pack_variadic new_callback [] s = (s, none)
pack_variadic new_callback (e ∷ es) s =
    pack_element new_callback (unbox e) s then_run pack_variadic new_callback es

-- for i := 0; i < keepAliveCount; i++ { ctx.keepAlive[i] = nil }
unfoldable pub clear : ℕ → List (Option Kept) → List (Option Kept)
clear zero kept = kept
clear (suc n) [] = []
clear (suc n) (k ∷ kept) = none ∷ clear n kept

-- The packing of a call with its deferred clean-up: what the C function would be given, or the panic,
-- and the context that goes back to the pool.
pub record Finished : Type 0 where
  pub packing : Packing
  pub failure : Option Panic
  pub returned : SlowCallContext

unfoldable pub clean_up : Run → Finished
clean_up (s, e) = record {
  packing = s;
  failure = e;
  returned = record s.ctx { keep_alive = clear s.keep_alive_count s.ctx.keep_alive };
}

-- actualArgTypes starts as the descriptors of the fixed parameters; only a variadic call reads it.
unfoldable pub pack_call :
    (ℕ → ℕ) → List TypeDescriptor → SlowCallContext → Heap → List Value → List Element → Finished
pack_call new_callback fixed_arg_types pooled h fixed variadic = clean_up (
    pack_fixed new_callback fixed (record {
      ctx = pooled;
      ffi_args_count = 0;
      keep_alive_count = 0;
      actual_arg_types = fixed_arg_types;
      memory = h;
    })
    then_run pack_variadic new_callback variadic)
