-- ===== src/Blocks.antt =====
-- objc/objc_block_darwin.go: the map from blocks to Go functions, the layouts of the function types, and
-- the operations on blocks.
pub mod Make
pub mod Lifetime
pub mod Layouts
mod Tests
use pureffi.Common.{
  ℕ, suc, ◌+◌, ◌^◌, ◌==◌, Bool, true, false, List, [], ◌∷◌, Option, none, some, length,
  if◌then◌else◌,
}
use pureffi.Go.Types.{GoType}
use pureffi.Go.Identity.{same}
use pureffi.Go.Outcome.{Outcome, ok, panic, objc_not_encoded, zero_value, index_out_of_range, ◌>>=◌}
use pureffi.Objc.{Coded, encoded, refused, encode_block}

-- A Block is the address of a block; a Go function is its identity.
abbrev pub Block : Type 0
Block = ℕ

-- blockFunctionCache.functions; `none` for a missing key, where Load returns the zero Value.
abbrev pub Functions : Type 0
Functions = Block → Option ℕ

unfoldable pub load : Functions → Block → Option ℕ
load functions key = functions key

unfoldable pub store : Functions → Block → ℕ → Functions
store functions key value b = if b == key then some value else functions b

unfoldable pub delete : Functions → Block → Functions
delete functions key b = if b == key then none else functions b

-- blockDescriptor, without its padding.
pub record Descriptor : Type 0 where
  pub size : ℕ
  pub dispose : ℕ
  pub signature : List ℕ

-- blockLayout, without its padding.
pub record Layout : Type 0 where
  pub isa : ℕ
  pub flags : ℕ
  pub invoke : ℕ
  pub descriptor : Descriptor

-- unsafe.Sizeof(blockLayout{}): three words, and two halves of one.
abbrev pub block_size : ℕ
block_size = 8 + 4 + 4 + 8 + 8

abbrev pub block_has_copy_dispose : ℕ
block_has_copy_dispose = 2 ^ 25

abbrev pub block_has_signature : ℕ
block_has_signature = 2 ^ 30

-- The bits of the two flags are distinct.
abbrev pub block_flags : ℕ
block_flags = block_has_copy_dispose + block_has_signature

-- blockCache: its templates, its layouts, and the number of callbacks that have been made.
pub record Cache : Type 0 where
  pub descriptor_template : Descriptor
  pub layout_template : Layout
  pub layouts : List (GoType × Layout)
  pub callbacks : ℕ

-- b.encode(typ)
abbrev pub encode : GoType → Outcome (List ℕ)
encode typ = elim (encode_block typ) [ encoded s ↦ ok s | refused e ↦ panic objc_not_encoded ]

-- newBlockCache: `isa` is GetClass(blockBaseClass), and `dispose` the callback of Functions.Delete.
unfoldable pub new_block_cache : ℕ → ℕ → Cache
new_block_cache isa dispose =
    let descriptor_template : Descriptor = record {
      size = block_size;
      dispose = dispose;
      signature = [];
    } in
    record {
      descriptor_template = descriptor_template;
      layout_template = record {
        isa = isa;
        flags = block_flags;
        invoke = 0;
        descriptor = descriptor_template;
      };
      layouts = [];
      callbacks = 0;
    }

-- layoutTemplate and descriptorTemplate, with the fields that a type determines.
abbrev pub filled : Layout → Descriptor → List ℕ → ℕ → Layout
filled layout_template descriptor_template signature invoke = record layout_template {
  invoke = invoke;
  descriptor = record descriptor_template { signature = signature };
}

-- b.layouts[typ]
unfoldable pub find : GoType → List (GoType × Layout) → Option Layout
find typ [] = none
find typ ((t, l) ∷ ls) = if same t typ then some l else find typ ls

-- `new_callback n typ` is purego.NewCallback of a function of the type, after n others.
unfoldable pub get_layout : (ℕ → GoType → Outcome ℕ) → Cache → GoType → Outcome (Layout × Cache)
get_layout new_callback b typ = elim (find typ b.layouts) [
  | some layout ↦ ok (layout, b)
  | none ↦ encode typ >>= λ signature. new_callback b.callbacks typ >>= λ invoke.
      (let layout = filled b.layout_template b.descriptor_template signature invoke in
        ok (layout, record b { layouts = (typ, layout) ∷ b.layouts; callbacks = suc b.callbacks }))
]

-- The function that C reaches by layout.invoke: `call` is Call of a function. Its first argument is a
-- Block, as `encode` has checked, so the type assertion holds.
unfoldable pub trampoline {ℓ} :
    {R : Type ℓ} → (ℕ → List ℕ → Outcome R) → Functions → List ℕ → Outcome R
trampoline call functions [] = panic index_out_of_range
trampoline call functions (b ∷ args) = elim (load functions b) [
  | none ↦ panic zero_value
  | some fn ↦ call fn (b ∷ args)
]

unfoldable pub invoke {ℓ} :
    {R : Type ℓ} → (ℕ → List ℕ → Outcome R) → Functions → Block → List ℕ → Outcome R
invoke call functions b args = elim (load functions b) [
  | none ↦ panic zero_value
  | some fn ↦ call fn (b ∷ args)
]

-- InvokeBlock's result: a value, or an error.
pub data Invoked : Type 0 where
  value : ℕ → Invoked
  wrong_count : ℕ → ℕ → Invoked
  wrong_type : ℕ → Invoked

-- callResult[0], and the type assertion.
abbrev pub first_result : (ℕ → Bool) → List ℕ → Outcome Invoked
first_result is_t [] = panic index_out_of_range
first_result is_t (r ∷ rs) = ok (if is_t r then value r else wrong_type r)

-- `num_in` is NumIn of a function's type. Copy before it and Release after it count the references and
-- keep the address.
unfoldable pub invoke_block :
    (ℕ → List ℕ → Outcome (List ℕ))
    → (ℕ → ℕ)
    → (ℕ → Bool)
    → Functions
    → Block
    → List ℕ
    → Outcome Invoked
invoke_block call num_in is_t functions b args = elim (load functions b) [
  | none ↦ panic zero_value
  | some fn ↦
      if num_in fn == length args + 1
      then call fn (b ∷ args) >>= first_result is_t
      else ok (wrong_count (num_in fn) (length args))
]

-- NewBlock of function `fn`; `block_copy` is what the runtime makes of a layout on the stack.
unfoldable pub new_block :
    (ℕ → GoType → Outcome ℕ)
    → (Layout → Block)
    → Cache
    → Functions
    → ℕ
    → GoType
    → Outcome (Block × (Cache × Functions))
new_block new_callback block_copy b functions fn typ = get_layout new_callback b typ >>= λ r.
    ok (block_copy r.0, (r.1, store functions (block_copy r.0) fn))
