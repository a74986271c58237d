-- ===== src/Blocks/Make.antt =====
-- NewBlock, from the layout to the first call.
use pureffi.Common.{ℕ, ◌==◌, ◌≡◌, refl, Bool, false, List, some}
use mathlib.Core.Path.{subst}
use pureffi.Go.Types.{GoType}
use pureffi.Go.Outcome.{Outcome, ok, >>=-eq-ok, ok-injective}
use pureffi.Blocks.{Block, Functions, load, Layout, Cache, get_layout, new_block}
use pureffi.Blocks.Layouts.{IsCoherent, GotLayout, get_layout-GotLayout}
use pureffi.Blocks.Lifetime.{Runs, load-Runs, load-store, load-store_other}

-- What a call of NewBlock that returns has done.
abbrev pub Made :
    (ℕ → GoType → Outcome ℕ)
    → (Layout → Block)
    → Cache
    → Functions
    → ℕ
    → GoType
    → Block
    → Cache
    → Functions
    → Type 0
Made new_callback block_copy b functions fn typ block b' functions' =
    ((l : Layout) × (block ≡ block_copy l) × GotLayout new_callback b typ l b')
    × (load functions' block ≡ some fn)
    × ((other : Block) → (other == block) ≡ false → load functions' other ≡ load functions other)

-- In a coherent cache, NewBlock of a function, where it returns, gives the runtime's copy of the layout
-- of the function's type, taken from the cache or made once; afterwards C, Invoke and
-- InvokeBlock run this function for the block, and every other block keeps its function.
pub new_block-Made :
    (new_callback : ℕ → GoType → Outcome ℕ) (block_copy : Layout → Block) (b : Cache)
    (functions : Functions) (fn : ℕ) (typ : GoType) (block : Block) (b' : Cache)
    (functions' : Functions) (call : ℕ → List ℕ → Outcome (List ℕ)) (num_in : ℕ → ℕ)
    (is_t : ℕ → Bool) (args : List ℕ)
    → IsCoherent new_callback b
    → new_block new_callback block_copy b functions fn typ ≡ ok (block, (b', functions'))
    → Made new_callback block_copy b functions fn typ block b' functions'
      × Runs call num_in is_t functions' block args fn
unfolding new_block
new_block-Made new_callback block_copy b functions fn typ block b' functions' call num_in is_t args
      c h =
    let (r, g, e) = >>=-eq-ok (get_layout new_callback b typ) _ h in
    let q = ok-injective e in
    let w = get_layout-GotLayout new_callback b typ r.0 r.1 c g in
    let s = load-store functions (block_copy r.0) fn in
    subst
      (λ p.
        Made new_callback block_copy b functions fn typ p.0 p.1.0 p.1.1
        × Runs call num_in is_t p.1.1 p.0 args fn)
      q
      (
        ((r.0, refl, w), s, load-store_other functions (block_copy r.0) fn),
        load-Runs call num_in is_t _ (block_copy r.0) args fn s,
      )
