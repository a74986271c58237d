-- ===== src/Blocks/Tests.antt =====
-- Blocks of concrete function types, and an address that two blocks have one after the other.
use pureffi.Common.{ℕ, ◌+◌, ◌≡◌, ◌⊎◌, refl, true, false, List, [], ◌∷◌, ◌++◌, none, codes}
use pureffi.Go.Types.{GoType, number, func, cons, nil, defined, literal, int32, uintptr}
use pureffi.Go.Outcome.{Outcome, ok, panic, ◌>>=◌, index_out_of_range}
use pureffi.Objc.{
  encode_number, encode_type, encode_params, encode_block_result, encode_block_params, encode_block,
}
use pureffi.Callback.{callback_function, has_marker}
use pureffi.Blocks.{
  load, store, delete, trampoline, invoke, invoke_block, first_result, value, Layout, Cache,
  new_block_cache, filled, find, get_layout, new_block,
}
use pureffi.Blocks.Lifetime.{
  Heap, free, fresh, live, disposing, put, disposed, start, Reach, here, next, new_copy, new_store,
  last_release, dispose, release_address, Reach-Runs, Runs,
}
use pureffi.Blocks.Make.{Made, new_block-Made}
use pureffi.Blocks.Layouts.{GotLayout, get_layout-GotLayout}

abbrev block : GoType
block = number (defined "github.com/ebitengine/purego/objc" "Block") uintptr

-- func(Block, int32)
abbrev handler : GoType
handler = func literal (cons block (cons (number literal int32) nil)) false nil

-- NewCallback, where goffi gives the callbacks the addresses 4096, 4097 and so on. The function that is
-- called is none of the cache's business.
abbrev callback : ℕ → GoType → Outcome ℕ
callback n typ = callback_function (record { type = typ; run = λ args. [] }) >>= λ f. ok (4096 + n)

abbrev empty : Cache
empty = new_block_cache 77 88

abbrev handler_layout : Layout
handler_layout = filled empty.layout_template empty.descriptor_template (codes "v@i" ++ 0 ∷ []) 4096

abbrev with_handler : Cache
with_handler = record empty { layouts = (handler, handler_layout) ∷ []; callbacks = 1 }

gets_layout : get_layout callback empty handler ≡ ok (handler_layout, with_handler)
unfolding get_layout find new_block_cache encode_block encode_block_result encode_block_params
    encode_params encode_type encode_number callback_function has_marker
gets_layout = refl

get_layout-GotLayout_example : GotLayout callback empty handler handler_layout with_handler
unfolding new_block_cache
get_layout-GotLayout_example =
    get_layout-GotLayout callback empty handler handler_layout with_handler tt gets_layout

-- NewBlock of a function at a free address, up to where it returns.
abbrev made : Heap → ℕ → ℕ → Heap
made s a fn = record {
  functions = store s.functions a fn;
  phase = put (put s.phase a (fresh fn)) a (live 0 fn);
}

-- Release of the last reference, up to where the address is free.
abbrev gone : Heap → ℕ → ℕ → Heap
gone s a fn = record {
  functions = delete s.functions a;
  phase = put (put (put s.phase a (disposing fn)) a disposed) a free;
}

-- The block of function 7 at 64 has gone, and NewBlock of function 8 gets the address again.
abbrev reused : Heap
reused = made (gone (made start 64 7) 64 7) 64 8

reaches : Reach reused
reaches =
    next
      (next
        (next
          (next
            (next (next (next here (new_copy 64 7 refl refl)) (new_store 64 7 refl refl))
              (last_release 64 7 refl refl))
            (dispose 64 7 refl refl))
          (release_address 64 refl refl))
        (new_copy 64 8 refl refl))
      (new_store 64 8 refl refl)

-- A function returns its number, then the block and its arguments.
abbrev run_fn : ℕ → List ℕ → Outcome (List ℕ)
run_fn fn args = ok (fn ∷ args)

Reach-Runs_example :
    ((n fn : ℕ)
      → reused.phase 64 ≡ live n fn
      → (trampoline run_fn reused.functions (64 ∷ 3 ∷ []) ≡ run_fn fn (64 ∷ 3 ∷ []))
        × (invoke run_fn reused.functions 64 (3 ∷ []) ≡ run_fn fn (64 ∷ 3 ∷ []))
        × (invoke_block run_fn (λ fn. 2) (λ v. true) reused.functions 64 (3 ∷ [])
            ≡ run_fn fn (64 ∷ 3 ∷ []) >>= first_result (λ v. true)))
    × ((reused.phase 64 ≡ free) ⊎ (reused.phase 64 ≡ disposed) → load reused.functions 64 ≡ none)
Reach-Runs_example = Reach-Runs reused 64 run_fn (λ fn. 2) (λ v. true) (3 ∷ []) reaches

invokes_the_second :
    invoke_block run_fn (λ fn. 2) (λ v. true) reused.functions 64 (3 ∷ []) ≡ ok (value 8)
unfolding invoke_block load store delete
invokes_the_second = refl

-- A function without results leaves InvokeBlock with an index out of range.
invoke_block-no_result :
    invoke_block (λ fn args. ok []) (λ fn. 2) (λ v. true) reused.functions 64 (3 ∷ [])
    ≡ panic index_out_of_range
unfolding invoke_block load store delete
invoke_block-no_result = refl

makes_block :
    new_block callback (λ l. 64) empty start.functions 7 handler
    ≡ ok (64, (with_handler, store start.functions 64 7))
unfolding new_block
makes_block = rw gets_layout refl

new_block-Made_example :
    Made callback
      (λ l. 64)
      empty
      start.functions
      7
      handler
      64
      with_handler
      (store start.functions 64 7)
    × Runs run_fn (λ fn. 2) (λ v. true) (store start.functions 64 7) 64 (3 ∷ []) 7
unfolding new_block_cache
new_block-Made_example =
    new_block-Made callback (λ l. 64) empty start.functions 7 handler 64 with_handler
      (store start.functions 64 7) run_fn (λ fn. 2) (λ v. true) (3 ∷ []) tt makes_block
