-- ===== src/Blocks/Lifetime.antt =====
-- The life of the blocks, as NewBlock, Copy, Release and the blocks' runtime make it: the runtime counts
-- the references, calls the dispose function once when the last one goes, and then frees the address.
use pureffi.Common.{
  ==-refl, ℕ, suc, ◌==◌, ◌≡◌, refl, ◌∙◌, ap, inl, inr, ◌⊎◌, Bool, false, List, ◌∷◌, Option, none,
  some, if◌then◌else◌, Bool-cases, length, ◌+◌, ==_iff,
}
use pureffi.Go.Outcome.{Outcome, ok, ◌>>=◌}
use pureffi.Blocks.{
  Block, Functions, load, store, delete, trampoline, invoke, invoke_block, first_result,
  wrong_count,
}

-- What the runtime knows of an address, and the function that the block there was made from.
pub data Phase : Type 0 where
  free : Phase
  -- copied by NewBlock, and not yet stored
  fresh : ℕ → Phase
  -- with n references besides the first
  live : ℕ → ℕ → Phase
  -- without references, and not yet disposed of
  disposing : ℕ → Phase
  disposed : Phase

pub record Heap : Type 0 where
  pub functions : Functions
  pub phase : Block → Phase

abbrev pub put : (Block → Phase) → Block → Phase → Block → Phase
put phase a p b = if b == a then p else phase b

pub data Step (s t : Heap) : Type 0 where
  -- NewBlock: the runtime copies to an address that is free; then Functions.Store
  new_copy :
      (a fn : ℕ) → s.phase a ≡ free → t ≡ record s { phase = put s.phase a (fresh fn) } → Step s t
  new_store :
      (a fn : ℕ)
      → s.phase a ≡ fresh fn
      → t ≡ record { functions = store s.functions a fn; phase = put s.phase a (live 0 fn) }
      → Step s t
  copy :
      (a n fn : ℕ)
      → s.phase a ≡ live n fn
      → t ≡ record s { phase = put s.phase a (live (suc n) fn) }
      → Step s t
  release :
      (a n fn : ℕ)
      → s.phase a ≡ live (suc n) fn
      → t ≡ record s { phase = put s.phase a (live n fn) }
      → Step s t
  last_release :
      (a fn : ℕ)
      → s.phase a ≡ live 0 fn
      → t ≡ record s { phase = put s.phase a (disposing fn) }
      → Step s t
  -- the callback of Functions.Delete
  dispose :
      (a fn : ℕ)
      → s.phase a ≡ disposing fn
      → t ≡ record { functions = delete s.functions a; phase = put s.phase a disposed }
      → Step s t
  release_address :
      (a : ℕ) → s.phase a ≡ disposed → t ≡ record s { phase = put s.phase a free } → Step s t

-- newBlockFunctionCache, before the first block
abbrev pub start : Heap
start = record { functions = λ b. none; phase = λ b. free }

pub data Reach : Heap → Type 0 where
  here : Reach start
  next : {s t : Heap} → Reach s → Step s t → Reach t

-- The entry that an address has.
abbrev pub entry : Phase → Option ℕ
entry free = none
entry (fresh fn) = none
entry (live n fn) = some fn
entry (disposing fn) = some fn
entry disposed = none

abbrev pub IsFaithful : Heap → Type 0
IsFaithful s = (b : Block) → load s.functions b ≡ entry (s.phase b)

-- A change at one address: the entry there is that of the new phase, and the others are kept.
IsFaithful-change :
    (s : Heap) (functions : Functions) (a : Block) (p : Phase)
    → IsFaithful s
    → load functions a ≡ entry p
    → ((b : Block) → (b == a) ≡ false → load functions b ≡ load s.functions b)
    → IsFaithful (record { functions = functions; phase = put s.phase a p })
IsFaithful-change s functions a p f h k b = elim (Bool-cases (b == a)) [
  | inl y ↦ rw y (rw ((==_iff b a).0 y) h)
  | inr n ↦ rw n (k b n ∙ f b)
]

-- A change of phase that keeps the entry.
IsFaithful-put :
    (s : Heap) (a : Block) (p : Phase)
    → IsFaithful s
    → entry (s.phase a) ≡ entry p
    → IsFaithful (record s { phase = put s.phase a p })
IsFaithful-put s a p f h = IsFaithful-change s s.functions a p f (f a ∙ h) (λ b n. refl)

pub load-store : (functions : Functions) (a fn : ℕ) → load (store functions a fn) a ≡ some fn
unfolding load store
load-store functions a fn = rw (==-refl a) refl

load-delete : (functions : Functions) (a : ℕ) → load (delete functions a) a ≡ none
unfolding load delete
load-delete functions a = rw (==-refl a) refl

pub load-store_other :
    (functions : Functions) (a fn b : ℕ)
    → (b == a) ≡ false
    → load (store functions a fn) b ≡ load functions b
unfolding load store
load-store_other functions a fn b n = rw n refl

load-delete_other :
    (functions : Functions) (a b : ℕ)
    → (b == a) ≡ false
    → load (delete functions a) b ≡ load functions b
unfolding load delete
load-delete_other functions a b n = rw n refl

Step-IsFaithful : {s t : Heap} → Step s t → IsFaithful s → IsFaithful t
Step-IsFaithful {s} (new_copy a fn e q) f = rw q (IsFaithful-put s a (fresh fn) f (ap entry e))
Step-IsFaithful {s} (new_store a fn e q) f =
    rw q (IsFaithful-change s _ a (live 0 fn) f (load-store _ a fn) (load-store_other _ a fn))
Step-IsFaithful {s} (copy a n fn e q) f = rw q (IsFaithful-put s a (live (suc n) fn) f (ap entry e))
Step-IsFaithful {s} (release a n fn e q) f = rw q (IsFaithful-put s a (live n fn) f (ap entry e))
Step-IsFaithful {s} (last_release a fn e q) f =
    rw q (IsFaithful-put s a (disposing fn) f (ap entry e))
Step-IsFaithful {s} (dispose a fn e q) f =
    rw q (IsFaithful-change s _ a disposed f (load-delete _ a) (load-delete_other _ a))
Step-IsFaithful {s} (release_address a e q) f = rw q (IsFaithful-put s a free f (ap entry e))

Reach-IsFaithful : {s : Heap} → Reach s → IsFaithful s
unfolding load
Reach-IsFaithful here = λ b. refl
Reach-IsFaithful (next r st) = Step-IsFaithful st (Reach-IsFaithful r)

-- What the code does with a block: C calls it, Invoke, InvokeBlock.
abbrev pub Runs :
    (ℕ → List ℕ → Outcome (List ℕ)) → (ℕ → ℕ) → (ℕ → Bool) → Functions → Block → List ℕ → ℕ → Type 0
Runs call num_in is_t functions b args fn =
    (trampoline call functions (b ∷ args) ≡ call fn (b ∷ args))
    × (invoke call functions b args ≡ call fn (b ∷ args))
    × (invoke_block call num_in is_t functions b args ≡ (
        if num_in fn == length args + 1
        then call fn (b ∷ args) >>= first_result is_t
        else ok (wrong_count (num_in fn) (length args))))

pub load-Runs :
    (call : ℕ → List ℕ → Outcome (List ℕ)) (num_in : ℕ → ℕ) (is_t : ℕ → Bool)
    (functions : Functions) (b : Block) (args : List ℕ) (fn : ℕ)
    → load functions b ≡ some fn
    → Runs call num_in is_t functions b args fn
unfolding trampoline invoke invoke_block
load-Runs call num_in is_t functions b args fn e =
    (rw (trampoline, e) refl, rw (invoke, e) refl, rw (invoke_block, e) refl)

-- After any sequence of the steps of blocks, a block that has a reference runs the function it was
-- made from, with itself before the arguments, when C calls it, in Invoke, and in InvokeBlock, which
-- refuses another number of arguments than the function takes; and an address whose block has been
-- disposed of has no function left, so that a block made there later runs its own.
pub Reach-Runs :
    (s : Heap) (b : Block) (call : ℕ → List ℕ → Outcome (List ℕ)) (num_in : ℕ → ℕ) (is_t : ℕ → Bool)
    (args : List ℕ)
    → Reach s
    → ((n fn : ℕ) → s.phase b ≡ live n fn → Runs call num_in is_t s.functions b args fn)
      × ((s.phase b ≡ free) ⊎ (s.phase b ≡ disposed) → load s.functions b ≡ none)
Reach-Runs s b call num_in is_t args r =
    let f = Reach-IsFaithful r b in
    (
      λ n fn e. load-Runs call num_in is_t s.functions b args fn (f ∙ ap entry e),
      λ h. elim h [ inl e ↦ f ∙ ap entry e | inr e ↦ f ∙ ap entry e ],
    )
