-- ===== src/FastPath/Pool.antt =====
-- genfastfunc.go, the template of fastCallIF and fastCallPool (so zz_fast_func.go): goroutines that call
-- installed wrappers at the same time, interleaved statement by statement over the contexts that they
-- share by way of the pool. The C function's run is one step, and Get always has a context.
pub mod Owned
pub mod Contents
pub mod Results
pub mod Progress
pub mod Schedule
mod Tests
use pureffi.Common.{
  ℕ, zero, suc, ◌==◌, ◌≡◌, Bool, true, false, List, [], ◌∷◌, if◌then◌else◌, map, take,
}
use pureffi.Go.Outcome.{Panic, Outcome, ok, panic, ◌>>=◌}
use pureffi.Goffi.{TypeDescriptor, CallInterface, is_float_kind}
use pureffi.FastPath.Slots.{Wrapper}
use pureffi.FastPath.Call.{
  FastCallContext, new_context, load, store_reference, int_at, float_at, CallFunction, int_args,
  float_args, fill,
}

-- The arguments of one call of fastCallIF.
pub record FastCall : Type 0 where
  pub cif : CallInterface
  pub cfn : ℕ
  pub ints : List ℕ
  pub floats : List ℕ

-- The call that a wrapper makes when it is called with one word for each parameter.
unfoldable pub wrapper_call : Wrapper → CallInterface → ℕ → List ℕ → FastCall
wrapper_call w cif cfn vs = record {
  cif = cif;
  cfn = cfn;
  ints = fill 15 (int_args w.params vs);
  floats = fill 8 (float_args w.params vs);
}

-- Where a goroutine that holds a context stands in fastCallIF, with its live local variables.
pub data Inside : Type 0 where
  -- after Get
  got : FastCall → Inside
  -- at the head of the loop: the descriptors left, argIdx, iIdx and fIdx
  linking : FastCall → List TypeDescriptor → ℕ → ℕ → ℕ → Inside
  -- after ctx.ret = 0, with argIdx
  ready : FastCall → ℕ → Inside
  -- in ffi.CallFunction, with the words that it has read
  calling : FastCall → List ℕ → Inside
  -- after ffi.CallFunction
  called : FastCall → Inside

pub data Goroutine : Type 0 where
  idle : Goroutine
  -- before Get
  entered : FastCall → Goroutine
  -- with the context at an address
  holding : ℕ → Inside → Goroutine
  -- before Put, with the local `ret`
  leaving : ℕ → FastCall → ℕ → Goroutine
  returned : FastCall → ℕ → Goroutine
  panicked : Panic → Goroutine

-- The statements of fastCallIF between Get and Put, one at a time, over the goroutine's context.
module _ (call_function : CallFunction) where
  unfoldable pub exec : ℕ → Inside → FastCallContext → Outcome (Goroutine × FastCallContext)
  exec at (got c) ctx = ok (
    holding at (linking c c.cif.arg_types 0 0 0),
    record ctx { ints = c.ints; floats = c.floats },
  )
  exec at (linking c [] arg_idx i_idx f_idx) ctx =
      ok (holding at (ready c arg_idx), record ctx { ret = 0 })
  exec at (linking c (t ∷ ts) arg_idx i_idx f_idx) ctx = elim (is_float_kind t) [
    | true ↦ store_reference ctx.args arg_idx f_idx 8 (float_at f_idx) >>= λ args.
        ok (holding at (linking c ts (suc arg_idx) i_idx (suc f_idx)), record ctx { args = args })
    | false ↦ store_reference ctx.args arg_idx i_idx 15 (int_at i_idx) >>= λ args.
        ok (holding at (linking c ts (suc arg_idx) (suc i_idx) f_idx), record ctx { args = args })
  ]
  exec at (ready c arg_idx) ctx =
      ok (holding at (calling c (map (load ctx) (take arg_idx ctx.args))), ctx)
  exec at (calling c words) ctx =
      ok (holding at (called c), record ctx { ret = call_function c.cif c.cfn words ctx.ret })
  exec at (called c) ctx = ok (leaving at c ctx.ret, ctx)

-- The contexts are numbered in the order in which the pool made them.
pub record System : Type 0 where
  pub made : ℕ
  pub contexts : ℕ → FastCallContext
  pub pooled : ℕ → Bool
  pub goroutines : ℕ → Goroutine

abbrev pub update {ℓ} : {A : Type ℓ} → (ℕ → A) → ℕ → A → ℕ → A
update f i a j = if j == i then a else f j

module _ (call_function : CallFunction) where
  -- One step of goroutine g.
  pub data Move (g : ℕ) (s t : System) : Type 0 where
    enter :
        (c : FastCall)
        → s.goroutines g ≡ idle
        → t ≡ record s { goroutines = update s.goroutines g (entered c) }
        → Move g s t
    -- fastCallPool.Get, with a context that was put back
    get_pooled :
        (c : FastCall) (at : ℕ)
        → s.goroutines g ≡ entered c
        → s.pooled at ≡ true
        → t ≡ record s {
          pooled = update s.pooled at false;
          goroutines = update s.goroutines g (holding at (got c));
        }
        → Move g s t
    -- fastCallPool.Get, with a context from New
    get_new :
        (c : FastCall)
        → s.goroutines g ≡ entered c
        → t ≡ record s {
          made = suc s.made;
          contexts = update s.contexts s.made new_context;
          goroutines = update s.goroutines g (holding s.made (got c));
        }
        → Move g s t
    work :
        (at : ℕ) (p : Inside) (q : Goroutine) (ctx : FastCallContext)
        → s.goroutines g ≡ holding at p
        → exec call_function at p (s.contexts at) ≡ ok (q, ctx)
        → t ≡ record s { contexts = update s.contexts at ctx; goroutines = update s.goroutines g q }
        → Move g s t
    stop :
        (at : ℕ) (p : Inside) (e : Panic)
        → s.goroutines g ≡ holding at p
        → exec call_function at p (s.contexts at) ≡ panic e
        → t ≡ record s { goroutines = update s.goroutines g (panicked e) }
        → Move g s t
    -- fastCallPool.Put and the return
    put :
        (c : FastCall) (at ret : ℕ)
        → s.goroutines g ≡ leaving at c ret
        → t ≡ record s {
          pooled = update s.pooled at true;
          goroutines = update s.goroutines g (returned c ret);
        }
        → Move g s t
    again :
        (c : FastCall) (ret : ℕ)
        → s.goroutines g ≡ returned c ret
        → t ≡ record s { goroutines = update s.goroutines g idle }
        → Move g s t

  -- A step of some goroutine, or the garbage collector takes a context out of the pool.
  pub data Step (s t : System) : Type 0 where
    by : (g : ℕ) → Move g s t → Step s t
    collect : (at : ℕ) → t ≡ record s { pooled = update s.pooled at false } → Step s t

  -- fastCallPool at the start of the program
  abbrev pub start : System
  start = record {
    made = 0;
    contexts = λ at. new_context;
    pooled = λ at. false;
    goroutines = λ g. idle;
  }

  pub data Reach : System → Type 0 where
    here : Reach start
    next : {s t : System} → Reach s → Step s t → Reach t
