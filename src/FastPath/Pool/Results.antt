-- ===== src/FastPath/Pool/Results.antt =====
-- zz_fast_func.go, fastCallIF: the results of calls that run at the same time.
use pureffi.Common.{
  ==-refl, ℕ, ◌≤◌, ◌==◌, ◌≡◌, ◌≢◌, refl, ◌∙◌, ap, inl, inr, Bool, false, Option, none, some, List,
  [], ◌∷◌, Bool-cases, arith, ==_iff, length, length-set,
}
use pureffi.Go.Outcome.{ok}
use pureffi.Goffi.{CallInterface}
use pureffi.FastPath.Slots.{Wrapper}
use pureffi.FastPath.Call.{
  FastCallContext, new_context, CallFunction, store_reference, int_at, float_at,
}
use pureffi.FastPath.Call.Links.{ints_in, floats_in}
use pureffi.FastPath.Call.Order.{Agrees, load-fill}
use pureffi.FastPath.Pool.{
  FastCall, wrapper_call, Inside, got, linking, ready, calling, called, Goroutine, idle, entered,
  holding, leaving, returned, panicked, exec, System, update, Move, enter, get_pooled, get_new,
  work, stop, put, again, by, collect, Reach, here, next,
}
use pureffi.FastPath.Pool.Owned.{held, IsOwned, Reach-IsOwned}
use pureffi.FastPath.Pool.Contents.{IsBounded, call_of, result_of, Fits, Advances, exec-Advances}

abbrev pub call_in : Goroutine → Option FastCall
call_in (holding at p) = some (call_of p)
call_in (leaving at c ret) = some c
call_in (returned c ret) = some c
call_in _ = none

module _ (call_function : CallFunction) where
  -- What a goroutine with a call within bounds has so far.
  abbrev pub HasSound : (ℕ → FastCallContext) → Goroutine → Type 0
  HasSound contexts (holding at p) = IsBounded (call_of p) → Fits call_function p (contexts at)
  HasSound contexts (leaving at c ret) = IsBounded c → ret ≡ result_of call_function c
  HasSound contexts (returned c ret) = IsBounded c → ret ≡ result_of call_function c
  HasSound contexts _ = Unit {0}

  pub record IsSound (s : System) : Type 0 where
    pub lengths : (at : ℕ) → length (s.contexts at).args ≡ 23
    pub sound : (g : ℕ) → HasSound s.contexts (s.goroutines g)

  IsSound-change :
      (s : System) (made : ℕ) (contexts : ℕ → FastCallContext) (pooled : ℕ → Bool) (g : ℕ)
      (q : Goroutine)
      → ((at : ℕ) → length (contexts at).args ≡ 23)
      → HasSound contexts q
      → ((h : ℕ) → (h == g) ≡ false → HasSound contexts (s.goroutines h))
      → IsSound (record {
        made = made;
        contexts = contexts;
        pooled = pooled;
        goroutines = update s.goroutines g q;
      })
  IsSound-change s made contexts pooled g q l k others = record {
    lengths = l;
    sound = λ h. elim (Bool-cases (h == g)) [ inl y ↦ rw y k | inr n ↦ rw n (others h n) ];
  }

  -- A write to a context that a goroutine does not have.
  HasSound-elsewhere :
      (contexts : ℕ → FastCallContext) (at : ℕ) (ctx : FastCallContext) (r : Goroutine)
      → held r ≢ some at
      → HasSound contexts r
      → HasSound (update contexts at ctx) r
  HasSound-elsewhere contexts at ctx (holding i p) n h = elim (Bool-cases (i == at)) [
    | inl y ↦ absurd (n (ap some ((==_iff i at).0 y)))
    | inr m ↦ rw m h
  ]
  HasSound-elsewhere contexts at ctx (leaving i c ret) n h = h
  HasSound-elsewhere contexts at ctx (returned c ret) n h = h
  HasSound-elsewhere contexts at ctx idle n h = tt
  HasSound-elsewhere contexts at ctx (entered c) n h = tt
  HasSound-elsewhere contexts at ctx (panicked e) n h = tt

  lengths-update :
      (contexts : ℕ → FastCallContext) (at : ℕ) (ctx : FastCallContext)
      → ((i : ℕ) → length (contexts i).args ≡ 23)
      → length ctx.args ≡ 23
      → (i : ℕ) → length (update contexts at ctx i).args ≡ 23
  lengths-update contexts at ctx l k i = elim (Bool-cases (i == at)) [
    | inl y ↦ rw y k
    | inr n ↦ rw n (l i)
  ]

  exec-length :
      (at : ℕ) (p : Inside) (ctx ctx' : FastCallContext) (q : Goroutine)
      → exec call_function at p ctx ≡ ok (q, ctx')
      → length ctx'.args ≡ length ctx.args
  unfolding exec store_reference
  exec-length at (got c) ctx ctx' q e = cc
  exec-length at (linking c [] a i f) ctx ctx' q e = cc
  exec-length at (linking c (t ∷ ts) a i f) ctx ctx' q e =
      ground (arith, length-set ctx.args a (float_at f), length-set ctx.args a (int_at i))
  exec-length at (ready c n) ctx ctx' q e = cc
  exec-length at (calling c words) ctx ctx' q e = cc
  exec-length at (called c) ctx ctx' q e = cc

  pub exec-call_of :
      (at : ℕ) (p : Inside) (ctx ctx' : FastCallContext) (q : Goroutine)
      → exec call_function at p ctx ≡ ok (q, ctx')
      → call_in q ≡ some (call_of p)
  unfolding exec store_reference
  exec-call_of at (got c) ctx ctx' q e = cc
  exec-call_of at (linking c [] a i f) ctx ctx' q e = cc
  exec-call_of at (linking c (t ∷ ts) a i f) ctx ctx' q e = ground arith
  exec-call_of at (ready c n) ctx ctx' q e = cc
  exec-call_of at (calling c words) ctx ctx' q e = cc
  exec-call_of at (called c) ctx ctx' q e = cc

  -- A statement that a goroutine ran, as `exec-Advances` describes it.
  pub exec-Advances_of :
      (at : ℕ) (p : Inside) (ctx ctx' : FastCallContext) (q : Goroutine)
      → exec call_function at p ctx ≡ ok (q, ctx')
      → length ctx.args ≡ 23
      → (IsBounded (call_of p) → Fits call_function p ctx)
      → IsBounded (call_of p)
      → Advances call_function at p (q, ctx')
  exec-Advances_of at p ctx ctx' q e l h b =
      rw e at (exec-Advances call_function at p ctx b l (h b))

  work-HasSound :
      (contexts : ℕ → FastCallContext) (at : ℕ) (p : Inside) (ctx : FastCallContext) (q : Goroutine)
      → call_in q ≡ some (call_of p)
      → (IsBounded (call_of p) → Advances call_function at p (q, ctx))
      → HasSound (update contexts at ctx) q
  work-HasSound contexts at p ctx (holding i p') e a = λ b.
      let e' : call_of p' ≡ call_of p = cc in let h = a (rw (← e') b) in rw (h.0, ==-refl at) h.3
  work-HasSound contexts at p ctx (leaving i c ret) e a =
      λ b. let e' : c ≡ call_of p = cc in (a (rw (← e') b)).3
  work-HasSound contexts at p ctx (returned c ret) e a =
      λ b. let e' : c ≡ call_of p = cc in absurd (a (rw (← e') b))
  work-HasSound contexts at p ctx idle e a = tt
  work-HasSound contexts at p ctx (entered c) e a = tt
  work-HasSound contexts at p ctx (panicked x) e a = tt

  Move-IsSound :
      {g : ℕ} {s t : System} → Move call_function g s t → IsOwned s → IsSound s → IsSound t
  Move-IsSound {g} {s} (enter c e q) o k =
      rw q (IsSound-change s _ s.contexts _ g (entered c) k.lengths tt (λ h n. k.sound h))
  Move-IsSound {g} {s} (get_pooled c at e y q) o k = rw q (
      IsSound-change s _ s.contexts _ g (holding at (got c)) k.lengths (λ b. tt) (λ h n. k.sound h))
  Move-IsSound {g} {s} (get_new c e q) o k = rw q (
      IsSound-change s _ _ _ g (holding s.made (got c))
        (lengths-update s.contexts s.made new_context k.lengths refl) (λ b. tt)
        (λ h n.
          HasSound-elsewhere s.contexts s.made new_context (s.goroutines h)
            (λ y. absurd (omega (arith, o.held_made h s.made y))) (k.sound h)))
  Move-IsSound {g} {s} (work at p q ctx e x r) o k =
      let have = rw e at (k.sound g) in
      rw r (
        IsSound-change s _ _ _ g q
          (lengths-update s.contexts at ctx k.lengths
            (exec-length at p (s.contexts at) ctx q x ∙ k.lengths at))
          (work-HasSound s.contexts at p ctx q (exec-call_of at p (s.contexts at) ctx q x)
            (exec-Advances_of at p (s.contexts at) ctx q x (k.lengths at) have))
          (λ h n.
            HasSound-elsewhere s.contexts at ctx (s.goroutines h)
              (λ y. let i : h ≡ g = o.unique h g at y (ap held e) in grind (arith, n, i))
              (k.sound h)))
  Move-IsSound {g} {s} (stop at p x e y q) o k =
      rw q (IsSound-change s _ s.contexts _ g (panicked x) k.lengths tt (λ h n. k.sound h))
  Move-IsSound {g} {s} (put c at ret e q) o k = rw q (
      IsSound-change s _ s.contexts _ g (returned c ret) k.lengths (rw e at (k.sound g))
        (λ h n. k.sound h))
  Move-IsSound {g} {s} (again c ret e q) o k =
      rw q (IsSound-change s _ s.contexts _ g idle k.lengths tt (λ h n. k.sound h))

  pub Reach-IsSound : {s : System} → Reach call_function s → IsSound s
  Reach-IsSound here = record { lengths = λ at. refl; sound = λ g. tt }
  Reach-IsSound (next r (by g m)) = Move-IsSound m (Reach-IsOwned call_function r) (Reach-IsSound r)
  Reach-IsSound (next r (collect at q)) =
      let k = Reach-IsSound r in rw q (record { lengths = k.lengths; sound = k.sound })

  pub returned-result_of :
      {s : System} {c : FastCall} (g ret : ℕ)
      → Reach call_function s
      → s.goroutines g ≡ returned c ret
      → IsBounded c
      → ret ≡ result_of call_function c
  returned-result_of g ret r e b = (rw e at ((Reach-IsSound r).sound g)) b

  -- Whatever other goroutines do with the pool and its contexts in the meantime, a call of a wrapper
  -- that has returned gives what the C function gives for this call's own arguments, in their order,
  -- with a cleared result buffer: its parameters agree with the interface by class, there is a word
  -- for each, and there are at most 15 integer and 8 floating-point arguments.
  pub fast_calls-KeepApart :
      {s : System} (w : Wrapper) (cif : CallInterface) (cfn : ℕ) (vs : List ℕ) (g ret : ℕ)
      → Reach call_function s
      → s.goroutines g ≡ returned (wrapper_call w cif cfn vs) ret
      → Agrees w.params cif.arg_types
      → length vs ≡ length w.params
      → ints_in cif.arg_types ≤ 15
      → floats_in cif.arg_types ≤ 8
      → ret ≡ call_function cif cfn vs 0
  unfolding wrapper_call
  fast_calls-KeepApart w cif cfn vs g ret r e a l hi hf =
      returned-result_of g ret r e (hi, hf)
      ∙ ap (λ ws. call_function cif cfn ws 0) (load-fill _ w cif.arg_types vs refl refl a l hi hf)
