-- ===== src/FastPath/Pool/Owned.antt =====
-- zz_fast_func.go, fastCallPool: which goroutine has which context.
use pureffi.Common.{
  ℕ, suc, ◌≤◌, ◌<◌, ◌==◌, ◌≢◌, ◌⊎◌, ◌≡◌, refl, sym, ◌∙◌, ap, inl, inr, Bool, true, false, Option,
  none, some, [], ◌∷◌, Bool-cases, arith, ==_iff,
}
use pureffi.Go.Outcome.{ok}
use pureffi.FastPath.Call.{FastCallContext, CallFunction, store_reference}
use pureffi.FastPath.Pool.{
  Inside, got, linking, ready, calling, called, Goroutine, idle, entered, holding, leaving,
  returned, panicked, exec, System, update, Move, enter, get_pooled, get_new, work, stop, put,
  again, by, collect, Reach, here, next,
}

-- The context that a goroutine uses.
abbrev pub held : Goroutine → Option ℕ
held (holding at p) = some at
held (leaving at c ret) = some at
held _ = none

pub record IsOwned (s : System) : Type 0 where
  pub pooled_made : (at : ℕ) → s.pooled at ≡ true → at < s.made
  pub held_made : (g at : ℕ) → held (s.goroutines g) ≡ some at → at < s.made
  pub held_out : (g at : ℕ) → held (s.goroutines g) ≡ some at → s.pooled at ≡ false
  pub unique :
      (g h at : ℕ) → held (s.goroutines g) ≡ some at → held (s.goroutines h) ≡ some at → g ≡ h

-- A goroutine goes on with the context that it has, or without one.
IsOwned-keep :
    (s : System) (contexts : ℕ → FastCallContext) (g : ℕ) (q : Goroutine)
    → ((at : ℕ) → held q ≡ some at → held (s.goroutines g) ≡ some at)
    → IsOwned s
    → IsOwned (record s { contexts = contexts; goroutines = update s.goroutines g q })
IsOwned-keep s contexts g q k o = record {
  pooled_made = o.pooled_made;
  held_made = λ h at e. o.held_made h at (back h at e);
  held_out = λ h at e. o.held_out h at (back h at e);
  unique = λ h i at e e'. o.unique h i at (back h at e) (back i at e');
}
  where
    back : (h at : ℕ) → held (update s.goroutines g q h) ≡ some at → held (s.goroutines h) ≡ some at
    back h at e = elim (Bool-cases (h == g)) [
      | inl y ↦ rw ((==_iff h g).0 y) (k at (rw y at e))
      | inr n ↦ rw n at e
    ]

-- A goroutine gets a context that no goroutine has and that is not in the pool any more.
IsOwned-get :
    (s : System) (made : ℕ) (contexts : ℕ → FastCallContext) (pooled : ℕ → Bool) (g at : ℕ)
    (p : Inside)
    → s.made ≤ made
    → at < made
    → pooled at ≡ false
    → ((i : ℕ) → pooled i ≡ true → s.pooled i ≡ true)
    → ((h : ℕ) → held (s.goroutines h) ≢ some at)
    → IsOwned s
    → IsOwned (record {
      made = made;
      contexts = contexts;
      pooled = pooled;
      goroutines = update s.goroutines g (holding at p);
    })
IsOwned-get s made contexts pooled g at p le lt out fewer nobody o = record {
  pooled_made = λ i e. omega (arith, o.pooled_made i (fewer i e));
  held_made = λ h i e. elim (mine h i e) [
    | inl (y, q) ↦ rw q lt
    | inr k ↦ omega (arith, o.held_made h i k)
  ];
  held_out = λ h i e. elim (mine h i e) [
    | inl (y, q) ↦ rw q out
    | inr k ↦ not_pooled i (o.held_out h i k)
  ];
  unique = λ h i j e e'. elim (mine h j e) [
    | inl (y, q) ↦ elim (mine i j e') [
      | inl (y', q') ↦ y ∙ sym y'
      | inr k ↦ absurd (nobody i (k ∙ ap some q))
    ]
    | inr k ↦ elim (mine i j e') [
      | inl (y, q) ↦ absurd (nobody h (k ∙ ap some q))
      | inr k' ↦ o.unique h i j k k'
    ]
  ];
}
  where
    not_pooled : (i : ℕ) → s.pooled i ≡ false → pooled i ≡ false
    not_pooled i e = elim (Bool-cases (pooled i)) [
      | inl y ↦ absurd (grind (arith, e, fewer i y))
      | inr n ↦ n
    ]

    mine :
        (h i : ℕ)
        → held (update s.goroutines g (holding at p) h) ≡ some i
        → ((h ≡ g) × (i ≡ at)) ⊎ (held (s.goroutines h) ≡ some i)
    mine h i e = elim (Bool-cases (h == g)) [
      | inl y ↦ inl ((==_iff h g).0 y, (let e' : some at ≡ some i = rw y at e in cc))
      | inr n ↦ inr (rw n at e)
    ]

-- A goroutine puts its context back.
IsOwned-put :
    (s : System) (g at : ℕ) (q : Goroutine)
    → held (s.goroutines g) ≡ some at
    → held q ≡ none
    → IsOwned s
    → IsOwned (record s { pooled = update s.pooled at true; goroutines = update s.goroutines g q })
IsOwned-put s g at q had free o = record {
  pooled_made = λ i e. elim (Bool-cases (i == at)) [
    | inl y ↦ rw ((==_iff i at).0 y) (o.held_made g at had)
    | inr n ↦ o.pooled_made i (rw n at e)
  ];
  held_made = λ h i e. o.held_made h i (other h i e).1;
  held_out = λ h i e. elim (Bool-cases (i == at)) [
    | inl y ↦
        absurd
          ((other h i e).0 (o.unique h g at ((other h i e).1 ∙ ap some ((==_iff i at).0 y)) had))
    | inr n ↦ rw n (o.held_out h i (other h i e).1)
  ];
  unique = λ h i j e e'. o.unique h i j (other h j e).1 (other i j e').1;
}
  where
    other :
        (h i : ℕ)
        → held (update s.goroutines g q h) ≡ some i
        → (h ≢ g) × (held (s.goroutines h) ≡ some i)
    other h i e = elim (Bool-cases (h == g)) [
      | inl y ↦ absurd (let e' : held q ≡ some i = rw y at e in cc)
      | inr n ↦ (λ k. grind (arith, n, (==_iff h g).1 k), rw n at e)
    ]

IsOwned-collect :
    (s : System) (at : ℕ) → IsOwned s → IsOwned (record s { pooled = update s.pooled at false })
IsOwned-collect s at o = record {
  pooled_made = λ i e. o.pooled_made i (fewer i e);
  held_made = o.held_made;
  held_out =
      λ h i e. elim (Bool-cases (i == at)) [ inl y ↦ rw y refl | inr n ↦ rw n (o.held_out h i e) ];
  unique = o.unique;
}
  where
    fewer : (i : ℕ) → update s.pooled at false i ≡ true → s.pooled i ≡ true
    fewer i e = elim (Bool-cases (i == at)) [
      | inl y ↦ absurd (let e' : false ≡ true = rw y at e in cc)
      | inr n ↦ rw n at e
    ]

not_made : (s : System) → IsOwned s → s.pooled s.made ≡ false
not_made s o = elim (Bool-cases (s.pooled s.made)) [
  | inl y ↦ absurd (omega (arith, o.pooled_made s.made y))
  | inr n ↦ n
]

module _ (call_function : CallFunction) where
  -- A statement between Get and Put leaves the goroutine with its context.
  exec-held :
      (at : ℕ) (p : Inside) (ctx ctx' : FastCallContext) (q : Goroutine)
      → exec call_function at p ctx ≡ ok (q, ctx')
      → held q ≡ some at
  unfolding exec store_reference
  exec-held at (got c) ctx ctx' q e = cc
  exec-held at (linking c [] a i f) ctx ctx' q e = cc
  exec-held at (linking c (t ∷ ts) a i f) ctx ctx' q e = ground arith
  exec-held at (ready c n) ctx ctx' q e = cc
  exec-held at (calling c words) ctx ctx' q e = cc
  exec-held at (called c) ctx ctx' q e = cc

  Move-IsOwned : {g : ℕ} {s t : System} → Move call_function g s t → IsOwned s → IsOwned t
  Move-IsOwned {g} {s} (enter c e q) o =
      rw q (IsOwned-keep s s.contexts g (entered c) (λ at k. cc) o)
  Move-IsOwned {g} {s} (get_pooled c at e y q) o = rw q (
      IsOwned-get s s.made s.contexts (update s.pooled at false) g at (got c) (omega arith)
        (o.pooled_made at y) (ground arith) (λ i k. ground (arith, k))
        (λ h k. grind (arith, o.held_out h at k)) o)
  Move-IsOwned {g} {s} (get_new c e q) o = rw q (
      IsOwned-get s (suc s.made) _ s.pooled g s.made (got c) (omega arith) (omega arith)
        (not_made s o) (λ i k. k) (λ h k. absurd (omega (arith, o.held_made h s.made k))) o)
  Move-IsOwned {g} {s} (work at p q ctx e x r) o =
      rw r (
        IsOwned-keep s _ g q (λ i k. ap held e ∙ sym (exec-held at p (s.contexts at) ctx q x) ∙ k)
          o)
  Move-IsOwned {g} {s} (stop at p e h x q) o =
      rw q (IsOwned-keep s s.contexts g (panicked e) (λ i k. cc) o)
  Move-IsOwned {g} {s} (put c at ret e q) o =
      rw q (IsOwned-put s g at (returned c ret) (ap held e) refl o)
  Move-IsOwned {g} {s} (again c ret e q) o = rw q (IsOwned-keep s s.contexts g idle (λ at k. cc) o)

  pub Reach-IsOwned : {s : System} → Reach call_function s → IsOwned s
  Reach-IsOwned here = record {
    pooled_made = λ at e. cc;
    held_made = λ g at e. cc;
    held_out = λ g at e. cc;
    unique = λ g h at e f. cc;
  }
  Reach-IsOwned (next r (by g m)) = Move-IsOwned m (Reach-IsOwned r)
  Reach-IsOwned (next {s} r (collect at q)) = rw q (IsOwned-collect s at (Reach-IsOwned r))
