-- ===== src/FastPath/Pool/Progress.antt =====
-- zz_fast_func.go, fastCallIF: every call returns, whatever the calls that run beside it do.
use pureffi.Common.{
  ==-refl, ℕ, zero, suc, ◌+◌, ◌≤◌, ◌<◌, ◌==◌, ◌≡◌, ◌≢◌, refl, sym, ◌∙◌, ap, inl, inr, ◌⊎◌, false,
  Option, some, Bool-cases, arith, ==_iff, length,
}
use pureffi.Go.Outcome.{Outcome-cases}
use pureffi.FastPath.Call.{FastCallContext, CallFunction}
use pureffi.FastPath.Pool.{
  FastCall, Inside, got, linking, ready, calling, called, Goroutine, idle, entered, holding,
  leaving, returned, panicked, exec, System, update, Move, enter, get_pooled, get_new, work, stop,
  put, again, by, collect, Reach, next,
}
use pureffi.FastPath.Pool.Contents.{
  IsBounded, call_of, left_inside, result_of, Advances, exec-Advances,
}
use pureffi.FastPath.Pool.Results.{
  call_in, IsSound, exec-Advances_of, exec-call_of, Reach-IsSound, returned-result_of,
}

-- The call that a goroutine has entered.
abbrev pub current : Goroutine → Option FastCall
current (entered c) = some c
current q = call_in q

-- The number of steps that it still makes until it has returned from it.
abbrev pub left : Goroutine → ℕ
left (entered c) = 7 + length c.cif.arg_types
left (holding at p) = left_inside p
left (leaving at c ret) = 1
left _ = 0

==-other : (g h : ℕ) → h ≢ g → (g == h) ≡ false
==-other g h n = elim (Bool-cases (g == h)) [
  | inl y ↦ absurd (n (sym ((==_iff g h).0 y)))
  | inr k ↦ k
]

zero-or-pos : (n : ℕ) → (n ≡ 0) ⊎ (0 < n)
zero-or-pos zero = inl refl
zero-or-pos (suc n) = inr (omega arith)

left_inside-pos : (p : Inside) → left_inside p ≢ 0
left_inside-pos (got c) = λ e. absurd (omega arith)
left_inside-pos (linking c ts a i f) = λ e. absurd (omega arith)
left_inside-pos (ready c n) = λ e. absurd (omega arith)
left_inside-pos (calling c words) = λ e. absurd (omega arith)
left_inside-pos (called c) = λ e. absurd (omega arith)

module _ (call_function : CallFunction) where
  -- A run in which goroutine g makes n steps, and others any number.
  pub data Run (g : ℕ) : ℕ → System → System → Type 0 where
    none_yet : {s : System} → Run g 0 s s
    own : {n : ℕ} {s t u : System} → Run g n s t → Move call_function g t u → Run g (suc n) s u
    other :
        {n : ℕ} {s t u : System} (h : ℕ)
        → h ≢ g
        → Run g n s t
        → Move call_function h t u
        → Run g n s u
    collected :
        {n : ℕ} {s t : System} (at : ℕ)
        → Run g n s t
        → Run g n s (record t { pooled = update t.pooled at false })

  -- The step that a goroutine takes next, by the place where it is.
  enabled :
      (s : System) (g : ℕ) (q : Goroutine) (c : FastCall)
      → s.goroutines g ≡ q
      → current q ≡ some c
      → 0 < left q
      → (t : System) × Move call_function g s t
  enabled s g (entered c') c e h l = (_, get_new c' e refl)
  enabled s g (leaving at c' ret) c e h l = (_, put c' at ret e refl)
  enabled s g (holding at p) c e h l =
      elim (Outcome-cases (exec call_function at p (s.contexts at))) [
        | inl (r, x) ↦ (_, work at p r.0 r.1 e x refl)
        | inr (x, y) ↦ (_, stop at p x e y refl)
      ]
  enabled s g idle c e h l = absurd (ground arith)
  enabled s g (returned c' ret) c e h l = absurd (omega arith)
  enabled s g (panicked x) c e h l = absurd (omega arith)

  -- A step of a goroutine in a call within bounds: it is in the same call, with one step less to make.
  abbrev Follows : FastCall → ℕ → Goroutine → Type 0
  Follows c n q = (current q ≡ some c) × (n ≡ suc (left q))

  work-Follows :
      (at : ℕ) (p : Inside) (ctx : FastCallContext) (q : Goroutine) (c : FastCall)
      → call_of p ≡ c
      → call_in q ≡ some (call_of p)
      → Advances call_function at p (q, ctx)
      → Follows c (left_inside p) q
  work-Follows at p ctx (holding i p') c e h a = (cc, a.2)
  work-Follows at p ctx (leaving i c' ret) c e h a = (cc, a.2)
  work-Follows at p ctx (returned c' ret) c e h a = absurd a
  work-Follows at p ctx idle c e h a = absurd a
  work-Follows at p ctx (entered c') c e h a = absurd a
  work-Follows at p ctx (panicked x) c e h a = absurd a

  Move-Follows :
      (g : ℕ) (s t : System) (c : FastCall)
      → IsSound call_function s
      → current (s.goroutines g) ≡ some c
      → IsBounded c
      → 0 < left (s.goroutines g)
      → Move call_function g s t
      → Follows c (left (s.goroutines g)) (t.goroutines g)
  Move-Follows g s t c k e b l (enter c' h q) = absurd (ground (arith, h))
  Move-Follows g s t c k e b l (get_pooled c' at h y q) =
      rw (q, ==-refl g, h) (sym (ap current h) ∙ e, omega arith)
  Move-Follows g s t c k e b l (get_new c' h q) =
      rw (q, ==-refl g, h) (sym (ap current h) ∙ e, omega arith)
  Move-Follows g s t c k e b l (work at p q ctx h x r) =
      let same : call_of p ≡ c = (let i = sym (ap current h) ∙ e in cc) in
      rw (r, ==-refl g, h)
        (work-Follows at p ctx q c same (exec-call_of call_function at p (s.contexts at) ctx q x) (
          exec-Advances_of call_function at p (s.contexts at) ctx q x (k.lengths at)
            (rw h at (k.sound g)) (rw same b)))
  Move-Follows g s t c k e b l (stop at p x h y q) =
      let same : call_of p ≡ c = (let i = sym (ap current h) ∙ e in cc) in
      absurd (
        rw y at (
          exec-Advances call_function at p (s.contexts at) (rw same b) (k.lengths at)
            ((rw h at (k.sound g)) (rw same b))))
  Move-Follows g s t c k e b l (put c' at ret h q) =
      rw (q, ==-refl g, h) (sym (ap current h) ∙ e, refl)
  Move-Follows g s t c k e b l (again c' ret h q) =
      let z : 0 < left (returned c' ret) = rw h at l in absurd (omega arith)

  -- A step of another goroutine leaves this one where it is.
  Move-other :
      (g h : ℕ) (s t : System) → h ≢ g → Move call_function h s t → t.goroutines g ≡ s.goroutines g
  Move-other g h s t n (enter c e q) = rw (q, ==-other g h n) refl
  Move-other g h s t n (get_pooled c at e y q) = rw (q, ==-other g h n) refl
  Move-other g h s t n (get_new c e q) = rw (q, ==-other g h n) refl
  Move-other g h s t n (work at p r ctx e x q) = rw (q, ==-other g h n) refl
  Move-other g h s t n (stop at p x e y q) = rw (q, ==-other g h n) refl
  Move-other g h s t n (put c at ret e q) = rw (q, ==-other g h n) refl
  Move-other g h s t n (again c ret e q) = rw (q, ==-other g h n) refl

  Run-Reach : {g n : ℕ} {s t : System} → Reach call_function s → Run g n s t → Reach call_function t
  Run-Reach r none_yet = r
  Run-Reach {g} r (own run m) = next (Run-Reach r run) (by g m)
  Run-Reach r (other h n run m) = next (Run-Reach r run) (by h m)
  Run-Reach r (collected at run) = next (Run-Reach r run) (collect at refl)

  -- After n of the goroutine's own steps it has n steps less to make, in the same call.
  Run-left :
      (g : ℕ) {n : ℕ} {s t : System} (c : FastCall)
      → Reach call_function s
      → current (s.goroutines g) ≡ some c
      → IsBounded c
      → Run g n s t
      → n ≤ left (s.goroutines g)
      → (current (t.goroutines g) ≡ some c) × (left (s.goroutines g) ≡ n + left (t.goroutines g))
  Run-left g c r e b none_yet l = (e, omega arith)
  Run-left g c r e b (own {n} run m) l =
      let h = Run-left g c r e b run (omega arith) in
      let f =
        Move-Follows g _ _ c (Reach-IsSound call_function (Run-Reach r run)) h.0 b
          (omega (arith, h.1)) m in
      (f.0, omega (arith, h.1, f.1))
  Run-left g c r e b (other h n run m) l =
      let k = Run-left g c r e b run l in rw (Move-other g h _ _ n m) k
  Run-left g c r e b (collected at run) l = Run-left g c r e b run l

  current-returned :
      (q : Goroutine) (c : FastCall)
      → current q ≡ some c
      → left q ≡ 0
      → (ret : ℕ) × (q ≡ returned c ret)
  current-returned (entered c') c e l = absurd (omega arith)
  current-returned (leaving at c' ret) c e l = absurd (omega arith)
  current-returned (holding at p) c e l = absurd (left_inside-pos p l)
  current-returned idle c e l = cc
  current-returned (returned c' ret) c e l = (ret, cc)
  current-returned (panicked x) c e l = cc

  -- A call that has been entered, with at most 15 integer and 8 floating-point arguments, returns, the
  -- run of the C function being one step: in
  -- every run from a reachable state in which its goroutine makes no more than `left` steps, and the
  -- other goroutines and the garbage collector any number, the goroutine either has made fewer and can
  -- make the next one, or has made all and has returned what the C function gives for the call's words.
  pub fast_call-Returns :
      (g : ℕ) {n : ℕ} {s t : System} (c : FastCall)
      → Reach call_function s
      → current (s.goroutines g) ≡ some c
      → IsBounded c
      → Run g n s t
      → n ≤ left (s.goroutines g)
      → ((n < left (s.goroutines g)) × (u : System) × Move call_function g t u)
        ⊎ ((n ≡ left (s.goroutines g)) × (t.goroutines g ≡ returned c (result_of call_function c)))
  fast_call-Returns g {t} c r e b run l =
      let h = Run-left g c r e b run l in
      elim (zero-or-pos (left (t.goroutines g))) [
        | inl z ↦
            let q = current-returned (t.goroutines g) c h.0 z in
            inr (
              omega (arith, h.1, z),
              q.1
                  ∙ ap (returned c)
                      (returned-result_of call_function g q.0 (Run-Reach r run) q.1 b),
            )
        | inr p ↦
            let m = enabled t g (t.goroutines g) c refl h.0 p in
            inl (omega (arith, h.1, p), m.0, m.1)
      ]
