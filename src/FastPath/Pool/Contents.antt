-- ===== src/FastPath/Pool/Contents.antt =====
-- zz_fast_func.go, fastCallIF: what a context holds while its goroutine works on it.
use pureffi.Common.{
  ℕ, suc, ◌+◌, ◌≤◌, ◌<◌, ◌≡◌, refl, sym, ◌∙◌, ap, ap₂, inl, inr, List, [], ◌∷◌, ◌++◌, append_assoc,
  append-nil, Bool-cases, arith, length, set, take, take-set, length-set, map, get_or,
}
use pureffi.Go.Outcome.{Returns}
use pureffi.Goffi.{TypeDescriptor, is_float_kind}
use pureffi.FastPath.Call.{
  Reference, int_at, float_at, FastCallContext, new_context, load, CallFunction,
}
use pureffi.FastPath.Call.Links.{references, ints_in, floats_in, length-in, store_reference_lem}
use pureffi.FastPath.Pool.{
  FastCall, Inside, got, linking, ready, calling, called, Goroutine, holding, leaving, exec,
}

-- No more arguments of either class than the arrays have room for.
abbrev pub IsBounded : FastCall → Type 0
IsBounded c = (ints_in c.cif.arg_types ≤ 15) × (floats_in c.cif.arg_types ≤ 8)

-- The words behind the references of a call, in the order of its arguments.
abbrev pub words_of : FastCall → List ℕ
words_of c =
    map (load (record new_context { ints = c.ints; floats = c.floats }))
      (references c.cif.arg_types 0 0)

abbrev pub call_of : Inside → FastCall
call_of (got c) = c
call_of (linking c ts a i f) = c
call_of (ready c n) = c
call_of (calling c words) = c
call_of (called c) = c

-- The number of steps that a goroutine still makes until it has returned.
abbrev pub left_inside : Inside → ℕ
left_inside (got c) = 6 + length c.cif.arg_types
left_inside (linking c ts a i f) = 5 + length ts
left_inside (ready c n) = 4
left_inside (calling c words) = 3
left_inside (called c) = 2

map-load :
    (x y : FastCallContext) (rs : List Reference)
    → x.ints ≡ y.ints
    → x.floats ≡ y.floats
    → map (load x) rs ≡ map (load y) rs
unfolding load
map-load x y [] e f = refl
map-load x y (Reference.nil ∷ rs) e f = ap (λ ws. 0 ∷ ws) (map-load x y rs e f)
map-load x y (int_at i ∷ rs) e f = ap₂ (λ a ws. get_or a i 0 ∷ ws) e (map-load x y rs e f)
map-load x y (float_at i ∷ rs) e f = ap₂ (λ a ws. get_or a i 0 ∷ ws) f (map-load x y rs e f)

-- The loop has linked a part of the call's references, and `ts` is left.
pub record IsLinking (c : FastCall) (ts : List TypeDescriptor) (a i f : ℕ) (ctx : FastCallContext)
    : Type 0 where
  pub ints_held : ctx.ints ≡ c.ints
  pub floats_held : ctx.floats ≡ c.floats
  pub linked : take a ctx.args ++ references ts i f ≡ references c.cif.arg_types 0 0
  pub args_left : a + length ts ≡ length c.cif.arg_types
  pub ints_left : i + ints_in ts ≡ ints_in c.cif.arg_types
  pub floats_left : f + floats_in ts ≡ floats_in c.cif.arg_types

module _ (call_function : CallFunction) where
  -- What the C function gives for the call's arguments, with a cleared buffer.
  abbrev pub result_of : FastCall → ℕ
  result_of c = call_function c.cif c.cfn (words_of c) 0

  abbrev pub Fits : Inside → FastCallContext → Type 0
  Fits (got c) ctx = Unit {0}
  Fits (linking c ts a i f) ctx = IsLinking c ts a i f ctx
  Fits (ready c n) ctx =
      (ctx.ints ≡ c.ints)
      × (ctx.floats ≡ c.floats)
      × (take n ctx.args ≡ references c.cif.arg_types 0 0)
      × (ctx.ret ≡ 0)
  Fits (calling c words) ctx = (words ≡ words_of c) × (ctx.ret ≡ 0)
  Fits (called c) ctx = ctx.ret ≡ result_of c

  -- After one statement of a call: the next place, with one step less to make.
  abbrev pub Advances : ℕ → Inside → Goroutine × FastCallContext → Type 0
  Advances at p (holding at' q, ctx) =
      (at' ≡ at)
      × (call_of q ≡ call_of p)
      × (left_inside p ≡ suc (left_inside q))
      × Fits q ctx
      × (length ctx.args ≡ 23)
  Advances at p (leaving at' c ret, ctx) =
      (at' ≡ at)
      × (c ≡ call_of p)
      × (left_inside p ≡ 2)
      × (ret ≡ result_of c)
      × (length ctx.args ≡ 23)
  Advances at p _ = ⊥

  -- One round of the loop, with a reference to the next element of its array.
  IsLinking-round :
      (c : FastCall) (t : TypeDescriptor) (ts : List TypeDescriptor) (a i f i' f' : ℕ)
      (r : Reference) (ctx : FastCallContext)
      → a < 23
      → length ctx.args ≡ 23
      → references (t ∷ ts) i f ≡ r ∷ references ts i' f'
      → i + ints_in (t ∷ ts) ≡ i' + ints_in ts
      → f + floats_in (t ∷ ts) ≡ f' + floats_in ts
      → IsLinking c (t ∷ ts) a i f ctx
      → IsLinking c ts (suc a) i' f' (record ctx { args = set ctx.args a r })
  IsLinking-round c t ts a i f i' f' r ctx lt l e ei ef h = record {
    ints_held = h.ints_held;
    floats_held = h.floats_held;
    linked =
        rw (take-set ctx.args a r (omega arith), append_assoc (take a ctx.args) (r ∷ []) _)
          (ap (λ rs. take a ctx.args ++ rs) (sym e) ∙ h.linked);
    args_left = omega (arith, h.args_left);
    ints_left = sym ei ∙ h.ints_left;
    floats_left = sym ef ∙ h.floats_left;
  }

  round-Advances :
      (at : ℕ) (c : FastCall) (t : TypeDescriptor) (ts : List TypeDescriptor) (a i f : ℕ)
      (ctx : FastCallContext)
      → IsBounded c
      → length ctx.args ≡ 23
      → IsLinking c (t ∷ ts) a i f ctx
      → Returns
          (Advances at (linking c (t ∷ ts) a i f))
          (exec call_function at (linking c (t ∷ ts) a i f) ctx)
  unfolding exec references ints_in floats_in
  round-Advances at c t ts a i f ctx b l h =
      let lt : a < 23 = omega (arith, h.args_left, length-in c.cif.arg_types, b.0, b.1) in
      elim (Bool-cases (is_float_kind t)) [
        | inl e ↦
            let k : f < 8 = ground (arith, h.floats_left, b.1) in
            rw (exec, e, store_reference_lem ctx.args a f 8 (float_at f) k lt)
              (
                refl,
                refl,
                omega arith,
                IsLinking-round c t ts a i f i (suc f) (float_at f) ctx lt l
                    (rw (references, e) refl) (rw (ints_in, e) (omega arith))
                    (rw (floats_in, e) (omega arith)) h,
                length-set ctx.args a (float_at f) ∙ l,
              )
        | inr e ↦
            let k : i < 15 = ground (arith, h.ints_left, b.0) in
            rw (exec, e, store_reference_lem ctx.args a i 15 (int_at i) k lt)
              (
                refl,
                refl,
                omega arith,
                IsLinking-round c t ts a i f (suc i) f (int_at i) ctx lt l (rw (references, e) refl)
                    (rw (ints_in, e) (omega arith)) (rw (floats_in, e) (omega arith)) h,
                length-set ctx.args a (int_at i) ∙ l,
              )
      ]

  -- A call within the arrays' bounds is not stopped, and its context keeps what it must hold.
  pub exec-Advances :
      (at : ℕ) (p : Inside) (ctx : FastCallContext)
      → IsBounded (call_of p)
      → length ctx.args ≡ 23
      → Fits p ctx
      → Returns (Advances at p) (exec call_function at p ctx)
  unfolding exec references ints_in floats_in
  exec-Advances at (got c) ctx b l h = (
    refl,
    refl,
    omega arith,
    record {
      ints_held = refl;
      floats_held = refl;
      linked = refl;
      args_left = omega arith;
      ints_left = omega arith;
      floats_left = omega arith;
    },
    l,
  )
  exec-Advances at (linking c [] a i f) ctx b l h = (
    refl,
    refl,
    omega arith,
    (h.ints_held, h.floats_held, sym (append-nil _) ∙ h.linked, refl),
    l,
  )
  exec-Advances at (linking c (t ∷ ts) a i f) ctx b l h = round-Advances at c t ts a i f ctx b l h
  exec-Advances at (ready c n) ctx b l (ei, ef, k, z) =
      (refl, refl, refl, (ap (map (load ctx)) k ∙ map-load ctx _ _ ei ef, z), l)
  exec-Advances at (calling c words) ctx b l (k, z) =
      (refl, refl, refl, ap₂ (call_function c.cif c.cfn) k z, l)
  exec-Advances at (called c) ctx b l h = (refl, refl, refl, h, l)
