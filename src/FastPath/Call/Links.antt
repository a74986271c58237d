-- ===== src/FastPath/Call/Links.antt =====
-- What the loop of fastCallIF leaves in ctx.args.
use native.Mathlib.Nat.{add-zero}
use pureffi.Common.{
  take-set, ℕ, suc, ◌+◌, ◌≤◌, ◌<◌, ◌≡◌, refl, true, false, List, [], ◌∷◌, ◌++◌, append_assoc,
  append-nil, if◌then◌else◌, arith, length, set, take, Bool-cases, inl, inr, length-set,
}
use pureffi.Go.Outcome.{Outcome, ok}
use pureffi.Goffi.{TypeDescriptor, is_float_kind}
use pureffi.FastPath.Call.{Reference, int_at, float_at, store_reference, link_args}

-- The references that the loop writes, from its two counters on.
unfoldable pub references : List TypeDescriptor → ℕ → ℕ → List Reference
references [] i f = []
references (t ∷ ts) i f = elim (is_float_kind t) [
  | true ↦ float_at f ∷ references ts i (suc f)
  | false ↦ int_at i ∷ references ts (suc i) f
]

unfoldable pub ints_in : List TypeDescriptor → ℕ
ints_in [] = 0
ints_in (t ∷ ts) = (if is_float_kind t then 0 else 1) + ints_in ts

unfoldable pub floats_in : List TypeDescriptor → ℕ
floats_in [] = 0
floats_in (t ∷ ts) = (if is_float_kind t then 1 else 0) + floats_in ts

-- Within the arrays, the loop ends with the references written from position `a` on.
abbrev pub Linked : List Reference → ℕ → Outcome (ℕ × List Reference) → Type 0
Linked before n r =
    (after : List Reference) × (r ≡ ok (n, after)) × (take n after ≡ before) × (length after ≡ 23)

pub store_reference_lem :
    (args : List Reference) (a i size : ℕ) (r : Reference)
    → i < size
    → a < 23
    → store_reference args a i size r ≡ ok (set args a r)
unfolding store_reference
store_reference_lem args a i size r h k = ground arith

-- One reference more in front of what the rest of the loop writes.
Linked-cons :
    (args : List Reference) (a n : ℕ) (r : Reference) (rs : List Reference)
    (rest : Outcome (ℕ × List Reference))
    → a < length args
    → Linked (take (suc a) (set args a r) ++ rs) (suc a + n) rest
    → Linked (take a args ++ r ∷ rs) (a + suc n) rest
Linked-cons args a n r rs rest h (after, e, q, l) =
    let k : a + suc n ≡ suc a + n = omega arith in
    (after, rw k e, rw (k, q, take-set args a r h) (append_assoc (take a args) (r ∷ []) rs), l)

pub link_args-Linked :
    (ts : List TypeDescriptor) (a i f : ℕ) (args : List Reference)
    → length args ≡ 23
    → a + length ts ≤ 23
    → i + ints_in ts ≤ 15
    → f + floats_in ts ≤ 8
    → Linked (take a args ++ references ts i f) (a + length ts) (link_args ts a i f args)
unfolding link_args references ints_in floats_in
link_args-Linked [] a i f args l ha hi hf =
    (args, ground arith, rw (append-nil, add-zero a) refl, l)
link_args-Linked (t ∷ ts) a i f args l ha hi hf = elim (Bool-cases (is_float_kind t)) [
  | inl e ↦
      rw
        (
          e,
          references,
          link_args,
          store_reference_lem args a f 8 (float_at f) (ground arith) (omega arith),
        )
        (Linked-cons args a (length ts) (float_at f) _ _ (omega arith) (
          link_args-Linked ts (suc a) i (suc f) (set args a (float_at f))
            (omega (arith, length-set args a (float_at f))) (omega arith) (ground arith)
            (ground arith)))
  | inr e ↦
      rw
        (
          e,
          references,
          link_args,
          store_reference_lem args a i 15 (int_at i) (ground arith) (omega arith),
        )
        (Linked-cons args a (length ts) (int_at i) _ _ (omega arith) (
          link_args-Linked ts (suc a) (suc i) f (set args a (int_at i))
            (omega (arith, length-set args a (int_at i))) (omega arith) (ground arith)
            (ground arith)))
]

pub length-in : (ts : List TypeDescriptor) → ints_in ts + floats_in ts ≡ length ts
unfolding ints_in floats_in
length-in [] = omega arith
length-in (t ∷ ts) = ground (arith, length-in ts)
