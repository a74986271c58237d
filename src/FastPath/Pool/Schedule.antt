-- ===== src/FastPath/Pool/Schedule.antt =====
-- Reachable states by evaluation: goroutines take steps in a given order.
use pureffi.Common.{
  ℕ, ◌≡◌, refl, ◌⊎◌, inl, inr, Bool, true, false, Option, none, some, List, [], ◌∷◌,
}
use pureffi.Go.Outcome.{Panic, Outcome, ok, panic}
use pureffi.FastPath.Call.{CallFunction}
use pureffi.FastPath.Pool.{
  FastCall, Goroutine, idle, entered, holding, leaving, returned, panicked, exec, System, Move,
  enter, get_pooled, get_new, work, stop, put, again, by, start, Reach, here, next,
}

is_in : (b : Bool) → (b ≡ true) ⊎ (b ≡ false)
is_in true = inl refl
is_in false = inr refl

outcome {ℓ} : {A : Type ℓ} (m : Outcome A) → ((a : A) × (m ≡ ok a)) ⊎ ((e : Panic) × (m ≡ panic e))
outcome (ok a) = inl (a, refl)
outcome (panic e) = inr (e, refl)

module _ (call_function : CallFunction) where
  pub record Reached : Type 0 where
    pub last : System
    pub reach : Reach call_function last

  -- The next step of a goroutine: an idle one makes the given call, and Get prefers the first context.
  unfoldable pub pick :
      FastCall
      → (s : System) (g : ℕ) (q : Goroutine) → s.goroutines g ≡ q
      → Option ((t : System) × Move call_function g s t)
  unfolding is_in outcome
  pick c s g idle e = some (_, enter c e refl)
  pick c s g (entered c') e = elim (is_in (s.pooled 0)) [
    | inl y ↦ some (_, get_pooled c' 0 e y refl)
    | inr n ↦ some (_, get_new c' e refl)
  ]
  pick c s g (holding at p) e = elim (outcome (exec call_function at p (s.contexts at))) [
    | inl (q, x) ↦ some (_, work at p q.0 q.1 e x refl)
    | inr (x, y) ↦ some (_, stop at p x e y refl)
  ]
  pick c s g (leaving at c' ret) e = some (_, put c' at ret e refl)
  pick c s g (returned c' ret) e = some (_, again c' ret e refl)
  pick c s g (panicked x) e = none

  turn : Reached → ℕ × FastCall → Reached
  unfolding pick
  turn r (g, c) = elim (pick c r.last g (r.last.goroutines g) refl) [
    | none ↦ r
    | some (t, m) ↦ record { last = t; reach = next r.reach (by g m) }
  ]

  unfoldable pub schedule : Reached → List (ℕ × FastCall) → Reached
  unfolding turn
  schedule r [] = r
  schedule r (t ∷ ts) = schedule (turn r t) ts

-- The start of the program.
abbrev pub started : (call_function : CallFunction) → Reached call_function
started call_function = record { last = start call_function; reach = here }
