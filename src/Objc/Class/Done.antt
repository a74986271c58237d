-- ===== src/Objc/Class/Done.antt =====
-- What has happened in a run that went on to its end.
use pureffi.Common.{
  ℕ, ◌≡◌, ◌≢◌, refl, sym, ◌∙◌, ap, ◌⊎◌, inl, inr, Bool, true, false, Bool-cases, List, [], ◌∷◌,
  ◌++◌, ◌==◌, not, arith,
}
use pureffi.Go.Types.{GoType}
use pureffi.Go.Outcome.{Outcome, ok, panic}
use pureffi.Objc.{Coded, encoded, refused, EncodeError}
use pureffi.Objc.Calls.{
  Method, Call, new_callback, register_name, Log, Env, ClassError, End, done, failed, panicked, Run,
  go_on, ◌>>=◌, pure, fail, raise, ask, ask_callback, ensure, text_or, recovered, recover_from,
  ends_in,
}
use pureffi.Objc.Class.{new_imp, is_method}
use pureffi.Objc.Class.Quiet.{IsQuiet}

-- Some call in the log satisfies the predicate, given the calls before it.
abbrev pub Happened : (Log → Call → Type 0) → Log → Type 0
Happened P [] = ⊥
Happened P (c ∷ log) = P log c ⊎ Happened P log

-- The call was made, and answered other than by false.
abbrev pub IsAccepted : Env → Call → Log → Call → Type 0
IsAccepted env c log d = (d ≡ c) × (env.answer log c ≢ 0)

abbrev pub IsSelector : Env → List ℕ → ℕ → Log → Call → Type 0
IsSelector env name sel log d =
    (d ≡ register_name name) × (env.answer log (register_name name) ≡ sel)

abbrev pub IsImp : Env → Method → GoType → ℕ → Log → Call → Type 0
IsImp env fn typ imp log d = (d ≡ new_callback fn typ) × (env.callback log fn typ ≡ ok imp)

abbrev pub IsCall : Call → Log → Call → Type 0
IsCall c log d = d ≡ c

Happened-append :
    (P : Log → Call → Type 0) (calls log : Log) → Happened P log → Happened P (calls ++ log)
Happened-append P [] log h = h
Happened-append P (c ∷ calls) log h = inr (Happened-append P calls log h)

module _ {ℓ κ} {A : Type ℓ} {B : Type κ} where
  go_on-done :
      (k : A → Run B) (e : End A × Log) (b : B) (l : Log)
      → go_on k e ≡ (done b, l)
      → (a : A) × (m : Log) × (e ≡ (done a, m)) × (k a m ≡ (done b, l))
  go_on-done k (done a, m) b l h = (a, m, refl, h)
  go_on-done k (failed e, m) b l h = absurd (ground arith)
  go_on-done k (panicked p, m) b l h = absurd (ground arith)

  >>=-done :
      (r : Run A) (k : A → Run B) (log : Log) (b : B) (l : Log)
      → (r >>= k) log ≡ (done b, l)
      → (a : A) × (m : Log) × (r log ≡ (done a, m)) × (k a m ≡ (done b, l))
  unfolding ◌>>=◌
  >>=-done r k log b l h = go_on-done k (r log) b l h

-- A quiet statement keeps what has happened.
pub keeps {ℓ} :
    {A : Type ℓ} (P : Log → Call → Type 0) (r : Run A) (log : Log) (a : End A) (l : Log)
    → IsQuiet r
    → r log ≡ (a, l)
    → Happened P log
    → Happened P l
keeps P r log a l q h x =
    let (calls, e, z) = q log in rw (sym (ap (λ p. p.1) h) ∙ e) (Happened-append P calls log x)

pub done-injective {ℓ} : {A : Type ℓ} {a b : A} → done a ≡ done b → a ≡ b
done-injective e = cc

pub ensure-done :
    (b : Bool) (e : ClassError) (log l : Log)
    → ensure b e log ≡ (done tt, l)
    → (b ≡ true) × (l ≡ log)
unfolding ensure pure fail
ensure-done true e log l h = (refl, sym (ap (λ p. p.1) h))
ensure-done false e log l h = absurd (ground arith)

text_or-done :
    (e : EncodeError → ClassError) (c : Coded) (log : Log) (s : List ℕ) (l : Log)
    → text_or e c log ≡ (done s, l)
    → (c ≡ encoded s) × (l ≡ log)
unfolding text_or pure fail
text_or-done e (encoded s) log t l h =
    (ap (λ x. encoded x) (done-injective (ap (λ p. p.0) h)), sym (ap (λ p. p.1) h))
text_or-done e (refused r) log t l h = absurd (ground arith)

ask-done :
    (env : Env) (c : Call) (log : Log) (n : ℕ) (l : Log)
    → ask env c log ≡ (done n, l)
    → (env.answer log c ≡ n) × (l ≡ c ∷ log)
unfolding ask
ask-done env c log n l h = (done-injective (ap (λ p. p.0) h), sym (ap (λ p. p.1) h))

ask_callback-done :
    (env : Env) (fn : Method) (typ : GoType) (log : Log) (n : ℕ) (l : Log)
    → ask_callback env fn typ log ≡ (done n, l)
    → (env.callback log fn typ ≡ ok n) × (l ≡ new_callback fn typ ∷ log)
unfolding ask_callback
ask_callback-done env fn typ log n l h =
    (ok_of (env.callback log fn typ) (ap (λ p. p.0) h), sym (ap (λ p. p.1) h))
  where
    ok_of : (o : Outcome ℕ) → ends_in o ≡ done n → o ≡ ok n
    ok_of (ok m) e = cc
    ok_of (panic p) e = absurd (ground arith)

-- NewIMP that returns has made a callback.
pub new_imp-done :
    (env : Env) (fn : Method) (typ : GoType) (log : Log) (n : ℕ) (l : Log)
    → new_imp env fn typ log ≡ (done n, l)
    → Happened (IsImp env fn typ n) l
unfolding new_imp raise
new_imp-done env fn typ log n l h = elim (Bool-cases (is_method typ)) [
  | inl y ↦
      let (e, q) = ask_callback-done env fn typ log n l (rw (new_imp, y) at h) in
      rw q (inl (refl, e))
  | inr f ↦ let k = rw (new_imp, f) at h in absurd (ground arith)
]

pub recovered-done :
    (e : ClassError) (r : Run ℕ) (log : Log) (n : ℕ) (l : Log)
    → recovered e r log ≡ (done n, l)
    → r log ≡ (done n, l)
unfolding recovered
recovered-done e r log n l h = same (r log) h
  where
    same : (s : End ℕ × Log) → recover_from e s ≡ (done n, l) → s ≡ (done n, l)
    same (done m, k) q = q
    same (failed f, k) q = absurd (ground arith)
    same (panicked p, k) q = absurd (ground arith)

-- From a chain that went on to its end, to what its first statement has done and the rest.
module _ {ℓ} {B : Type ℓ} (b : B) (l log : Log) (Goal : Type 0) where
  pub then_any {κ} :
      {A : Type κ} (r : Run A) (k : A → Run B)
      → (r >>= k) log ≡ (done b, l)
      → ((a : A) (m : Log) → r log ≡ (done a, m) → k a m ≡ (done b, l) → Goal)
      → Goal
  then_any r k h goal = let (a, m, e, f) = >>=-done r k log b l h in goal a m e f

  pub then_ask :
      (env : Env) (c : Call) (k : ℕ → Run B)
      → (ask env c >>= k) log ≡ (done b, l)
      → (k (env.answer log c) (c ∷ log) ≡ (done b, l) → Goal)
      → Goal
  unfolding ◌>>=◌ ask
  then_ask env c k h goal = goal h

  pub then_text :
      (e : EncodeError → ClassError) (c : Coded) (k : List ℕ → Run B)
      → (text_or e c >>= k) log ≡ (done b, l)
      → ((s : List ℕ) → c ≡ encoded s → k s log ≡ (done b, l) → Goal)
      → Goal
  unfolding ◌>>=◌ text_or pure fail
  then_text e (encoded s) k h goal = goal s refl h
  then_text e (refused r) k h goal = absurd (ground arith)

  pub then_ensure :
      (ok : Bool) (e : ClassError) (k : Unit {0} → Run B)
      → (ensure ok e >>= k) log ≡ (done b, l)
      → (ok ≡ true → k tt log ≡ (done b, l) → Goal)
      → Goal
  unfolding ◌>>=◌ ensure pure fail
  then_ensure true e k h goal = goal refl h
  then_ensure false e k h goal = absurd (ground arith)

pub ≢-zero : {n : ℕ} → not (n == 0) ≡ true → n ≢ 0
≢-zero h = ground arith

pub pure-done : (log l : Log) → pure {A = Unit {0}} tt log ≡ (done tt, l) → l ≡ log
unfolding pure
pure-done log l h = sym (ap (λ p. p.1) h)
