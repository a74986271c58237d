-- ===== src/Objc/Class/Quiet.antt =====
-- The calls that the parts of RegisterClass make; none of them registers a class.
use pureffi.Common.{
  ℕ, suc, ◌+◌, ◌≡◌, refl, sym, ◌∙◌, ap, Bool, true, false, List, [], ◌∷◌, arith, inl, inr,
  Bool-cases, ◌==◌, ◌++◌, append_assoc, if◌then◌else◌,
}
use pureffi.Go.Types.{GoType}
use pureffi.Objc.{Coded, encoded, refused, EncodeError}
use pureffi.Objc.Calls.{
  Method, given, new_callback, Call, register_class_pair, Log, Env, ClassError, End, done, failed,
  panicked, Run, go_on, ◌>>=◌, pure, fail, ask, ensure, text_or, recovered, recover_from,
  ask_callback, raise,
}
use pureffi.Objc.Class.{
  MethodDef, FieldDef, new_imp, is_method, add_protocols, register_method, register_methods,
  add_accessor, add_setter, add_getter, add_accessors, register_ivar, register_ivars, read_only,
  read_write,
}

abbrev pub is_registration : Call → ℕ
is_registration (register_class_pair class) = 1
is_registration _ = 0

-- How many calls of objc_registerClassPair there are.
abbrev pub registrations : Log → ℕ
registrations [] = 0
registrations (c ∷ log) = is_registration c + registrations log

-- A statement adds calls to the log, and registers nothing.
abbrev pub IsQuiet {ℓ} : {A : Type ℓ} → Run A → Type 0
IsQuiet r = (log : Log) → (calls : Log) × ((r log).1 ≡ calls ++ log) × (registrations calls ≡ 0)

registrations-append : (k l : Log) → registrations (k ++ l) ≡ registrations k + registrations l
registrations-append [] l = omega arith
registrations-append (c ∷ k) l = omega (arith, registrations-append k l)

pub IsQuiet-registrations {ℓ} :
    {A : Type ℓ} (r : Run A) → IsQuiet r → (log : Log) → registrations (r log).1 ≡ registrations log
IsQuiet-registrations r q log =
    let (calls, e, h) = q log in rw e (omega (arith, registrations-append calls log, h))

module _ {ℓ κ} {A : Type ℓ} {B : Type κ} where
  go_on-quiet :
      (k : A → Run B) (e : End A × Log) (log : Log)
      → (calls : Log) × (e.1 ≡ calls ++ log) × (registrations calls ≡ 0)
      → ((a : A) → IsQuiet (k a))
      → (calls : Log) × ((go_on k e).1 ≡ calls ++ log) × (registrations calls ≡ 0)
  go_on-quiet k (done a, l) log (cs, h, z) q =
      let (ds, i, y) = q a l in
      (
        ds ++ cs,
        i ∙ ap (λ x. ds ++ x) h ∙ sym (append_assoc ds cs log),
        omega (arith, registrations-append ds cs, y, z),
      )
  go_on-quiet k (failed e, l) log h q = h
  go_on-quiet k (panicked p, l) log h q = h

  pub >>=-IsQuiet :
      (r : Run A) (k : A → Run B) → IsQuiet r → ((a : A) → IsQuiet (k a)) → IsQuiet (r >>= k)
  unfolding ◌>>=◌
  >>=-IsQuiet r k h q log = go_on-quiet k (r log) log (h log) q

pub pure-IsQuiet {ℓ} : {A : Type ℓ} (a : A) → IsQuiet (pure a)
unfolding pure
pure-IsQuiet a log = ([], refl, refl)

fail-IsQuiet {ℓ} : (A : Type ℓ) (e : ClassError) → IsQuiet (fail {A = A} e)
unfolding fail
fail-IsQuiet A e log = ([], refl, refl)

pub ask-IsQuiet : (env : Env) (c : Call) → is_registration c ≡ 0 → IsQuiet (ask env c)
unfolding ask
ask-IsQuiet env c h log = (c ∷ [], refl, omega (arith, h))

pub ensure-IsQuiet : (b : Bool) (e : ClassError) → IsQuiet (ensure b e)
unfolding ensure
ensure-IsQuiet true e = pure-IsQuiet tt
ensure-IsQuiet false e = fail-IsQuiet (Unit {0}) e

pub text_or-IsQuiet : (e : EncodeError → ClassError) (c : Coded) → IsQuiet (text_or e c)
unfolding text_or
text_or-IsQuiet e (encoded s) = pure-IsQuiet s
text_or-IsQuiet e (refused r) = fail-IsQuiet (List ℕ) (e r)

pub recovered-IsQuiet : (e : ClassError) (r : Run ℕ) → IsQuiet r → IsQuiet (recovered e r)
unfolding recovered
recovered-IsQuiet e r q log = let (cs, h, z) = q log in (cs, recover (r log) ∙ h, z)
  where
    recover : (s : End ℕ × Log) → (recover_from e s).1 ≡ s.1
    recover (done n, l) = refl
    recover (failed f, l) = refl
    recover (panicked p, l) = refl

if-IsQuiet {ℓ} :
    {A : Type ℓ} (r s : Run A) (b : Bool) → IsQuiet r → IsQuiet s → IsQuiet (if b then r else s)
if-IsQuiet r s true h k = h
if-IsQuiet r s false h k = k

pub new_imp-IsQuiet : (env : Env) (fn : Method) (typ : GoType) → IsQuiet (new_imp env fn typ)
unfolding new_imp ask_callback raise
new_imp-IsQuiet env fn typ log = elim (Bool-cases (is_method typ)) [
  | inl y ↦ rw y (new_callback fn typ ∷ [], refl, refl)
  | inr n ↦ rw n ([], refl, refl)
]

module _ (env : Env) (class : ℕ) where
  pub add_protocols-IsQuiet : (ps : List ℕ) → IsQuiet (add_protocols env class ps)
  unfolding add_protocols
  add_protocols-IsQuiet [] = pure-IsQuiet tt
  add_protocols-IsQuiet (p ∷ ps) =
      >>=-IsQuiet _ _ (ask-IsQuiet env _ refl)
        (λ a. >>=-IsQuiet _ _ (ensure-IsQuiet _ _) (λ u. add_protocols-IsQuiet ps))

  pub register_method-IsQuiet :
      (idx : ℕ) (m : MethodDef) → IsQuiet (register_method env class idx m)
  unfolding register_method
  register_method-IsQuiet idx m =
      >>=-IsQuiet _ _ (recovered-IsQuiet _ _ (new_imp-IsQuiet env (given m.fn) m.type)) (λ imp.
        >>=-IsQuiet _ _ (text_or-IsQuiet _ _)
          (λ enc. >>=-IsQuiet _ _ (ask-IsQuiet env _ refl) (λ a. ensure-IsQuiet _ _)))

  pub register_methods-IsQuiet :
      (idx : ℕ) (ms : List MethodDef) → IsQuiet (register_methods env class idx ms)
  unfolding register_methods
  register_methods-IsQuiet idx [] = pure-IsQuiet tt
  register_methods-IsQuiet idx (m ∷ ms) =
      >>=-IsQuiet _ _ (register_method-IsQuiet idx m) (λ u. register_methods-IsQuiet (suc idx) ms)

  pub add_accessor-IsQuiet :
      (field name : List ℕ) (val : Method) (typ : GoType)
      → IsQuiet (add_accessor env class field name val typ)
  unfolding add_accessor
  add_accessor-IsQuiet field name val typ = >>=-IsQuiet _ _ (text_or-IsQuiet _ _) (λ enc.
      >>=-IsQuiet _ _ (ask-IsQuiet env _ refl) (λ sel.
        >>=-IsQuiet _ _ (new_imp-IsQuiet env val typ)
          (λ imp. >>=-IsQuiet _ _ (ask-IsQuiet env _ refl) (λ a. pure-IsQuiet tt))))

  pub add_accessors-IsQuiet :
      (f : FieldDef) (offset : ℕ) → IsQuiet (add_accessors env class f offset)
  unfolding add_accessors
  add_accessors-IsQuiet f offset =
      let get : IsQuiet (add_getter env class f offset) = add_accessor-IsQuiet _ _ _ _ in
      let set : IsQuiet (add_setter env class f offset) = add_accessor-IsQuiet _ _ _ _ in
      if-IsQuiet _ _ (f.attribute == read_write) (>>=-IsQuiet _ _ set (λ u. get))
        (if-IsQuiet _ _ (f.attribute == read_only) get (fail-IsQuiet _ _))

  pub register_ivar-IsQuiet : (f : FieldDef) → IsQuiet (register_ivar env class f)
  unfolding register_ivar
  register_ivar-IsQuiet f = >>=-IsQuiet _ _ (ensure-IsQuiet _ _) (λ u.
      >>=-IsQuiet _ _ (text_or-IsQuiet _ _) (λ enc. >>=-IsQuiet _ _ (ask-IsQuiet env _ refl) (λ a.
        >>=-IsQuiet _ _ (ensure-IsQuiet _ _) (λ u. >>=-IsQuiet _ _ (ask-IsQuiet env _ refl) (λ ivar.
          >>=-IsQuiet _ _ (ask-IsQuiet env _ refl) (λ offset. add_accessors-IsQuiet f offset))))))

  pub register_ivars-IsQuiet : (fs : List FieldDef) → IsQuiet (register_ivars env class fs)
  unfolding register_ivars
  register_ivars-IsQuiet [] = pure-IsQuiet tt
  register_ivars-IsQuiet (f ∷ fs) =
      >>=-IsQuiet _ _ (register_ivar-IsQuiet f) (λ u. register_ivars-IsQuiet fs)
