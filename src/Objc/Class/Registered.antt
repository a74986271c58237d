-- ===== src/Objc/Class/Registered.antt =====
-- When RegisterClass registers the class that it has made.
use pureffi.Common.{ℕ, ◌≡◌, refl, ◌∙◌, List, ◌∷◌}
use pureffi.Objc.Calls.{
  register_class_pair, Log, Env, End, done, failed, panicked, Run, go_on, ◌>>=◌, pure, ask,
}
use pureffi.Objc.Class.{MethodDef, FieldDef, register_class}
use pureffi.Objc.Class.Quiet.{
  registrations, IsQuiet, IsQuiet-registrations, ask-IsQuiet, ensure-IsQuiet, add_protocols-IsQuiet,
  register_methods-IsQuiet, register_ivars-IsQuiet,
}

-- What RegisterClass leaves: it has registered the class that it returns, once and last; when it ends
-- with an error or a panic, it has registered nothing.
abbrev pub AfterClass : Log → End ℕ × Log → Type 0
AfterClass log (done class, l) =
    (rest : Log) × (l ≡ register_class_pair class ∷ rest) × (registrations rest ≡ registrations log)
AfterClass log (failed e, l) = registrations l ≡ registrations log
AfterClass log (panicked p, l) = registrations l ≡ registrations log

go_on-AfterClass {ℓ} :
    {A : Type ℓ} (k : A → Run ℕ) (e : End A × Log) (log : Log)
    → registrations e.1 ≡ registrations log
    → ((a : A) (l : Log) → registrations l ≡ registrations log → AfterClass log (k a l))
    → AfterClass log (go_on k e)
go_on-AfterClass k (done a, l) log h q = q a l h
go_on-AfterClass k (failed e, l) log h q = h
go_on-AfterClass k (panicked p, l) log h q = h

>>=-AfterClass {ℓ} :
    {A : Type ℓ} (r : Run A) (k : A → Run ℕ) (log start : Log)
    → IsQuiet r
    → registrations start ≡ registrations log
    → ((a : A) (l : Log) → registrations l ≡ registrations log → AfterClass log (k a l))
    → AfterClass log ((r >>= k) start)
unfolding ◌>>=◌
>>=-AfterClass r k log start h s q =
    go_on-AfterClass k (r start) log (IsQuiet-registrations r h start ∙ s) q

register-AfterClass :
    (env : Env) (class : ℕ) (log l : Log)
    → registrations l ≡ registrations log
    → AfterClass log ((ask env (register_class_pair class) >>= λ a. pure class) l)
unfolding ◌>>=◌ ask pure
register-AfterClass env class log l h = (l, refl, h)

-- After any call of RegisterClass, whatever the runtime answers and NewCallback does: the class that it
-- returns has been registered, once, as the last call; and where it returns an error or panics, no class
-- has been registered.
pub register_class-AfterClass :
    (env : Env) (name : List ℕ) (super_class : ℕ) (protocols : List ℕ) (ivars : List FieldDef)
    (methods : List MethodDef) (log : Log)
    → AfterClass log (register_class env name super_class protocols ivars methods log)
unfolding register_class
register_class-AfterClass env name super_class protocols ivars methods log =
    >>=-AfterClass _ _ log log (ask-IsQuiet env _ refl) refl (λ class l h.
      >>=-AfterClass _ _ log l (ensure-IsQuiet _ _) h (λ u l h.
        >>=-AfterClass _ _ log l (add_protocols-IsQuiet env class protocols) h (λ u l h.
          >>=-AfterClass _ _ log l (register_methods-IsQuiet env class 0 methods) h (λ u l h.
            >>=-AfterClass _ _ log l (register_ivars-IsQuiet env class ivars) h
              (λ u l h. register-AfterClass env class log l h)))))
