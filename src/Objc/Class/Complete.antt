-- ===== src/Objc/Class/Complete.antt =====
-- What RegisterClass has added to a class that it returns.
use pureffi.Common.{ℕ, ◌≡◌, ◌≢◌, sym, ap, List, ◌∷◌}
use mathlib.Core.Path.{subst}
use pureffi.Objc.Calls.{register_class_pair, allocate_class_pair, Log, Env, done, ◌>>=◌, pure, ask}
use pureffi.Objc.Class.{
  MethodDef, FieldDef, add_protocols, register_methods, register_ivars, register_class,
}
use pureffi.Objc.Class.Quiet.{register_methods-IsQuiet, register_ivars-IsQuiet}
use pureffi.Objc.Class.Done.{then_any, then_ask, then_ensure, ≢-zero, done-injective}
use pureffi.Objc.Class.Parts.{
  HasProtocols, HasMethods, HasFields, add_protocols-done, register_methods-done,
  register_ivars-done, HasProtocols-keeps, HasMethods-keeps,
}

-- A class has been registered at the end, with all that it was to have.
abbrev pub IsComplete : Env → List ℕ → List FieldDef → List MethodDef → ℕ → Log → Type 0
IsComplete env protocols ivars methods class l =
    (rest : Log) × (l ≡ register_class_pair class ∷ rest)
    × HasProtocols env class protocols rest
    × HasMethods env class methods rest
    × HasFields env class ivars rest

register-done :
    (env : Env) (class : ℕ) (log : Log) (c : ℕ) (l : Log)
    → (ask env (register_class_pair class) >>= λ a. pure class) log ≡ (done c, l)
    → (c ≡ class) × (l ≡ register_class_pair class ∷ log)
unfolding ◌>>=◌ ask pure
register-done env class log c l h = (sym (done-injective (ap (λ p. p.0) h)), sym (ap (λ p. p.1) h))

-- Where RegisterClass returns a class, it is the one that objc_allocateClassPair made; before the class
-- was registered, every protocol was added to it, every method with a callback of its function and the
-- encoding of its type, and every field with the size, alignment and encoding T of its type; a field
-- has a getter with encoding "T@:", under its name or, for a Bool, under "is" and its name with a capital,
-- and a ReadWrite field also a setter with encoding "v@:T" under "set…:", both for the field's offset.
pub register_class-IsComplete :
    (env : Env) (name : List ℕ) (super_class : ℕ) (protocols : List ℕ) (ivars : List FieldDef)
    (methods : List MethodDef) (log : Log) (class : ℕ) (l : Log)
    → register_class env name super_class protocols ivars methods log ≡ (done class, l)
    → (class ≡ env.answer log (allocate_class_pair super_class name))
      × (class ≢ 0)
      × IsComplete env protocols ivars methods class l
unfolding register_class
register_class-IsComplete env name super_class protocols ivars methods log class l h =
    let c = env.answer log (allocate_class_pair super_class name) in
    then_ask class l log _ env (allocate_class_pair super_class name) _ h (λ k1.
      then_ensure class l _ _ _ _ _ k1 (λ nz k2.
        then_any class l _ _ (add_protocols env c protocols) _ k2 (λ u m q k3.
          then_any class l m _ (register_methods env c 0 methods) _ k3 (λ u n r k4.
            then_any class l n _ (register_ivars env c ivars) _ k4 (λ u o t k5.
              let (e, f) = register-done env c o class l k5 in
              (
                e,
                rw e (≢-zero nz),
                subst (λ x. IsComplete env protocols ivars methods x l) (sym e)
                    (
                      o,
                      f,
                      HasProtocols-keeps env c protocols (register_ivars env c ivars) n o
                          (register_ivars-IsQuiet env c ivars) t
                          (HasProtocols-keeps env c protocols (register_methods env c 0 methods) m n
                            (register_methods-IsQuiet env c 0 methods) r
                            (add_protocols-done env c protocols _ m q)),
                      HasMethods-keeps env c methods (register_ivars env c ivars) n o
                          (register_ivars-IsQuiet env c ivars) t
                          (register_methods-done env c 0 methods m n r),
                      register_ivars-done env c ivars n o t,
                    ),
              ))))))
