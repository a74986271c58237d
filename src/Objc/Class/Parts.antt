-- ===== src/Objc/Class/Parts.antt =====
-- The protocols, methods and fields of a class.
use pureffi.Common.{ℕ, suc, ◌≡◌, refl, inl, inr, false, List, [], ◌∷◌, ◌%◌, ◌^◌}
use pureffi.Go.Layout.{size, align}
use pureffi.Objc.{encoded, encode_type, encode_func}
use pureffi.Objc.Calls.{
  given, add_protocol, add_method, add_ivar, get_instance_variable, Log, Env, done, Run, recovered,
}
use pureffi.Objc.Class.{
  MethodDef, FieldDef, new_imp, add_protocols, register_method, register_methods, add_accessors,
  register_ivar, register_ivars, log2,
}
use pureffi.Objc.Class.Quiet.{
  IsQuiet, add_protocols-IsQuiet, register_methods-IsQuiet, add_accessors-IsQuiet,
  register_ivars-IsQuiet,
}
use pureffi.Objc.Class.Done.{
  Happened, IsAccepted, IsImp, keeps, then_any, then_ask, then_text, then_ensure, ensure-done,
  new_imp-done, recovered-done, ≢-zero,
}
use pureffi.Objc.Class.Accessors.{HasAccessors, HasAccessor-keeps, add_accessors-done}

module _ (env : Env) (class : ℕ) where
  -- Every protocol has been added.
  abbrev pub HasProtocols : List ℕ → Log → Type 0
  HasProtocols [] log = Unit {0}
  HasProtocols (p ∷ ps) log =
      Happened (IsAccepted env (add_protocol class p)) log × HasProtocols ps log

  -- Every method has been added, with a callback of its function and the encoding of its type.
  abbrev pub HasMethod : MethodDef → Log → Type 0
  HasMethod m log =
      (enc : List ℕ) × (imp : ℕ) × (encode_func m.type ≡ encoded enc)
      × Happened (IsImp env (given m.fn) m.type imp) log
      × Happened (IsAccepted env (add_method class m.cmd imp enc)) log

  abbrev pub HasMethods : List MethodDef → Log → Type 0
  HasMethods [] log = Unit {0}
  HasMethods (m ∷ ms) log = HasMethod m log × HasMethods ms log

  -- A field has been added with the size, alignment and encoding of its type, and with its accessors.
  abbrev pub HasField : FieldDef → Log → Type 0
  HasField f log =
      (enc : List ℕ) × (offset : ℕ) × (encode_type false f.type ≡ encoded enc)
      × Happened
          (IsAccepted env
            (add_ivar class f.name (size f.type) (log2 (align f.type) (align f.type) % 2 ^ 8) enc))
          log
      × HasAccessors env class f enc offset log

  abbrev pub HasFields : List FieldDef → Log → Type 0
  HasFields [] log = Unit {0}
  HasFields (f ∷ fs) log = HasField f log × HasFields fs log

  pub add_protocols-done :
      (ps : List ℕ) (log l : Log)
      → add_protocols env class ps log ≡ (done tt, l)
      → HasProtocols ps l
  unfolding add_protocols
  add_protocols-done [] log l h = tt
  add_protocols-done (p ∷ ps) log l h = then_ask tt l log _ env (add_protocol class p) _ h (λ k1.
      then_ensure tt l _ _ _ _ _ k1 (λ nz k2. (
        keeps _ (add_protocols env class ps) _ _ l (add_protocols-IsQuiet env class ps) k2
            (inl (refl, ≢-zero nz)),
        add_protocols-done ps _ l k2,
      )))

  register_method-done :
      (idx : ℕ) (m : MethodDef) (log l : Log)
      → register_method env class idx m log ≡ (done tt, l)
      → HasMethod m l
  unfolding register_method
  register_method-done idx m log l h =
      then_any tt l log _ (recovered _ (new_imp env (given m.fn) m.type)) _ h (λ imp n q k1.
        then_text tt l n _ _ (encode_func m.type) _ k1 (λ enc e k2.
          then_ask tt l n _ env (add_method class m.cmd imp enc) _ k2 (λ k3.
            let (nz, r) = ensure-done _ _ _ l k3 in
            rw r (
              enc,
              imp,
              e,
              inr (new_imp-done env (given m.fn) m.type log imp n (recovered-done _ _ log imp n q)),
              inl (refl, ≢-zero nz),
            ))))

  HasMethod-keeps :
      (m : MethodDef) (r : Run (Unit {0})) (log l : Log)
      → IsQuiet r
      → r log ≡ (done tt, l)
      → HasMethod m log
      → HasMethod m l
  HasMethod-keeps m r log l q h (enc, imp, e, i, a) =
      (enc, imp, e, keeps _ r log _ l q h i, keeps _ r log _ l q h a)

  pub register_methods-done :
      (idx : ℕ) (ms : List MethodDef) (log l : Log)
      → register_methods env class idx ms log ≡ (done tt, l)
      → HasMethods ms l
  unfolding register_methods
  register_methods-done idx [] log l h = tt
  register_methods-done idx (m ∷ ms) log l h =
      then_any tt l log _ (register_method env class idx m) _ h (λ u n q k. (
        HasMethod-keeps m (register_methods env class (suc idx) ms) n l
            (register_methods-IsQuiet env class (suc idx) ms) k
            (register_method-done idx m log n q),
        register_methods-done (suc idx) ms n l k,
      ))

  register_ivar-done :
      (f : FieldDef) (log l : Log) → register_ivar env class f log ≡ (done tt, l) → HasField f l
  unfolding register_ivar
  register_ivar-done f log l h = then_ensure tt l log _ _ _ _ h (λ v k1.
      then_text tt l log _ _ (encode_type false f.type) _ k1 (λ enc e k2.
        then_ask tt l log _ env _ _ k2 (λ k3. then_ensure tt l _ _ _ _ _ k3 (λ nz k4.
          then_ask tt l _ _ env (get_instance_variable class f.name) _ k4 (λ k5.
            then_ask tt l _ _ env _ _ k5 (λ k6. (
              enc,
              _,
              e,
              keeps _ (add_accessors env class f _) _ _ l (add_accessors-IsQuiet env class f _) k6
                  (inr (inr (inl (refl, ≢-zero nz)))),
              add_accessors-done env class f enc _ _ l e k6,
            )))))))

  HasField-keeps :
      (f : FieldDef) (r : Run (Unit {0})) (log l : Log)
      → IsQuiet r
      → r log ≡ (done tt, l)
      → HasField f log
      → HasField f l
  HasField-keeps f r log l q h (enc, offset, e, i, (g, s)) = (
    enc,
    offset,
    e,
    keeps _ r log _ l q h i,
    (
      HasAccessor-keeps env class _ _ _ _ r log l q h g,
      λ w. HasAccessor-keeps env class _ _ _ _ r log l q h (s w),
    ),
  )

  pub register_ivars-done :
      (fs : List FieldDef) (log l : Log)
      → register_ivars env class fs log ≡ (done tt, l)
      → HasFields fs l
  unfolding register_ivars
  register_ivars-done [] log l h = tt
  register_ivars-done (f ∷ fs) log l h =
      then_any tt l log _ (register_ivar env class f) _ h (λ u n q k. (
        HasField-keeps f (register_ivars env class fs) n l (register_ivars-IsQuiet env class fs) k
            (register_ivar-done f log n q),
        register_ivars-done fs n l k,
      ))

  -- The three lists are kept by later statements.
  pub HasProtocols-keeps :
      (ps : List ℕ) (r : Run (Unit {0})) (log l : Log)
      → IsQuiet r
      → r log ≡ (done tt, l)
      → HasProtocols ps log
      → HasProtocols ps l
  HasProtocols-keeps [] r log l q h x = tt
  HasProtocols-keeps (p ∷ ps) r log l q h (x, y) =
      (keeps _ r log _ l q h x, HasProtocols-keeps ps r log l q h y)

  pub HasMethods-keeps :
      (ms : List MethodDef) (r : Run (Unit {0})) (log l : Log)
      → IsQuiet r
      → r log ≡ (done tt, l)
      → HasMethods ms log
      → HasMethods ms l
  HasMethods-keeps [] r log l q h x = tt
  HasMethods-keeps (m ∷ ms) r log l q h (x, y) =
      (HasMethod-keeps m r log l q h x, HasMethods-keeps ms r log l q h y)
