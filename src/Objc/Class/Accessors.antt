-- ===== src/Objc/Class/Accessors.antt =====
-- The accessors of a field.
use pureffi.Common.{
  ℕ, ◌≡◌, refl, sym, ◌∙◌, ap, inl, inr, false, Bool-cases, List, [], ◌++◌, append-nil, ◌==◌, arith,
  codes,
}
use mathlib.Core.Path.{subst}
use pureffi.Go.Types.{GoType}
use pureffi.Objc.{
  encoded, encode_type, encode_func, encode_params, encode_method_params, encode_result,
  encode_number, and_then,
}
use pureffi.Objc.Calls.{
  Method, setter, getter, register_name, add_method, Log, Env, done, Run, fail,
}
use pureffi.Objc.Class.{
  FieldDef, read_only, read_write, new_imp, setter_type, getter_type, setter_name, getter_name,
  add_accessor, add_setter, add_getter, add_accessors,
}
use pureffi.Objc.Class.Quiet.{IsQuiet, new_imp-IsQuiet, add_accessor-IsQuiet}
use pureffi.Objc.Class.Done.{
  Happened, IsSelector, IsImp, IsCall, keeps, then_any, then_ask, then_text, new_imp-done,
  pure-done,
}

-- The class has a method of this name, type encoding and function.
abbrev pub HasAccessor : Env → ℕ → List ℕ → Method → GoType → List ℕ → Log → Type 0
HasAccessor env class name val typ enc log =
    (sel : ℕ) × (imp : ℕ) × Happened (IsSelector env name sel) log
    × Happened (IsImp env val typ imp) log
    × Happened (IsCall (add_method class sel imp enc)) log

module _ (env : Env) (class : ℕ) where
  add_accessor-done :
      (field name : List ℕ) (val : Method) (typ : GoType) (log l : Log)
      → add_accessor env class field name val typ log ≡ (done tt, l)
      → (enc : List ℕ) × (encode_func typ ≡ encoded enc) × HasAccessor env class name val typ enc l
  unfolding add_accessor
  add_accessor-done field name val typ log l h =
      then_text tt l log _ _ (encode_func typ) _ h (λ enc e k1.
        then_ask tt l log _ env (register_name name) _ k1 (λ k2.
          then_any tt l _ _ (new_imp env val typ) _ k2 (λ imp m q k3.
            then_ask tt l m _ env (add_method class _ imp enc) _ k3 (λ k4. (
              enc,
              e,
              rw (pure-done _ l k4) (
                env.answer log (register_name name),
                imp,
                inr (
                    keeps _ (new_imp env val typ) _ _ m (new_imp-IsQuiet env val typ) q
                      (inl (refl, refl))),
                inr (new_imp-done env val typ _ imp m q),
                inl refl,
              ),
            )))))

  -- A field has a getter, and a setter if it is ReadWrite, both for the field's offset.
  abbrev pub HasAccessors : FieldDef → List ℕ → ℕ → Log → Type 0
  HasAccessors f e offset log =
      HasAccessor env class (getter_name env f) (getter f.type offset) (getter_type f.type)
        (e ++ codes "@:") log
      × (f.attribute ≡ read_write
          → HasAccessor env class (setter_name env f.name) (setter f.type offset)
              (setter_type f.type) (codes "v@:" ++ e) log)

  encode_func-getter_type :
      (t : GoType)
      → encode_func (getter_type t)
        ≡ and_then (encode_type false t) (λ r. encoded (r ++ codes "@:"))
  unfolding encode_func encode_result encode_method_params encode_params encode_number encode_type
  encode_func-getter_type t = refl

  encode_func-setter_type :
      (t : GoType)
      → encode_func (setter_type t)
        ≡ and_then
            (and_then
              (and_then
                (and_then (encode_type false t) (λ s. encoded (s ++ [])))
                (λ s. encoded (codes ":" ++ s)))
              (λ s. encoded (codes "@" ++ s)))
            (λ s. encoded (codes "v" ++ s))
  unfolding encode_func encode_result encode_method_params encode_params encode_number encode_type
  encode_func-setter_type t = refl

  encoded-injective : {s u : List ℕ} → encoded s ≡ encoded u → s ≡ u
  encoded-injective e = cc

  getter-encoding :
      (t : GoType) (e enc : List ℕ)
      → encode_type false t ≡ encoded e
      → encode_func (getter_type t) ≡ encoded enc
      → enc ≡ e ++ codes "@:"
  getter-encoding t e enc h k = encoded-injective (sym k ∙ rw h at (encode_func-getter_type t))

  setter-encoding :
      (t : GoType) (e enc : List ℕ)
      → encode_type false t ≡ encoded e
      → encode_func (setter_type t) ≡ encoded enc
      → enc ≡ codes "v@:" ++ e
  setter-encoding t e enc h k =
      encoded-injective (sym k ∙ rw h at (encode_func-setter_type t))
      ∙ ap (λ s. codes "v@:" ++ s) (append-nil e)

  pub HasAccessor-keeps :
      (name : List ℕ) (val : Method) (typ : GoType) (enc : List ℕ) (r : Run (Unit {0}))
      (log l : Log)
      → IsQuiet r
      → r log ≡ (done tt, l)
      → HasAccessor env class name val typ enc log
      → HasAccessor env class name val typ enc l
  HasAccessor-keeps name val typ enc r log l q h (sel, imp, a, b, c) =
      (sel, imp, keeps _ r log _ l q h a, keeps _ r log _ l q h b, keeps _ r log _ l q h c)

  add_getter-done :
      (f : FieldDef) (e : List ℕ) (offset : ℕ) (log l : Log)
      → encode_type false f.type ≡ encoded e
      → add_getter env class f offset log ≡ (done tt, l)
      → HasAccessor env class
          (getter_name env f)
          (getter f.type offset)
          (getter_type f.type)
          (e ++ codes "@:")
          l
  add_getter-done f e offset log l h k =
      let (enc, q, a) =
        add_accessor-done f.name (getter_name env f) (getter f.type offset) (getter_type f.type) log
          l k in
      subst
        (λ x.
          HasAccessor env class (getter_name env f) (getter f.type offset) (getter_type f.type) x l)
        (getter-encoding f.type e enc h q) a

  add_setter-done :
      (f : FieldDef) (e : List ℕ) (offset : ℕ) (log l : Log)
      → encode_type false f.type ≡ encoded e
      → add_setter env class f offset log ≡ (done tt, l)
      → HasAccessor env class
          (setter_name env f.name)
          (setter f.type offset)
          (setter_type f.type)
          (codes "v@:" ++ e)
          l
  add_setter-done f e offset log l h k =
      let (enc, q, a) =
        add_accessor-done f.name (setter_name env f.name) (setter f.type offset)
          (setter_type f.type) log l k in
      subst
        (λ x.
          HasAccessor env class (setter_name env f.name) (setter f.type offset) (setter_type f.type)
            x l)
        (setter-encoding f.type e enc h q) a

  pub add_accessors-done :
      (f : FieldDef) (e : List ℕ) (offset : ℕ) (log l : Log)
      → encode_type false f.type ≡ encoded e
      → add_accessors env class f offset log ≡ (done tt, l)
      → HasAccessors f e offset l
  unfolding add_accessors fail
  add_accessors-done f e offset log l h k = elim (Bool-cases (f.attribute == read_write)) [
    | inl y ↦
        then_any tt l log (HasAccessors f e offset l) (add_setter env class f offset) _
          (rw (add_accessors, y) at k)
          (λ u n q k2. (
            add_getter-done f e offset n l h k2,
            λ _.
                HasAccessor-keeps _ _ _ _ (add_getter env class f offset) n l
                  (add_accessor-IsQuiet env class _ _ _ _) k2
                  (add_setter-done f e offset log n h q),
          ))
    | inr n ↦ elim (Bool-cases (f.attribute == read_only)) [
      | inl y ↦ (
        add_getter-done f e offset log l h (rw (add_accessors, n, y) at k),
        λ w. absurd (ground arith),
      )
      | inr z ↦ let q = rw (add_accessors, n, z, fail) at k in absurd (ground arith)
    ]
  ]
