-- ===== src/Objc/Init/Registered.antt =====
-- What init has set when it returns.
use pureffi.Common.{
  ℕ, ◌≡◌, refl, ap, ◌⊎◌, inl, inr, true, List, [], ◌∷◌, ◌++◌, Option, codes, arith,
}
use mathlib.Core.Path.{subst}
use pureffi.Go.Platform.{Arch, darwin}
use pureffi.Go.Outcome.{Outcome, ok, ◌>>=◌, >>=-eq-ok, ok-injective}
use pureffi.Register.{Implementation}
use pureffi.Loader.{LoadError, GetSymbol, dlsym, minus_two}
use pureffi.Objc.Send.{MessageFunctions, is_amd64}
use pureffi.Objc.Init.{
  Variables, Register, Binding, or_wrapped, register_lib, register_libs, runtime_bindings,
  block_bindings, find_stret, init,
}

abbrev pub Has : Variables → List ℕ → Option Implementation → Type 0
Has [] name f = ⊥
Has ((n, g) ∷ vars) name f = ((n ≡ name) × (g ≡ f)) ⊎ Has vars name f

module _ (get_symbol : GetSymbol) (register : Register) where
  -- The variable holds what RegisterFunc made of the symbol.
  abbrev pub IsRegistered : ℕ → Binding → Variables → Type 0
  IsRegistered handle (variable, name) vars =
      (sym : ℕ) × (f : Option Implementation) × (dlsym darwin get_symbol handle name ≡ inr sym)
      × (register variable sym ≡ ok f)
      × Has vars variable f

  -- Each of the variables holds what RegisterFunc made of the symbol of its own name.
  abbrev pub AreNamed : ℕ → List (List ℕ) → Variables → Type 0
  AreNamed handle [] vars = Unit {0}
  AreNamed handle (name ∷ names) vars =
      IsRegistered handle (name, name) vars × AreNamed handle names vars

  abbrev pub AreRegistered : ℕ → List Binding → Variables → Type 0
  AreRegistered handle [] vars = Unit {0}
  AreRegistered handle (name ∷ names) vars =
      IsRegistered handle name vars × AreRegistered handle names vars

  -- What has been set stays set.
  abbrev Extends : Variables → Variables → Type 0
  Extends vars vars' =
      (name : List ℕ) (f : Option Implementation) → Has vars name f → Has vars' name f

  register_lib-done :
      (handle : ℕ) (name : Binding) (vars vars' : Variables)
      → register_lib get_symbol register handle name vars ≡ ok vars'
      → IsRegistered handle name vars' × Extends vars vars'
  unfolding register_lib
  register_lib-done handle name vars vars' h = found (dlsym darwin get_symbol handle name.1) refl
    where
      found :
          (r : LoadError ⊎ ℕ)
          → dlsym darwin get_symbol handle name.1 ≡ r
          → IsRegistered handle name vars' × Extends vars vars'
      found (inl e) q = let k = rw (register_lib, q) at h in absurd (ground arith)
      found (inr sym') q =
          let (f, a, b) = >>=-eq-ok (register name.0 sym') _ (rw (register_lib, q) at h) in
          subst (λ v. IsRegistered handle name v × Extends vars v) (ok-injective b)
            ((sym', f, q, a, inl (refl, refl)), λ n g x. inr x)

  Extends-registered :
      (handle : ℕ) (names : List Binding) (vars vars' : Variables)
      → Extends vars vars'
      → AreRegistered handle names vars
      → AreRegistered handle names vars'
  Extends-registered handle [] vars vars' e r = tt
  Extends-registered handle (n ∷ names) vars vars' e ((s, f, a, b, c), r) =
      ((s, f, a, b, e n.0 f c), Extends-registered handle names vars vars' e r)

  register_libs-done :
      (handle : ℕ) (names : List Binding) (vars vars' : Variables)
      → register_libs get_symbol register handle names vars ≡ ok vars'
      → AreRegistered handle names vars' × Extends vars vars'
  unfolding register_libs
  register_libs-done handle [] vars vars' h =
      (tt, λ n f x. subst (λ v. Has v n f) (ok-injective h) x)
  register_libs-done handle (name ∷ names) vars vars' h =
      let (mid, a, b) = >>=-eq-ok (register_lib get_symbol register handle name vars) _ h in
      let (r, e) = register_lib-done handle name vars mid a in
      let (rs, e') = register_libs-done handle names mid vars' b in
      let both = Extends-registered handle (name ∷ []) mid vars' e' (r, tt) in
      ((both.0, rs), λ n f x. e' n f (e n f x))

or_wrapped-inr : (r : LoadError ⊎ ℕ) (a : ℕ) → or_wrapped r ≡ ok a → r ≡ inr a
or_wrapped-inr (inl e) a h = absurd (ground arith)
or_wrapped-inr (inr b) a h = ap (λ x. inr x) (ok-injective h)

-- The rest of a chain that returned, after its first half.
then_ok {ℓ κ} :
    {A : Type ℓ} {B : Type κ} (Goal : Type 0) (first : Outcome A) (next : A → Outcome B) (b : B)
    → (first >>= next) ≡ ok b
    → ((a : A) → first ≡ ok a → next a ≡ ok b → Goal)
    → Goal
then_ok Goal first next b h goal = let (a, e, k) = >>=-eq-ok first next h in goal a e k

-- The addresses of the two functions for results in memory.
abbrev StretFound : Arch → GetSymbol → ℕ → ℕ × ℕ → Type 0
StretFound arch get_symbol objc r =
    is_amd64 arch ≡ true
    → (dlsym darwin get_symbol objc (codes "objc_msgSend_stret") ≡ inr r.0)
      × (dlsym darwin get_symbol objc (codes "objc_msgSendSuper2_stret") ≡ inr r.1)

find_stret-StretFound :
    (arch : Arch) (get_symbol : GetSymbol) (objc : ℕ) (r : ℕ × ℕ)
    → find_stret arch get_symbol objc ≡ ok r
    → StretFound arch get_symbol objc r
unfolding find_stret
find_stret-StretFound arch get_symbol objc r h y =
    then_ok _ _ _ r (rw (find_stret, y) at h) (λ a p k. then_ok _ _ _ r k (λ b q l.
      subst
        (λ x.
          (dlsym darwin get_symbol objc (codes "objc_msgSend_stret") ≡ inr x.0)
          × (dlsym darwin get_symbol objc (codes "objc_msgSendSuper2_stret") ≡ inr x.1))
        (ok-injective l) (or_wrapped-inr _ a p, or_wrapped-inr _ b q)))

-- The function variables of the package, less `free`.
abbrev pub function_variables : List (List ℕ)
function_variables =
    codes "objc_msgSend"
    ∷ codes "objc_msgSendSuper2"
    ∷ codes "object_getClass"
    ∷ codes "objc_getClass"
    ∷ codes "objc_getProtocol"
    ∷ codes "objc_allocateProtocol"
    ∷ codes "objc_registerProtocol"
    ∷ codes "objc_allocateClassPair"
    ∷ codes "objc_registerClassPair"
    ∷ codes "sel_registerName"
    ∷ codes "class_getSuperclass"
    ∷ codes "class_getInstanceVariable"
    ∷ codes "class_addMethod"
    ∷ codes "class_addIvar"
    ∷ codes "class_addProtocol"
    ∷ codes "class_getInstanceSize"
    ∷ codes "ivar_getOffset"
    ∷ codes "ivar_getName"
    ∷ codes "protocol_getName"
    ∷ codes "protocol_isEqual"
    ∷ codes "protocol_addMethodDescription"
    ∷ codes "protocol_copyMethodDescriptionList"
    ∷ codes "protocol_copyProtocolList"
    ∷ codes "protocol_addProtocol"
    ∷ codes "protocol_addProperty"
    ∷ codes "protocol_copyPropertyList2"
    ∷ codes "property_getName"
    ∷ codes "property_getAttributes"
    ∷ codes "object_getIvar"
    ∷ codes "object_setIvar"
    ∷ codes "_Block_copy"
    ∷ codes "_Block_release"
    ∷ []

-- What the variables hold after init.
abbrev pub IsInitialised : Arch → GetSymbol → Register → ℕ → MessageFunctions → Variables → Type 0
IsInitialised arch get_symbol register objc m vars =
    (dlsym darwin get_symbol objc (codes "objc_msgSend") ≡ inr m.msg_send)
    × (dlsym darwin get_symbol objc (codes "objc_msgSendSuper2") ≡ inr m.msg_send_super2)
    × StretFound arch get_symbol objc (m.msg_send_stret, m.msg_send_super2_stret)
    × (AreNamed get_symbol register objc function_variables vars
        × IsRegistered get_symbol register minus_two (codes "free", codes "free") vars)

AreRegistered-append :
    (get_symbol : GetSymbol) (register : Register) (handle : ℕ) (xs ys : List Binding)
    (vars : Variables)
    → AreRegistered get_symbol register handle xs vars
    → AreRegistered get_symbol register handle ys vars
    → AreRegistered get_symbol register handle (xs ++ ys) vars
AreRegistered-append get_symbol register handle [] ys vars h k = k
AreRegistered-append get_symbol register handle (x ∷ xs) ys vars (h, hs) k =
    (h, AreRegistered-append get_symbol register handle xs ys vars hs k)

-- The three loops one after the other, from variables that have been set.
loops-AreRegistered :
    (get_symbol : GetSymbol) (register : Register) (objc : ℕ) (first : List Binding)
    (v0 v1 v2 v3 : Variables)
    → AreRegistered get_symbol register objc first v0
    → register_libs get_symbol register objc runtime_bindings v0 ≡ ok v1
    → register_libs get_symbol register minus_two ((codes "free", codes "free") ∷ []) v1 ≡ ok v2
    → register_libs get_symbol register objc block_bindings v2 ≡ ok v3
    → AreRegistered get_symbol register objc (first ++ (runtime_bindings ++ block_bindings)) v3
      × IsRegistered get_symbol register minus_two (codes "free", codes "free") v3
loops-AreRegistered get_symbol register objc first v0 v1 v2 v3 r0 e1 e2 e3 =
    let (r1, x1) = register_libs-done get_symbol register objc runtime_bindings v0 v1 e1 in
    let (r2, x2) =
      register_libs-done get_symbol register minus_two ((codes "free", codes "free") ∷ []) v1 v2
        e2 in
    let (r3, x3) = register_libs-done get_symbol register objc block_bindings v2 v3 e3 in
    let x : Extends get_symbol register v1 v3 = λ n f h. x3 n f (x2 n f h) in
    (
      AreRegistered-append get_symbol register objc first (runtime_bindings ++ block_bindings) v3
          (Extends-registered get_symbol register objc first v0 v3 (λ n f h. x n f (x1 n f h)) r0)
          (AreRegistered-append get_symbol register objc runtime_bindings block_bindings v3
            (Extends-registered get_symbol register objc runtime_bindings v1 v3 x r1) r3),
      (Extends-registered get_symbol register minus_two ((codes "free", codes "free") ∷ []) v2 v3 x3
          r2).0,
    )

-- Where init returns, libobjc was opened; the addresses for messages are those of their symbols in it,
-- the two for results in memory on amd64; each of the 32 function variables that the package declares
-- beside `free` holds what RegisterFunc made of the symbol of the variable's name in libobjc, and `free`
-- of the one under RTLD_DEFAULT.
pub init-IsInitialised :
    (arch : Arch) (get_symbol : GetSymbol) (register : Register) (opened : LoadError ⊎ ℕ)
    (m : MessageFunctions) (vars : Variables)
    → init arch get_symbol register opened ≡ ok (m, vars)
    → (objc : ℕ) × (opened ≡ inr objc) × IsInitialised arch get_symbol register objc m vars
unfolding init
init-IsInitialised arch get_symbol register opened m vars h =
    let sym' = λ (objc : ℕ) (name : List ℕ). or_wrapped (dlsym darwin get_symbol objc name) in
    let libs = register_libs get_symbol register in
    then_ok _ (or_wrapped opened) _ (m, vars) h
      (λ objc e1 k1.
        then_ok _ (sym' objc (codes "objc_msgSend")) _ (m, vars) k1
          (λ send e2 k2.
            then_ok _ (find_stret arch get_symbol objc) _ (m, vars) k2
              (λ stret e3 k3.
                then_ok _ (register (codes "objc_msgSend") send) _ (m, vars) k3
                  (λ f e4 k4.
                    then_ok _ (sym' objc (codes "objc_msgSendSuper2")) _ (m, vars) k4
                      (λ super2 e5 k5.
                        then_ok _ (register (codes "objc_msgSendSuper2") super2) _ (m, vars) k5
                          (λ g e6 k6.
                            then_ok _
                              (libs objc runtime_bindings
                                ((codes "objc_msgSendSuper2", g) ∷ (codes "objc_msgSend", f) ∷ []))
                              _ (m, vars) k6
                              (λ v1 e7 k7.
                                then_ok _ (libs minus_two ((codes "free", codes "free") ∷ []) v1) _
                                  (m, vars) k7
                                  (λ v2 e8 k8.
                                    then_ok _ (libs objc block_bindings v2) _ (m, vars) k8
                                      (λ v3 e9 k9.
                                        let a = or_wrapped-inr _ send e2 in
                                        let b = or_wrapped-inr _ super2 e5 in
                                        (
                                          objc,
                                          or_wrapped-inr opened objc e1,
                                          subst
                                              (λ r.
                                                IsInitialised arch get_symbol register objc r.0 r.1)
                                              (ok-injective k9)
                                              (
                                                a,
                                                b,
                                                find_stret-StretFound arch get_symbol objc stret e3,
                                                loops-AreRegistered get_symbol register objc
                                                    ((codes "objc_msgSend", codes "objc_msgSend")
                                                      ∷ (
                                                        codes "objc_msgSendSuper2",
                                                        codes "objc_msgSendSuper2",
                                                      )
                                                      ∷ [])
                                                    _ v1 v2 v3
                                                    (
                                                      (send, f, a, e4, inr (inl (refl, refl))),
                                                      ((super2, g, b, e6, inl (refl, refl)), tt),
                                                    )
                                                    e7 e8 e9,
                                              ),
                                        ))))))))))
