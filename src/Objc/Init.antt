-- ===== src/Objc/Init.antt =====
-- objc/objc_runtime_darwin.go: init, which finds and registers the functions of the Objective-C runtime.
pub mod Registered
mod Tests
use pureffi.Common.{
  ℕ, ◌^◌, ◌⊎◌, inl, inr, Bool, true, false, List, [], ◌∷◌, ◌++◌, Option, codes, if◌then◌else◌,
}
use pureffi.Go.Platform.{Platform, Arch, darwin}
use pureffi.Go.Outcome.{Outcome, ok, panic, symbol_error, ◌>>=◌}
use pureffi.Register.{Implementation}
use pureffi.Loader.{LoadError, GetSymbol, dlsym, minus_two}
use pureffi.Symbol.{error_text}
use pureffi.Objc.Send.{MessageFunctions, is_amd64}

-- The function variables that have been set, by their names, the last one first.
abbrev pub Variables : Type 0
Variables = List (List ℕ × Option Implementation)

-- RegisterFunc of a pointer to the variable of a name, and an address.
abbrev pub Register : Type 0
Register = List ℕ → ℕ → Outcome (Option Implementation)

-- if err != nil { panic(fmt.Errorf("objc: %w", err)) }
abbrev pub or_wrapped : LoadError ⊎ ℕ → Outcome ℕ
or_wrapped (inl e) = panic (symbol_error (codes "objc: " ++ error_text e))
or_wrapped (inr a) = ok a

-- A function variable, by its name, and the name of the symbol that it is registered for.
abbrev pub Binding : Type 0
Binding = List ℕ × List ℕ

-- RegisterLibFunc
unfoldable pub register_lib : GetSymbol → Register → ℕ → Binding → Variables → Outcome Variables
register_lib get_symbol register handle (variable, name) vars =
    elim (dlsym darwin get_symbol handle name) [
      | inl e ↦ panic (symbol_error (error_text e))
      | inr sym ↦ register variable sym >>= λ f. ok ((variable, f) ∷ vars)
    ]

unfoldable pub register_libs :
    GetSymbol → Register → ℕ → List Binding → Variables → Outcome Variables
register_libs get_symbol register handle [] vars = ok vars
register_libs get_symbol register handle (b ∷ bs) vars =
    register_lib get_symbol register handle b vars >>= λ vars'.
    register_libs get_symbol register handle bs vars'

-- The variables that are registered from the library, each with its symbol, in order, before `free` and
-- after it.
abbrev pub runtime_bindings : List Binding
runtime_bindings =
    (codes "object_getClass", codes "object_getClass")
    ∷ (codes "objc_getClass", codes "objc_getClass")
    ∷ (codes "objc_getProtocol", codes "objc_getProtocol")
    ∷ (codes "objc_allocateProtocol", codes "objc_allocateProtocol")
    ∷ (codes "objc_registerProtocol", codes "objc_registerProtocol")
    ∷ (codes "objc_allocateClassPair", codes "objc_allocateClassPair")
    ∷ (codes "objc_registerClassPair", codes "objc_registerClassPair")
    ∷ (codes "sel_registerName", codes "sel_registerName")
    ∷ (codes "class_getSuperclass", codes "class_getSuperclass")
    ∷ (codes "class_getInstanceVariable", codes "class_getInstanceVariable")
    ∷ (codes "class_addMethod", codes "class_addMethod")
    ∷ (codes "class_addIvar", codes "class_addIvar")
    ∷ (codes "class_addProtocol", codes "class_addProtocol")
    ∷ (codes "class_getInstanceSize", codes "class_getInstanceSize")
    ∷ (codes "ivar_getOffset", codes "ivar_getOffset")
    ∷ (codes "ivar_getName", codes "ivar_getName")
    ∷ (codes "protocol_getName", codes "protocol_getName")
    ∷ (codes "protocol_isEqual", codes "protocol_isEqual")
    ∷ (codes "protocol_addMethodDescription", codes "protocol_addMethodDescription")
    ∷ (codes "protocol_copyMethodDescriptionList", codes "protocol_copyMethodDescriptionList")
    ∷ (codes "protocol_copyProtocolList", codes "protocol_copyProtocolList")
    ∷ (codes "protocol_addProtocol", codes "protocol_addProtocol")
    ∷ (codes "protocol_addProperty", codes "protocol_addProperty")
    ∷ (codes "protocol_copyPropertyList2", codes "protocol_copyPropertyList2")
    ∷ (codes "property_getName", codes "property_getName")
    ∷ (codes "property_getAttributes", codes "property_getAttributes")
    ∷ (codes "object_getIvar", codes "object_getIvar")
    ∷ (codes "object_setIvar", codes "object_setIvar")
    ∷ []

abbrev pub block_bindings : List Binding
block_bindings =
    (codes "_Block_copy", codes "_Block_copy")
    ∷ (codes "_Block_release", codes "_Block_release")
    ∷ []

-- if runtime.GOARCH == "amd64"; the addresses stay 0 elsewhere.
unfoldable pub find_stret : Arch → GetSymbol → ℕ → Outcome (ℕ × ℕ)
find_stret arch get_symbol objc =
    if is_amd64 arch
    then (or_wrapped (dlsym darwin get_symbol objc (codes "objc_msgSend_stret")) >>= λ stret.
        or_wrapped (dlsym darwin get_symbol objc (codes "objc_msgSendSuper2_stret"))
        >>= λ super_stret. ok (stret, super_stret))
    else ok (0, 0)

-- init, up to newBlockCache; `opened` is what Dlopen of libobjc returns.
unfoldable pub init :
    Arch → GetSymbol → Register → LoadError ⊎ ℕ → Outcome (MessageFunctions × Variables)
init arch get_symbol register opened = do
  objc ← or_wrapped opened
  msg_send ← or_wrapped (dlsym darwin get_symbol objc (codes "objc_msgSend"))
  stret ← find_stret arch get_symbol objc
  f ← register (codes "objc_msgSend") msg_send
  msg_send_super2 ← or_wrapped (dlsym darwin get_symbol objc (codes "objc_msgSendSuper2"))
  g ← register (codes "objc_msgSendSuper2") msg_send_super2
  vars ←
      register_libs get_symbol register objc runtime_bindings
        ((codes "objc_msgSendSuper2", g) ∷ (codes "objc_msgSend", f) ∷ [])
  vars' ← register_libs get_symbol register minus_two ((codes "free", codes "free") ∷ []) vars
  vars'' ← register_libs get_symbol register objc block_bindings vars'
  ok (
    record {
      msg_send = msg_send;
      msg_send_stret = stret.0;
      msg_send_super2 = msg_send_super2;
      msg_send_super2_stret = stret.1;
    },
    vars'',
  )
