-- ===== src/Objc/Init/Tests.antt =====
-- init on a system that has every symbol, and on one without the functions for results in memory.
use pureffi.Common.{
  ℕ, ◌≡◌, ◌⊎◌, inl, inr, refl, List, [], ◌∷◌, ◌++◌, length, Option, none, codes, if◌then◌else◌,
}
use pureffi.Go.Platform.{amd64}
use pureffi.Go.Outcome.{Outcome, ok, panic, symbol_error}
use pureffi.Register.{Implementation}
use pureffi.Loader.{GetSymbol, LoadError, dlsym}
use pureffi.InternalStrings.{list_eq}
use pureffi.Objc.Send.{MessageFunctions}
use pureffi.Objc.Init.{
  Variables, Register, register_lib, register_libs, Binding, runtime_bindings, block_bindings,
  find_stret, init,
}
use pureffi.Objc.Init.Registered.{IsInitialised, init-IsInitialised}

-- Each symbol lies at the length of its name, under any handle.
abbrev all_symbols : GetSymbol
all_symbols handle name = inr (length name)

abbrev without_stret : GetSymbol
without_stret handle name =
    if list_eq name (codes "objc_msgSend_stret") then inl (codes "not found") else inr (length name)

abbrev leave_nil : Register
leave_nil name addr = ok none

abbrev initialised : Outcome (MessageFunctions × Variables)
initialised = init amd64 all_symbols leave_nil (inr 7)

abbrev entry : List ℕ → List ℕ × Option Implementation
entry name = (name, none)

abbrev functions : MessageFunctions
functions = record {
  msg_send = 12;
  msg_send_stret = 18;
  msg_send_super2 = 18;
  msg_send_super2_stret = 24;
}

abbrev entries : List Binding → Variables → Variables
entries [] vars = vars
entries (b ∷ bs) vars = entries bs (entry b.0 ∷ vars)

abbrev variables : Variables
variables =
    entries (runtime_bindings ++ (codes "free", codes "free") ∷ block_bindings)
      (entry (codes "objc_msgSendSuper2") ∷ entry (codes "objc_msgSend") ∷ [])

initialises : init amd64 all_symbols leave_nil (inr 7) ≡ ok (functions, variables)
unfolding init register_libs register_lib find_stret dlsym
initialises = refl

init-IsInitialised_example :
    (objc : ℕ) × (◌≡◌ {A = LoadError ⊎ ℕ} (inr 7) (inr objc))
    × IsInitialised amd64 all_symbols leave_nil objc functions variables
init-IsInitialised_example =
    init-IsInitialised amd64 all_symbols leave_nil (inr 7) functions variables initialises

wants_stret :
    init amd64 without_stret leave_nil (inr 7) ≡ panic (symbol_error (codes "objc: not found"))
unfolding init register_libs register_lib find_stret dlsym
wants_stret = refl
