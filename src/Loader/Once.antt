-- ===== src/Loader/Once.antt =====
-- Dlopen on Linux over several calls.
use pureffi.Common.{
  ℕ, ◌^◌, ◌%◌, ◌==◌, ◌≡◌, refl, ap, ◌⊎◌, inl, inr, true, List, [], ◌++◌, Option, none, some,
  if◌then◌else◌, codes, is_empty, Bool-cases, arith,
}
use pureffi.Go.Platform.{Platform, linux}
use pureffi.Go.Types.{GoType}
use pureffi.Go.Outcome.{Outcome, ok}
use pureffi.Register.{Implementation, Prepare, register_func}
use pureffi.Loader.{LoadError, dlerror, GetSymbol, dlsym, rtld_default_linux}
use pureffi.Loader.Open.{
  Opener, fresh, dlopen_type, dlerror_type, Init, set_functions, init_dlopen, do_once, LibC,
  open_on_thread, Opened, call_functions, after_once, dlopen,
}

after_once-opener :
    (c : LibC) (path : List ℕ) (mode : ℕ) (pending : List ℕ) (i : Init)
    → (after_once c path mode pending i).opener ≡ i.0
after_once-opener c path mode pending (o, some e) = refl
after_once-opener c path mode pending (o, none) = go o.dlopen_err
  where
    functions :
        (f g : Option Implementation) → (call_functions c path mode pending o f g).opener ≡ o
    functions (some f) (some g) = refl
    functions (some f) none = refl
    functions none g = refl

    go :
        (e : Option LoadError)
        → (elim e as (λ x. Opened) [
          | some err ↦ record { result = ok (inl err); opener = o; pending = pending }
          | none ↦ call_functions c path mode pending o o.dlopen_fn o.dlerror_fn
        ]).opener
          ≡ o
    go (some e) = refl
    go none = functions o.dlopen_fn o.dlerror_fn

LoadError-cases : (x : LoadError ⊎ ℕ) → ((e : LoadError) × (x ≡ inl e)) ⊎ ((a : ℕ) × (x ≡ inr a))
LoadError-cases (inl e) = inl (e, refl)
LoadError-cases (inr a) = inr (a, refl)

module _ (get_symbol : GetSymbol) (register : GoType → ℕ → Outcome (Option Implementation)) where
  set_functions-done : (a b : ℕ) (o : Opener) → (set_functions register a b o).0.done ≡ o.done
  unfolding set_functions
  set_functions-done a b o = ground arith

  init_dlopen-done : (o : Opener) → (init_dlopen get_symbol register o).0.done ≡ o.done
  unfolding init_dlopen
  init_dlopen-done o = go (dlsym linux get_symbol rtld_default_linux (codes "dlopen")) refl
    where
      go :
          (x : LoadError ⊎ ℕ)
          → dlsym linux get_symbol rtld_default_linux (codes "dlopen") ≡ x
          → (init_dlopen get_symbol register o).0.done ≡ o.done
      go (inl e) q = rw (q, init_dlopen) refl
      go (inr a) q =
          elim (LoadError-cases (dlsym linux get_symbol rtld_default_linux (codes "dlerror"))) [
            | inl (e, k) ↦ rw (q, k, init_dlopen) refl
            | inr (b, k) ↦ rw (q, k, init_dlopen) (set_functions-done a b o)
          ]

  pub do_once-done : (o : Opener) → (do_once get_symbol register o).0.done ≡ true
  unfolding do_once
  do_once-done o = elim (Bool-cases o.done) [
    | inl e ↦ rw (e, do_once) refl
    | inr e ↦ rw (e, do_once) (init_dlopen-done (record o { done = true }))
  ]

  pub do_once-again : (o : Opener) → o.done ≡ true → (do_once get_symbol register o).0 ≡ o
  unfolding do_once
  do_once-again o e = rw (e, do_once) refl

  pub dlopen-opener :
      (c : LibC) (o : Opener) (pending path : List ℕ) (mode : ℕ)
      → (dlopen get_symbol register c o pending path mode).opener
        ≡ (do_once get_symbol register o).0
  unfolding dlopen
  dlopen-opener c o pending path mode =
      after_once-opener c path mode pending (do_once get_symbol register o)

-- A call of dlerror returns the thread's pending error and clears it.
abbrev pub Clears : LibC → Implementation → Type 0
Clears c g = (pending : List ℕ) → c.call_dlerror g pending ≡ (pending, [])

-- What the C function dlopen says of a library, called with no pending error: the handle, or the error
-- that it leaves pending.
abbrev pub open_spec : LibC → Implementation → List ℕ → ℕ → LoadError ⊎ ℕ
open_spec c f path mode =
    let (handle, message) = c.call_dlopen f path (mode % 2 ^ 32) [] in
    if handle == 0
    then inl (dlerror (if is_empty message then codes "dlopen failed: " ++ path else message))
    else inr handle

open_on_thread_lem :
    (c : LibC) (f g : Implementation) (path : List ℕ) (mode : ℕ) (pending : List ℕ)
    → Clears c g
    → (open_on_thread c f g path mode pending).0 ≡ open_spec c f path mode
unfolding open_on_thread
open_on_thread_lem c f g path mode pending clears =
    let (handle, message) = c.call_dlopen f path (mode % 2 ^ 32) [] in
    rw (clears pending, clears message) (ground arith)

-- The variables after a first call that found and registered both functions.
abbrev pub ready : Implementation → Implementation → Opener
ready f g = record { done = true; dlopen_fn = some f; dlerror_fn = some g; dlopen_err = none }

-- dlopen and dlerror are found and can be registered.
pub record Found (p : Platform) (prepare : Prepare) (symbol_name : ℕ → List ℕ)
    (get_symbol : GetSymbol) (f g : Implementation) : Type 0 where
  pub dlopen_addr : ℕ
  pub dlerror_addr : ℕ
  pub finds_dlopen : get_symbol 0 (codes "dlopen") ≡ inr dlopen_addr
  pub finds_dlerror : get_symbol 0 (codes "dlerror") ≡ inr dlerror_addr
  pub registers_dlopen : register_func p prepare symbol_name dlopen_type dlopen_addr ≡ ok (some f)
  pub registers_dlerror :
      register_func p prepare symbol_name dlerror_type dlerror_addr ≡ ok (some g)

dlsym-inr :
    (get_symbol : GetSymbol) (name : List ℕ) (a : ℕ)
    → get_symbol 0 name ≡ inr a
    → dlsym linux get_symbol 0 name ≡ inr a
unfolding dlsym
dlsym-inr get_symbol name a e = rw (e, dlsym) refl

module _ (p : Platform) (prepare : Prepare) (symbol_name : ℕ → List ℕ) (get_symbol : GetSymbol)
    (f g : Implementation) (found : Found p prepare symbol_name get_symbol f g) where
  do_once-fresh : do_once get_symbol (register_func p prepare symbol_name) fresh ≡ (ready f g, none)
  unfolding do_once init_dlopen set_functions
  do_once-fresh =
      rw
        (
          init_dlopen,
          dlsym-inr get_symbol (codes "dlopen") found.dlopen_addr found.finds_dlopen,
          dlsym-inr get_symbol (codes "dlerror") found.dlerror_addr found.finds_dlerror,
          set_functions,
          found.registers_dlopen,
          found.registers_dlerror,
        )
        refl

  do_once-ready :
      (o : Opener)
      → (o ≡ fresh) ⊎ (o ≡ ready f g)
      → do_once get_symbol (register_func p prepare symbol_name) o ≡ (ready f g, none)
  unfolding do_once
  do_once-ready o (inl e) = rw e do_once-fresh
  do_once-ready o (inr e) = rw e refl

  -- On Linux, where dlopen and dlerror are found and registered, every call of Dlopen, the first one and
  -- any later one, returns the handle that dlopen gives, or else a Dlerror with the text that this
  -- call of dlopen left, or with the path, if it left none: never the text of an earlier failure,
  -- which dlerror clears.
  pub dlopen_lem :
      (c : LibC) (o : Opener) (pending path : List ℕ) (mode : ℕ)
      → Clears c g
      → (o ≡ fresh) ⊎ (o ≡ ready f g)
      → let after = dlopen get_symbol (register_func p prepare symbol_name) c o pending path mode in
        (after.result ≡ ok (open_spec c f path mode)) × (after.opener ≡ ready f g)
  unfolding dlopen
  dlopen_lem c o pending path mode clears started =
      rw (do_once-ready o started)
        (ap (λ r. ok r) (open_on_thread_lem c f g path mode pending clears), refl)
