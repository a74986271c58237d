-- ===== src/Loader/Settles.antt =====
-- dlfcn_linux.go, Dlopen: what the first call settles for the later ones.
use pureffi.Common.{ℕ, ◌≡◌, refl, ap, ◌∙◌, ◌⊎◌, inl, inr, true, List, Option, none, some, codes}
use pureffi.Go.Platform.{linux}
use pureffi.Go.Types.{GoType}
use pureffi.Go.Outcome.{Outcome, ok, panic, Panic, nil_dereference}
use pureffi.Register.{Implementation}
use pureffi.Loader.{LoadError, GetSymbol, dlsym, rtld_default_linux}
use pureffi.Loader.Open.{
  Opener, fresh, dlopen_type, dlerror_type, Init, set_functions, init_dlopen, do_once, LibC, Opened,
  call_functions, after_once, dlopen,
}
use pureffi.Loader.Once.{do_once-done, do_once-again, dlopen-opener}

-- A symbol as initDlopen looks it up.
abbrev pub look_up : GetSymbol → List ℕ → LoadError ⊎ ℕ
look_up get_symbol name = dlsym linux get_symbol rtld_default_linux name

-- How the first call of Dlopen and a later one end, by what the first one found and registered.
pub data Settles (get_symbol : GetSymbol) (register : GoType → ℕ → Outcome (Option Implementation))
    (first later : Opened) : Type 0 where
  missing :
      (e : LoadError)
      → (look_up get_symbol (codes "dlopen") ≡ inl e)
        ⊎ ((a : ℕ) × (look_up get_symbol (codes "dlopen") ≡ inr a)
            × (look_up get_symbol (codes "dlerror") ≡ inl e))
      → first.result ≡ ok (inl e)
      → later.result ≡ ok (inl e)
      → Settles get_symbol register first later
  panicked :
      (a b : ℕ) (e : Panic)
      → look_up get_symbol (codes "dlopen") ≡ inr a
      → look_up get_symbol (codes "dlerror") ≡ inr b
      → (register dlopen_type a ≡ panic e)
        ⊎ ((f : Option Implementation) × (register dlopen_type a ≡ ok f)
            × (register dlerror_type b ≡ panic e))
      → first.result ≡ panic e
      → later.result ≡ panic nil_dereference
      → Settles get_symbol register first later
  registered :
      (a b : ℕ) (f g : Option Implementation)
      → look_up get_symbol (codes "dlopen") ≡ inr a
      → look_up get_symbol (codes "dlerror") ≡ inr b
      → register dlopen_type a ≡ ok f
      → register dlerror_type b ≡ ok g
      → first.opener ≡ record { done = true; dlopen_fn = f; dlerror_fn = g; dlopen_err = none }
      → Settles get_symbol register first later

module _ (get_symbol get_symbol' : GetSymbol)
    (register register' : GoType → ℕ → Outcome (Option Implementation)) (c c' : LibC)
    (pending pending' path path' : List ℕ) (mode mode' : ℕ) where
  abbrev first_call : Opened
  first_call = dlopen get_symbol register c fresh pending path mode

  abbrev later_call : Opened
  later_call = dlopen get_symbol' register' c' first_call.opener pending' path' mode'

  first-result :
      (i : Init)
      → do_once get_symbol register fresh ≡ i
      → first_call.result ≡ (after_once c path mode pending i).result
  unfolding dlopen
  first-result i e = ap (λ o. (after_once c path mode pending o).result) e

  later-result :
      (i : Init)
      → do_once get_symbol register fresh ≡ i
      → i.0.done ≡ true
      → later_call.result ≡ (after_once c' path' mode' pending' (i.0, none)).result
  unfolding dlopen do_once
  later-result i e d =
      ap (λ o. (dlopen get_symbol' register' c' o pending' path' mode').result)
        (dlopen-opener get_symbol register c fresh pending path mode ∙ ap (λ o. o.0) e)
      ∙ rw (dlopen, do_once, d) refl

  registration :
      (a b : ℕ) (x y : Outcome (Option Implementation))
      → look_up get_symbol (codes "dlopen") ≡ inr a
      → look_up get_symbol (codes "dlerror") ≡ inr b
      → register dlopen_type a ≡ x
      → register dlerror_type b ≡ y
      → Settles get_symbol register first_call later_call
  unfolding do_once init_dlopen set_functions
  registration a b (panic e) y p q r s =
      let i : do_once get_symbol register fresh ≡ (record fresh { done = true }, some e) =
        rw (init_dlopen, p, q, set_functions, r) refl in
      panicked a b e p q (inl r) (first-result _ i) (later-result _ i refl)
  registration a b (ok f) (panic e) p q r s =
      let i : do_once get_symbol register fresh
          ≡ (record fresh { done = true; dlopen_fn = f }, some e) =
        rw (init_dlopen, p, q, set_functions, r, s) refl in
      panicked a b e p q (inr (f, r, s)) (first-result _ i)
        (later-result _ i refl ∙ half f (record fresh { done = true; dlopen_fn = f }))
    where
      half :
          (f : Option Implementation) (o : Opener)
          → (call_functions c' path' mode' pending' o f none).result ≡ panic nil_dereference
      half none o = refl
      half (some f) o = refl
  registration a b (ok f) (ok g) p q r s =
      let i : do_once get_symbol register fresh
          ≡ (record fresh { done = true; dlopen_fn = f; dlerror_fn = g }, none) =
        rw (init_dlopen, p, q, set_functions, r, s) refl in
      registered a b f g p q r s
        (dlopen-opener get_symbol register c fresh pending path mode ∙ ap (λ o. o.0) i)

  settling :
      (x y : LoadError ⊎ ℕ)
      → look_up get_symbol (codes "dlopen") ≡ x
      → look_up get_symbol (codes "dlerror") ≡ y
      → Settles get_symbol register first_call later_call
  unfolding do_once init_dlopen
  settling (inl e) y p q =
      let i : do_once get_symbol register fresh
          ≡ (record fresh { done = true; dlopen_err = some e }, none) =
        rw (init_dlopen, p) refl in
      missing e (inl p) (first-result _ i) (later-result _ i refl)
  settling (inr a) (inl e) p q =
      let i : do_once get_symbol register fresh
          ≡ (record fresh { done = true; dlopen_err = some e }, none) =
        rw (init_dlopen, p, q) refl in
      missing e (inr (a, p, q)) (first-result _ i) (later-result _ i refl)
  settling (inr a) (inr b) p q = registration a b _ _ p q refl refl

  -- The first call of Dlopen settles what every later call does, whatever the symbol table, RegisterFunc
  -- and the C library have become by then, and a later call leaves the variables alone. Where dlopen
  -- or dlerror is not found, the first call and every later one return the error of that look-up; where
  -- RegisterFunc panics, the first call panics so and every later one by calling a nil function; else the
  -- variables hold from the first call on what RegisterFunc made of the two symbols.
  pub dlopen-Settles :
      (later_call.opener ≡ first_call.opener) × Settles get_symbol register first_call later_call
  dlopen-Settles =
      let done : first_call.opener.done ≡ true =
        ap (λ x. x.done) (dlopen-opener get_symbol register c fresh pending path mode)
        ∙ do_once-done get_symbol register fresh in
      (
        dlopen-opener get_symbol' register' c' first_call.opener pending' path' mode'
            ∙ do_once-again get_symbol' register' first_call.opener done,
        settling _ _ refl refl,
      )
