-- ===== src/Callback/Forward.antt =====
-- What a callback receives.
use pureffi.Common.{
  ◌≡◌, refl, ap, inl, inr, Bool, true, false, if◌then◌else◌, ◌&&◌, ◌||◌, List, [], ◌∷◌, ◌++◌, map,
  Bool-cases, arith,
}
use pureffi.Go.Types.{
  Decl, literal, defined, bool, number, string, unsafe_pointer, pointer, slice, array, struct, func,
  other, Types, nil, cons, to_list,
}
use text.Mathlib.Text.{◌==◌ as str_eq}
use pureffi.Go.Values.{Value, type_of}
use pureffi.Go.Outcome.{ok}
use pureffi.Callback.{Function, has_marker, rest, zero_marker, forward, callback_function}

-- The parameters that C gives: all but a first one of type purego.CDecl or purego.Variadic.
abbrev pub seen_by_c : Types → Types
seen_by_c nil = nil
seen_by_c (cons (struct (defined owner name) fs) ts) =
    if str_eq owner "github.com/ebitengine/purego"
      && (str_eq name "CDecl" || str_eq name "Variadic")
    then ts
    else cons (struct (defined owner name) fs) ts
seen_by_c (cons t ts) = cons t ts

-- A function g that stands in for f behind a C function pointer: it takes f's parameters, less the
-- marker, and hands arguments of these types on to f, in order, as arguments of f's own types.
abbrev pub StandsFor : Function → Types → Types → Function → Type 0
StandsFor f ins outs g =
    (d : Decl) × (g.type ≡ func d (seen_by_c ins) false outs)
    × ((args : List Value)
        → map type_of args ≡ to_list (seen_by_c ins)
        → (marker : List Value) × (g.run args ≡ f.run (marker ++ args))
          × (map type_of (marker ++ args) ≡ to_list ins))

seen_by_c_lem : (ins : Types) → seen_by_c ins ≡ (if has_marker ins then rest ins else ins)
unfolding has_marker
seen_by_c_lem nil = refl
seen_by_c_lem (cons (struct literal fs) ts) = refl
seen_by_c_lem (cons (struct (defined owner name) fs) ts) =
    distribute (str_eq owner "github.com/ebitengine/purego") (str_eq name "CDecl")
      (str_eq name "Variadic") ts (cons (struct (defined owner name) fs) ts)
  where
    distribute :
        (a b c : Bool) (t e : Types)
        → (if a && (b || c) then t else e) ≡ (if (a && b) || (a && c) then t else e)
    distribute true b c t e = refl
    distribute false b c t e = refl
seen_by_c_lem (cons (bool d) ts) = refl
seen_by_c_lem (cons (number d k) ts) = refl
seen_by_c_lem (cons (string d) ts) = refl
seen_by_c_lem (cons (unsafe_pointer d) ts) = refl
seen_by_c_lem (cons (pointer d t) ts) = refl
seen_by_c_lem (cons (slice d t) ts) = refl
seen_by_c_lem (cons (array d n t) ts) = refl
seen_by_c_lem (cons (func d is v os) ts) = refl
seen_by_c_lem (cons (other d k) ts) = refl

seen-marked : (ins : Types) → has_marker ins ≡ true → seen_by_c ins ≡ rest ins
seen-marked ins m = let e = seen_by_c_lem ins in rw (rw m at e) refl

seen-plain : (ins : Types) → has_marker ins ≡ false → seen_by_c ins ≡ ins
seen-plain ins m = let e = seen_by_c_lem ins in rw m at e

marked-types :
    (ins : Types) (args : List Value)
    → has_marker ins ≡ true
    → map type_of args ≡ to_list (rest ins)
    → map type_of (zero_marker ins ++ args) ≡ to_list ins
unfolding has_marker
marked-types nil args h e = absurd (ground arith)
marked-types (cons (struct d fs) ts) args h e = ap (λ l. struct d fs ∷ l) e
marked-types (cons _ ts) args h e = absurd (ground arith)

StandsFor-marked :
    (ins outs : Types) (d : Decl) (run : List Value → List Value)
    → has_marker ins ≡ true
    → StandsFor
        (record { type = func d ins false outs; run = run })
        ins
        outs
        (record { type = func literal (rest ins) false outs; run = forward ins run })
StandsFor-marked ins outs d run m =
    rw (seen-marked ins m)
      (literal, refl, λ args e. (zero_marker ins, refl, marked-types ins args m e))

StandsFor-plain :
    (ins outs : Types) (d : Decl) (run : List Value → List Value)
    → has_marker ins ≡ false
    → StandsFor
        (record { type = func d ins false outs; run = run })
        ins
        outs
        (record { type = func d ins false outs; run = run })
StandsFor-plain ins outs d run n = rw (seen-plain ins n) (d, refl, λ args e. ([], refl, e))

-- For a function type that is not variadic, NewCallback gives goffi a function that stands for the Go
-- function: one of its own type, or, where its first parameter is purego.CDecl or purego.Variadic, one
-- without that parameter that calls it with a marker first.
pub callback_function-StandsFor :
    (d : Decl) (ins outs : Types) (run : List Value → List Value)
    → (g : Function) × (callback_function (record { type = func d ins false outs; run = run })
        ≡ ok g)
      × StandsFor (record { type = func d ins false outs; run = run }) ins outs g
unfolding callback_function
callback_function-StandsFor d ins outs run = elim (Bool-cases (has_marker ins)) [
  | inl m ↦ (
    record { type = func literal (rest ins) false outs; run = forward ins run },
    rw m refl,
    StandsFor-marked ins outs d run m,
  )
  | inr n ↦ (
    record { type = func d ins false outs; run = run },
    rw n refl,
    StandsFor-plain ins outs d run n,
  )
]
