-- ===== src/Register/Markers.antt =====
-- RegisterFunc's markers, and its guess from the name of the C symbol, said by cases.
use text.Mathlib.Text.{◌==◌ as str_eq}
use pureffi.Common.{
  ℕ, ◌≡◌, refl, inl, inr, Bool, true, false, ◌&&◌, ◌||◌, not, List, [], ◌∷◌, codes, has_prefix,
  is_empty, if◌then◌else◌, Bool-cases,
}
use pureffi.Go.Platform.{Platform, is_darwin}
use pureffi.Go.Types.{
  literal, defined, GoType, bool, number, string, unsafe_pointer, pointer, slice, array, struct,
  func, other, Signature,
}
use pureffi.Goffi.{TypeDescriptor, Convention, default_call, unix_calling_convention}
use pureffi.Register.{Marker, marker, guess_c_variadic, plan}

-- Which marker the first parameter is, if it is one.
pub data FirstParam : Type 0 where
  cdecl variadic unmarked : FirstParam

abbrev pub first_param : List GoType → FirstParam
first_param (struct (defined owner name) fs ∷ ts) =
    if str_eq owner "github.com/ebitengine/purego" && str_eq name "CDecl"
    then cdecl
    else if str_eq owner "github.com/ebitengine/purego" && str_eq name "Variadic"
    then variadic
    else unmarked
first_param _ = unmarked

abbrev pub convention_for : FirstParam → Convention
convention_for cdecl = unix_calling_convention
convention_for _ = default_call

-- Whether a function with a symbol's name is called as C-variadic: with the marker; and without it if it
-- is variadic in Go, unless the name starts with objc_msgSend, or is empty on darwin.
abbrev pub is_called_variadic : Platform → List ℕ → Bool → FirstParam → Bool
is_called_variadic p name is_variadic variadic = true
is_called_variadic p name false _ = false
is_called_variadic p name true _ =
    not (has_prefix (codes "objc_msgSend") name || (is_empty name && is_darwin p.goos))

guess_lem :
    (p : Platform) (name : List ℕ)
    → guess_c_variadic p name
      ≡ not (has_prefix (codes "objc_msgSend") name || (is_empty name && is_darwin p.goos))
unfolding guess_c_variadic
guess_lem p name = elim (Bool-cases (has_prefix (codes "objc_msgSend") name)) [
  | inl e ↦ rw e refl
  | inr e ↦ rw e (tests (is_empty name && is_darwin p.goos))
]
  where
    tests : (b : Bool) → (if b then false else true) ≡ not (false || b)
    tests true = refl
    tests false = refl

-- The variables that the marker sets.
abbrev marker_for : FirstParam → Marker
marker_for cdecl = record {
  convention = unix_calling_convention;
  is_c_variadic = false;
  start_in = 1;
}
marker_for variadic = record { convention = default_call; is_c_variadic = true; start_in = 1 }
marker_for unmarked = record { convention = default_call; is_c_variadic = false; start_in = 0 }

marker_lem : (ts : List GoType) → marker ts ≡ marker_for (first_param ts)
unfolding marker
marker_lem [] = refl
marker_lem (struct literal fs ∷ ts) = refl
marker_lem (struct (defined owner name) fs ∷ ts) =
    push (str_eq owner "github.com/ebitengine/purego" && str_eq name "CDecl")
      (str_eq owner "github.com/ebitengine/purego" && str_eq name "Variadic")
  where
    push :
        (a b : Bool)
        → (if a then marker_for cdecl else if b then marker_for variadic else marker_for unmarked)
          ≡ marker_for (if a then cdecl else if b then variadic else unmarked)
    push true b = refl
    push false true = refl
    push false false = refl
marker_lem (bool d ∷ ts) = refl
marker_lem (number d k ∷ ts) = refl
marker_lem (string d ∷ ts) = refl
marker_lem (unsafe_pointer d ∷ ts) = refl
marker_lem (pointer d t ∷ ts) = refl
marker_lem (slice d t ∷ ts) = refl
marker_lem (array d n t ∷ ts) = refl
marker_lem (func d ins v outs ∷ ts) = refl
marker_lem (other d k ∷ ts) = refl

choice_lem :
    (p : Platform) (name : List ℕ) (v : Bool) (k : FirstParam)
    → (if v && not (marker_for k).is_c_variadic
        then guess_c_variadic p name
        else (marker_for k).is_c_variadic)
      ≡ is_called_variadic p name v k
choice_lem p name true variadic = refl
choice_lem p name false variadic = refl
choice_lem p name true cdecl = guess_lem p name
choice_lem p name false cdecl = refl
choice_lem p name true unmarked = guess_lem p name
choice_lem p name false unmarked = refl

module _ (p : Platform) (symbol_name : ℕ → List ℕ) (cfn : ℕ) (sig : Signature) (has_error : Bool)
    (types : List TypeDescriptor) (ret : TypeDescriptor) where
  pub plan-is_c_variadic :
      (plan p symbol_name cfn sig has_error types ret).is_c_variadic
      ≡ is_called_variadic p (symbol_name cfn) sig.is_variadic (first_param sig.ins)
  unfolding plan
  plan-is_c_variadic =
      rw (marker_lem sig.ins) (choice_lem p (symbol_name cfn) sig.is_variadic (first_param sig.ins))

  pub plan-convention :
      (plan p symbol_name cfn sig has_error types ret).convention
      ≡ convention_for (first_param sig.ins)
  unfolding plan
  plan-convention = rw (marker_lem sig.ins) (convention (first_param sig.ins))
    where
      convention : (k : FirstParam) → (marker_for k).convention ≡ convention_for k
      convention cdecl = refl
      convention variadic = refl
      convention unmarked = refl
