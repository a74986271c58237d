-- ===== src/FastPath/Emit/Named.antt =====
-- genfastfunc.go, emitWrapper and emitInterleavedFloat32x1: the names of a closure's parameters, and the
-- words that they stand for.
use pureffi.Common.{
  ==-refl, ℕ, suc, ◌≤◌, ◌≡◌, refl, sym, ◌∙◌, ap, false, List, [], ◌∷◌, Option, some, arith, length,
}
use pureffi.FastPath.Slots.{Slot, word, ref, float32, float64}
use pureffi.FastPath.Call.{int_args, float_args}
use pureffi.FastPath.Emit.{Parameter, a, f1, lookup, same_name, as_int, as_float}
use pureffi.FastPath.Emit.Filling.{IsNamed}

-- The integer parameters are a{i+1}, a{i+2}, … in order, and the others are f1.
abbrev pub IsNumbered : ℕ → List Parameter → List Slot → Type 0
IsNumbered i [] [] = Unit {0}
IsNumbered i (a k ∷ ns) (word ∷ ss) = (k ≡ suc i) × IsNumbered (suc i) ns ss
IsNumbered i (a k ∷ ns) (ref ∷ ss) = (k ≡ suc i) × IsNumbered (suc i) ns ss
IsNumbered i (f1 ∷ ns) (float32 ∷ ss) = IsNumbered i ns ss
IsNumbered i (f1 ∷ ns) (float64 ∷ ss) = IsNumbered i ns ss
IsNumbered i _ _ = ⊥

-- What `read` accepts of the integer parameters.
abbrev pub AllRead : (Option (Slot × ℕ) → Option ℕ) → List Slot → Type 0
AllRead read [] = Unit {0}
AllRead read (word ∷ ss) = ((v : ℕ) → read (some (word, v)) ≡ some v) × AllRead read ss
AllRead read (ref ∷ ss) = ((v : ℕ) → read (some (ref, v)) ≡ some v) × AllRead read ss
AllRead read (_ ∷ ss) = AllRead read ss

-- The width of the float parameters.
abbrev pub AllWide : ℕ → List Slot → Type 0
AllWide bits [] = Unit {0}
AllWide bits (float32 ∷ ss) = (bits ≡ 32) × AllWide bits ss
AllWide bits (float64 ∷ ss) = (bits ≡ 64) × AllWide bits ss
AllWide bits (_ ∷ ss) = AllWide bits ss

-- A parameter in front that has none of the names asked for.
IsNamed-skip :
    (read : Option (Slot × ℕ) → Option ℕ) (q : Parameter) (s : Slot) (v : ℕ) (ns : List Parameter)
    (ss : List Slot) (vs is : List ℕ) (i : ℕ)
    → ((j : ℕ) → i ≤ j → same_name (a (suc j)) q ≡ false)
    → IsNamed read (lookup ns ss vs) i is
    → IsNamed read (lookup (q ∷ ns) (s ∷ ss) (v ∷ vs)) i is
unfolding lookup
IsNamed-skip read q s v ns ss vs [] i n h = tt
IsNamed-skip read q s v ns ss vs (x ∷ is) i n h = (
  rw (lookup, n i (omega arith)) h.0,
  IsNamed-skip read q s v ns ss vs is (suc i) (λ j l. n j (omega arith)) h.1,
)

-- An integer parameter in front, and the rest.
IsNamed-cons :
    (read : Option (Slot × ℕ) → Option ℕ) (k : ℕ) (s : Slot) (v : ℕ) (ns : List Parameter)
    (ss : List Slot) (vs is : List ℕ) (i : ℕ)
    → k ≡ suc i
    → read (some (s, v)) ≡ some v
    → IsNamed read (lookup ns ss vs) (suc i) is
    → IsNamed read (lookup (a k ∷ ns) (s ∷ ss) (v ∷ vs)) i (v ∷ is)
unfolding lookup same_name
IsNamed-cons read k s v ns ss vs is i e r h = (
  rw (lookup, e, same_name, ==-refl (suc i)) r,
  IsNamed-skip read (a k) s v ns ss vs is (suc i) (λ j l. ground arith) h,
)

pub IsNumbered-IsNamed :
    (read : Option (Slot × ℕ) → Option ℕ) (ns : List Parameter) (ss : List Slot) (vs : List ℕ)
    (i : ℕ)
    → IsNumbered i ns ss
    → AllRead read ss
    → length vs ≡ length ss
    → IsNamed read (lookup ns ss vs) i (int_args ss vs)
unfolding int_args same_name
IsNumbered-IsNamed read [] [] vs i h r l = tt
IsNumbered-IsNamed read (a k ∷ ns) (word ∷ ss) (v ∷ vs) i h r l =
    IsNamed-cons read k word v ns ss vs _ i h.0 (r.0 v)
      (IsNumbered-IsNamed read ns ss vs (suc i) h.1 r.1 (omega arith))
IsNumbered-IsNamed read (a k ∷ ns) (ref ∷ ss) (v ∷ vs) i h r l =
    IsNamed-cons read k ref v ns ss vs _ i h.0 (r.0 v)
      (IsNumbered-IsNamed read ns ss vs (suc i) h.1 r.1 (omega arith))
IsNumbered-IsNamed read (f1 ∷ ns) (float32 ∷ ss) (v ∷ vs) i h r l =
    IsNamed-skip read f1 float32 v ns ss vs _ i (λ j le. refl)
      (IsNumbered-IsNamed read ns ss vs i h r (omega arith))
IsNumbered-IsNamed read (f1 ∷ ns) (float64 ∷ ss) (v ∷ vs) i h r l =
    IsNamed-skip read f1 float64 v ns ss vs _ i (λ j le. refl)
      (IsNumbered-IsNamed read ns ss vs i h r (omega arith))
IsNumbered-IsNamed read (x ∷ ns) (s ∷ ss) [] i h r l = absurd (omega arith)
IsNumbered-IsNamed read [] (s ∷ ss) vs i h r l = absurd h
IsNumbered-IsNamed read (a k ∷ ns) [] vs i h r l = absurd h
IsNumbered-IsNamed read (f1 ∷ ns) [] vs i h r l = absurd h
IsNumbered-IsNamed read (a k ∷ ns) (float32 ∷ ss) (v ∷ vs) i h r l = absurd h
IsNumbered-IsNamed read (a k ∷ ns) (float64 ∷ ss) (v ∷ vs) i h r l = absurd h
IsNumbered-IsNamed read (f1 ∷ ns) (word ∷ ss) (v ∷ vs) i h r l = absurd h
IsNumbered-IsNamed read (f1 ∷ ns) (ref ∷ ss) (v ∷ vs) i h r l = absurd h

float_args-nil : (ss : List Slot) → float_args ss [] ≡ []
unfolding float_args
float_args-nil [] = refl
float_args-nil (word ∷ ss) = refl
float_args-nil (ref ∷ ss) = refl
float_args-nil (float32 ∷ ss) = refl
float_args-nil (float64 ∷ ss) = refl

-- The first float argument is the word of f1, at the width of the float parameters.
pub as_float-lookup :
    (bits w : ℕ) (ns : List Parameter) (ss : List Slot) (vs fs : List ℕ) (i : ℕ)
    → IsNumbered i ns ss
    → AllWide bits ss
    → float_args ss vs ≡ w ∷ fs
    → as_float bits (lookup ns ss vs f1) ≡ some w
unfolding float_args same_name lookup as_float
as_float-lookup bits w [] [] vs fs i h r e = cc
as_float-lookup bits w (x ∷ ns) (s ∷ ss) [] fs i h r e =
    absurd (let q : [] ≡ w ∷ fs = sym (float_args-nil (s ∷ ss)) ∙ e in cc)
as_float-lookup bits w (a k ∷ ns) (word ∷ ss) (v ∷ vs) fs i h r e =
    as_float-lookup bits w ns ss vs fs (suc i) h.1 r e
as_float-lookup bits w (a k ∷ ns) (ref ∷ ss) (v ∷ vs) fs i h r e =
    as_float-lookup bits w ns ss vs fs (suc i) h.1 r e
as_float-lookup bits w (f1 ∷ ns) (float32 ∷ ss) (v ∷ vs) fs i h r e =
    rw r.0 (let q : v ≡ w = cc in ap some q)
as_float-lookup bits w (f1 ∷ ns) (float64 ∷ ss) (v ∷ vs) fs i h r e =
    rw r.0 (let q : v ≡ w = cc in ap some q)
as_float-lookup bits w [] (s ∷ ss) vs fs i h r e = absurd h
as_float-lookup bits w (a k ∷ ns) [] vs fs i h r e = absurd h
as_float-lookup bits w (f1 ∷ ns) [] vs fs i h r e = absurd h
as_float-lookup bits w (a k ∷ ns) (float32 ∷ ss) (v ∷ vs) fs i h r e = absurd h
as_float-lookup bits w (a k ∷ ns) (float64 ∷ ss) (v ∷ vs) fs i h r e = absurd h
as_float-lookup bits w (f1 ∷ ns) (word ∷ ss) (v ∷ vs) fs i h r e = absurd h
as_float-lookup bits w (f1 ∷ ns) (ref ∷ ss) (v ∷ vs) fs i h r e = absurd h

pub as_int-AllRead : (ss : List Slot) → AllRead as_int ss
unfolding as_int
as_int-AllRead [] = tt
as_int-AllRead (word ∷ ss) = (λ v. refl, as_int-AllRead ss)
as_int-AllRead (ref ∷ ss) = (λ v. refl, as_int-AllRead ss)
as_int-AllRead (float32 ∷ ss) = as_int-AllRead ss
as_int-AllRead (float64 ∷ ss) = as_int-AllRead ss
