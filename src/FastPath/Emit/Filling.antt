-- ===== src/FastPath/Emit/Filling.antt =====
-- genfastfunc.go, emitWrapper and tmplInterleavedFloat: what the loops of assignments leave in the
-- arrays, and what the loop of KeepAlive calls keeps.
use pureffi.Common.{
  ℕ, zero, suc, ◌+◌, ◌≤◌, ◌<◌, lt→ltb, ◌≡◌, refl, ◌∙◌, ap, Bool, List, [], ◌∷◌, ◌++◌, append_assoc,
  append-nil, Option, none, some, arith, set, length, length-append, Option-cases, inl, inr,
}
use pureffi.Goffi.{CallInterface}
use pureffi.FastPath.Slots.{Slot}
use pureffi.FastPath.Call.{CallFunction, fill}
use pureffi.FastPath.Emit.{
  Parameter, a, Statement, integer_names, assignments, keep_alives, set_int, set_word, as_int,
  as_word, assign, Frame, exec,
}

-- Reading the parameters a{i+1}, … gives these words.
abbrev pub IsNamed :
    (Option (Slot × ℕ) → Option ℕ) → (Parameter → Option (Slot × ℕ)) → ℕ → List ℕ → Type 0
IsNamed read value i [] = Unit {0}
IsNamed read value i (v ∷ vs) = (read (value (a (suc i))) ≡ some v) × IsNamed read value (suc i) vs

length-fill : (n : ℕ) (vs : List ℕ) → length (fill n vs) ≡ n
unfolding fill
length-fill zero vs = refl
length-fill (suc n) [] = ap suc (length-fill n [])
length-fill (suc n) (v ∷ vs) = ap suc (length-fill n vs)

set-fill :
    (n : ℕ) (done : List ℕ) (v : ℕ)
    → length done < n
    → set (fill n done) (length done) v ≡ fill n (done ++ v ∷ [])
unfolding fill
set-fill zero done v h = absurd (omega arith)
set-fill (suc n) [] v h = refl
set-fill (suc n) (x ∷ done) v h = ap (λ l. x ∷ l) (set-fill n done v (omega arith))

-- One assignment to the next element.
assign-fill :
    (n i : ℕ) (done : List ℕ) (v : ℕ)
    → length done ≡ i
    → i < n
    → assign (some (fill n done)) i (some v) ≡ some (fill n (done ++ v ∷ []))
unfolding assign
assign-fill n i done v e h =
    rw (← e, length-fill n done, lt→ltb (length done) n (omega arith))
      (ap some (set-fill n done v (omega arith)))

module _ (call_function : CallFunction) (cif : CallInterface) (cfn : ℕ)
    (value : Parameter → Option (Slot × ℕ)) (ret : Bool) (f : Frame) where
  -- One assignment to `ints`, with what `read` makes of the parameter.
  abbrev pub Assigns : (Option (Slot × ℕ) → Option ℕ) → (ℕ → Parameter → Statement) → Type 0
  Assigns read make =
      (i v : ℕ) (p : Parameter) (ss : List Statement) (array after : List ℕ)
      → read (value p) ≡ some v
      → assign (some array) i (some v) ≡ some after
      → exec call_function cif cfn value ret (make i p ∷ ss) (record f { ints = some array })
        ≡ exec call_function cif cfn value ret ss (record f { ints = some after })

  pub set_int-Assigns : Assigns as_int set_int
  unfolding exec
  set_int-Assigns i v p ss array after e h = rw (exec, e, h) refl

  pub set_word-Assigns : Assigns as_word set_word
  unfolding exec
  set_word-Assigns i v p ss array after e h = rw (exec, e, h) refl

  pub exec-assignments :
      (read : Option (Slot × ℕ) → Option ℕ) (make : ℕ → Parameter → Statement)
      → Assigns read make
      → (vs done : List ℕ) (i n : ℕ) (ss : List Statement) → length done ≡ i
      → length vs ≡ n
      → i + n ≤ 15
      → IsNamed read value i vs
      → exec call_function cif cfn value ret
          (assignments make i n ++ ss)
          (record f { ints = some (fill 15 done) })
        ≡ exec call_function cif cfn value ret ss (record f { ints = some (fill 15 (done ++ vs)) })
  unfolding assignments
  exec-assignments read make m [] done i zero ss e l h k = rw (append-nil done) refl
  exec-assignments read make m (v ∷ vs) done i zero ss e l h k = absurd (omega arith)
  exec-assignments read make m [] done i (suc n) ss e l h k = absurd (omega arith)
  exec-assignments read make m (v ∷ vs) done i (suc n) ss e l h k =
      m i v (a (suc i)) _ _ _ k.0 (assign-fill 15 i done v e (omega arith))
      ∙ exec-assignments read make m vs (done ++ v ∷ []) (suc i) n ss
          (omega (arith, length-append done (v ∷ []))) (omega arith) (omega arith) k.1
      ∙ rw (append_assoc done (v ∷ []) vs) refl

  -- The loop of KeepAlive calls, for parameters that the closure has.
  pub exec-keep_alives :
      (vs : List ℕ) (kept : List Parameter) (i n : ℕ) (ss : List Statement)
      → length vs ≡ n
      → IsNamed as_int value i vs
      → exec call_function cif cfn value ret (keep_alives i n ++ ss) (record f { kept = kept })
        ≡ exec call_function cif cfn value ret ss (record f { kept = kept ++ integer_names i n })
  unfolding keep_alives integer_names exec as_int
  exec-keep_alives [] kept i zero ss l k = rw (append-nil kept) refl
  exec-keep_alives (v ∷ vs) kept i zero ss l k = absurd (omega arith)
  exec-keep_alives [] kept i (suc n) ss l k = absurd (omega arith)
  exec-keep_alives (v ∷ vs) kept i (suc n) ss l k = elim (Option-cases (value (a (suc i)))) [
    | inl e ↦ absurd (let q : as_int none ≡ some v = rw e at k.0 in cc)
    | inr (p, e) ↦
        rw (exec, e)
          (exec-keep_alives vs (kept ++ a (suc i) ∷ []) (suc i) n ss (omega arith) k.1
            ∙ rw (append_assoc kept (a (suc i) ∷ []) (integer_names (suc i) n)) refl)
  ]
