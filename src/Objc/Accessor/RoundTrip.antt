-- ===== src/Objc/Accessor/RoundTrip.antt =====
-- What a getter returns after setters.
use pureffi.Common.{
  ℕ, zero, suc, ◌+◌, ◌≤◌, ◌≡◌, refl, sym, ◌∙◌, ap, ◌⊎◌, inl, List, [], ◌∷◌, length, arith,
}
use pureffi.Go.Types.{GoType}
use pureffi.Go.Layout.{size}
use pureffi.Go.Identity.{same_iff}
use pureffi.Go.Outcome.{ok}
use pureffi.CString.{Memory, copy, read, write}
use pureffi.CString.RoundTrip.{copy-frame}
use pureffi.Objc.Class.{id_type, sel_type}
use pureffi.Objc.Accessor.{Arg, run_setter, run_getter}

read-copy : (m : Memory) (a : ℕ) (s : List ℕ) → read (copy m a s) a (length s) ≡ s
unfolding read copy
read-copy m a [] = refl
read-copy m a (c ∷ s) =
    let e : copy (write m a c) (suc a) s a ≡ c =
      copy-frame (write m a c) (suc a) s a (inl (omega arith)) ∙ ground arith in
    rw (e, read-copy (write m a c) (suc a) s) refl

-- Memory read away from what was written is as before.
read-copy_other :
    (m : Memory) (a b n : ℕ) (s : List ℕ)
    → (b + n ≤ a) ⊎ (a + length s ≤ b)
    → read (copy m a s) b n ≡ read m b n
unfolding read
read-copy_other m a b zero s h = refl
read-copy_other m a b (suc n) s h =
    rw (copy-frame m a s b (ground arith), read-copy_other m a (suc b) n s (ground arith)) refl

-- The arguments that reflect passes to a function of a setter's or a getter's type: an ID, a SEL, and a
-- value of the field's type, with as many bytes as the type takes up.
abbrev pub id_arg : ℕ → Arg
id_arg id = record { type = id_type; word = id; bytes = [] }

abbrev pub sel_arg : ℕ → Arg
sel_arg sel = record { type = sel_type; word = sel; bytes = [] }

abbrev pub value_arg : GoType → List ℕ → Arg
value_arg t bytes = record { type = t; word = 0; bytes = bytes }

-- A setter called on an object with a value of the field's type does not panic. After it, the getter of
-- the field gives the value, and the getter of another object's field or of another field, whose
-- memory does not overlap, gives what it gave before.
pub run_setter-run_getter :
    (t u : GoType) (offset offset' id id' sel sel' : ℕ) (bytes : List ℕ) (m : Memory)
    → length bytes ≡ size t
    → (id' + offset' + size u ≤ id + offset) ⊎ (id + offset + size t ≤ id' + offset')
    → (m' : Memory) × (run_setter t offset (id_arg id ∷ sel_arg sel ∷ value_arg t bytes ∷ []) m
        ≡ ok m')
      × (run_getter t offset (id_arg id ∷ sel_arg sel' ∷ []) m' ≡ ok bytes)
      × (run_getter u offset' (id_arg id' ∷ sel_arg sel' ∷ []) m'
          ≡ run_getter u offset' (id_arg id' ∷ sel_arg sel' ∷ []) m)
unfolding run_setter run_getter
run_setter-run_getter t u offset offset' id id' sel sel' bytes m h apart = (
  copy m (id + offset) bytes,
  rw ((same_iff t t).1 refl) refl,
  ap (λ x. ok x) (rw (sym h) (read-copy m (id + offset) bytes)),
  ap (λ x. ok x) (read-copy_other m (id + offset) (id' + offset') (size u) bytes (rw h apart)),
)
