-- ===== src/SlowCall/Pack.antt =====
-- What the C function finds behind the pointers that the packing loops store.
use pureffi.Common.{
  ℕ, Bool, true, false, if◌then◌else◌, ◌∙◌, ◌≡◌, refl, inl, inr, List, [], ◌∷◌, ◌++◌, Option, none,
  some, length, get_elem?-append_left, get_elem?-append_length, get_elem?-length, Bool-cases, arith,
}
use pureffi.Go.Values.{
  Value, bool, number, string, unsafe_pointer, pointer, slice, func, array, struct, other, Object,
  bytes, scalar, address, Heap, deref,
}
use pureffi.Go.Outcome.{Outcome, ok}
use pureffi.SlowCall.{Packed, ends_in_nul, pack_arg}

-- Objects stay where they are.
abbrev pub Extends : Heap → Heap → Type 0
Extends h h' = (a : ℕ) (o : Object) → deref h a ≡ some o → deref h' a ≡ some o

pub Extends-allocate : (h : Heap) (o : Object) → Extends h (h ++ o ∷ [])
Extends-allocate h o a o' e = get_elem?-append_left h (o ∷ []) a (get_elem?-length h a o' e) ∙ e

-- The memory that a value refers to is there.
abbrev pub Lives : Heap → Value → Type 0
Lives h (string d a s) = ends_in_nul s ≡ true → deref h a ≡ some (bytes s)
Lives h (array d n t bs (some a)) = deref h a ≡ some (bytes bs)
Lives h (struct d fs bs (some a)) = deref h a ≡ some (bytes bs)
Lives h _ = Unit {0}

-- The text of a string with its terminator: the string itself, if it ends in one.
abbrev pub terminated : List ℕ → List ℕ
terminated s = if ends_in_nul s then s else s ++ 0 ∷ []

-- What C sees of an argument: the value itself for a number and a Boolean (a byte 0 or 1), its
-- address for pointers and slices, the address of a text with terminator, the address of the
-- elements for an array, the memory of a struct.
abbrev pub Encodes : (ℕ → ℕ) → Heap → ℕ → Value → Type 0
Encodes cb h p (bool d b) = deref h p ≡ some (bytes ((if b then 1 else 0) ∷ []))
Encodes cb h p (number d k n) = deref h p ≡ some (scalar k n)
Encodes cb h p (string d a s) =
    (b : ℕ) × (deref h p ≡ some (address b)) × (deref h b ≡ some (bytes (terminated s)))
Encodes cb h p (unsafe_pointer d a) = deref h p ≡ some (address a)
Encodes cb h p (pointer d t a) = deref h p ≡ some (address a)
Encodes cb h p (slice d t a) = deref h p ≡ some (address a)
Encodes cb h p (func d ins v outs f) = deref h p ≡ some (address (cb f))
Encodes cb h p (array d n t bs a) =
    (b : ℕ) × (deref h p ≡ some (address b)) × (deref h b ≡ some (bytes bs))
Encodes cb h p (struct d fs bs a) = deref h p ≡ some (bytes bs)
Encodes cb h p (other d k) = ⊥

abbrev pub is_packable : Value → Bool
is_packable (other d k) = false
is_packable _ = true

deref-new : (h : Heap) (o : Object) → deref (h ++ o ∷ []) (length h) ≡ some o
deref-new h o = get_elem?-append_length h [] o

-- packArg's outcome for a value that it packs.
abbrev pub PacksAs : (ℕ → ℕ) → Heap → Value → Outcome Packed → Type 0
PacksAs cb h v r = (p : Packed) × (r ≡ ok p) × Encodes cb p.heap p.ptr v × Extends h p.heap

-- A cell that points to an object which is in the heap.
cell_to :
    (h : Heap) (b : ℕ) (o : Object) → deref h b ≡ some o → deref (h ++ address b ∷ []) b ≡ some o
cell_to h b o e = Extends-allocate h (address b) b o e

pub Extends-trans : (h h' h'' : Heap) → Extends h h' → Extends h' h'' → Extends h h''
Extends-trans h h' h'' f g a o e = g a o (f a o e)

-- A new object, and a cell that points to it.
through_cell :
    (h : Heap) (o : Object)
    → let h' = h ++ o ∷ [] in
      (deref (h' ++ address (length h) ∷ []) (length h') ≡ some (address (length h)))
      × (deref (h' ++ address (length h) ∷ []) (length h) ≡ some o)
      × Extends h (h' ++ address (length h) ∷ [])
through_cell h o =
    let h' = h ++ o ∷ [] in
    (
      deref-new h' _,
      cell_to h' (length h) o (deref-new h o),
      Extends-trans h h' _ (Extends-allocate h o) (Extends-allocate h' _),
    )

pub pack_arg-PacksAs :
    (cb : ℕ → ℕ) (v : Value) (h : Heap)
    → is_packable v ≡ true
    → Lives h v
    → PacksAs cb h v (pack_arg cb v h)
unfolding pack_arg
pack_arg-PacksAs cb (bool d b) h k l = (_, refl, deref-new h _, Extends-allocate h _)
pack_arg-PacksAs cb (number d n x) h k l = (_, refl, deref-new h _, Extends-allocate h _)
pack_arg-PacksAs cb (unsafe_pointer d a) h k l = (_, refl, deref-new h _, Extends-allocate h _)
pack_arg-PacksAs cb (pointer d t a) h k l = (_, refl, deref-new h _, Extends-allocate h _)
pack_arg-PacksAs cb (slice d t a) h k l = (_, refl, deref-new h _, Extends-allocate h _)
pack_arg-PacksAs cb (func d i v o f) h k l = (_, refl, deref-new h _, Extends-allocate h _)
pack_arg-PacksAs cb (string d a s) h k l = elim (Bool-cases (ends_in_nul s)) [
  | inl e ↦ rw e (_, refl, (a, deref-new h _, cell_to h a _ (l e)), Extends-allocate h _)
  | inr e ↦
      let (x, y, z) = through_cell h (bytes (s ++ 0 ∷ [])) in rw e (_, refl, (length h, x, y), z)
]
pack_arg-PacksAs cb (array d n t bs (some a)) h k l =
    (_, refl, (a, deref-new h _, cell_to h a _ l), Extends-allocate h _)
pack_arg-PacksAs cb (array d n t bs none) h k l =
    let (x, y, z) = through_cell h (bytes bs) in (_, refl, (length h, x, y), z)
pack_arg-PacksAs cb (struct d fs bs (some a)) h k l = (_, refl, l, λ a o e. e)
pack_arg-PacksAs cb (struct d fs bs none) h k l = (_, refl, deref-new h _, Extends-allocate h _)
pack_arg-PacksAs cb (other d o) h k l = absurd (ground arith)

pub Encodes-mono :
    (cb : ℕ → ℕ) (h h' : Heap) (p : ℕ) (v : Value)
    → Extends h h'
    → Encodes cb h p v
    → Encodes cb h' p v
Encodes-mono cb h h' p (bool d b) f e = f p _ e
Encodes-mono cb h h' p (number d k n) f e = f p _ e
Encodes-mono cb h h' p (string d a s) f (b, x, y) = (b, f p _ x, f b _ y)
Encodes-mono cb h h' p (unsafe_pointer d a) f e = f p _ e
Encodes-mono cb h h' p (pointer d t a) f e = f p _ e
Encodes-mono cb h h' p (slice d t a) f e = f p _ e
Encodes-mono cb h h' p (func d i v o g) f e = f p _ e
Encodes-mono cb h h' p (array d n t bs a) f (b, x, y) = (b, f p _ x, f b _ y)
Encodes-mono cb h h' p (struct d fs bs a) f e = f p _ e
Encodes-mono cb h h' p (other d k) f e = e

pub Lives-mono : (h h' : Heap) (v : Value) → Extends h h' → Lives h v → Lives h' v
Lives-mono h h' (string d a s) f l = λ e. f a _ (l e)
Lives-mono h h' (array d n t bs (some a)) f l = f a _ l
Lives-mono h h' (array d n t bs none) f l = tt
Lives-mono h h' (struct d fs bs (some a)) f l = f a _ l
Lives-mono h h' (struct d fs bs none) f l = tt
Lives-mono h h' (bool d b) f l = tt
Lives-mono h h' (number d k n) f l = tt
Lives-mono h h' (unsafe_pointer d a) f l = tt
Lives-mono h h' (pointer d t a) f l = tt
Lives-mono h h' (slice d t a) f l = tt
Lives-mono h h' (func d i v o g) f l = tt
Lives-mono h h' (other d k) f l = tt

-- A list of argument pointers that encodes a list of values.
abbrev pub AllEncoded : (ℕ → ℕ) → Heap → List (Option ℕ) → List Value → Type 0
AllEncoded cb h [] [] = Unit {0}
AllEncoded cb h [] (v ∷ vs) = ⊥
AllEncoded cb h (p ∷ ps) [] = ⊥
AllEncoded cb h (none ∷ ps) (v ∷ vs) = ⊥
AllEncoded cb h (some p ∷ ps) (v ∷ vs) = Encodes cb h p v × AllEncoded cb h ps vs

pub AllEncoded-mono :
    (cb : ℕ → ℕ) (h h' : Heap) (ps : List (Option ℕ)) (vs : List Value)
    → Extends h h'
    → AllEncoded cb h ps vs
    → AllEncoded cb h' ps vs
AllEncoded-mono cb h h' [] [] f a = tt
AllEncoded-mono cb h h' [] (v ∷ vs) f a = a
AllEncoded-mono cb h h' (p ∷ ps) [] f a = a
AllEncoded-mono cb h h' (none ∷ ps) (v ∷ vs) f a = a
AllEncoded-mono cb h h' (some p ∷ ps) (v ∷ vs) f a =
    (Encodes-mono cb h h' p v f a.0, AllEncoded-mono cb h h' ps vs f a.1)

pub AllEncoded-snoc :
    (cb : ℕ → ℕ) (h : Heap) (ps : List (Option ℕ)) (vs : List Value) (p : ℕ) (v : Value)
    → AllEncoded cb h ps vs
    → Encodes cb h p v
    → AllEncoded cb h (ps ++ some p ∷ []) (vs ++ v ∷ [])
AllEncoded-snoc cb h [] [] p v a e = (e, tt)
AllEncoded-snoc cb h [] (w ∷ vs) p v a e = absurd a
AllEncoded-snoc cb h (q ∷ ps) [] p v a e = absurd a
AllEncoded-snoc cb h (none ∷ ps) (w ∷ vs) p v a e = absurd a
AllEncoded-snoc cb h (some q ∷ ps) (w ∷ vs) p v a e = (a.0, AllEncoded-snoc cb h ps vs p v a.1 e)
