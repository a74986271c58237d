-- ===== src/Descriptor/Domain.antt =====
-- Which types have a descriptor.
use pureffi.Common.{◌≡◌, refl, ◌⊎◌, inl, inr, ap}
use pureffi.Go.Types.{
  GoType, bool, number, string, unsafe_pointer, pointer, slice, array, struct, func, other, Fields,
  end, field,
}
use pureffi.Go.Outcome.{Outcome, ok, panic, unsupported_kind, ◌>>=◌}
use pureffi.Descriptor.{go_type_to_ffi_type, field_descriptors}

-- A channel, map, interface or complex type `u` is met on the way through array elements and
-- fields, but not behind a pointer, a slice or a function.
unfoldable mutual
  pub Meets : GoType → GoType → Type 0
  Meets u (bool d) = ⊥
  Meets u (number d k) = ⊥
  Meets u (string d) = ⊥
  Meets u (unsafe_pointer d) = ⊥
  Meets u (pointer d t) = ⊥
  Meets u (slice d t) = ⊥
  Meets u (array d n t) = Meets u t
  Meets u (struct d fs) = MeetsField u fs
  Meets u (func d ins v outs) = ⊥
  Meets u (other d k) = u ≡ other d k

  pub MeetsField : GoType → Fields → Type 0
  MeetsField u end = ⊥
  MeetsField u (field name t fs) = Meets u t ⊎ MeetsField u fs

-- A description succeeds where nothing is met, and else panics with a type that is met.
abbrev pub Verdict {ℓ} : {A : Type ℓ} → (GoType → Type 0) → Outcome A → Type ℓ
Verdict {A} met r =
    ((a : A) × (r ≡ ok a) × ((u : GoType) → ¬ met u))
    ⊎ ((u : GoType) × met u × (r ≡ panic (unsupported_kind u)))

-- A description that only wraps another one has the same verdict.
Verdict-wrap {ℓ κ} :
    {A : Type ℓ} {B : Type κ} (met : GoType → Type 0) (m : Outcome A) (f : A → B)
    → Verdict met m
    → Verdict met (m >>= λ a. ok (f a))
Verdict-wrap met m f (inl (a, e, none)) = inl (f a, ap (λ r. r >>= λ a. ok (f a)) e, none)
Verdict-wrap met m f (inr (u, h, e)) = inr (u, h, ap (λ r. r >>= λ a. ok (f a)) e)

Verdict-both {ℓ κ μ} :
    {A : Type ℓ} {B : Type κ} {C : Type μ} (met more : GoType → Type 0) (m : Outcome A)
    (n : Outcome B) (f : A → B → C)
    → Verdict met m
    → Verdict more n
    → Verdict (λ u. met u ⊎ more u) (m >>= λ a. n >>= λ b. ok (f a b))
Verdict-both met more m n f (inr (u, h, e)) v =
    inr (u, inl h, ap (λ r. r >>= λ a. n >>= λ b. ok (f a b)) e)
Verdict-both met more m n f (inl (a, e, none)) (inl (b, e', none')) =
    inl (f a b, rw (e, e'), λ u. elim [ inl h ↦ none u h | inr h ↦ none' u h ])
Verdict-both met more m n f (inl (a, e, none)) (inr (u, h, e')) = inr (u, inr h, rw (e, e'))

mutual
  unfolding go_type_to_ffi_type Meets

  type_Verdict : (t : GoType) → Verdict (λ u. Meets u t) (go_type_to_ffi_type t)
  type_Verdict (bool d) = inl (_, refl, λ u m. m)
  type_Verdict (number d k) = inl (_, refl, λ u m. m)
  type_Verdict (string d) = inl (_, refl, λ u m. m)
  type_Verdict (unsafe_pointer d) = inl (_, refl, λ u m. m)
  type_Verdict (pointer d t) = inl (_, refl, λ u m. m)
  type_Verdict (slice d t) = inl (_, refl, λ u m. m)
  type_Verdict (array d n t) = Verdict-wrap _ (go_type_to_ffi_type t) _ (type_Verdict t)
  type_Verdict (struct d fs) = Verdict-wrap _ (field_descriptors fs) _ (fields_Verdict fs)
  type_Verdict (func d ins v outs) = inl (_, refl, λ u m. m)
  type_Verdict (other d k) = inr (other d k, refl, refl)

  fields_Verdict : (fs : Fields) → Verdict (λ u. MeetsField u fs) (field_descriptors fs)
  fields_Verdict end = inl (_, refl, λ u m. m)
  fields_Verdict (field name t fs) =
      Verdict-both _ _ (go_type_to_ffi_type t) (field_descriptors fs) _ (type_Verdict t)
        (fields_Verdict fs)

-- goTypeToFfiType returns a descriptor exactly for the types in which no channel, map, interface or
-- complex type is met through array elements and fields; for any other it panics, naming one that is met.
pub go_type_to_ffi_type-Verdict : (t : GoType) → Verdict (λ u. Meets u t) (go_type_to_ffi_type t)
go_type_to_ffi_type-Verdict t = type_Verdict t
