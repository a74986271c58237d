-- ===== src/Objc/Lists/Freed.antt =====
-- objc/objc_runtime_darwin.go: what the three functions that copy lists return and leave behind.
use pureffi.Common.{
  ==-refl, ℕ, zero, suc, ◌≤◌, ◌==◌, leb, ◌≡◌, ◌≢◌, refl, sym, inl, inr, Bool, true, false, List,
  none, some, if◌then◌else◌, arith, length, take, Bool-cases, ==_iff,
}
use pureffi.Objc.Lists.{
  MethodDescription, Arrays, Slice, nil, owned, Copied, Effect, done, unsafe_slice, read_view,
  clone, free, clone_and_free, CopyMethods, CopyProtocols, CopyProperties,
  copy_method_description_list, copy_protocol_list, copy_property_list,
}

not_zero : (n : ℕ) → n ≢ 0 → (n == 0) ≡ false
not_zero zero h = absurd (h refl)
not_zero (suc n) h = ground arith

le→leb : (m n : ℕ) → m ≤ n → leb m n ≡ true
le→leb m n h = ground arith

module _ {ℓ} {E : Type ℓ} where
  -- What the runtime promises: NULL for an empty list, and else a new array with that many elements
  -- or more (the last one is a NULL).
  pub data IsCopy (before : Arrays E) (c : Copied E) : Type ℓ where
    empty : c.desc ≡ 0 → c.count ≡ 0 → c.arrays ≡ before → IsCopy before c
    filled :
        (xs : List E)
        → c.desc ≢ 0
        → before c.desc ≡ none
        → c.arrays ≡ (λ a. if a == c.desc then some xs else before a)
        → c.count ≤ length xs
        → IsCopy before c

  -- The list of Go: nil for an empty one, and else the elements, in memory of its own.
  abbrev pub list_of : {before : Arrays E} {c : Copied E} → IsCopy before c → Slice E
  list_of (empty e n q) = nil
  list_of {c} (filled xs e f q l) = owned (take c.count xs)

  -- The list is returned, and every array is as it was before the call of the runtime.
  abbrev pub Returns : Arrays E → Slice E → Effect E (Slice E) → Type ℓ
  Returns before list r =
      (after : Arrays E) × (r ≡ done list after) × ((a : ℕ) → after a ≡ before a)

  clone_and_free-Returns :
      (before : Arrays E) (c : Copied E) (h : IsCopy before c)
      → Returns before (list_of h) (clone_and_free c)
  unfolding clone_and_free unsafe_slice clone read_view free
  clone_and_free-Returns before c (empty e n q) =
      (before, rw (clone_and_free, unsafe_slice, e, n, clone, free, e, q) refl, λ a. refl)
  clone_and_free-Returns before c (filled xs e f q l) =
      let d : (c.desc == 0) ≡ false = not_zero c.desc e in
      let there : c.arrays c.desc ≡ some xs = rw (q, ==-refl c.desc) refl in
      (
        λ a. if a == c.desc then none else c.arrays a,
        rw
            (
              clone_and_free,
              unsafe_slice,
              d,
              clone,
              there,
              read_view,
              le→leb c.count (length xs) l,
              free,
              d,
              there,
            )
            refl,
        λ a. elim (Bool-cases (a == c.desc)) [
          | inl y ↦ rw y (sym (rw ((==_iff a c.desc).0 y) f))
          | inr n ↦ rw (n, q, n) refl
        ],
      )

-- Where the runtime gives NULL for an empty list, and else a new array with its elements, each of the
-- three functions returns nil for an empty list, and else the elements in memory of Go's own; it frees
-- the array and no other, once, so all of C's arrays are as before; nothing panics, and nothing that
-- is not allocated is read or freed.
pub copy_lists-Freed :
    (methods : CopyMethods) (protocols : CopyProtocols) (properties : CopyProperties) (p : ℕ)
    (is_required is_instance : Bool) (ms : Arrays MethodDescription) (ps qs : Arrays ℕ)
    (m : IsCopy ms (methods p is_required is_instance ms)) (r : IsCopy ps (protocols p ps))
    (q : IsCopy qs (properties p is_required is_instance qs))
    → Returns ms (list_of m) (copy_method_description_list methods p is_required is_instance ms)
      × Returns ps (list_of r) (copy_protocol_list protocols p ps)
      × Returns qs (list_of q) (copy_property_list properties p is_required is_instance qs)
unfolding copy_method_description_list copy_protocol_list copy_property_list
copy_lists-Freed methods protocols properties p is_required is_instance ms ps qs m r q = (
  clone_and_free-Returns ms (methods p is_required is_instance ms) m,
  clone_and_free-Returns ps (protocols p ps) r,
  clone_and_free-Returns qs (properties p is_required is_instance qs) q,
)
