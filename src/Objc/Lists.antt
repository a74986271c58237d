-- ===== src/Objc/Lists.antt =====
-- objc/objc_runtime_darwin.go: the lists that the runtime allocates for CopyMethodDescriptionList,
-- CopyProtocolList and CopyPropertyList, which copy them to Go and free them.
pub mod Freed
mod Tests
use pureffi.Common.{
  ℕ, ◌==◌, leb, Bool, true, false, List, [], ◌∷◌, ◌++◌, Option, none, some, if◌then◌else◌, length,
  take,
}

-- MethodDescription: the addresses of two texts.
pub record MethodDescription : Type 0 where
  pub name : ℕ
  pub types : ℕ

-- The arrays that malloc gave out and free did not take back, by their addresses.
abbrev pub Arrays {ℓ} : Type ℓ → Type ℓ
Arrays E = ℕ → Option (List E)

-- A Go slice: nil, n elements of C's memory from an address on, or elements of its own.
pub data Slice {ℓ} (E : Type ℓ) : Type ℓ where
  nil : Slice E
  view : ℕ → ℕ → Slice E
  owned : List E → Slice E

-- What a function that copies a list returns: the address, *outCount, and the arrays after it.
pub record Copied {ℓ} (E : Type ℓ) : Type ℓ where
  pub desc : ℕ
  pub count : ℕ
  pub arrays : Arrays E

-- What comes of a call; `undefined` is a read or a free of memory that is not allocated.
pub data Effect {ℓ} (E : Type ℓ) (A : Type ℓ) : Type ℓ where
  done : A → Arrays E → Effect E A
  panicked : Effect E A
  undefined : Effect E A

module _ {ℓ} {E : Type ℓ} where
  -- unsafe.Slice(desc, count); `none` is its panic for a nil pointer with a length.
  unfoldable pub unsafe_slice : ℕ → ℕ → Option (Slice E)
  unsafe_slice desc count =
      if desc == 0 then (if count == 0 then some nil else none) else some (view desc count)

  -- append(S{}, s...) for elements in C's memory
  unfoldable pub read_view : ℕ → Option (List E) → Option (Slice E)
  read_view count none = none
  read_view count (some xs) = if leb count (length xs) then some (owned (take count xs)) else none

  unfoldable pub clone : Arrays E → Slice E → Option (Slice E)
  clone arrays nil = some nil
  clone arrays (view desc count) = read_view count (arrays desc)
  clone arrays (owned xs) = some (owned xs)

  -- free(NULL) does nothing.
  unfoldable pub free : Arrays E → ℕ → Option (Arrays E)
  free arrays desc = if desc == 0 then some arrays else elim (arrays desc) [
    | none ↦ none
    | some _ ↦ some (λ a. if a == desc then none else arrays a)
  ]

  -- The three functions after the call of the runtime.
  unfoldable pub clone_and_free : Copied E → Effect E (Slice E)
  clone_and_free c = elim (unsafe_slice c.desc c.count) [
    | none ↦ panicked
    | some s ↦ elim (clone c.arrays s) [
      | none ↦ undefined
      | some list ↦ elim (free c.arrays c.desc) [
        | none ↦ undefined
        | some arrays ↦ done list arrays
      ]
    ]
  ]

-- The functions protocol_copyMethodDescriptionList, protocol_copyProtocolList and
-- protocol_copyPropertyList2, with their arguments in the order of C.
abbrev pub CopyMethods : Type 0
CopyMethods = ℕ → Bool → Bool → Arrays MethodDescription → Copied MethodDescription

abbrev pub CopyProtocols : Type 0
CopyProtocols = ℕ → Arrays ℕ → Copied ℕ

abbrev pub CopyProperties : Type 0
CopyProperties = ℕ → Bool → Bool → Arrays ℕ → Copied ℕ

unfoldable pub copy_method_description_list :
    CopyMethods
    → ℕ
    → Bool
    → Bool
    → Arrays MethodDescription
    → Effect MethodDescription (Slice MethodDescription)
copy_method_description_list protocol_copy p is_required is_instance arrays =
    clone_and_free (protocol_copy p is_required is_instance arrays)

unfoldable pub copy_protocol_list : CopyProtocols → ℕ → Arrays ℕ → Effect ℕ (Slice ℕ)
copy_protocol_list protocol_copy p arrays = clone_and_free (protocol_copy p arrays)

unfoldable pub copy_property_list : CopyProperties → ℕ → Bool → Bool → Arrays ℕ → Effect ℕ (Slice ℕ)
copy_property_list protocol_copy p is_required is_instance arrays =
    clone_and_free (protocol_copy p is_required is_instance arrays)
