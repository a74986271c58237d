-- ===== src/Objc/Lists/Tests.antt =====
-- objc/objc_runtime_darwin.go: lists of a protocol with two methods, no protocols and one property.
use pureffi.Common.{ℕ, ◌==◌, refl, true, List, [], ◌∷◌, none, some, if◌then◌else◌, arith}
use pureffi.Objc.Lists.{
  MethodDescription, Arrays, nil, owned, Copied, copy_method_description_list, copy_protocol_list,
  copy_property_list,
}
use pureffi.Objc.Lists.Freed.{empty, filled, Returns, copy_lists-Freed}

abbrev set_up : MethodDescription
set_up = record { name = 100; types = 108 }

abbrev tear_down : MethodDescription
tear_down = record { name = 116; types = 128 }

-- Two methods, and the NULL behind them.
abbrev two_methods : List MethodDescription
two_methods = set_up ∷ tear_down ∷ record { name = 0; types = 0 } ∷ []

abbrev new_array {ℓ} : {E : Type ℓ} → List E → ℕ → Arrays E → Copied E
new_array xs n before = record {
  desc = 4096;
  count = n;
  arrays = λ a. if a == 4096 then some xs else before a;
}

abbrev no_array {ℓ} : {E : Type ℓ} → Arrays E → Copied E
no_array before = record { desc = 0; count = 0; arrays = before }

copy_lists-Freed_example :
    Returns
      (λ a. none)
      (owned (set_up ∷ tear_down ∷ []))
      (copy_method_description_list (λ p r i. new_array two_methods 2) 8 true true (λ a. none))
    × Returns (λ a. none) nil (copy_protocol_list (λ p. no_array) 8 (λ a. none))
    × Returns
        (λ a. none)
        (owned (16 ∷ []))
        (copy_property_list (λ p r i. new_array (16 ∷ 0 ∷ []) 1) 8 true true (λ a. none))
copy_lists-Freed_example =
    copy_lists-Freed (λ p r i. new_array two_methods 2) (λ p. no_array)
      (λ p r i. new_array (16 ∷ 0 ∷ []) 1) 8 true true (λ a. none) (λ a. none) (λ a. none)
      (filled two_methods (λ e. absurd (omega arith)) refl refl (omega arith))
      (empty refl refl refl)
      (filled (16 ∷ 0 ∷ []) (λ e. absurd (omega arith)) refl refl (omega arith))
