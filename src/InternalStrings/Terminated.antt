-- ===== src/InternalStrings/Terminated.antt =====
-- The C strings of package strings against those of packArg.
use pureffi.Common.{
  ℕ, suc, ◌-◌, leb, ◌≡◌, refl, true, List, [], ◌∷◌, ◌++◌, some, length, drop,
  get_elem?-append_length, Bool-cases, inl, inr, arith,
}
use pureffi.Go.Values.{Object, bytes, Heap, deref}
use pureffi.SlowCall.{ends_in_nul}
use pureffi.SlowCall.Pack.{terminated, Extends-allocate}
use pureffi.InternalStrings.{list_eq, has_suffix, c_string}

-- The last byte of a text.
drop-last : (c : ℕ) (s : List ℕ) → list_eq (drop (length s) (c ∷ s)) (0 ∷ []) ≡ ends_in_nul (c ∷ s)
unfolding ends_in_nul
drop-last c [] = ground arith
drop-last c (d ∷ s) = drop-last d s

has_suffix-ends_in_nul : (s : List ℕ) → has_suffix s (0 ∷ []) ≡ ends_in_nul s
unfolding has_suffix ends_in_nul
has_suffix-ends_in_nul [] = refl
has_suffix-ends_in_nul (c ∷ s) =
    let n : suc (length s) - 1 ≡ length s = omega arith in
    let l : leb 1 (suc (length s)) ≡ true = ground arith in rw (n, l) (drop-last c s)

-- CString returns the address of the text with a terminator, the very text that packArg passes for a
-- string argument: the bytes themselves where they end in NUL, and else a copy with a NUL byte more. All
-- other objects stay as they are.
pub c_string-terminated :
    (a : ℕ) (name : List ℕ) (h : Heap)
    → deref h a ≡ some (bytes name)
    → (deref (c_string a name h).1 (c_string a name h).0 ≡ some (bytes (terminated name)))
      × ((b : ℕ) (o : Object) → deref h b ≡ some o → deref (c_string a name h).1 b ≡ some o)
unfolding c_string
c_string-terminated a name h e = elim (Bool-cases (ends_in_nul name)) [
  | inl y ↦ rw (has_suffix-ends_in_nul name, y) (e, λ b o k. k)
  | inr n ↦
      rw (has_suffix-ends_in_nul name, n)
        (get_elem?-append_length h [] (bytes (name ++ 0 ∷ [])), Extends-allocate h _)
]
