-- ===== src/InternalStrings/Tests.antt =====
-- Texts with and without a terminator.
use pureffi.Common.{ℕ, ◌≡◌, refl, [], ◌∷◌, some}
use pureffi.Go.Values.{Object, bytes, Heap, deref}
use pureffi.SlowCall.{ends_in_nul}
use pureffi.InternalStrings.{c_string}
use pureffi.InternalStrings.Terminated.{c_string-terminated}

abbrev heap : Heap
heap = bytes (104 ∷ 105 ∷ []) ∷ []

c_string-terminated_example :
    (deref (c_string 0 (104 ∷ 105 ∷ []) heap).1 (c_string 0 (104 ∷ 105 ∷ []) heap).0
      ≡ some (bytes (104 ∷ 105 ∷ 0 ∷ [])))
    × ((b : ℕ) (o : Object)
        → deref heap b ≡ some o
        → deref (c_string 0 (104 ∷ 105 ∷ []) heap).1 b ≡ some o)
unfolding ends_in_nul
c_string-terminated_example = c_string-terminated 0 (104 ∷ 105 ∷ []) heap refl
