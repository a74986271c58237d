-- ===== src/CString/Tests.antt =====
-- Round trips of concrete texts through a memory.
use pureffi.Common.{ℕ, ◌≡◌, ◌<◌, ◌≤◌, refl, arith, ◌⊎◌, inr, [], ◌∷◌, some}
use pureffi.Go.Outcome.{panic, malloc_failed}
use pureffi.CString.{
  Memory, Malloc, fill_string, c_string, go_string, c_string_to_go_string, copy, read,
}
use pureffi.CString.Termination.{FirstNul, go_string-FirstNul}
use pureffi.CString.RoundTrip.{until_nul, c_string-go_string, c_string-frame}

-- Memory full of ones, and an allocator that gives out address 64.
abbrev ones : Memory
ones a = 1

abbrev at_64 : Malloc
at_64 size m = inr (64, m)

c_string-go_string_example :
    go_string 4 (fill_string (104 ∷ 0 ∷ 105 ∷ []) 64 ones) 64 ≡ some (104 ∷ [])
unfolding c_string until_nul
c_string-go_string_example =
    c_string-go_string 4096 at_64 (104 ∷ 0 ∷ 105 ∷ []) ones 64
      (fill_string (104 ∷ 0 ∷ 105 ∷ []) 64 ones) 4 refl (omega arith)

c_string-frame_example :
    (before : Memory) × (at_64 3 ones ≡ inr (64, before))
    × ((b : ℕ) → (b < 64) ⊎ (66 < b) → fill_string (104 ∷ 105 ∷ []) 64 ones b ≡ before b)
unfolding c_string
c_string-frame_example =
    c_string-frame 4096 at_64 (104 ∷ 105 ∷ []) ones 64 (fill_string (104 ∷ 105 ∷ []) 64 ones) refl

out_of_memory : c_string 4096 (λ size m. inr (0, m)) [] ones ≡ panic malloc_failed
unfolding c_string
out_of_memory = refl

nil_string : c_string_to_go_string 0 ones 0 ≡ some []
unfolding c_string_to_go_string
nil_string = refl

-- The search for the end of "hi" at address 64.
go_string-FirstNul_example :
    (n : ℕ) × (n ≤ 2)
    × FirstNul (fill_string (104 ∷ 105 ∷ []) 64 ones) 64 n
    × (go_string 6 (fill_string (104 ∷ 105 ∷ []) 64 ones) 64
        ≡ some (read (fill_string (104 ∷ 105 ∷ []) 64 ones) 64 n))
    × (c_string_to_go_string 6 (fill_string (104 ∷ 105 ∷ []) 64 ones) 64
        ≡ some (read (fill_string (104 ∷ 105 ∷ []) 64 ones) 64 n))
unfolding fill_string copy
go_string-FirstNul_example =
    go_string-FirstNul 6 (fill_string (104 ∷ 105 ∷ []) 64 ones) 64 2 (omega arith) refl
      (omega arith)
