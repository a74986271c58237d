-- ===== src/CString/Termination.antt =====
-- When the search for the end of a C string ends.
use pureffi.Common.{
  ℕ, zero, suc, ◌+◌, ◌==◌, ◌≤◌, ◌<◌, ◌≡◌, ◌≢◌, refl, false, some, inl, inr, Bool-cases, arith,
}
use pureffi.CString.{Memory, read, c_length, go_string, c_string_to_go_string}

-- From address a on, the first NUL byte lies n bytes further.
abbrev pub FirstNul : Memory → ℕ → ℕ → Type 0
FirstNul m a n = (m (a + n) ≡ 0) × ((i : ℕ) → i < n → m (a + i) ≢ 0)

FirstNul-suc : (m : Memory) (a n : ℕ) → m a ≢ 0 → FirstNul m (suc a) n → FirstNul m a (suc n)
FirstNul-suc m a n h (z, before) = (rw e z, others)
  where
    e : a + suc n ≡ suc a + n
    e = omega arith

    others : (i : ℕ) → i < suc n → m (a + i) ≢ 0
    others zero l = let q : a + 0 ≡ a = omega arith in rw q h
    others (suc i) l = let q : a + suc i ≡ suc a + i = omega arith in rw q (before i (omega arith))

-- The loop stops at the first NUL byte.
c_length_lem :
    (fuel : ℕ) (m : Memory) (c n k : ℕ)
    → m (c + n + k) ≡ 0
    → k < fuel
    → (j : ℕ) × (j ≤ k) × (c_length fuel m c n ≡ some (n + j)) × FirstNul m (c + n) j
unfolding c_length
c_length_lem zero m c n k z h = absurd (omega arith)
c_length_lem (suc fuel) m c n zero z h =
    let q : c + n + 0 ≡ c + n = omega arith in
    let v : m (c + n) ≡ 0 = rw q at z in
    (0, omega arith, ground arith, (rw q v, λ i l. absurd (omega arith)))
c_length_lem (suc fuel) m c n (suc k) z h = elim (Bool-cases (m (c + n) == 0)) [
  | inl e ↦
      let q : c + n + 0 ≡ c + n = omega arith in
      let v : m (c + n) ≡ 0 = ground arith in
      (0, omega arith, ground arith, (rw q v, λ i l. absurd (omega arith)))
  | inr e ↦
      let q : c + n + suc k ≡ c + suc n + k = omega arith in
      let w : c + suc n ≡ suc (c + n) = omega arith in
      let (j, l, r, first) = c_length_lem fuel m c (suc n) k (rw q at z) (omega arith) in
      let o : suc n + j ≡ n + suc j = omega arith in
      (
        suc j,
        omega arith,
        rw e (rw o at r),
        FirstNul-suc m (c + n) j (ground arith) (rw w at first),
      )
]

-- GoString and cStringToGoString end wherever the memory from the pointer on has a NUL byte, after no
-- more rounds than that byte's distance and one, and return the bytes before the first one.
pub go_string-FirstNul :
    (fuel : ℕ) (m : Memory) (c k : ℕ)
    → c ≢ 0
    → m (c + k) ≡ 0
    → k < fuel
    → (n : ℕ) × (n ≤ k)
      × FirstNul m c n
      × (go_string fuel m c ≡ some (read m c n))
      × (c_string_to_go_string fuel m c ≡ some (read m c n))
unfolding go_string c_string_to_go_string
go_string-FirstNul fuel m c k nz z h =
    let a : c + 0 ≡ c = omega arith in
    let b : (c == 0) ≡ false = ground arith in
    let (j, l, r, first) = c_length_lem fuel m c 0 k (rw a z) h in
    let o : 0 + j ≡ j = omega arith in
    let r' : c_length fuel m c 0 ≡ some j = rw o at r in
    (j, l, rw a at first, rw (b, r') refl, rw (b, r') refl)
