-- ===== src/CString/RoundTrip.antt =====
-- CString against GoString.
use mathlib.Core.Path.{subst}
use pureffi.Common.{
  ℕ, zero, suc, ◌+◌, ◌==◌, ◌≤◌, ◌<◌, ◌≡◌, ◌≢◌, refl, sym, ap, ◌∙◌, false, ◌⊎◌, inl, inr, List, [],
  ◌∷◌, some, length, if◌then◌else◌, Bool-cases, arith,
}
use pureffi.Go.Outcome.{ok}
use pureffi.CString.{Memory, write, copy, read, c_length, go_string, Malloc, fill_string, c_string}

-- The text up to its first NUL byte.
unfoldable pub until_nul : List ℕ → List ℕ
until_nul [] = []
until_nul (c ∷ s) = if c == 0 then [] else c ∷ until_nul s

-- The memory from an address on holds a text and a NUL byte.
abbrev Holds : Memory → ℕ → List ℕ → Type 0
Holds m a [] = m a ≡ 0
Holds m a (c ∷ s) = (m a ≡ c) × Holds m (suc a) s

write-same : (m : Memory) (a c : ℕ) → write m a c a ≡ c
write-same m a c = ground arith

write-other : (m : Memory) (a c b : ℕ) → b ≢ a → write m a c b ≡ m b
write-other m a c b h = ground arith

pub copy-frame :
    (m : Memory) (a : ℕ) (s : List ℕ) (b : ℕ) → (b < a) ⊎ (a + length s ≤ b) → copy m a s b ≡ m b
unfolding copy
copy-frame m a [] b h = refl
copy-frame m a (c ∷ s) b h =
    copy-frame (write m a c) (suc a) s b (ground arith) ∙ write-other m a c b (ground arith)

fill_string-cons :
    (c : ℕ) (s : List ℕ) (p : ℕ) (m : Memory)
    → fill_string (c ∷ s) p m ≡ fill_string s (suc p) (write m p c)
unfolding fill_string copy
fill_string-cons c s p m =
    let e : p + suc (length s) ≡ suc p + length s = omega arith in
    ap (λ a. write (copy (write m p c) (suc p) s) a 0) e

fill_string-at : (s : List ℕ) (p q : ℕ) (m : Memory) → q < p → fill_string s p m q ≡ m q
unfolding fill_string
fill_string-at s p q m h =
    write-other (copy m p s) (p + length s) 0 q (ground arith) ∙ copy-frame m p s q (inl h)

fill_string-Holds : (s : List ℕ) (p : ℕ) (m : Memory) → Holds (fill_string s p m) p s
unfolding fill_string copy
fill_string-Holds [] p m = ground arith
fill_string-Holds (c ∷ s) p m =
    subst (λ f. Holds f p (c ∷ s)) (sym (fill_string-cons c s p m))
      (
        fill_string-at s (suc p) p (write m p c) (omega arith) ∙ write-same m p c,
        fill_string-Holds s (suc p) (write m p c),
      )

c_length-Holds :
    (fuel : ℕ) (m : Memory) (a n : ℕ) (s : List ℕ)
    → length s < fuel
    → Holds m (a + n) s
    → c_length fuel m a n ≡ some (n + length (until_nul s))
unfolding c_length until_nul
c_length-Holds zero m a n s h k = absurd (omega arith)
c_length-Holds (suc fuel) m a n [] h k = ground arith
c_length-Holds (suc fuel) m a n (c ∷ s) h (e, k) =
    let q : a + suc n ≡ suc (a + n) = omega arith in
    let ih = c_length-Holds fuel m a (suc n) s (omega arith) (rw q k) in ground (arith, ih)

read-Holds :
    (m : Memory) (a : ℕ) (s : List ℕ) → Holds m a s → read m a (length (until_nul s)) ≡ until_nul s
unfolding read until_nul
read-Holds m a [] k = refl
read-Holds m a (c ∷ s) (e, k) = elim (Bool-cases (c == 0)) [
  | inl z ↦ rw z refl
  | inr z ↦ rw (z, e) (ap (λ l. c ∷ l) (read-Holds m (suc a) s k))
]

go_string-Holds :
    (fuel : ℕ) (m : Memory) (p : ℕ) (s : List ℕ)
    → p ≢ 0
    → length s < fuel
    → Holds m p s
    → go_string fuel m p ≡ some (until_nul s)
unfolding go_string
go_string-Holds fuel m p s nz h k =
    let z : (p == 0) ≡ false = ground arith in
    let q : p + 0 ≡ p = omega arith in
    let n : 0 + length (until_nul s) ≡ length (until_nul s) = omega arith in
    rw (z, c_length-Holds fuel m p 0 s h (rw q k), n) (ap (λ l. some l) (read-Holds m p s k))

-- What a call of CString that returned went through.
c_string-eq-ok :
    (malloc_fn : ℕ) (malloc : Malloc) (s : List ℕ) (m : Memory) (p : ℕ) (m' : Memory)
    → c_string malloc_fn malloc s m ≡ ok (p, m')
    → (p ≢ 0)
      × ((before : Memory) × (malloc (length s + 1) m ≡ inr (p, before))
          × (m' ≡ fill_string s p before))
unfolding c_string
c_string-eq-ok malloc_fn malloc s m p m' h = go (malloc (length s + 1) m) refl
  where
    go :
        (o : ℕ ⊎ (ℕ × Memory))
        → malloc (length s + 1) m ≡ o
        → (p ≢ 0)
          × ((before : Memory) × (malloc (length s + 1) m ≡ inr (p, before))
              × (m' ≡ fill_string s p before))
    go (inl e) k = absurd (ground arith)
    go (inr (q, before)) k =
        let nz : q ≢ 0 = ground arith in
        let e : q ≡ p = ground arith in
        let f : fill_string s q before ≡ m' = ground arith in
        (rw (sym e) nz, (before, rw (sym e) k, rw (sym e) (sym f)))

-- GoString reads back what CString wrote, up to its first NUL byte: all of a text without one. Fuel
-- beyond the text's length is enough.
pub c_string-go_string :
    (malloc_fn : ℕ) (malloc : Malloc) (s : List ℕ) (m : Memory) (p : ℕ) (m' : Memory) (fuel : ℕ)
    → c_string malloc_fn malloc s m ≡ ok (p, m')
    → length s < fuel
    → go_string fuel m' p ≡ some (until_nul s)
c_string-go_string malloc_fn malloc s m p m' fuel h k =
    let (nz, (before, a, e)) = c_string-eq-ok malloc_fn malloc s m p m' h in
    rw e (go_string-Holds fuel (fill_string s p before) p s nz k (fill_string-Holds s p before))

fill_string-frame :
    (s : List ℕ) (p : ℕ) (m : Memory) (b : ℕ)
    → (b < p) ⊎ (p + length s < b)
    → fill_string s p m b ≡ m b
unfolding fill_string
fill_string-frame s p m b h =
    write-other (copy m p s) (p + length s) 0 b (ground arith) ∙ copy-frame m p s b (ground arith)

-- CString asks malloc for one byte more than the text has, and writes nowhere else.
pub c_string-frame :
    (malloc_fn : ℕ) (malloc : Malloc) (s : List ℕ) (m : Memory) (p : ℕ) (m' : Memory)
    → c_string malloc_fn malloc s m ≡ ok (p, m')
    → (before : Memory) × (malloc (length s + 1) m ≡ inr (p, before))
      × ((b : ℕ) → (b < p) ⊎ (p + length s < b) → m' b ≡ before b)
c_string-frame malloc_fn malloc s m p m' h =
    let (nz, (before, a, e)) = c_string-eq-ok malloc_fn malloc s m p m' h in
    (before, a, λ b k. rw e (fill_string-frame s p before b k))
