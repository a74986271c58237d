-- ===== src/SlowCall/Return/Fits.antt =====
-- The closure's results against the function's type, the bytes in the buffer and errno.
use pureffi.Common.{
  ℕ, zero, suc, ◌+◌, ◌*◌, ◌<◌, ◌==◌, ◌≡◌, ◌≢◌, refl, sym, ◌⊎◌, inl, inr, Bool, true, false, List,
  [], ◌∷◌, Option, none, some, get_or, take, Bool-cases, arith,
}
use pureffi.Go.Types.{
  Decl, decl, is_declared, Types, GoType, bool, number, string, unsafe_pointer, pointer, slice,
  array, struct, func, other,
}
use pureffi.Go.Layout.{size}
use pureffi.Go.Outcome.{ok, ok-injective}
use pureffi.Register.{Implementation, result_rules}
use pureffi.CString.{Memory, read}
use pureffi.CString.Termination.{FirstNul, go_string-FirstNul}
use pureffi.SlowCall.Return.{
  Unpacked, text, truth, address, nil_func, made_func, raw, word_of, is_set, RegisterFunc,
  unpack_ret, Returned, value, error, error_of, closure_results,
}

-- The word at the start of the buffer, by its bytes, the lowest first.
abbrev pub first_word : List ℕ → ℕ
first_word bs =
    get_or bs 0 0
    + 0x100 * get_or bs 1 0
    + 0x10000 * get_or bs 2 0
    + 0x1000000 * get_or bs 3 0
    + 0x100000000 * get_or bs 4 0
    + 0x10000000000 * get_or bs 5 0
    + 0x1000000000000 * get_or bs 6 0
    + 0x100000000000000 * get_or bs 7 0

word_lem : (bs : List ℕ) → word_of 8 bs ≡ first_word bs
word_lem [] = refl
word_lem (a ∷ []) = omega arith
word_lem (a ∷ (b ∷ [])) = omega arith
word_lem (a ∷ (b ∷ (c ∷ []))) = omega arith
word_lem (a ∷ (b ∷ (c ∷ (d ∷ [])))) = omega arith
word_lem (a ∷ (b ∷ (c ∷ (d ∷ (e ∷ []))))) = omega arith
word_lem (a ∷ (b ∷ (c ∷ (d ∷ (e ∷ (f ∷ [])))))) = omega arith
word_lem (a ∷ (b ∷ (c ∷ (d ∷ (e ∷ (f ∷ (g ∷ []))))))) = omega arith
word_lem (a ∷ (b ∷ (c ∷ (d ∷ (e ∷ (f ∷ (g ∷ (h ∷ bs)))))))) = omega arith

-- The value of a result type that the bytes in the buffer stand for: the text behind a pointer up to
-- its first NUL byte, whether a byte is set, an address, what RegisterFunc makes of a function
-- pointer, and the bytes of the type.
abbrev pub Decoded : RegisterFunc → Memory → List ℕ → GoType → Unpacked → Type 0
Decoded register m bs (string d) v =
    ((first_word bs ≡ 0) × (v ≡ text (some [])))
    ⊎ ((n : ℕ) × (first_word bs ≢ 0)
        × FirstNul m (first_word bs) n
        × (v ≡ text (some (read m (first_word bs) n))))
Decoded register m bs (bool d) v =
    ((get_or bs 0 0 ≡ 0) × (v ≡ truth false)) ⊎ ((get_or bs 0 0 ≢ 0) × (v ≡ truth true))
Decoded register m bs (pointer d t) v = v ≡ address (first_word bs)
Decoded register m bs (unsafe_pointer d) v = v ≡ address (first_word bs)
Decoded register m bs (slice d t) v = v ≡ address (first_word bs)
Decoded register m bs (func d ins w outs) v =
    ((first_word bs ≡ 0) × (v ≡ nil_func))
    ⊎ ((i : Option Implementation) × (first_word bs ≢ 0)
        × (register (func d ins w outs) (first_word bs) ≡ ok i)
        × (v ≡ made_func i))
Decoded register m bs t v = v ≡ raw (take (size t) bs)

-- A first result that is a text has a NUL byte in reach of the fuel, and one that is a function can be
-- registered.
abbrev pub Readable : RegisterFunc → ℕ → Memory → List ℕ → List GoType → Type 0
Readable register fuel m bs (string d ∷ ts) =
    (first_word bs ≡ 0) ⊎ ((k : ℕ) × (m (first_word bs + k) ≡ 0) × (k < fuel))
Readable register fuel m bs (func d ins w outs ∷ ts) =
    (first_word bs ≡ 0)
    ⊎ ((i : Option Implementation) × (register (func d ins w outs) (first_word bs) ≡ ok i))
Readable register fuel m bs _ = Unit {0}

-- A nil error for 0, and else the error that says errno.
abbrev pub errno_error : ℕ → Returned
errno_error zero = error none
errno_error (suc n) = error (some (suc n))

-- The predeclared type error.
abbrev pub is_error : GoType → Bool
is_error t = is_declared "" "error" (decl t)

-- One result for each result type: for a sole one of type error and for a second one the error that says
-- errno, and the value that the bytes stand for elsewhere.
abbrev pub Fits : RegisterFunc → Memory → List ℕ → ℕ → List GoType → List Returned → Type 0
Fits register m bs errno [] rs = rs ≡ []
Fits register m bs errno (t ∷ []) rs =
    ((is_error t ≡ true) × (rs ≡ errno_error errno ∷ []))
    ⊎ ((is_error t ≡ false) × ((v : Unpacked) × (rs ≡ value v ∷ []) × Decoded register m bs t v))
Fits register m bs errno (t ∷ (e ∷ [])) rs =
    (is_error e ≡ true)
    × ((v : Unpacked) × (rs ≡ value v ∷ errno_error errno ∷ []) × Decoded register m bs t v)
Fits register m bs errno (t ∷ (e ∷ (u ∷ ts))) rs = ⊥

error_of_lem : (errno : ℕ) → error (error_of errno) ≡ errno_error errno
error_of_lem zero = refl
error_of_lem (suc n) = let z : (suc n == 0) ≡ false = ground arith in rw z refl

is_set_lem :
    (bs : List ℕ)
    → ((get_or bs 0 0 ≡ 0) × (is_set bs ≡ false)) ⊎ ((get_or bs 0 0 ≢ 0) × (is_set bs ≡ true))
is_set_lem [] = inl (refl, refl)
is_set_lem (b ∷ bs) = elim (Bool-cases (b == 0)) [
  | inl e ↦ inl (ground arith, rw e refl)
  | inr n ↦ inr (ground arith, rw n refl)
]

module _ (register : RegisterFunc) (fuel : ℕ) (m : Memory) (bs : List ℕ) where
  unpack_text :
      (d : Decl)
      → (first_word bs ≡ 0) ⊎ ((k : ℕ) × (m (first_word bs + k) ≡ 0) × (k < fuel))
      → (v : Unpacked) × (unpack_ret register fuel m (string d) bs ≡ ok v)
        × Decoded register m bs (string d) v
  unfolding unpack_ret
  unpack_text d r = elim (Bool-cases (first_word bs == 0)) [
    | inl e ↦ (text (some []), rw (word_lem bs, e) refl, inl (ground arith, refl))
    | inr n ↦ elim r [
      | inl z ↦ absurd (ground arith)
      | inr (k, z, l) ↦
          let nz : first_word bs ≢ 0 = ground arith in
          let (j, le, first, x, y) = go_string-FirstNul fuel m (first_word bs) k nz z l in
          (
            text (some (read m (first_word bs) j)),
            rw (word_lem bs, n, y) refl,
            inr (j, nz, first, refl),
          )
    ]
  ]

  unpack_func :
      (d : Decl) (ins : Types) (w : Bool) (outs : Types)
      → (first_word bs ≡ 0)
        ⊎ ((i : Option Implementation) × (register (func d ins w outs) (first_word bs) ≡ ok i))
      → (v : Unpacked) × (unpack_ret register fuel m (func d ins w outs) bs ≡ ok v)
        × Decoded register m bs (func d ins w outs) v
  unfolding unpack_ret
  unpack_func d ins w outs r = elim (Bool-cases (first_word bs == 0)) [
    | inl e ↦ (nil_func, rw (word_lem bs, e) refl, inl (ground arith, refl))
    | inr n ↦ elim r [
      | inl z ↦ absurd (ground arith)
      | inr (i, e) ↦ (made_func i, rw (word_lem bs, n, e) refl, inr (i, ground arith, e, refl))
    ]
  ]

  unpack_bool :
      (d : Decl)
      → (v : Unpacked) × (unpack_ret register fuel m (bool d) bs ≡ ok v)
        × Decoded register m bs (bool d) v
  unfolding unpack_ret
  unpack_bool d = elim (is_set_lem bs) [
    | inl (z, e) ↦ (truth false, rw e refl, inl (z, refl))
    | inr (n, e) ↦ (truth true, rw e refl, inr (n, refl))
  ]

  unpack_ret-Decoded :
      (t : GoType) (ts : List GoType)
      → Readable register fuel m bs (t ∷ ts)
      → (v : Unpacked) × (unpack_ret register fuel m t bs ≡ ok v) × Decoded register m bs t v
  unfolding unpack_ret
  unpack_ret-Decoded (string d) ts r = unpack_text d r
  unpack_ret-Decoded (func d ins w outs) ts r = unpack_func d ins w outs r
  unpack_ret-Decoded (bool d) ts r = unpack_bool d
  unpack_ret-Decoded (pointer d t) ts r = (address (first_word bs), rw (word_lem bs) refl, refl)
  unpack_ret-Decoded (unsafe_pointer d) ts r =
      (address (first_word bs), rw (word_lem bs) refl, refl)
  unpack_ret-Decoded (slice d t) ts r = (address (first_word bs), rw (word_lem bs) refl, refl)
  unpack_ret-Decoded (number d k) ts r = (_, refl, refl)
  unpack_ret-Decoded (array d n t) ts r = (_, refl, refl)
  unpack_ret-Decoded (struct d fs) ts r = (_, refl, refl)
  unpack_ret-Decoded (other d k) ts r = (_, refl, refl)

  one_result-Fits :
      (t : GoType) (errno : ℕ)
      → Readable register fuel m bs (t ∷ [])
      → (rs : List Returned) × (closure_results
            (λ u. unpack_ret register fuel m u bs)
            (t ∷ [])
            (is_error t)
            errno
          ≡ ok rs)
        × Fits register m bs errno (t ∷ []) rs
  unfolding closure_results
  one_result-Fits t errno r = elim (Bool-cases (is_error t)) [
    | inl y ↦ (errno_error errno ∷ [], rw (y, error_of_lem errno) refl, inl (y, refl))
    | inr n ↦
        let (v, e, d) = unpack_ret-Decoded t [] r in
        (value v ∷ [], rw (n, e) refl, inr (n, (v, refl, d)))
  ]

  two_results-Fits :
      (t e : GoType) (errno : ℕ)
      → Readable register fuel m bs (t ∷ (e ∷ []))
      → is_error e ≡ true
      → (rs : List Returned) × (closure_results
            (λ u. unpack_ret register fuel m u bs)
            (t ∷ (e ∷ []))
            true
            errno
          ≡ ok rs)
        × Fits register m bs errno (t ∷ (e ∷ [])) rs
  unfolding closure_results
  two_results-Fits t e errno r y =
      let (v, q, d) = unpack_ret-Decoded t (e ∷ []) r in
      (value v ∷ errno_error errno ∷ [], rw (q, error_of_lem errno) refl, (y, (v, refl, d)))

  -- For a function type whose results RegisterFunc accepts, where the text of a first result has a NUL
  -- byte in reach of the fuel and a function pointer as first result can be registered, the closure
  -- returns one value for each result: for a sole one of type error and for a second one the errno of
  -- the call, nil where that is 0, and elsewhere the value that the bytes in the buffer stand for.
  pub closure_results-Fits :
      (outs : List GoType) (has_error : Bool) (errno : ℕ)
      → result_rules outs ≡ ok has_error
      → Readable register fuel m bs outs
      → (rs : List Returned) × (closure_results
            (λ t. unpack_ret register fuel m t bs)
            outs
            has_error
            errno
          ≡ ok rs)
        × Fits register m bs errno outs rs
  unfolding result_rules closure_results
  closure_results-Fits [] has_error errno h r = ([], refl, refl)
  closure_results-Fits (t ∷ []) has_error errno h r =
      rw (sym (ok-injective h)) (one_result-Fits t errno r)
  closure_results-Fits (t ∷ (e ∷ [])) has_error errno h r = elim (Bool-cases (is_error e)) [
    | inl y ↦ rw (sym (ok-injective (rw y at h))) (two_results-Fits t e errno r y)
    | inr n ↦ absurd (ground arith)
  ]
  closure_results-Fits (t ∷ (e ∷ (u ∷ ts))) has_error errno h r = absurd (ground arith)
