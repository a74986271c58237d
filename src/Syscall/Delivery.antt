-- ===== src/Syscall/Delivery.antt =====
-- What a SyscallN passes on and returns.
use pureffi.Common.{
  ℕ, zero, suc, ◌+◌, ◌==◌, ltb, ◌≤◌, ◌<◌, ◌≡◌, refl, sym, ap, ap₂, ◌∙◌, false, inl, inr, List, [],
  ◌∷◌, ◌++◌, append_assoc, length-append, Option, none, some, length, get_elem?, get_or, take, map,
  if◌then◌else◌, Bool-cases, arith, ◌-◌, ◌%◌, ◌^◌, replicate,
}
use pureffi.Go.Outcome.{
  ◌>>=◌, Outcome, ok, panic, fn_is_nil, too_many_arguments, interface_not_prepared,
}
use pureffi.Goffi.{TypeDescriptor, Members, member, CallInterface, default_call, ordinary}
use pureffi.Register.{Prepare}
use pureffi.Syscall.{
  syscall_interface, prepare_from, init_syscall_cifs, SyscallContext, count_up, new_context, copy,
  CallFunction, Results, is_minus_one, results, call, syscall_n,
}

prepare_from-get_elem? :
    (prepare : Prepare) (i count n : ℕ)
    → n < count
    → get_elem? (prepare_from prepare i count) n
      ≡ some
          (record { cif = syscall_interface (i + n); error = prepare (syscall_interface (i + n)) })
unfolding prepare_from
prepare_from-get_elem? prepare i zero n h = absurd (omega arith)
prepare_from-get_elem? prepare i (suc count) zero h = let e : i + 0 ≡ i = omega arith in rw e refl
prepare_from-get_elem? prepare i (suc count) (suc n) h =
    let e : i + suc n ≡ suc i + n = omega arith in
    rw e (prepare_from-get_elem? prepare (suc i) count n (omega arith))

get_or-append_length : (xs ys : List ℕ) (y d : ℕ) → get_or (xs ++ y ∷ ys) (length xs) d ≡ y
get_or-append_length [] ys y d = refl
get_or-append_length (x ∷ xs) ys y d = get_or-append_length xs ys y d

-- The words that the pointers, from the first of the copied entries on, point to.
copy-pointed :
    (before dst src : List ℕ)
    → length src ≤ length dst
    → map
        (λ i. get_or (before ++ copy dst src) i 0)
        (take (length src) (count_up (length before) (length dst)))
      ≡ src
unfolding copy count_up
copy-pointed before [] [] h = refl
copy-pointed before [] (s ∷ src) h = absurd (omega arith)
copy-pointed before (d ∷ dst) [] h = refl
copy-pointed before (d ∷ dst) (s ∷ src) h =
    let n : suc (length before) ≡ length (before ++ s ∷ []) =
      omega (arith, length-append before (s ∷ [])) in
    let rest : map (λ i. get_or (before ++ s ∷ copy dst src) i 0)
          (take (length src) (count_up (suc (length before)) (length dst)))
        ≡ src =
      rw (n, sym (append_assoc before (s ∷ []) (copy dst src)))
        (copy-pointed (before ++ s ∷ []) dst src (omega arith)) in
    ap₂ (λ x l. x ∷ l) (get_or-append_length before (copy dst src) s 0) rest

length-copy : (dst src : List ℕ) → length (copy dst src) ≡ length dst
unfolding copy
length-copy [] src = refl
length-copy (d ∷ dst) [] = refl
length-copy (d ∷ dst) (s ∷ src) = ap suc (length-copy dst src)

-- A context that the pool gives out: pointers to the entries in order.
pub record Linked (ctx : SyscallContext) : Type 0 where
  pub sized : length ctx.args ≡ 32
  pub linked : ctx.ffi_args ≡ count_up 0 32

pub new_context-Linked : Linked new_context
unfolding new_context
new_context-Linked = record { sized = refl; linked = refl }

-- The interface of a call with n arguments: a pointer for each, and two words as the result.
abbrev pub words_interface : ℕ → CallInterface
words_interface n = record {
  convention = default_call;
  preparation = ordinary;
  ret_type =
      TypeDescriptor.struct 16 8
        (member TypeDescriptor.uint64 (member TypeDescriptor.uint64 Members.none));
  arg_types = replicate n TypeDescriptor.pointer;
}

-- The C function's two words, and the errno where the lower 32 bits of the first one are all set.
abbrev pub words_and_errno : (ℕ × ℕ) × ℕ → Results
words_and_errno ((r1, r2), errno) = record {
  r1 = r1;
  r2 = r2;
  err = if r1 % 2 ^ 32 == 2 ^ 32 - 1 then errno else 0;
}

-- What a caller sees: the panics in the order of the checks, or the C function's two words with the
-- errno of a call that returned -1.
unfoldable pub syscall_spec : CallFunction → Prepare → ℕ → List ℕ → Outcome Results
syscall_spec call_function prepare fn args =
    if fn == 0
    then panic fn_is_nil
    else if ltb 32 (length args)
    then panic too_many_arguments
    else elim (prepare (words_interface (length args))) [
      | some e ↦ panic (interface_not_prepared (length args) e)
      | none ↦ ok (words_and_errno (call_function (words_interface (length args)) fn args (0, 0)))
    ]

results_lem : (r : (ℕ × ℕ) × ℕ) → results r ≡ words_and_errno r
unfolding results is_minus_one
results_lem r = refl

call-Linked :
    (call_function : CallFunction) (cif : CallInterface) (fn : ℕ) (args : List ℕ)
    (pooled : SyscallContext)
    → Linked pooled
    → length args ≤ 32
    → ((call call_function cif fn args pooled).0
        ≡ words_and_errno (call_function cif fn args (0, 0)))
      × Linked (call call_function cif fn args pooled).1
unfolding call
call-Linked call_function cif fn args pooled l h =
    let n : length args ≤ length pooled.args = omega (arith, l.sized) in
    let e : map (λ i. get_or (copy pooled.args args) i 0) (take (length args) pooled.ffi_args)
        ≡ args =
      rw (l.linked, sym l.sized) (copy-pointed [] pooled.args args n) in
    (
      ap (λ vs. results (call_function cif fn vs (0, 0))) e
          ∙ results_lem (call_function cif fn args (0, 0)),
      record { sized = length-copy pooled.args args ∙ l.sized; linked = l.linked },
    )

-- A call with an interface that was prepared.
prepared_call :
    (call_function : CallFunction) (prepare : Prepare) (fn : ℕ) (args : List ℕ)
    (pooled : SyscallContext) (o : Option ℕ)
    → prepare (syscall_interface (length args)) ≡ o
    → Linked pooled
    → (fn == 0) ≡ false
    → length args ≤ 32
    → (after : SyscallContext) × (syscall_n call_function (init_syscall_cifs prepare) fn args pooled
        ≡ (syscall_spec call_function prepare fn args >>= λ r. ok (r, after)))
      × Linked after
unfolding syscall_n syscall_spec init_syscall_cifs
prepared_call call_function prepare fn args pooled o q l z h =
    let t : ltb 32 (length args) ≡ false = ground arith in
    let i : 0 + length args ≡ length args = omega arith in
    let g = prepare_from-get_elem? prepare 0 33 (length args) (omega arith) in go o q t (rw i at g)
  where
    go :
        (o : Option ℕ)
        → prepare (syscall_interface (length args)) ≡ o
        → ltb 32 (length args) ≡ false
        → get_elem? (prepare_from prepare 0 33) (length args)
          ≡ some (record {
            cif = syscall_interface (length args);
            error = prepare (syscall_interface (length args));
          })
        → (after : SyscallContext) × (syscall_n call_function
              (init_syscall_cifs prepare)
              fn
              args
              pooled
            ≡ (syscall_spec call_function prepare fn args >>= λ r. ok (r, after)))
          × Linked after
    go none e t g =
        let (a, b) =
          call-Linked call_function (syscall_interface (length args)) fn args pooled l h in
        (
          (call call_function (syscall_interface (length args)) fn args pooled).1,
          rw (z, t, g, e)
              (ap
                (λ r.
                  ok (r, (call call_function (syscall_interface (length args)) fn args pooled).1))
                a),
          b,
        )
    go (some x) e t g = (pooled, rw (z, t, g, e) refl, l)

-- SyscallN, whatever an earlier call left in a linked pooled context, panics for a nil function, then
-- for more than 32 arguments, then where the interface for that many arguments was not prepared,
-- never at an index; and else the C function gets the arguments in order as pointers and a cleared
-- result of two words, which SyscallN returns with the errno where the first one is -1 as an int32, and
-- with 0 elsewhere. The context stays linked for the next call.
pub syscall_n_lem :
    (call_function : CallFunction) (prepare : Prepare) (fn : ℕ) (args : List ℕ)
    (pooled : SyscallContext)
    → Linked pooled
    → (after : SyscallContext) × (syscall_n call_function (init_syscall_cifs prepare) fn args pooled
        ≡ (syscall_spec call_function prepare fn args >>= λ r. ok (r, after)))
      × Linked after
unfolding syscall_n syscall_spec
syscall_n_lem call_function prepare fn args pooled l = elim (Bool-cases (fn == 0)) [
  | inl z ↦ (pooled, rw z refl, l)
  | inr z ↦ elim (Bool-cases (ltb 32 (length args))) [
    | inl t ↦ (pooled, rw (z, t) refl, l)
    | inr t ↦ prepared_call call_function prepare fn args pooled _ refl l z (ground arith)
  ]
]
