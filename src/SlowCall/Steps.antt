-- ===== src/SlowCall/Steps.antt =====
-- One argument after the other: what the packing loops have stored.
use pureffi.Common.{
  ℕ, ltb, true, suc, ◌+◌, ◌≤◌, ◌<◌, ◌≡◌, refl, sym, ◌∙◌, List, [], ◌∷◌, ◌++◌, append_assoc,
  append-nil, none, some, length, length-append, length-set, set, take, take-set, arith,
}
use pureffi.Go.Values.{Value, Heap}
use pureffi.Go.Outcome.{ok}
use pureffi.Goffi.{TypeDescriptor}
use pureffi.SlowCall.{
  Packed, Packing, Run, ◌then_run◌, store_arg, store_kept, store_packed, pack_one, pack_fixed,
}
use pureffi.SlowCall.Pack.{
  Extends, Extends-trans, Lives, Lives-mono, Encodes, is_packable, pack_arg-PacksAs, AllEncoded,
  AllEncoded-mono, AllEncoded-snoc,
}

-- Every value can be packed, and the memory that it refers to is there.
abbrev pub Packable : Heap → List Value → Type 0
Packable h [] = Unit {0}
Packable h (v ∷ vs) = (is_packable v ≡ true) × Lives h v × Packable h vs

pub Packable-mono : (h h' : Heap) (vs : List Value) → Extends h h' → Packable h vs → Packable h' vs
Packable-mono h h' [] f p = tt
Packable-mono h h' (v ∷ vs) f (a, b, c) = (a, Lives-mono h h' v f b, Packable-mono h h' vs f c)

-- Some arguments have been packed.
pub record Ready (cb : ℕ → ℕ) (ts : List TypeDescriptor) (vs : List Value) (s : Packing)
    : Type 0 where
  pub types : s.actual_arg_types ≡ ts
  pub args : length s.ctx.ffi_args ≡ 32
  pub count : s.ffi_args_count ≡ length vs
  pub kept : s.keep_alive_count ≡ length vs
  pub stored : AllEncoded cb s.memory (take s.ffi_args_count s.ctx.ffi_args) vs

-- A run that goes on from s without a panic, and after which vs have been packed.
abbrev pub Reaches : (ℕ → ℕ) → List TypeDescriptor → List Value → Heap → Run → Type 0
Reaches cb ts vs h r = (s : Packing) × (r ≡ (s, none)) × Ready cb ts vs s × Extends h s.memory

pub then_run-Reaches :
    (cb : ℕ → ℕ) (ts us : List TypeDescriptor) (vs ws : List Value) (h : Heap) (r : Run)
    (k : Packing → Run)
    → Reaches cb ts vs h r
    → ((s : Packing) → Ready cb ts vs s → Extends h s.memory → Reaches cb us ws s.memory (k s))
    → Reaches cb us ws h (r then_run k)
then_run-Reaches cb ts us vs ws h r k (s, e, ready, f) next =
    let (s', e', ready', g) = next s ready f in
    (s', rw e e', ready', Extends-trans h s.memory s'.memory f g)

pub length-snoc : (vs : List Value) (v : Value) → length (vs ++ v ∷ []) ≡ suc (length vs)
length-snoc vs v = omega (arith, length-append vs (v ∷ []))

-- The variables after both of an argument's stores.
abbrev packed_state : Packing → Packed → Packing
packed_state s p = record s {
  ctx = record {
    ffi_args = set s.ctx.ffi_args s.ffi_args_count (some p.ptr);
    keep_alive = set s.ctx.keep_alive s.keep_alive_count (some p.kept);
  };
  ffi_args_count = suc s.ffi_args_count;
  keep_alive_count = suc s.keep_alive_count;
  memory = p.heap;
}

store_packed-eq :
    (s : Packing) (p : Packed)
    → s.ffi_args_count < 32
    → s.keep_alive_count < 32
    → store_packed s (ok p) ≡ (packed_state s p, none)
unfolding store_packed store_arg store_kept
store_packed-eq s p n m =
    let a : ltb s.ffi_args_count 32 ≡ true = ground arith in
    let b : ltb s.keep_alive_count 32 ≡ true = ground arith in rw (a, b) refl

store_packed-Reaches :
    (cb : ℕ → ℕ) (ts : List TypeDescriptor) (vs : List Value) (v : Value) (s : Packing) (p : Packed)
    → length vs < 32
    → Ready cb ts vs s
    → Encodes cb p.heap p.ptr v
    → Extends s.memory p.heap
    → Reaches cb ts (vs ++ v ∷ []) s.memory (store_packed s (ok p))
store_packed-Reaches cb ts vs v s p n ready e f =
    let a : s.ffi_args_count < 32 = rw ready.count n in
    let b : s.keep_alive_count < 32 = rw ready.kept n in
    (
      packed_state s p,
      store_packed-eq s p a b,
      record {
        types = ready.types;
        args = length-set s.ctx.ffi_args s.ffi_args_count (some p.ptr) ∙ ready.args;
        count = omega (arith, ready.count, length-snoc vs v);
        kept = omega (arith, ready.kept, length-snoc vs v);
        stored = rw (take-set s.ctx.ffi_args s.ffi_args_count (some p.ptr) (rw ready.args a)) (
            AllEncoded-snoc cb p.heap (take s.ffi_args_count s.ctx.ffi_args) vs p.ptr v
              (AllEncoded-mono cb s.memory p.heap _ vs f ready.stored) e);
      },
      f,
    )

pub pack_one-Reaches :
    (cb : ℕ → ℕ) (ts : List TypeDescriptor) (vs : List Value) (v : Value) (s : Packing)
    → length vs < 32
    → is_packable v ≡ true
    → Lives s.memory v
    → Ready cb ts vs s
    → Reaches cb ts (vs ++ v ∷ []) s.memory (pack_one cb v s)
unfolding pack_one
pack_one-Reaches cb ts vs v s n k l ready =
    let (p, e, enc, f) = pack_arg-PacksAs cb v s.memory k l in
    rw e (store_packed-Reaches cb ts vs v s p n ready enc f)

pub pack_fixed-Reaches :
    (cb : ℕ → ℕ) (ts : List TypeDescriptor) (vs ws : List Value) (s : Packing)
    → length vs + length ws ≤ 32
    → Packable s.memory ws
    → Ready cb ts vs s
    → Reaches cb ts (vs ++ ws) s.memory (pack_fixed cb ws s)
unfolding pack_fixed
pack_fixed-Reaches cb ts vs [] s n k ready = (s, refl, rw (append-nil vs) ready, λ a o e. e)
pack_fixed-Reaches cb ts vs (w ∷ ws) s n (k, l, ks) ready =
    then_run-Reaches cb ts ts (vs ++ w ∷ []) (vs ++ w ∷ ws) s.memory (pack_one cb w s)
      (pack_fixed cb ws) (pack_one-Reaches cb ts vs w s (omega arith) k l ready)
      (λ s' r f. rw (sym (append_assoc vs (w ∷ []) ws)) (
        pack_fixed-Reaches cb ts (vs ++ w ∷ []) ws s' (omega (arith, length-snoc vs w))
          (Packable-mono s.memory s'.memory ws f ks) r))
