-- ===== src/Symbol/Name.antt =====
-- The name that getSymbolName finds, and what RegisterFunc makes of it.
use pureffi.Common.{
  ℕ, ◌+◌, ◌==◌, ◌<◌, ◌≡◌, ◌≢◌, refl, ap, ◌∙◌, ◌⊎◌, inl, inr, true, false, List, [], none, some,
  arith,
}
use pureffi.Go.Platform.{Platform, Os, is_windows}
use pureffi.Go.Types.{Signature}
use pureffi.Go.Outcome.{ok}
use pureffi.Register.{Prepare, SlowFunc, slow, register_signature}
use pureffi.Register.Markers.{first_param, is_called_variadic, plan-is_c_variadic}
use pureffi.SlowCall.Call.Agreement.{Closure, register_signature-Closure}
use pureffi.CString.{Memory, read}
use pureffi.CString.Termination.{FirstNul, go_string-FirstNul}
use pureffi.Loader.{GetSymbol}
use pureffi.Symbol.{SymbolVars, dladdr_once, Dladdr, name_from, get_symbol_name}

-- What dladdr says of an address: no name, or a C string with a NUL byte in reach of the fuel.
pub data Known (m : Memory) (fuel : ℕ) (r : ℕ × ℕ) : Type 0 where
  nameless : (r.0 ≡ 0) ⊎ (r.1 ≡ 0) → Known m fuel r
  named : (k : ℕ) → r.0 ≢ 0 → r.1 ≢ 0 → m (r.1 + k) ≡ 0 → k < fuel → Known m fuel r

-- The name that goes with it.
abbrev pub IsName : Memory → ℕ × ℕ → List ℕ → Type 0
IsName m r name =
    (((r.0 ≡ 0) ⊎ (r.1 ≡ 0)) × (name ≡ []))
    ⊎ ((n : ℕ) × (r.0 ≢ 0) × (r.1 ≢ 0) × FirstNul m r.1 n × (name ≡ read m r.1 n))

name_from_lem :
    (fuel : ℕ) (m : Memory) (r : ℕ × ℕ)
    → Known m fuel r
    → (name : List ℕ) × (name_from fuel m r ≡ some name) × IsName m r name
name_from_lem fuel m (res, sname) (nameless (inl e)) = ([], ground arith, inl (inl e, refl))
name_from_lem fuel m (res, sname) (nameless (inr e)) = ([], ground arith, inl (inr e, refl))
name_from_lem fuel m (res, sname) (named k a b z l) =
    let (n, le, first, x, y) = go_string-FirstNul fuel m sname k b z l in
    (read m sname n, ground arith, inr (n, a, b, first, refl))

-- The function that RegisterFunc asks for a name: getSymbolName over the variables of dladdr; an empty text
-- where the loop over the text runs out of fuel.
abbrev pub symbol_name_of : Os → GetSymbol → Dladdr → ℕ → Memory → SymbolVars → ℕ → List ℕ
symbol_name_of os get_symbol dladdr fuel m v addr =
    elim (get_symbol_name os get_symbol dladdr fuel m v addr).0 [ some s ↦ s | none ↦ [] ]

Closure-is_c_variadic :
    (p : Platform) (symbol_name : ℕ → List ℕ) (cfn : ℕ) (sig : Signature) (f : SlowFunc)
    → Closure p symbol_name cfn sig f
    → sig.is_variadic ≡ true
    → f.is_c_variadic ≡ is_called_variadic p (symbol_name cfn) true (first_param sig.ins)
Closure-is_c_variadic p symbol_name cfn sig f (e, ts, r, a, b, c, inl (v, k)) w =
    ap (λ g. g.is_c_variadic) k
    ∙ plan-is_c_variadic p symbol_name cfn sig e ts r
    ∙ ap (λ b. is_called_variadic p (symbol_name cfn) b (first_param sig.ins)) w
Closure-is_c_variadic p symbol_name cfn sig f (e, ts, r, a, b, c, inr (v, k)) w =
    absurd (ground (arith, v, w))

-- Where the system is not Windows, dladdr is found, and the name that it reports has a NUL byte in reach
-- of the fuel, the function that RegisterFunc asks for a name gives that of the C symbol, up to its first
-- NUL byte, or the empty text where dladdr reports none; and the closure that RegisterFunc makes for a Go
-- variadic function calls the C function as variadic with the marker purego.Variadic, and without it
-- unless this name starts with objc_msgSend, or is empty on darwin.
pub get_symbol_name-IsName :
    (p : Platform) (get_symbol : GetSymbol) (dladdr : Dladdr) (fuel : ℕ) (m : Memory)
    (v : SymbolVars) (prepare : Prepare) (addr : ℕ) (sig : Signature) (f : SlowFunc)
    → is_windows p.goos ≡ false
    → (dladdr_once p.goos get_symbol v).dladdr_fn ≢ 0
    → Known m fuel (dladdr (dladdr_once p.goos get_symbol v).dladdr_fn addr)
    → sig.is_variadic ≡ true
    → register_signature p prepare (symbol_name_of p.goos get_symbol dladdr fuel m v) addr sig
      ≡ ok (some (slow f))
    → (name : List ℕ) × ((get_symbol_name p.goos get_symbol dladdr fuel m v addr).0 ≡ some name)
      × IsName m (dladdr (dladdr_once p.goos get_symbol v).dladdr_fn addr) name
      × (f.is_c_variadic ≡ is_called_variadic p name true (first_param sig.ins))
unfolding get_symbol_name
get_symbol_name-IsName p get_symbol dladdr fuel m v prepare addr sig f w nz known is_variadic r =
    let z : ((dladdr_once p.goos get_symbol v).dladdr_fn == 0) ≡ false = ground arith in
    let (name, e, is_name) = name_from_lem fuel m _ known in
    let named : (get_symbol_name p.goos get_symbol dladdr fuel m v addr).0 ≡ some name =
      rw (w, z) e in
    let told : symbol_name_of p.goos get_symbol dladdr fuel m v addr ≡ name =
      ap (λ o. elim o as (λ x. List ℕ) [ some s ↦ s | none ↦ [] ]) named in
    let c =
      register_signature-Closure p prepare (symbol_name_of p.goos get_symbol dladdr fuel m v) addr
        sig f r in
    (name, named, is_name, rw told at (Closure-is_c_variadic p _ addr sig f c is_variadic))
