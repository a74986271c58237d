-- ===== src/NsStrings/Reads.antt =====
-- cstrings/nsstrings_darwin.go: what NSStringToString returns once the package is initialised.
use pureffi.Common.{
  ℕ, ◌≤◌, ◌<◌, ◌==◌, ◌≡◌, ◌≢◌, refl, ◌∙◌, inl, inr, Bool, true, false, [], ◌∷◌, some, codes,
  if◌then◌else◌, arith, Bool-cases, ltb, ltb→lt,
}
use pureffi.Go.Outcome.{ok, panic, not_a_string}
use pureffi.CString
use pureffi.CString.{Memory, read}
use pureffi.CString.Termination.{FirstNul, go_string-FirstNul}
use pureffi.InternalStrings.{go_string}
use pureffi.NsStrings.{Symbols, Runtime, init, ns_string_to_string}

-- What Foundation promises: an object answers isKindOfClass: for NSString with a number other than 0
-- exactly where it is a string, and a string answers UTF8String with the address of its text, whose
-- first NUL byte is behind it.
pub record IsFoundation (objc : Runtime) (is_string : ℕ → Bool) (utf8 : ℕ → ℕ) (size : ℕ → ℕ)
    (m : Memory) : Type 0 where
  pub kind :
      (str : ℕ)
      → (objc.send str
            (objc.register_name (codes "isKindOfClass:"))
            (objc.get_class (codes "NSString") ∷ [])
          == 0)
        ≡ (if is_string str then false else true)
  pub text :
      (str : ℕ)
      → is_string str ≡ true
      → objc.send str (objc.register_name (codes "UTF8String")) [] ≡ utf8 str
  pub not_null : (str : ℕ) → is_string str ≡ true → utf8 str ≢ 0
  pub ends : (str : ℕ) → is_string str ≡ true → FirstNul m (utf8 str) (size str)

FirstNul-le : (m : Memory) (a k n : ℕ) → FirstNul m a k → FirstNul m a n → k ≤ n
FirstNul-le m a k n (z, before) (z', before') = elim (Bool-cases (ltb n k)) [
  | inl y ↦ absurd (before n (ltb→lt n k y) z')
  | inr y ↦ ground arith
]

init-Symbols :
    (objc : Runtime) (s : Symbols)
    → init objc ≡ ok s
    → s ≡ record {
      sel_is_kind_of = objc.register_name (codes "isKindOfClass:");
      sel_utf8_string = objc.register_name (codes "UTF8String");
      class_ns_string = objc.get_class (codes "NSString");
    }
unfolding init
init-Symbols objc s e = ground arith

go_string-read :
    (fuel : ℕ) (m : Memory) (c n : ℕ)
    → c ≢ 0
    → FirstNul m c n
    → n < fuel
    → go_string fuel m c ≡ some (read m c n)
unfolding go_string CString.go_string
go_string-read fuel m c n nz f h =
    let (k, l, first, e, q) = go_string-FirstNul fuel m c n nz f.0 h in
    let same : k ≡ n = omega (arith, FirstNul-le m c n k f first, l) in e ∙ rw same refl

-- Where init returned, Foundation keeps its promise and the fuel is more than the text is long,
-- NSStringToString returns the empty text for 0, the bytes of the text up to its first NUL for a
-- string, and panics for any other object.
pub ns_string_to_string-Reads :
    (objc : Runtime) (s : Symbols) (is_string : ℕ → Bool) (utf8 size : ℕ → ℕ) (m : Memory)
    (fuel str : ℕ)
    → init objc ≡ ok s
    → IsFoundation objc is_string utf8 size m
    → size str < fuel
    → ns_string_to_string objc s fuel m str ≡ (
        if str == 0
        then ok (some [])
        else if is_string str
        then ok (some (read m (utf8 str) (size str)))
        else panic not_a_string)
unfolding ns_string_to_string
ns_string_to_string-Reads objc s is_string utf8 size m fuel str e f h =
    elim (Bool-cases (is_string str)) [
      | inl y ↦
          rw
            (
              ns_string_to_string,
              init-Symbols objc s e,
              f.kind str,
              y,
              f.text str y,
              go_string-read fuel m (utf8 str) (size str) (f.not_null str y) (f.ends str y) h,
            )
            refl
      | inr n ↦ rw (ns_string_to_string, init-Symbols objc s e, f.kind str, n) refl
    ]
