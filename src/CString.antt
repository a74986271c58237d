-- ===== src/CString.antt =====
-- cstring.go, and the loop of the same form in purego.go (cStringToGoString): texts that end in a NUL
-- byte in C's memory. An address is a number, without the wrap-around of uintptr at 2 ^ 64.
pub mod RoundTrip
pub mod Termination
pub mod Allocate
mod Tests
use mathlib.Core.Option
use pureffi.Common.{
  ℕ, zero, suc, ◌+◌, ◌==◌, Bool, true, false, List, [], ◌∷◌, Option, none, some, ◌⊎◌, inl, inr,
  length, if◌then◌else◌,
}
use pureffi.Go.Outcome.{Outcome, ok, panic, malloc_not_found, malloc_failed, foreign_error}

-- The byte at each address.
abbrev pub Memory : Type 0
Memory = ℕ → ℕ

abbrev pub write : Memory → ℕ → ℕ → Memory
write m a c b = if b == a then c else m b

-- copy(slice, s), for a slice at an address that is long enough
unfoldable pub copy : Memory → ℕ → List ℕ → Memory
copy m a [] = m
copy m a (c ∷ s) = copy (write m a c) (suc a) s

-- unsafe.Slice(c, length)
unfoldable pub read : Memory → ℕ → ℕ → List ℕ
read m a zero = []
read m a (suc n) = m a ∷ read m (suc a) n

-- for { if *(c + length) == 0 { break }; length++ }, on fuel
unfoldable pub c_length : ℕ → Memory → ℕ → ℕ → Option ℕ
c_length zero m c n = none
c_length (suc fuel) m c n =
    let rest = c_length fuel m c (suc n) in if m (c + n) == 0 then some n else rest

-- `none`: out of fuel.
unfoldable pub go_string : ℕ → Memory → ℕ → Option (List ℕ)
go_string fuel m c = if c == 0 then some [] else Option.map (λ n. read m c n) (c_length fuel m c 0)

unfoldable pub c_string_to_go_string : ℕ → Memory → ℕ → Option (List ℕ)
c_string_to_go_string fuel m addr =
    if addr == 0 then some [] else Option.map (λ n. read m addr n) (c_length fuel m addr 0)

-- ffi.CallFunction on malloc, by the size: an error, or the pointer and the memory after the call.
abbrev pub Malloc : Type 0
Malloc = ℕ → Memory → ℕ ⊎ (ℕ × Memory)

-- copy(slice, s); slice[len(s)] = 0
unfoldable pub fill_string : List ℕ → ℕ → Memory → Memory
fill_string s p m = write (copy m p s) (p + length s) 0

unfoldable pub c_string : ℕ → Malloc → List ℕ → Memory → Outcome (ℕ × Memory)
c_string malloc_fn malloc s m =
    if malloc_fn == 0 then panic malloc_not_found else elim (malloc (length s + 1) m) [
      | inl e ↦ panic (foreign_error e)
      | inr (p, m') ↦ if p == 0 then panic malloc_failed else ok (p, fill_string s p m')
    ]
