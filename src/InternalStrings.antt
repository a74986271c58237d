-- ===== src/InternalStrings.antt =====
-- internal/strings/strings.go: texts for the Objective-C runtime.
pub mod Terminated
mod Tests
use mathlib.Core.Option
use pureffi.Common.{
  ℕ, zero, suc, ◌-◌, ◌==◌, leb, Bool, true, false, ◌&&◌, List, [], ◌∷◌, ◌++◌, Option, none, some,
  length, drop, if◌then◌else◌,
}
use pureffi.Go.Outcome.{Outcome, ok, panic, not_a_string}
use pureffi.Go.Values.{Object, bytes, Heap, allocate}
use pureffi.CString.{Memory, read, c_length}

-- s == t
abbrev pub list_eq : List ℕ → List ℕ → Bool
list_eq [] [] = true
list_eq [] (d ∷ ds) = false
list_eq (c ∷ cs) [] = false
list_eq (c ∷ cs) (d ∷ ds) = c == d && list_eq cs ds

unfoldable pub has_suffix : List ℕ → List ℕ → Bool
has_suffix s suffix =
    leb (length suffix) (length s) && list_eq (drop (length s - length suffix) s) suffix

-- CString of a text whose bytes are at an address: that address, or that of a new slice.
unfoldable pub c_string : ℕ → List ℕ → Heap → ℕ × Heap
c_string a name h = if has_suffix name (0 ∷ []) then (a, h) else allocate (bytes (name ++ 0 ∷ [])) h

-- `none`: out of fuel.
unfoldable pub go_string : ℕ → Memory → ℕ → Option (List ℕ)
go_string fuel m c = if c == 0 then some [] else Option.map (λ n. read m c n) (c_length fuel m c 0)
