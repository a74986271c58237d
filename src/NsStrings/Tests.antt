-- ===== src/NsStrings/Tests.antt =====
-- cstrings/nsstrings_darwin.go: one string object, at address 100.
use pureffi.Common.{
  ℕ, zero, suc, ◌+◌, ◌<◌, ◌≢◌, ◌==◌, ◌≡◌, refl, inl, inr, [], ◌∷◌, some, length, arith,
  if◌then◌else◌, Bool-cases,
}
use pureffi.Go.Outcome.{ok, panic, not_a_string}
use pureffi.CString.{Memory, read}
use pureffi.NsStrings.{Symbols, Runtime, init, ns_string_to_string}
use pureffi.NsStrings.Reads.{IsFoundation, ns_string_to_string-Reads}

-- "hi" at address 500
abbrev text_memory : Memory
text_memory a = if a == 500 then 104 else if a == 501 then 105 else 0

-- A name's selector is its length.
abbrev one_string : Runtime
one_string = record {
  dlopen = λ path mode. inr 1;
  register_name = length;
  get_class = λ name. 7;
  send = λ id sel args. if sel == 14 then (if id == 100 then 1 else 0) else 500;
}

abbrev symbols : Symbols
symbols = record { sel_is_kind_of = 14; sel_utf8_string = 10; class_ns_string = 7 }

one_string-IsFoundation :
    IsFoundation one_string (λ str. str == 100) (λ str. 500) (λ str. 2) text_memory
one_string-IsFoundation = record {
  kind = λ str. elim (Bool-cases (str == 100)) [ inl y ↦ rw y refl | inr n ↦ rw n refl ];
  text = λ str h. refl;
  not_null = λ str h e. absurd (omega arith);
  ends = λ str h. (refl, before);
}
  where
    before : (i : ℕ) → i < 2 → text_memory (500 + i) ≢ 0
    before zero l = λ e. absurd (omega arith)
    before (suc zero) l = λ e. absurd (omega arith)
    before (suc (suc i)) l = absurd (omega arith)

ns_string_to_string-Reads_example :
    ns_string_to_string one_string symbols 8 text_memory 100 ≡ ok (some (104 ∷ 105 ∷ []))
unfolding init read
ns_string_to_string-Reads_example =
    ns_string_to_string-Reads one_string symbols (λ str. str == 100) (λ str. 500) (λ str. 2)
      text_memory 8 100 refl one_string-IsFoundation (omega arith)

another_object : ns_string_to_string one_string symbols 8 text_memory 4096 ≡ panic not_a_string
unfolding ns_string_to_string
another_object = refl
