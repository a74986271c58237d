-- ===== src/Objc/Accessor/Tests.antt =====
-- Two fields of an object at 4096: an int32 at 8, and a bool at 12.
use pureffi.Common.{◌≡◌, refl, inr, [], ◌∷◌, arith}
use pureffi.Go.Types.{GoType, number, int32, bool, literal}
use pureffi.Go.Layout.{size, width}
use pureffi.Go.Outcome.{ok}
use pureffi.CString.{Memory}
use pureffi.Objc.Accessor.{run_setter, run_getter}
use pureffi.Objc.Accessor.RoundTrip.{id_arg, sel_arg, value_arg, run_setter-run_getter}

abbrev count : GoType
count = number literal int32

abbrev blank : Memory
blank a = 0

run_setter-run_getter_example :
    (m' : Memory) × (run_setter count 8
        (id_arg 4096 ∷ sel_arg 1 ∷ value_arg count (1 ∷ 2 ∷ 3 ∷ 4 ∷ []) ∷ [])
        blank
      ≡ ok m')
    × (run_getter count 8 (id_arg 4096 ∷ sel_arg 2 ∷ []) m' ≡ ok (1 ∷ 2 ∷ 3 ∷ 4 ∷ []))
    × (run_getter (bool literal) 12 (id_arg 4096 ∷ sel_arg 2 ∷ []) m'
        ≡ run_getter (bool literal) 12 (id_arg 4096 ∷ sel_arg 2 ∷ []) blank)
unfolding size width
run_setter-run_getter_example =
    run_setter-run_getter count (bool literal) 8 12 4096 4096 1 2 (1 ∷ 2 ∷ 3 ∷ 4 ∷ []) blank refl
      (inr (omega arith))
