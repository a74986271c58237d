-- ===== src/Callback/Tests.antt =====
-- A callback with a marker.
use pureffi.Common.{◌≡◌, refl, false, List}
use pureffi.Go.Types.{literal, defined, int32, GoType, number, struct, nil, cons, end, func}
use pureffi.Go.Values.{Value}
use pureffi.Go.Outcome.{ok, panic, callback_not_function}
use pureffi.Callback.{Function, callback_function}
use pureffi.Callback.Forward.{StandsFor, callback_function-StandsFor}

-- purego.CDecl
abbrev cdecl : GoType
cdecl = struct (defined "github.com/ebitengine/purego" "CDecl") end

abbrev int_type : GoType
int_type = number literal int32

abbrev returns_its_arguments : List Value → List Value
returns_its_arguments args = args

-- func(CDecl, int32) int32
callback_function-StandsFor_example :
    (g : Function) × (callback_function (record {
      type = func literal (cons cdecl (cons int_type nil)) false (cons int_type nil);
      run = returns_its_arguments;
    })
      ≡ ok g)
    × StandsFor
        (record {
          type = func literal (cons cdecl (cons int_type nil)) false (cons int_type nil);
          run = returns_its_arguments;
        })
        (cons cdecl (cons int_type nil))
        (cons int_type nil)
        g
callback_function-StandsFor_example =
    callback_function-StandsFor literal (cons cdecl (cons int_type nil)) (cons int_type nil)
      returns_its_arguments

no_function :
    callback_function (record { type = int_type; run = returns_its_arguments })
    ≡ panic callback_not_function
unfolding callback_function
no_function = refl
