-- ===== src/Objc/Class/Tests.antt =====
-- RegisterClass with one protocol, a method, and two fields, against a runtime that accepts everything.
use pureffi.Common.{ℕ, ◌+◌, ◌-◌, ◌≡◌, ◌≢◌, refl, false, List, [], ◌∷◌, codes, length}
use pureffi.Go.Types.{number, bool, literal, int32, int64, func, nil, cons}
use pureffi.Go.Outcome.{ok, panic}
use pureffi.Callback.{callback_function, has_marker}
use pureffi.Objc.{
  encode_type, encode_func, encode_result, encode_method_params, encode_params, encode_number,
}
use pureffi.Objc.Calls.{
  allocate_class_pair, register_class_pair, Log, Env, End, done, failed, ivar_name_refused,
  add_method, ◌>>=◌, pure, fail, raise, ask, ask_callback, ensure, text_or, recovered,
}
use pureffi.Objc.Class.{
  MethodDef, FieldDef, read_only, read_write, id_type, sel_type, register_class, add_protocols,
  register_methods, register_method, register_ivars, register_ivar, add_accessors, add_accessor,
  new_imp, matches_ivar,
}
use pureffi.Objc.Class.Complete.{IsComplete, register_class-IsComplete}
use pureffi.Objc.Class.Registered.{AfterClass, register_class-AfterClass}

abbrev to_upper : ℕ → List ℕ
to_upper c = (c - 32) ∷ []

-- Every call is answered by the number of the calls before it and 100.
abbrev willing : Env
willing = record {
  answer = λ log c. 100 + length log;
  callback = λ log fn typ. elim (callback_function (record { type = typ; run = λ args. [] })) [
    | ok f ↦ ok (4096 + length log)
    | panic p ↦ panic p
  ];
  upper = to_upper;
}

abbrev fields : List FieldDef
fields =
    record { name = codes "count"; type = number literal int64; attribute = read_write }
    ∷ record { name = codes "open"; type = bool literal; attribute = read_only }
    ∷ []

-- func(ID, SEL) int32
abbrev methods : List MethodDef
methods =
    record {
      cmd = 5;
      fn = 1;
      type =
          func literal (cons id_type (cons sel_type nil)) false (cons (number literal int32) nil);
    }
    ∷ []

abbrev run_counter : End ℕ × Log
run_counter = register_class willing (codes "Counter") 7 (9 ∷ []) fields methods []

makes_counter :
    register_class willing (codes "Counter") 7 (9 ∷ []) fields methods []
    ≡ (done 100, run_counter.1)
unfolding register_class add_protocols register_methods register_method register_ivars register_ivar
    add_accessors add_accessor new_imp matches_ivar ◌>>=◌ pure fail raise ask ask_callback ensure
    text_or recovered encode_func encode_result encode_method_params encode_params encode_type
    encode_number callback_function has_marker
makes_counter = refl

register_class-IsComplete_example :
    (◌≡◌ {A = ℕ} 100 (willing.answer [] (allocate_class_pair 7 (codes "Counter"))))
    × (◌≢◌ {A = ℕ} 100 0)
    × IsComplete willing (9 ∷ []) fields methods 100 run_counter.1
register_class-IsComplete_example =
    register_class-IsComplete willing (codes "Counter") 7 (9 ∷ []) fields methods [] 100
      run_counter.1 makes_counter

-- The getter of the Bool field is the method before the registration.
adds_is_open :
    (rest : Log) × (run_counter.1
      ≡ register_class_pair 100 ∷ (add_method 100 116 4113 (codes "B@:") ∷ rest))
unfolding register_class add_protocols register_methods register_method register_ivars register_ivar
    add_accessors add_accessor new_imp matches_ivar ◌>>=◌ pure fail raise ask ask_callback ensure
    text_or recovered encode_func encode_result encode_method_params encode_params encode_type
    encode_number callback_function has_marker
adds_is_open = (_, refl)

-- A name without a lowercase letter is refused, and the class is not registered.
abbrev refused_run : End ℕ × Log
refused_run =
    register_class willing (codes "Counter") 7 []
      (record { name = codes "9"; type = bool literal; attribute = read_only } ∷ []) [] []

refuses_name : refused_run ≡ (failed (ivar_name_refused (codes "9")), refused_run.1)
unfolding register_class add_protocols register_methods register_ivars register_ivar matches_ivar
    ◌>>=◌ pure fail ask ensure
refuses_name = refl

register_class-AfterClass_example : AfterClass [] refused_run
register_class-AfterClass_example =
    register_class-AfterClass willing (codes "Counter") 7 []
      (record { name = codes "9"; type = bool literal; attribute = read_only } ∷ []) [] []
