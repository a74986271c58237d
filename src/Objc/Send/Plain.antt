-- ===== src/Objc/Send/Plain.antt =====
-- Messages go out as calls that are not C-variadic.
use pureffi.Common.{
  ℕ, ◌==◌, ◌≡◌, ◌≢◌, refl, true, false, List, [], ◌∷◌, none, some, codes, has_prefix, arith,
}
use pureffi.Go.Platform.{Platform}
use pureffi.Go.Types.{GoType}
use pureffi.Go.Outcome.{ok}
use pureffi.Goffi.{TypeDescriptor, default_call}
use pureffi.Descriptor.{go_type_to_ffi_type, go_arg_type_to_ffi_type, numeric_descriptor}
use pureffi.Register.{
  slow, SlowFunc, Prepare, is_error_type, result_rules, marker, guess_c_variadic, fixed_params,
  arg_types, return_type, plan, implement, register_signature, register_func,
}
use pureffi.Objc.Class.{id_type, sel_type}
use pureffi.Objc.Send.{
  MessageFunctions, args_type, super_type, send_address, send_super_address, send, send_super,
}

guess-objc :
    (p : Platform) (name : List ℕ)
    → has_prefix (codes "objc_msgSend") name ≡ true
    → guess_c_variadic p name ≡ false
unfolding guess_c_variadic
guess-objc p name h = rw h refl

-- The closure that sends a message: the receiver and the selector are fixed, and described by the
-- two descriptors; the rest follows as it is, not as C varargs.
abbrev pub Sender : TypeDescriptor → TypeDescriptor → GoType → GoType → SlowFunc
Sender receiver ret receiver_type t = record {
  signature = record {
    ins = receiver_type ∷ sel_type ∷ args_type ∷ [];
    is_variadic = true;
    outs = t ∷ [];
  };
  has_error = false;
  start_in = 0;
  fixed_in = 2;
  is_c_variadic = false;
  convention = default_call;
  fixed_arg_types = receiver ∷ TypeDescriptor.uint64 ∷ [];
  ret_type = ret;
  fixed_cif = none;
}

register_signature-message :
    (p : Platform) (prepare : Prepare) (symbol_name : ℕ → List ℕ) (cfn : ℕ) (receiver t : GoType)
    (d ret : TypeDescriptor)
    → marker (receiver ∷ sel_type ∷ args_type ∷ [])
      ≡ record { convention = default_call; is_c_variadic = false; start_in = 0 }
    → go_arg_type_to_ffi_type receiver ≡ ok d
    → is_error_type t ≡ false
    → go_type_to_ffi_type t ≡ ok ret
    → has_prefix (codes "objc_msgSend") (symbol_name cfn) ≡ true
    → register_signature p prepare symbol_name cfn
        (record { ins = receiver ∷ sel_type ∷ args_type ∷ []; is_variadic = true; outs = t ∷ [] })
      ≡ ok (some (slow (Sender d ret receiver t)))
unfolding register_signature result_rules fixed_params arg_types return_type implement plan
    go_arg_type_to_ffi_type go_type_to_ffi_type numeric_descriptor
register_signature-message p prepare symbol_name cfn receiver t d ret m a e r h =
    rw (e, m) (rw (arg_types, a) (rw (return_type, r) (rw (guess-objc p (symbol_name cfn) h) refl)))

marker-id :
    marker (id_type ∷ sel_type ∷ args_type ∷ [])
    ≡ record { convention = default_call; is_c_variadic = false; start_in = 0 }
unfolding marker
marker-id = refl

marker-super :
    marker (super_type ∷ sel_type ∷ args_type ∷ [])
    ≡ record { convention = default_call; is_c_variadic = false; start_in = 0 }
unfolding marker
marker-super = refl

-- Send and SendSuper of a result type that goffi can describe, other than error: where the addresses that they
-- choose are set, and getSymbolName gives them names that start with objc_msgSend, the closure that they
-- call passes the receiver, the selector and the arguments as a call that is not C-variadic, and
-- returns a value of the type.
pub send-Sender :
    (p : Platform) (prepare : Prepare) (symbol_name : ℕ → List ℕ) (m : MessageFunctions)
    (t : GoType) (ret : TypeDescriptor)
    → is_error_type t ≡ false
    → go_type_to_ffi_type t ≡ ok ret
    → send_address p m t ≢ 0
    → send_super_address p m t ≢ 0
    → has_prefix (codes "objc_msgSend") (symbol_name (send_address p m t)) ≡ true
    → has_prefix (codes "objc_msgSend") (symbol_name (send_super_address p m t)) ≡ true
    → (send p prepare symbol_name m t
        ≡ ok (some (slow (Sender TypeDescriptor.uint64 ret id_type t))))
      × (send_super p prepare symbol_name m t
          ≡ ok (some (slow (Sender TypeDescriptor.pointer ret super_type t))))
unfolding send send_super register_func go_arg_type_to_ffi_type go_type_to_ffi_type
    numeric_descriptor
send-Sender p prepare symbol_name m t ret e r a b h k =
    let za : (send_address p m t == 0) ≡ false = ground arith in
    let zb : (send_super_address p m t == 0) ≡ false = ground arith in
    (
      rw za (
          register_signature-message p prepare symbol_name (send_address p m t) id_type t _ ret
            marker-id refl e r h),
      rw zb (
          register_signature-message p prepare symbol_name (send_super_address p m t) super_type t _
            ret marker-super refl e r k),
    )
