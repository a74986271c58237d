-- ===== src/Objc/Class.antt =====
-- objc/objc_runtime_darwin.go: NewIMP and RegisterClass.
pub mod Quiet
pub mod Done
pub mod Accessors
pub mod Parts
pub mod Registered
pub mod Complete
mod Tests
use pureffi.Common.{
  ℕ, zero, suc, ◌/◌, ◌%◌, ◌^◌, ◌==◌, ltb, leb, not, Bool, true, false, ◌&&◌, ◌||◌, List, [], ◌∷◌,
  ◌++◌, if◌then◌else◌, codes,
}
use pureffi.Go.Types.{
  GoType, number, bool, func, literal, defined, uintptr, Types, nil, cons, to_list,
}
use pureffi.Go.Layout.{size, align}
use pureffi.Go.Outcome.{Panic, objc_not_a_method}
use pureffi.Objc.{is_objc, encode_type, encode_func}
use pureffi.Objc.Calls.{
  Method, given, setter, getter, Call, allocate_class_pair, add_protocol, register_name, add_method,
  add_ivar, get_instance_variable, get_offset, register_class_pair, Log, Env, ClassError,
  class_not_created, protocol_not_added, imp_not_created, method_not_added, method_not_encoded,
  ivar_name_refused, ivar_not_added, ivar_not_encoded, accessor_not_encoded, unknown_attribute,
  raise, Run, ◌>>=◌, ◌>>◌, pure, fail, ask, ask_callback, ensure, text_or, recovered,
}

-- typ == reflect.TypeOf(ID(0)), and SEL(0)
abbrev pub is_id : GoType → Bool
is_id (number d k) = is_objc "ID" d
is_id _ = false

abbrev pub is_sel : GoType → Bool
is_sel (number d k) = is_objc "SEL" d
is_sel _ = false

abbrev pub takes_id_and_sel : List GoType → Bool
takes_id_and_sel (t ∷ (u ∷ ts)) = is_id t && is_sel u
takes_id_and_sel _ = false

abbrev pub is_method : GoType → Bool
is_method (func d ins v outs) = takes_id_and_sel (to_list ins)
is_method _ = false

unfoldable pub new_imp : Env → Method → GoType → Run ℕ
new_imp env fn typ = if is_method typ then ask_callback env fn typ else raise objc_not_a_method

pub record MethodDef : Type 0 where
  pub cmd : ℕ
  pub fn : ℕ
  pub type : GoType

-- IvarAttrib: ReadOnly and ReadWrite
abbrev pub read_only : ℕ
read_only = 1

abbrev pub read_write : ℕ
read_write = 2

pub record FieldDef : Type 0 where
  pub name : List ℕ
  pub type : GoType
  pub attribute : ℕ

unfoldable pub add_protocols : Env → ℕ → List ℕ → Run (Unit {0})
add_protocols env class [] = pure tt
add_protocols env class (p ∷ ps) = do
  added ← ask env (add_protocol class p)
  ensure (not (added == 0)) (protocol_not_added p)
  add_protocols env class ps

unfoldable pub register_method : Env → ℕ → ℕ → MethodDef → Run (Unit {0})
register_method env class idx def = do
  imp ← recovered (imp_not_created idx) (new_imp env (given def.fn) def.type)
  encoding ← text_or (method_not_encoded idx) (encode_func def.type)
  added ← ask env (add_method class def.cmd imp encoding)
  ensure (not (added == 0)) (method_not_added idx)

-- for idx, def := range methods
unfoldable pub register_methods : Env → ℕ → ℕ → List MethodDef → Run (Unit {0})
register_methods env class idx [] = pure tt
register_methods env class idx (m ∷ ms) = do
  register_method env class idx m
  register_methods env class (suc idx) ms

-- A byte of [a-z_], with which a match of ivarRegex starts, wherever in the name it is.
abbrev pub starts_match : ℕ → Bool
starts_match c = (leb 97 c && leb c 122) || c == 95

unfoldable pub matches_ivar : List ℕ → Bool
matches_ivar [] = false
matches_ivar (c ∷ cs) = starts_match c || matches_ivar cs

-- math.Log2 of an alignment
unfoldable pub log2 : ℕ → ℕ → ℕ
log2 zero n = 0
log2 (suc fuel) n = let rest = log2 fuel (n / 2) in if ltb n 2 then 0 else suc rest

-- string(unicode.ToUpper(rune(name[0]))) + name[1:]; a name that matches is not empty.
abbrev pub capitalised : Env → List ℕ → List ℕ
capitalised env [] = []
capitalised env (c ∷ cs) = env.upper c ++ cs

abbrev pub id_type : GoType
id_type = number (defined "github.com/ebitengine/purego/objc" "ID") uintptr

abbrev pub sel_type : GoType
sel_type = number (defined "github.com/ebitengine/purego/objc" "SEL") uintptr

abbrev pub setter_type : GoType → GoType
setter_type t = func literal (cons id_type (cons sel_type (cons t nil))) false nil

abbrev pub getter_type : GoType → GoType
getter_type t = func literal (cons id_type (cons sel_type nil)) false (cons t nil)

abbrev pub setter_name : Env → List ℕ → List ℕ
setter_name env name = codes "set" ++ capitalised env name ++ codes ":" ++ 0 ∷ []

abbrev pub is_bool : GoType → Bool
is_bool (bool d) = true
is_bool _ = false

abbrev pub getter_name : Env → FieldDef → List ℕ
getter_name env f = if is_bool f.type then codes "is" ++ capitalised env f.name else f.name

-- encodeFunc, then AddMethod of RegisterName(name) and NewIMP(val), whose result is not read.
unfoldable pub add_accessor : Env → ℕ → List ℕ → List ℕ → Method → GoType → Run (Unit {0})
add_accessor env class field name val typ = do
  encoding ← text_or (accessor_not_encoded field) (encode_func typ)
  sel ← ask env (register_name name)
  imp ← new_imp env val typ
  added ← ask env (add_method class sel imp encoding)
  pure tt

abbrev pub add_setter : Env → ℕ → FieldDef → ℕ → Run (Unit {0})
add_setter env class f offset =
    add_accessor env class f.name (setter_name env f.name) (setter f.type offset)
      (setter_type f.type)

abbrev pub add_getter : Env → ℕ → FieldDef → ℕ → Run (Unit {0})
add_getter env class f offset =
    add_accessor env class f.name (getter_name env f) (getter f.type offset) (getter_type f.type)

-- switch ivar.Attribute, where ReadWrite falls through to ReadOnly.
unfoldable pub add_accessors : Env → ℕ → FieldDef → ℕ → Run (Unit {0})
add_accessors env class f offset =
    if f.attribute == read_write
    then (add_setter env class f offset >>= λ u. add_getter env class f offset)
    else if f.attribute == read_only
    then add_getter env class f offset
    else fail (unknown_attribute f.attribute)

unfoldable pub register_ivar : Env → ℕ → FieldDef → Run (Unit {0})
register_ivar env class f = do
  ensure (matches_ivar f.name) (ivar_name_refused f.name)
  enc ← text_or (ivar_not_encoded f.name) (encode_type false f.type)
  added ←
      ask env (add_ivar class f.name (size f.type) (log2 (align f.type) (align f.type) % 2 ^ 8) enc)
  ensure (not (added == 0)) (ivar_not_added f.name)
  ivar ← ask env (get_instance_variable class f.name)
  offset ← ask env (get_offset ivar)
  add_accessors env class f offset

unfoldable pub register_ivars : Env → ℕ → List FieldDef → Run (Unit {0})
register_ivars env class [] = pure tt
register_ivars env class (f ∷ fs) = do register_ivar env class f; register_ivars env class fs

unfoldable pub register_class : Env → List ℕ → ℕ → List ℕ → List FieldDef → List MethodDef → Run ℕ
register_class env name super_class protocols ivars methods = do
  class ← ask env (allocate_class_pair super_class name)
  ensure (not (class == 0)) (class_not_created name)
  add_protocols env class protocols
  register_methods env class 0 methods
  register_ivars env class ivars
  registered ← ask env (register_class_pair class)
  pure class
