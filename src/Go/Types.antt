-- ===== src/Go/Types.antt =====
-- Go's types as package reflect shows them (reflect.Type), one constructor for each form of type
-- that the code tells apart by reflect.Kind. Used by purego.go, genfastfunc.go and objc/.
use text.Mathlib.Text.{◌==◌ as str_eq}
use pureffi.Common.{ℕ, String, Bool, true, false, ◌&&◌, List, [], ◌∷◌}

-- How a type is declared: as a type literal, or under a name in a package ("" for a predeclared one).
pub data Decl : Type 0 where
  literal : Decl
  defined : String → String → Decl

pub data Numeric : Type 0 where
  int int8 int16 int32 int64 uint uint8 uint16 uint32 uint64 uintptr float32 float64 : Numeric

-- The kinds that the code never takes apart.
pub data Opaque : Type 0 where
  chan dictionary interface complex64 complex128 : Opaque

mutual
  pub data GoType : Type 0 where
    bool : Decl → GoType
    number : Decl → Numeric → GoType
    string : Decl → GoType
    unsafe_pointer : Decl → GoType
    pointer : Decl → GoType → GoType
    slice : Decl → GoType → GoType
    array : Decl → ℕ → GoType → GoType
    struct : Decl → Fields → GoType
    func : Decl → Types → Bool → Types → GoType
    other : Decl → Opaque → GoType

  -- Parameter and result lists.
  pub data Types : Type 0 where
    nil : Types
    cons : GoType → Types → Types

  pub data Fields : Type 0 where
    end : Fields
    field : String → GoType → Fields → Fields

abbrev pub decl : GoType → Decl
decl (bool d) = d
decl (number d k) = d
decl (string d) = d
decl (unsafe_pointer d) = d
decl (pointer d t) = d
decl (slice d t) = d
decl (array d n t) = d
decl (struct d fs) = d
decl (func d ins v outs) = d
decl (other d k) = d

-- Identity with a type that package `owner` declares as `name`: a declared type is identical to no other.
abbrev pub is_declared : String → String → Decl → Bool
is_declared owner name literal = false
is_declared owner name (defined p n) = str_eq p owner && str_eq n name

-- typ.Name()
abbrev pub type_name : Decl → String
type_name literal = ""
type_name (defined p n) = n

-- The numbers that pass in floating-point registers.
abbrev pub is_float : Numeric → Bool
is_float float32 = true
is_float float64 = true
is_float _ = false

-- A function type's parameters (ty.In), ty.IsVariadic, and results (ty.Out).
pub record Signature : Type 0 where
  pub ins : List GoType
  pub is_variadic : Bool
  pub outs : List GoType

abbrev pub to_list : Types → List GoType
to_list nil = []
to_list (cons t ts) = t ∷ to_list ts
