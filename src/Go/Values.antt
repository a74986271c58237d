-- ===== src/Go/Values.antt =====
-- Go values as package reflect shows them (reflect.Value), and a heap of the objects that the code
-- allocates. A pointer is a number; allocation hands out the next one.
use pureffi.Common.{ℕ, Bool, List, [], ◌∷◌, ◌++◌, Option, length, get_elem?}
use pureffi.Go.Types.{Decl, Numeric, Opaque, GoType, Types, Fields}

pub data Value : Type 0 where
  bool : Decl → Bool → Value
  -- The bit pattern of an integer or a float.
  number : Decl → Numeric → ℕ → Value
  -- unsafe.StringData, and the bytes.
  string : Decl → ℕ → List ℕ → Value
  unsafe_pointer : Decl → ℕ → Value
  pointer : Decl → GoType → ℕ → Value
  -- The address of the first element.
  slice : Decl → GoType → ℕ → Value
  -- A closure's identity.
  func : Decl → Types → Bool → Types → ℕ → Value
  -- The elements' or fields' memory, and its address where the value is addressable.
  array : Decl → ℕ → GoType → List ℕ → Option ℕ → Value
  struct : Decl → Fields → List ℕ → Option ℕ → Value
  other : Decl → Opaque → Value

-- v.Type()
abbrev pub type_of : Value → GoType
type_of (bool d b) = GoType.bool d
type_of (number d k n) = GoType.number d k
type_of (string d a s) = GoType.string d
type_of (unsafe_pointer d a) = GoType.unsafe_pointer d
type_of (pointer d t a) = GoType.pointer d t
type_of (slice d t a) = GoType.slice d t
type_of (func d ins v outs f) = GoType.func d ins v outs
type_of (array d n t bs a) = GoType.array d n t
type_of (struct d fs bs a) = GoType.struct d fs
type_of (other d k) = GoType.other d k

pub data Object : Type 0 where
  bytes : List ℕ → Object
  scalar : Numeric → ℕ → Object
  address : ℕ → Object

abbrev pub Heap : Type 0
Heap = List Object

-- new(…): the address of the new object, and the heap with it.
abbrev pub allocate : Object → Heap → ℕ × Heap
allocate o h = (length h, h ++ o ∷ [])

abbrev pub deref : Heap → ℕ → Option Object
deref h a = get_elem? h a
