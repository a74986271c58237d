-- ===== src/Goffi.antt =====
-- The part of github.com/go-webgpu/goffi that the code names: package types. The library itself is
-- not in the repository; its calls are parameters of the definitions that make them.
use pureffi.Common.{ℕ, zero, suc, List, Bool, true, false}

-- types.TypeDescriptor: the predefined descriptors by name, and those that the code builds.
mutual
  pub data TypeDescriptor : Type 0 where
    void uint8 sint8 uint16 sint16 uint32 sint32 uint64 sint64 float double pointer : TypeDescriptor
    -- &types.TypeDescriptor{Kind: types.StructType, Size, Alignment, Members}
    struct : ℕ → ℕ → Members → TypeDescriptor

  pub data Members : Type 0 where
    none : Members
    member : TypeDescriptor → Members → Members

-- desc.Members = append(desc.Members, d), n times
unfoldable pub repeat_member : ℕ → TypeDescriptor → Members
repeat_member zero d = none
repeat_member (suc n) d = member d (repeat_member n d)

-- t.Kind == types.FloatType || t.Kind == types.DoubleType
abbrev pub is_float_kind : TypeDescriptor → Bool
is_float_kind float = true
is_float_kind double = true
is_float_kind _ = false

-- types.CallingConvention
pub data Convention : Type 0 where
  default_call unix_calling_convention : Convention

-- How a call interface was prepared: by PrepareCallInterface, or by PrepareVariadicCallInterface
-- with a number of fixed arguments.
pub data Preparation : Type 0 where
  ordinary : Preparation
  variadic : ℕ → Preparation

-- types.CallInterface, as far as the code sees it: what it was prepared with.
pub record CallInterface : Type 0 where
  pub convention : Convention
  pub preparation : Preparation
  pub ret_type : TypeDescriptor
  pub arg_types : List TypeDescriptor
