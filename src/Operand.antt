-- ===== src/Operand.antt =====
-- Operands of src/OpcodeEngine.cpp (remill's `Operand` as the engine reads it, and `RemillRegister`)
-- and src/IMetaData.h (their fixed-width form), with the CPU state that both read registers from.
pub mod Raw
pub mod Meta
pub mod Convert
pub mod Inversion
pub mod Expression
pub mod Effective
pub mod Agree
use Prim.Native.String.{String}
use aether_vm.Prelude.{
  ℕ, zero, suc, ◌+◌, ◌*◌, ◌/◌, ◌%◌, ◌^◌, Bool, true, false, Option, ltb, if◌then◌else◌,
}

-- The CPU `State`: its address, and the bytes at each offset.
pub record State : Type 0 where
  pub base : ℕ
  pub byte : ℕ → ℕ

-- std::memcpy(&val, addr, n) into a zeroed integer, little endian
unfoldable pub load_bytes : (ℕ → ℕ) → ℕ → ℕ → ℕ
load_bytes m off zero = 0
load_bytes m off (suc n) = m off % 256 + 256 * load_bytes m (off + 1) n

-- LoadRegValueRaw, on an offset and a size in bits: a register of more than 64 bits is passed by
-- its address
unfoldable pub load_reg_value : State → ℕ → ℕ → ℕ
load_reg_value s offset size =
    if ltb 8 ((size + 7) / 8)
    then (s.base + offset) % 2 ^ 64
    else load_bytes s.byte offset ((size + 7) / 8)

-- remill's enumerations
pub data ShiftOp : Type 0 where
  shift_invalid left_with_zeroes left_with_ones unsigned_right signed_right : ShiftOp
  left_around right_around : ShiftOp

pub data ExtendOp : Type 0 where
  extend_invalid extend_unsigned extend_signed : ExtendOp

-- LLVM's instruction opcodes that an operand expression may hold
pub data Opcode : Type 0 where
  add sub mul shl lshr ashr zext sext trunc and_op or_op urem xor_op : Opcode
  other : ℕ → Opcode

-- RemillRegister
pub record RemillRegister : Type 0 where
  pub name : String
  pub size : ℕ
  pub offset : ℕ

pub record ShiftRegister : Type 0 where
  pub reg : RemillRegister
  pub shift_size : ℕ
  pub extract_size : ℕ
  pub shift_op : ShiftOp
  pub extend_op : ExtendOp

pub record Immediate : Type 0 where
  pub val : ℕ
  pub is_signed : Bool

-- `scale` and `displacement` are `int64_t`, kept as their 64-bit patterns.
pub record Address : Type 0 where
  pub segment_base_reg : RemillRegister
  pub base_reg : RemillRegister
  pub index_reg : RemillRegister
  pub scale : ℕ
  pub displacement : ℕ
  pub address_size : ℕ
  pub kind : ℕ

-- remill::OperandExpression: an LLVM operation with one or two children and the width of its type
-- (`none` for a null type), a register, a constant of a number of bits, or a register's name
pub data OperandExpression : Type 0 where
  null : OperandExpression
  unary : Opcode → Option ℕ → OperandExpression → OperandExpression
  binary : Opcode → Option ℕ → OperandExpression → OperandExpression → OperandExpression
  register : String → ℕ → OperandExpression
  constant : ℕ → ℕ → OperandExpression
  name : String → OperandExpression

-- The variants of an operand that the engine tells apart; the four expression types are one.
pub data OperandValue : Type 0 where
  invalid : OperandValue
  reg_operand : RemillRegister → OperandValue
  shift_operand : ShiftRegister → OperandValue
  imm_operand : Immediate → OperandValue
  addr_operand : Address → OperandValue
  expr_operand : OperandExpression → OperandValue

-- RemillOperand: `size` in bits
pub record RemillOperand : Type 0 where
  pub size : ℕ
  pub value : OperandValue

-- std::string::empty
abbrev pub is_empty : String → Bool
is_empty String.[] = true
is_empty (String.◌∷◌ c s) = false

-- IMetaData::Operand::Register
pub record MetaRegister : Type 0 where
  pub offset : ℕ
  pub size : ℕ

-- IMetaData::Expression, its kind and payload in one; `rhs` is `none` for `no_child`
pub data MetaExpression : Type 0 where
  k_operation : Opcode → ℕ → ℕ → Option ℕ → MetaExpression
  k_register : MetaRegister → MetaExpression
  k_constant : ℕ → ℕ → MetaExpression

pub record MetaShiftRegister : Type 0 where
  pub reg : MetaRegister
  pub shift_size : ℕ
  pub extract_size : ℕ
  pub shift_op : ShiftOp
  pub extend_op : ExtendOp

pub record MetaAddress : Type 0 where
  pub segment : MetaRegister
  pub base : MetaRegister
  pub index : MetaRegister
  pub scale : ℕ
  pub displacement : ℕ
  pub address_size : ℕ
  pub kind : ℕ

-- IMetaData::Operand::Value with the operand's type
pub data MetaValue : Type 0 where
  no_value : MetaValue
  reg_value : MetaRegister → MetaValue
  shift_value : MetaShiftRegister → MetaValue
  imm_value : Immediate → MetaValue
  addr_value : MetaAddress → MetaValue
  expr_value : MetaExpression → MetaValue

-- IMetaData::Operand
pub record MetaOperand : Type 0 where
  pub size : ℕ
  pub value : MetaValue
