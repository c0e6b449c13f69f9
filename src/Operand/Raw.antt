-- ===== src/Operand/Raw.antt =====
-- src/OpcodeEngine.cpp: lifting a decoded operand to the raw value that a semantics function takes.
use Prim.Native.Char.{code}
use Prim.Native.String.{String}
use aether_vm.Prelude.{
  ℕ, ◌+◌, ◌-◌, ◌%◌, ◌^◌, Bool, true, false, Option, none, some, bit_and, bit_or, bit_xor, ltb, leb,
  ◌==◌, if◌then◌else◌,
}
use aether_vm.Word.{add64, sub64, mul64, shl64, shr64, asr64, not64, mask_to_bits, sign_extend}
use aether_vm.Operand.{
  State, load_reg_value, ShiftOp, shift_invalid, left_with_zeroes, left_with_ones, unsigned_right,
  signed_right, left_around, right_around, ExtendOp, extend_invalid, extend_signed, Opcode, add,
  sub, mul, shl, lshr, ashr, zext, sext, trunc, and_op, or_op, urem, xor_op, other, RemillRegister,
  ShiftRegister, Immediate, Address, OperandExpression, null, unary, binary, register, constant,
  name, RemillOperand, invalid, reg_operand, shift_operand, imm_operand, addr_operand, expr_operand,
  is_empty,
}

-- LoadWordRegValOrZeroRaw
unfoldable pub load_word_reg_val_or_zero : State → RemillRegister → ℕ → ℕ
load_word_reg_val_or_zero s reg word_size_bits =
    if is_empty reg.name
    then 0
    else mask_to_bits (load_reg_value s reg.offset reg.size) word_size_bits

-- The first half of LiftShiftRegisterOperandRaw: extraction and extension. The result is the value
-- and its current size.
unfoldable pub extend_register : ExtendOp → ℕ → ℕ → ℕ → ℕ → ℕ × ℕ
extend_register extend_invalid reg reg_size extract_size op_size = (reg, reg_size)
extend_register op reg reg_size extract_size op_size =
    let r = if ltb extract_size reg_size then mask_to_bits reg extract_size else reg in
    let c = if ltb extract_size reg_size then extract_size else reg_size in
    if ltb extract_size op_size
    then (elim op [ extend_signed ↦ sign_extend r extract_size | _ ↦ r ], op_size)
    else (r, c)

-- The second half: the shift
unfoldable pub shift_register : ShiftOp → ℕ → ℕ → ℕ → ℕ
shift_register shift_invalid reg shift_size op_size = reg
shift_register left_with_zeroes reg shift_size op_size = mask_to_bits (shl64 reg shift_size) op_size
shift_register left_with_ones reg shift_size op_size =
    mask_to_bits (bit_or (shl64 reg shift_size) (not64 (shl64 (not64 0) shift_size))) op_size
shift_register unsigned_right reg shift_size op_size = mask_to_bits (shr64 reg shift_size) op_size
shift_register signed_right reg shift_size op_size =
    mask_to_bits (asr64 (sign_extend reg op_size) shift_size) op_size
shift_register left_around reg shift_size op_size =
    let shr_amount = bit_and (add64 (not64 shift_size) 1) (sub64 op_size 1) in
    mask_to_bits (bit_or (shr64 reg shr_amount) (shl64 reg shift_size)) op_size
shift_register right_around reg shift_size op_size =
    let shl_amount = bit_and (add64 (not64 shift_size) 1) (sub64 op_size 1) in
    mask_to_bits (bit_or (shr64 reg shift_size) (shl64 reg shl_amount)) op_size

-- LiftShiftRegisterOperandRaw
unfoldable pub lift_shift_register : State → ShiftRegister → ℕ → ℕ
lift_shift_register s shift op_size =
    let loaded = load_reg_value s shift.reg.offset shift.reg.size in
    let (reg, curr_size) =
      extend_register shift.extend_op loaded shift.reg.size shift.extract_size op_size in
    let widened = if ltb curr_size op_size then mask_to_bits reg curr_size else reg in
    let shifted = shift_register shift.shift_op widened shift.shift_size op_size in
    if ltb op_size 64 then mask_to_bits shifted op_size else shifted

-- LiftRegisterOperandRaw
unfoldable pub lift_register : State → RemillRegister → Bool → ℕ
lift_register s reg true = (s.base + reg.offset) % 2 ^ 64
lift_register s reg false = load_reg_value s reg.offset reg.size

-- LiftImmediateOperandRaw
unfoldable pub lift_immediate : Immediate → ℕ → ℕ
lift_immediate imm bits =
    if imm.is_signed then sign_extend imm.val bits else mask_to_bits imm.val bits

-- The displacement's part of LiftAddressOperandRaw, on the 64-bit pattern of an `int64_t`
unfoldable pub add_displacement : ℕ → ℕ → ℕ
add_displacement addr displacement =
    if displacement == 0
    then addr
    else if ltb displacement (2 ^ 63)
    then mask_to_bits (add64 addr displacement) 64
    else mask_to_bits (sub64 addr (2 ^ 64 - displacement)) 64

-- LiftAddressOperandRaw after its register loads
unfoldable pub effective_address : ℕ → ℕ → ℕ → ℕ → ℕ → ℕ → ℕ
effective_address base index segment scale displacement address_size =
    let indexed = if index == 0 then base else mask_to_bits (add64 base (mul64 index scale)) 64 in
    let displaced = add_displacement indexed displacement in
    let whole = if segment == 0 then displaced else mask_to_bits (add64 displaced segment) 64 in
    if ltb address_size 64 then mask_to_bits whole address_size else whole

-- LiftAddressOperandRaw
unfoldable pub lift_address : State → Address → ℕ
lift_address s a =
    effective_address (load_word_reg_val_or_zero s a.base_reg 64)
      (load_word_reg_val_or_zero s a.index_reg 64)
      (load_word_reg_val_or_zero s a.segment_base_reg 64) a.scale a.displacement a.address_size

-- The switch on `llvm_opcode`; `none` is `abort`, or a null type where a width is asked for
unfoldable pub apply_opcode : Opcode → Option ℕ → ℕ → ℕ → Option ℕ
apply_opcode add w lhs rhs = some (add64 lhs rhs)
apply_opcode sub w lhs rhs = some (sub64 lhs rhs)
apply_opcode mul w lhs rhs = some (mul64 lhs rhs)
apply_opcode shl w lhs rhs = some (shl64 lhs rhs)
apply_opcode lshr w lhs rhs = some (shr64 lhs rhs)
apply_opcode ashr w lhs rhs = some (asr64 lhs rhs)
apply_opcode zext none lhs rhs = none
apply_opcode zext (some w) lhs rhs = some (mask_to_bits lhs w)
apply_opcode sext none lhs rhs = none
apply_opcode sext (some w) lhs rhs = some (sign_extend lhs w)
apply_opcode trunc none lhs rhs = none
apply_opcode trunc (some w) lhs rhs = some (mask_to_bits lhs w)
apply_opcode and_op w lhs rhs = some (bit_and lhs rhs)
apply_opcode or_op w lhs rhs = some (bit_or lhs rhs)
apply_opcode urem w lhs rhs = some (if rhs == 0 then 0 else lhs % rhs)
apply_opcode xor_op w lhs rhs = some (bit_xor lhs rhs)
apply_opcode (other n) w lhs rhs = none

-- `str_op->at(0) == 'w' ? 32 : 64`
unfoldable pub named_size : String → Option ℕ
named_size String.[] = none
named_size (String.◌∷◌ c s) = some (if code c == b'w' then 32 else 64)

infixl 5 ◌>>=◌
abbrev pub ◌>>=◌ {ℓ κ} : {A : Type ℓ} {B : Type κ} → Option A → (A → Option B) → Option B
none >>= f = none
some a >>= f = f a

-- What the engine does with a register's name: `SetOffset`, then the load; `none` is `abort`.
-- `regoffs` is the table that load_regoffs_aarch64 or load_regoffs_x64 has filled.
unfoldable pub load_named : (String → Option ℕ) → State → String → ℕ → Option ℕ
load_named regoffs s reg size = do offset ← regoffs reg; some (load_reg_value s offset size)

-- LiftExpressionOperandRecRaw
unfoldable pub lift_expression : (String → Option ℕ) → State → OperandExpression → Option ℕ
lift_expression regoffs s null = none
lift_expression regoffs s (unary op w e) = do
  lhs ← lift_expression regoffs s e
  apply_opcode op w lhs 0
lift_expression regoffs s (binary op w e f) = do
  lhs ← lift_expression regoffs s e
  rhs ← lift_expression regoffs s f
  apply_opcode op w lhs rhs
lift_expression regoffs s (register reg size) = load_named regoffs s reg size
lift_expression regoffs s (constant bits value) =
    if leb bits 64 then some (value % 2 ^ bits) else none
lift_expression regoffs s (name reg) = do size ← named_size reg; load_named regoffs s reg size

-- The operand switch of OpcodeHandler::interpRemill
unfoldable pub lift_operand : (String → Option ℕ) → State → RemillOperand → Bool → Option ℕ
lift_operand regoffs s op pointer = elim op.value [
  | invalid ↦ none
  | reg_operand r ↦ some (lift_register s r pointer)
  | shift_operand r ↦ some (lift_shift_register s r op.size)
  | imm_operand i ↦ some (lift_immediate i op.size)
  | addr_operand a ↦ some (lift_address s a)
  | expr_operand e ↦ lift_expression regoffs s e
]
