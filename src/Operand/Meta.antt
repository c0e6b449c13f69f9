-- ===== src/Operand/Meta.antt =====
-- src/InterpMetaData.cpp: lifting an operand of the mapped metadata to the same raw value.
use aether_vm.Prelude.{
  ℕ, zero, suc, ◌+◌, ◌%◌, ◌^◌, Bool, Option, none, some, List, bit_or, get_elem?, ltb, ◌==◌,
  if◌then◌else◌,
}
use aether_vm.Word.{shl64, mask_to_bits, sign_extend}
use aether_vm.Operand.{
  State, load_reg_value, Opcode, zext, trunc, sext, MetaRegister, MetaExpression, k_operation,
  k_register, k_constant, MetaShiftRegister, MetaAddress, MetaOperand, no_value, reg_value,
  shift_value, imm_value, addr_value, expr_value,
}
use aether_vm.Operand.Raw.{extend_register, shift_register, effective_address, apply_opcode, ◌>>=◌}

-- LoadWordRegValOrZeroRaw: a size of zero marks an absent register
unfoldable pub load_word_meta_or_zero : State → MetaRegister → ℕ → ℕ
load_word_meta_or_zero s reg word_size_bits =
    if reg.size == 0 then 0 else mask_to_bits (load_reg_value s reg.offset reg.size) word_size_bits

-- LiftShiftRegisterOperandRaw
unfoldable pub lift_meta_shift : State → MetaShiftRegister → ℕ → ℕ
lift_meta_shift s shift op_size =
    let loaded = load_reg_value s shift.reg.offset shift.reg.size in
    let (reg, curr_size) =
      extend_register shift.extend_op loaded shift.reg.size shift.extract_size op_size in
    let widened = if ltb curr_size op_size then mask_to_bits reg curr_size else reg in
    let shifted = shift_register shift.shift_op widened shift.shift_size op_size in
    if ltb op_size 64 then mask_to_bits shifted op_size else shifted

-- LiftAddressOperandRaw: the same steps as the engine's, on registers of the metadata
unfoldable pub lift_meta_address : State → MetaAddress → ℕ
lift_meta_address s a =
    effective_address (load_word_meta_or_zero s a.base 64) (load_word_meta_or_zero s a.index 64)
      (load_word_meta_or_zero s a.segment 64) a.scale a.displacement a.address_size

-- The switch on `expression.opcode`: the width is a byte of the node, never absent
unfoldable pub apply_meta_opcode : Opcode → ℕ → ℕ → ℕ → Option ℕ
apply_meta_opcode zext width lhs rhs = some (mask_to_bits lhs width)
apply_meta_opcode trunc width lhs rhs = some (mask_to_bits lhs width)
apply_meta_opcode sext width lhs rhs = some (sign_extend lhs width)
apply_meta_opcode op width lhs rhs = apply_opcode op none lhs rhs

-- LiftExpressionOperandRecRaw: children are found by their index in `expressions`, so the recursion
-- takes fuel; `none` is `abort`, a read outside the array, or no fuel left.
unfoldable pub lift_meta_expression : ℕ → State → List MetaExpression → MetaExpression → Option ℕ
lift_meta_expression zero s nodes node = none
lift_meta_expression (suc fuel) s nodes (k_operation op width lhs none) = do
  l ← get_elem? nodes lhs
  a ← lift_meta_expression fuel s nodes l
  apply_meta_opcode op width a 0
lift_meta_expression (suc fuel) s nodes (k_operation op width lhs (some rhs)) = do
  l ← get_elem? nodes lhs
  a ← lift_meta_expression fuel s nodes l
  r ← get_elem? nodes rhs
  b ← lift_meta_expression fuel s nodes r
  apply_meta_opcode op width a b
lift_meta_expression (suc fuel) s nodes (k_register reg) =
    some (load_reg_value s reg.offset reg.size)
lift_meta_expression (suc fuel) s nodes (k_constant low high) = some (bit_or (shl64 high 32) low)

-- LiftOperandRaw
unfoldable pub lift_meta_operand : ℕ → State → List MetaExpression → MetaOperand → Bool → Option ℕ
lift_meta_operand fuel s nodes op pointer = elim op.value [
  | no_value ↦ none
  | reg_value r ↦
      some (if pointer then (s.base + r.offset) % 2 ^ 64 else load_reg_value s r.offset r.size)
  | shift_value r ↦ some (lift_meta_shift s r op.size)
  | imm_value i ↦
      some (if i.is_signed then sign_extend i.val op.size else mask_to_bits i.val op.size)
  | addr_value a ↦ some (lift_meta_address s a)
  | expr_value e ↦ lift_meta_expression fuel s nodes e
]
