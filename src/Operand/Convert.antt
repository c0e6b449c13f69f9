-- ===== src/Operand/Convert.antt =====
-- src/OpcodeEngine.cpp, ConvertExpression and ConvertOperand: remill's operands become the
-- fixed-width operands and the node array of the metadata.
use Prim.Native.String.{String}
use aether_vm.Prelude.{
  ℕ, ◌-◌, ◌/◌, ◌%◌, ◌^◌, Bool, true, false, Option, none, some, List, [], ◌∷◌, ◌++◌, ◌&&◌, length,
  leb, if◌then◌else◌,
}
use aether_vm.Operand.{
  Opcode, other, RemillRegister, ShiftRegister, Address, OperandExpression, null, unary, binary,
  register, constant, name, RemillOperand, invalid, reg_operand, shift_operand, imm_operand,
  addr_operand, expr_operand, is_empty, MetaRegister, MetaExpression, k_operation, k_register,
  k_constant, MetaOperand, MetaValue, no_value, reg_value, shift_value, imm_value, addr_value,
  expr_value,
}
use aether_vm.Operand.Raw.{named_size}

-- One constructor for each message that the source leaves in `error`
pub data ConvertError : Type 0 where
  null_expression opcode_too_wide too_many_nodes width_too_wide : ConvertError
  unknown_register register_too_wide unsupported_constant empty_register_name : ConvertError
  field_too_wide : ConvertError

pub data Result {ℓ} (A : Type ℓ) : Type ℓ where
  ok : A → Result A
  err : ConvertError → Result A

-- A failed test ends the conversion with its message.
abbrev pub guard : Bool → ConvertError → Result (Unit {0})
guard false message = err message
guard true message = ok tt

infixl 5 ◌>>=◌ ◌>>◌
abbrev pub ◌>>=◌ {ℓ κ} : {A : Type ℓ} {B : Type κ} → Result A → (A → Result B) → Result B
err message >>= next = err message
ok value >>= next = next value

abbrev pub ◌>>◌ {κ} : {B : Type κ} → Result (Unit {0}) → Result B → Result B
test >> next = test >>= (λ passed. next)

-- `op->llvm_opcode <= UINT8_MAX`: LLVM's own opcodes fit
abbrev pub opcode_fits : Opcode → Bool
opcode_fits (other n) = leb n 255
opcode_fits _ = true

-- The width of a node: zero where the type is null
unfoldable pub node_width : Option ℕ → Result ℕ
node_width none = ok 0
node_width (some w) = do guard (leb w 255) width_too_wide; ok w

-- The lookup of a register's offset and the test of its fields
unfoldable pub convert_named : (String → Option ℕ) → String → ℕ → Result MetaRegister
convert_named regoffs reg size = elim (regoffs reg) [
  | none ↦ err unknown_register
  | some offset ↦
      if leb offset 65535 && leb size 65535
      then ok (record { offset = offset; size = size })
      else err register_too_wide
]

-- The end of `append_child`: the index of the child, and the array with the child at its end
unfoldable pub push_node : MetaExpression → List MetaExpression → Result (ℕ × List MetaExpression)
push_node child nodes =
    if leb (2 ^ 32 - 1) (length nodes)
    then err too_many_nodes
    else ok (length nodes, nodes ++ child ∷ [])

-- `append_child` of ConvertExpression: convert the child, then push it
unfoldable pub append_child :
    Result (MetaExpression × List MetaExpression) → Result (ℕ × List MetaExpression)
append_child converted = do (child, nodes) ← converted; push_node child nodes

-- ConvertExpression
unfoldable pub convert_expression :
    (String → Option ℕ)
    → OperandExpression
    → List MetaExpression
    → Result (MetaExpression × List MetaExpression)
convert_expression regoffs null nodes = err null_expression
convert_expression regoffs (unary op w e) nodes = do
  guard (opcode_fits op) opcode_too_wide
  (lhs, nodes1) ← append_child (convert_expression regoffs e nodes)
  width ← node_width w
  ok (k_operation op width lhs none, nodes1)
convert_expression regoffs (binary op w e f) nodes = do
  guard (opcode_fits op) opcode_too_wide
  (lhs, nodes1) ← append_child (convert_expression regoffs e nodes)
  (rhs, nodes2) ← append_child (convert_expression regoffs f nodes1)
  width ← node_width w
  ok (k_operation op width lhs (some rhs), nodes2)
convert_expression regoffs (register reg size) nodes = do
  r ← convert_named regoffs reg size
  ok (k_register r, nodes)
convert_expression regoffs (constant bits value) nodes =
    if leb bits 64
    then ok (k_constant (value % 2 ^ bits % 2 ^ 32) (value % 2 ^ bits / 2 ^ 32), nodes)
    else err unsupported_constant
convert_expression regoffs (name reg) nodes = elim (named_size reg) [
  | none ↦ err empty_register_name
  | some size ↦ (do r ← convert_named regoffs reg size; ok (k_register r, nodes))
]

-- `convert_register` of ConvertOperand: the offset was set by `initOffsets`
unfoldable pub convert_register : RemillRegister → Result MetaRegister
convert_register reg =
    if leb reg.offset 65535 && leb reg.size 65535
    then ok (record { offset = reg.offset; size = reg.size })
    else err register_too_wide

abbrev pub no_register : MetaRegister
no_register = record { offset = 0; size = 0 }

-- A register of an address: absent where its name is empty
unfoldable pub convert_optional : RemillRegister → Result MetaRegister
convert_optional reg = if is_empty reg.name then ok no_register else convert_register reg

unfoldable pub convert_shift : ShiftRegister → Result MetaValue
convert_shift shift = do
  guard (leb shift.shift_size 255 && leb shift.extract_size 255) field_too_wide
  r ← convert_register shift.reg
  ok (
      shift_value (record {
        reg = r;
        shift_size = shift.shift_size;
        extract_size = shift.extract_size;
        shift_op = shift.shift_op;
        extend_op = shift.extend_op;
      }))

unfoldable pub convert_address : Address → Result MetaValue
convert_address a = do
  guard (leb a.address_size 255) field_too_wide
  segment ← convert_optional a.segment_base_reg
  base ← convert_optional a.base_reg
  index ← convert_optional a.index_reg
  ok (
      addr_value (record {
        segment = segment;
        base = base;
        index = index;
        scale = a.scale;
        displacement = a.displacement;
        address_size = a.address_size;
        kind = a.kind % 256;
      }))

-- The switch of ConvertOperand
unfoldable pub convert_value :
    (String → Option ℕ)
    → RemillOperand
    → List MetaExpression
    → Result (MetaValue × List MetaExpression)
convert_value regoffs op nodes = elim op.value [
  | invalid ↦ ok (no_value, nodes)
  | reg_operand r ↦ (do m ← convert_register r; ok (reg_value m, nodes))
  | shift_operand r ↦ (do m ← convert_shift r; ok (m, nodes))
  | imm_operand i ↦ ok (imm_value i, nodes)
  | addr_operand a ↦ (do m ← convert_address a; ok (m, nodes))
  | expr_operand e ↦ (do
    (m, nodes1) ← convert_expression regoffs e nodes
    ok (expr_value m, nodes1))
]

-- ConvertOperand: the operand's size is cut to 16 bits, unchecked
unfoldable pub convert_operand :
    (String → Option ℕ)
    → RemillOperand
    → List MetaExpression
    → Result (MetaOperand × List MetaExpression)
convert_operand regoffs op nodes = do
  (value, nodes1) ← convert_value regoffs op nodes
  ok (record { size = op.size % 65536; value = value }, nodes1)

-- OpcodeEngine::convertOperands: one node array for all operands
unfoldable pub convert_operands :
    (String → Option ℕ)
    → List RemillOperand
    → List MetaExpression
    → Result (List MetaOperand × List MetaExpression)
convert_operands regoffs [] nodes = ok ([], nodes)
convert_operands regoffs (op ∷ ops) nodes = do
  (m, nodes1) ← convert_operand regoffs op nodes
  (rest, nodes2) ← convert_operands regoffs ops nodes1
  ok (m ∷ rest, nodes2)
