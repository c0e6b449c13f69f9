-- ===== src/Tests/Operands.antt =====
-- Operands: raw values in the engine and from the metadata
use Prim.Native.String.{String}
use aether_vm.Prelude.{ℕ, false, Option, some, List, [], ◌∷◌, ◌≡◌, refl, arith}
use aether_vm.Word.{add64, mask_to_bits}
use aether_vm.Operand.{
  State, load_bytes, load_reg_value, Opcode, OperandExpression, RemillRegister, Address,
  RemillOperand, MetaExpression, MetaOperand, MetaRegister,
}
use aether_vm.Operand.Raw.{
  lift_address, lift_expression, lift_operand, load_named, apply_opcode, load_word_reg_val_or_zero,
}
use aether_vm.Operand.Meta.{lift_meta_expression, lift_meta_operand}
use aether_vm.Operand.Convert.{
  ok, node_width, convert_named, push_node, append_child, convert_expression, convert_value,
  convert_operand,
}
use aether_vm.Operand.Expression.{lift-convert}
use aether_vm.Operand.Effective.{lift_address_sum}
use aether_vm.Operand.Agree.{lift-convert_operand}

-- Every register is at offset 8, and every byte is 1.
abbrev regoffs : String → Option ℕ
regoffs name = some 8

abbrev state : State
state = record { base = 4096; byte = λ offset. 1 }

-- w3 + 5
abbrev sum : OperandExpression
sum =
    OperandExpression.binary Opcode.add (some 64) (OperandExpression.register "w3" 32)
      (OperandExpression.constant 64 5)

abbrev w3 : MetaRegister
w3 = record { offset = 8; size = 32 }

abbrev sum_nodes : List MetaExpression
sum_nodes = MetaExpression.k_register w3 ∷ MetaExpression.k_constant 5 0 ∷ []

abbrev sum_node : MetaExpression
sum_node = MetaExpression.k_operation Opcode.add 64 0 (some 1)

sum_converts : convert_expression regoffs sum [] ≡ ok (sum_node, sum_nodes)
unfolding convert_expression convert_named append_child push_node node_width
sum_converts = refl

sum_lifts : lift_expression regoffs state sum ≡ some 16843014
unfolding lift_expression load_named load_reg_value load_bytes apply_opcode add64
sum_lifts = refl

lift-convert_example : lift_meta_expression 2 state sum_nodes sum_node ≡ some 16843014
lift-convert_example =
    lift-convert regoffs state sum [] sum_nodes [] 2 sum_converts sum_lifts refl (omega arith)

abbrev operand : RemillOperand
operand = record { size = 64; value = aether_vm.Operand.OperandValue.expr_operand sum }

abbrev converted : MetaOperand
converted = record { size = 64; value = aether_vm.Operand.MetaValue.expr_value sum_node }

operand_converts : convert_operand regoffs operand [] ≡ ok (converted, sum_nodes)
unfolding convert_operand convert_value convert_expression convert_named append_child push_node
    node_width
operand_converts = refl

operand_lifts : lift_operand regoffs state operand false ≡ some 16843014
unfolding lift_operand lift_expression load_named load_reg_value load_bytes apply_opcode add64
operand_lifts = refl

lift-convert_operand_example : lift_meta_operand 2 state sum_nodes converted false ≡ some 16843014
lift-convert_operand_example =
    lift-convert_operand regoffs state operand false [] [] sum_nodes 2 (omega arith, tt)
      operand_converts operand_lifts refl (omega arith)

abbrev x1 : RemillRegister
x1 = record { name = "x1"; size = 64; offset = 8 }

abbrev absent : RemillRegister
absent = record { name = ""; size = 0; offset = 0 }

-- x1 - 1, where every byte of x1 is 1
abbrev below : Address
below = record {
  segment_base_reg = absent;
  base_reg = x1;
  index_reg = absent;
  scale = 0;
  displacement = 18446744073709551615;
  address_size = 64;
  kind = 0;
}

lift_address_sum_example : lift_address state below ≡ 72340172838076672
unfolding load_word_reg_val_or_zero mask_to_bits load_reg_value load_bytes
lift_address_sum_example = lift_address_sum state below (omega arith)
