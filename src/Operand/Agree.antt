-- ===== src/Operand/Agree.antt =====
-- ConvertOperand of src/OpcodeEngine.cpp against the two operand switches, that of
-- src/InterpMetaData.cpp on the metadata and that of src/OpcodeEngine.cpp on the operand.
use Prim.Native.String.{String}
use aether_vm.Prelude.{
  ℕ, ◌%◌, ◌≤◌, ◌<◌, Bool, false, Option, some, List, ◌++◌, ◌≡◌, arith, leb, mod-eq_of_lt,
}
use aether_vm.Operand.{
  State, RemillRegister, ShiftRegister, Address, RemillOperand, OperandValue, invalid, reg_operand,
  shift_operand, imm_operand, addr_operand, expr_operand, is_empty, MetaRegister, MetaExpression,
  MetaOperand, MetaValue, reg_value,
}
use aether_vm.Operand.Raw.{
  load_word_reg_val_or_zero, lift_shift_register, lift_register, lift_immediate, lift_address,
  lift_operand,
}
use aether_vm.Operand.Meta.{
  load_word_meta_or_zero, lift_meta_shift, lift_meta_address, lift_meta_operand,
}
use aether_vm.Operand.Convert.{
  ok, convert_register, convert_optional, convert_shift, convert_address, convert_expression,
  convert_value, convert_operand,
}
use aether_vm.Operand.Expression.{height, lift-convert}
use aether_vm.Operand.Inversion.{bind-eq-ok, guard-eq-ok}

-- A register that an address names has a size.
abbrev pub IsSized : RemillRegister → Type 0
IsSized r = is_empty r.name ≡ false → 0 < r.size

-- What the metadata can hold: the operand's size in 16 bits, and registers of an address with a size
abbrev pub IsSizedValue : OperandValue → Type 0
IsSizedValue (addr_operand a) =
    IsSized a.segment_base_reg × IsSized a.base_reg × IsSized a.index_reg
IsSizedValue _ = Unit

abbrev pub IsEncodable : RemillOperand → Type 0
IsEncodable op = (op.size < 65536) × IsSizedValue op.value

-- The fuel that an operand's evaluation needs
abbrev pub operand_height : OperandValue → ℕ
operand_height (expr_operand e) = height e
operand_height _ = 0

optional_agrees :
    (s : State) (r : RemillRegister) {m : MetaRegister}
    → IsSized r
    → convert_optional r ≡ ok m
    → load_word_meta_or_zero s m 64 ≡ load_word_reg_val_or_zero s r 64
unfolding convert_optional convert_register load_word_meta_or_zero load_word_reg_val_or_zero
optional_agrees s r sized h = ground (arith, sized)

-- The metadata's operand with a value, at the size that it keeps
abbrev meta_operand : ℕ → MetaValue → MetaOperand
meta_operand size m = record { size = size; value = m }

module _ (s : State) (nodes : List MetaExpression) (fuel size : ℕ) (pointer : Bool) where
  register_agrees :
      (r : RemillRegister) {m : MetaRegister}
      → convert_register r ≡ ok m
      → lift_meta_operand fuel s nodes (meta_operand size (reg_value m)) pointer
        ≡ some (lift_register s r pointer)
  unfolding convert_register lift_meta_operand lift_register
  register_agrees r h = ground arith

  shift_agrees :
      (r : ShiftRegister) {m : MetaValue}
      → convert_shift r ≡ ok m
      → lift_meta_operand fuel s nodes (meta_operand size m) pointer
        ≡ some (lift_shift_register s r size)
  unfolding convert_shift convert_register lift_meta_operand lift_meta_shift lift_shift_register
  shift_agrees r h = ground arith

  address_agrees :
      (a : Address) {m : MetaValue}
      → IsSizedValue (addr_operand a)
      → convert_address a ≡ ok m
      → lift_meta_operand fuel s nodes (meta_operand size m) pointer ≡ some (lift_address s a)
  unfolding convert_address lift_meta_operand lift_meta_address lift_address
  address_agrees a {m} h k =
      let k0 = guard-eq-ok (leb a.address_size 255) _ _ k in
      let (seg, ks, k1) = bind-eq-ok (convert_optional a.segment_base_reg) _ k0 in
      let (base, kb, k2) = bind-eq-ok (convert_optional a.base_reg) _ k1 in
      let (index, ki, k3) = bind-eq-ok (convert_optional a.index_reg) _ k2 in
      ground (
        arith,
        optional_agrees s a.segment_base_reg h.0 ks,
        optional_agrees s a.base_reg h.1 kb,
        optional_agrees s a.index_reg h.2 ki,
      )

  -- One case for each variant of the operand
  value_agrees :
      (regoffs : String → Option ℕ) (value : OperandValue) (before more : List MetaExpression)
      {r : MetaValue × List MetaExpression} {v : ℕ}
      → IsSizedValue value
      → convert_value regoffs (record { size = size; value = value }) before ≡ ok r
      → lift_operand regoffs s (record { size = size; value = value }) pointer ≡ some v
      → nodes ≡ r.1 ++ more
      → operand_height value ≤ fuel
      → lift_meta_operand fuel s nodes (meta_operand size r.0) pointer ≡ some v
  unfolding convert_value lift_operand
  value_agrees regoffs invalid before more hs h k g f = cc
  value_agrees regoffs (reg_operand r) before more hs h k g f =
      let (m, hm, e) = bind-eq-ok (convert_register r) _ h in ground (arith, register_agrees r hm)
  value_agrees regoffs (shift_operand r) before more hs h k g f =
      let (m, hm, e) = bind-eq-ok (convert_shift r) _ h in ground (arith, shift_agrees r hm)
  value_agrees regoffs (imm_operand i) before more hs h k g f =
      unfold lift_immediate lift_meta_operand in ground arith
  value_agrees regoffs (addr_operand a) before more hs h k g f =
      let (m, hm, e) = bind-eq-ok (convert_address a) _ h in ground (arith, address_agrees a hs hm)
  value_agrees regoffs (expr_operand x) before more hs h k g f =
      let (m, hm, e) = bind-eq-ok (convert_expression regoffs x before) _ h in
      let g' : nodes ≡ m.1 ++ more = ground arith in
      unfold lift_meta_operand in
      ground (arith, lift-convert regoffs s x before nodes more fuel hm k g' f)

-- The conversion of one operand keeps its value: what the metadata's interpreter passes to a handler
-- is what the engine passes. For an operand whose size fits 16 bits and whose address registers have
-- sizes, in every array that continues the one built, with fuel for the expression's height.
pub lift-convert_operand :
    (regoffs : String → Option ℕ) (s : State) (op : RemillOperand) (pointer : Bool)
    (before more nodes : List MetaExpression) (fuel : ℕ) {r : MetaOperand × List MetaExpression}
    {v : ℕ}
    → IsEncodable op
    → convert_operand regoffs op before ≡ ok r
    → lift_operand regoffs s op pointer ≡ some v
    → nodes ≡ r.1 ++ more
    → operand_height op.value ≤ fuel
    → lift_meta_operand fuel s nodes r.0 pointer ≡ some v
unfolding convert_operand
lift-convert_operand regoffs s op pointer before more nodes fuel h k l g f =
    let (m, hm, e) = bind-eq-ok (convert_value regoffs op before) _ k in
    let size : op.size % 65536 ≡ op.size = mod-eq_of_lt h.0 in
    let g' : nodes ≡ m.1 ++ more = ground arith in
    ground
      (arith, value_agrees s nodes fuel op.size pointer regoffs op.value before more h.1 hm l g' f)
