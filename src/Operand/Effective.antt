-- ===== src/Operand/Effective.antt =====
-- LiftAddressOperandRaw as one sum, and the range of the register loads.
use native.Mathlib.Nat.{mul-one, mul_assoc, mod-mod_of_dvd, dvd-mul_right}
use aether_vm.Prelude.{
  ℕ, zero, suc, ◌+◌, ◌-◌, ◌*◌, ◌/◌, ◌%◌, ◌^◌, ◌≤◌, ◌<◌, min, ◌≡◌, sym, arith, ltb, ◌==◌,
  if◌then◌else◌, Bool-cases, inl, inr, le_trans, pow-suc, pow-le-pow_right, ltb→lt,
}
use aether_vm.Word.{add64, sub64, mul64, mask_to_bits}
use aether_vm.Word.Mask.{mask_to_bits-eq-mod}
use aether_vm.Operand.{State, load_bytes, load_reg_value, RemillRegister, Address}
use aether_vm.Operand.Raw.{
  load_word_reg_val_or_zero, add_displacement, effective_address, lift_address,
}

load_bytes-lt : (m : ℕ → ℕ) (off n : ℕ) → load_bytes m off n < 256 ^ n
unfolding load_bytes
load_bytes-lt m off zero = omega arith
load_bytes-lt m off (suc n) = omega (arith, load_bytes-lt m (off + 1) n, pow-suc 256 n)

-- Whatever its size, a register's raw value is a 64-bit word.
pub load_reg_value-lt : (s : State) (offset size : ℕ) → load_reg_value s offset size < 2 ^ 64
unfolding load_reg_value
load_reg_value-lt s offset size = elim (Bool-cases (ltb 8 ((size + 7) / 8))) [
  | inl wide ↦ rw wide (omega arith)
  | inr narrow ↦ rw narrow (
      le_trans (load_bytes-lt s.byte offset ((size + 7) / 8))
        (pow-le-pow_right {n = 256} (omega arith) {j = 8} (ground arith)))
]

pub load_word-lt : (s : State) (reg : RemillRegister) → load_word_reg_val_or_zero s reg 64 < 2 ^ 64
unfolding load_word_reg_val_or_zero mask_to_bits
load_word-lt s reg = ground (arith, load_reg_value-lt s reg.offset reg.size)

add_displacement-eq :
    (addr d : ℕ) → addr < 2 ^ 64 → d < 2 ^ 64 → add_displacement addr d ≡ (addr + d) % 2 ^ 64
unfolding add_displacement add64 sub64 mask_to_bits
add_displacement-eq addr d h k = ground arith

pow_split : (j k n : ℕ) → n ≡ k + j → 2 ^ n ≡ 2 ^ k * 2 ^ j
pow_split zero k n e = let e' : n ≡ k = omega (arith, e) in rw e' (sym (mul-one (2 ^ k)))
pow_split (suc j) k zero e = absurd (omega (arith, e))
pow_split (suc j) k (suc n) e =
    rw (pow-suc 2 n, pow-suc 2 j, pow_split j k n (omega (arith, e))) (mul_assoc (2 ^ k) (2 ^ j) 2)

-- Cutting to 64 bits first does not change the lower bits.
pub mod_pow_mod : (x k n : ℕ) → k ≤ n → x % 2 ^ n % 2 ^ k ≡ x % 2 ^ k
mod_pow_mod x k n h =
    mod-mod_of_dvd (2 ^ k) x
      (rw (pow_split (n - k) k n (omega arith)) (dvd-mul_right (2 ^ k) (2 ^ (n - k))))

-- The address before the last cut, in three steps
indexed_sum :
    (base index scale : ℕ)
    → base < 2 ^ 64
    → (if index == 0 then base else mask_to_bits (add64 base (mul64 index scale)) 64)
      ≡ (base + index * scale) % 2 ^ 64
unfolding add64 mul64 mask_to_bits
indexed_sum base index scale hb = ground arith

segment_sum :
    (displaced segment : ℕ)
    → displaced < 2 ^ 64
    → (if segment == 0 then displaced else mask_to_bits (add64 displaced segment) 64)
      ≡ (displaced + segment) % 2 ^ 64
unfolding add64 mask_to_bits
segment_sum displaced segment h = ground arith

cut_sum :
    (x size : ℕ)
    → (if ltb size 64 then mask_to_bits (x % 2 ^ 64) size else x % 2 ^ 64) ≡ x % 2 ^ min 64 size
cut_sum x size = elim (Bool-cases (ltb size 64)) [
  | inl narrow ↦
      let e : min 64 size ≡ size = omega (arith, ltb→lt size 64 narrow) in
      rw (narrow, e, mask_to_bits-eq-mod (x % 2 ^ 64) size (omega arith))
        (mod_pow_mod x size 64 (omega (arith, ltb→lt size 64 narrow)))
  | inr wide ↦ let e : min 64 size ≡ 64 = ground arith in rw (wide, e)
]

module _ (s : State) (a : Address) where
  abbrev base_value : ℕ
  base_value = load_word_reg_val_or_zero s a.base_reg 64

  abbrev index_value : ℕ
  index_value = load_word_reg_val_or_zero s a.index_reg 64

  abbrev segment_value : ℕ
  segment_value = load_word_reg_val_or_zero s a.segment_base_reg 64

  -- The effective address is the sum of base, scaled index, displacement and segment, cut to the
  -- address size and to 64 bits; a displacement is the 64-bit pattern of a signed number, so a
  -- negative one subtracts. The skipped additions of zero registers do not show.
  pub lift_address_sum :
      a.displacement < 2 ^ 64
      → lift_address s a
        ≡ (base_value + index_value * a.scale + a.displacement + segment_value)
          % 2 ^ min 64 a.address_size
  unfolding lift_address effective_address
  lift_address_sum hd =
      rw
        (
          indexed_sum base_value index_value a.scale (load_word-lt s a.base_reg),
          add_displacement-eq ((base_value + index_value * a.scale) % 2 ^ 64) a.displacement
              (omega arith) hd,
          segment_sum (((base_value + index_value * a.scale) % 2 ^ 64 + a.displacement) % 2 ^ 64)
              segment_value (omega arith),
          inner,
        )
        (cut_sum (base_value + index_value * a.scale + a.displacement + segment_value)
          a.address_size)
    where
      inner :
          (((base_value + index_value * a.scale) % 2 ^ 64 + a.displacement) % 2 ^ 64
              + segment_value)
            % 2 ^ 64
          ≡ (base_value + index_value * a.scale + a.displacement + segment_value) % 2 ^ 64
      inner = omega arith
