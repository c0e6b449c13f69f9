-- ===== src/Word/Mask.antt =====
-- What `MaskToBits` and `SignExtend` compute: the remainder by a power of two, and the two's
-- complement extension of a field to 64 bits.
use aether_vm.Prelude.{
  ℕ, zero, suc, ◌+◌, ◌-◌, ◌%◌, ◌^◌, ◌≤◌, ◌<◌, bit_xor, ◌≡◌, arith, ltb, leb, if◌then◌else◌,
  Bool-cases, inl, inr, false, leb→le, sym, le_trans, ltb→lt, suc-==-zero, pow-suc, one-le-pow,
  pow-le-pow_right, mod-lt, mod-le, mod-eq_of_lt,
}
use aether_vm.Word.{sub64, mask_to_bits, sign_extend}
use aether_vm.Word.Digits.{bit_and-low_ones, bit_xor-top_clear, bit_xor-top_set}

-- For a 64-bit value, masking to any number of bits is the remainder by that power of two.
pub mask_to_bits-eq-mod : (val bits : ℕ) → val < 2 ^ 64 → mask_to_bits val bits ≡ val % 2 ^ bits
unfolding mask_to_bits
mask_to_bits-eq-mod val zero h = omega arith
mask_to_bits-eq-mod val (suc b) h = elim (Bool-cases (leb 64 (suc b))) [
  | inl wide ↦
      rw (suc-==-zero b, wide)
        (sym (
          mod-eq_of_lt
            (le_trans h (pow-le-pow_right {n = 2} (omega arith) (leb→le 64 (suc b) wide)))))
  | inr narrow ↦ rw (suc-==-zero b, narrow) (bit_and-low_ones (suc b) val)
]

pub mask_to_bits-lt : (val bits : ℕ) → val < 2 ^ 64 → mask_to_bits val bits < 2 ^ bits
mask_to_bits-lt val bits h = rw mask_to_bits-eq-mod (mod-lt val (one-le-pow bits 2 (omega arith)))

pub mask_to_bits-le : (val bits : ℕ) → val < 2 ^ 64 → mask_to_bits val bits < 2 ^ 64
mask_to_bits-le val bits h = omega (arith, mask_to_bits-eq-mod val bits h, mod-le val (2 ^ bits))

-- The two's complement reading of a field of k + 1 bits, back in 64 bits.
extend_field :
    (k v : ℕ)
    → k < 63
    → v < 2 ^ suc k
    → sub64 (bit_xor v (2 ^ k)) (2 ^ k) ≡ (if ltb v (2 ^ k) then v else v + (2 ^ 64 - 2 ^ suc k))
unfolding sub64
extend_field k v hk hv = elim (Bool-cases (ltb v (2 ^ k))) [
  | inl clear ↦
      rw clear (omega (arith, small, bit_xor-top_clear k v (ltb→lt _ _ clear), ltb→lt _ _ clear))
  | inr above ↦ rw above (omega (arith, small, pow-suc 2 k, bit_xor-top_set k v (ground arith) hv))
]
  where
    small : 2 ^ suc k ≤ 2 ^ 63
    small = pow-le-pow_right {n = 2} (omega arith) {j = 63} (omega arith)

pred-suc : (k : ℕ) → suc k - 1 ≡ k
pred-suc k = omega arith

lt_of_leb : (a b : ℕ) → leb a b ≡ false → b < a
lt_of_leb a b h = ground arith

-- Sign extension of the low `bits` bits, for 0 < bits ≤ 64: a field whose top bit is clear is kept,
-- and one whose top bit is set gets ones above it.
pub sign_extend_signed :
    (val bits : ℕ)
    → val < 2 ^ 64
    → 0 < bits
    → bits ≤ 64
    → sign_extend val bits ≡ (
        if ltb (val % 2 ^ bits) (2 ^ (bits - 1))
        then val % 2 ^ bits
        else val % 2 ^ bits + (2 ^ 64 - 2 ^ bits))
unfolding sign_extend
sign_extend_signed val zero h p q = absurd (omega arith)
sign_extend_signed val (suc k) h p q = elim (Bool-cases (leb 64 (suc k))) [
  | inl wide ↦
      let e : k ≡ 63 = omega (arith, leb→le 64 (suc k) wide) in
      rw (suc-==-zero k, wide, e) (ground arith)
  | inr narrow ↦
      rw (suc-==-zero k, narrow, mask_to_bits-eq-mod val (suc k) h, pred-suc k)
        (extend_field k (val % 2 ^ suc k) (omega (arith, lt_of_leb 64 (suc k) narrow))
          (mod-lt val (one-le-pow (suc k) 2 (omega arith))))
]
