-- ===== src/Word.antt =====
-- Machine words of src/OpcodeEngine.cpp and src/InterpMetaData.cpp: `MaskToBits`, `SignExtend` and
-- the 64-bit operators, with the wrap-around written out.
pub mod Align
pub mod Bytes
pub mod Digits
pub mod Mask
use aether_vm.Prelude.{
  ℕ, ◌+◌, ◌-◌, ◌*◌, ◌/◌, ◌%◌, ◌^◌, bit_and, bit_xor, ◌||◌, ltb, leb, ◌==◌, if◌then◌else◌,
}

-- a - b, a + b, a * b in `uint64_t`, of operands below 2 ^ 64
unfoldable pub sub64 : ℕ → ℕ → ℕ
sub64 a b = (a + 2 ^ 64 - b) % 2 ^ 64

unfoldable pub add64 : ℕ → ℕ → ℕ
add64 a b = (a + b) % 2 ^ 64

unfoldable pub mul64 : ℕ → ℕ → ℕ
mul64 a b = (a * b) % 2 ^ 64

-- x << k and x >> k in `uint64_t`, for k < 64
unfoldable pub shl64 : ℕ → ℕ → ℕ
shl64 x k = (x * 2 ^ k) % 2 ^ 64

unfoldable pub shr64 : ℕ → ℕ → ℕ
shr64 x k = x / 2 ^ k

-- MaskToBits
unfoldable pub mask_to_bits : ℕ → ℕ → ℕ
mask_to_bits val bits =
    if bits == 0 then 0 else if leb 64 bits then val else bit_and val (2 ^ bits - 1)

-- SignExtend
unfoldable pub sign_extend : ℕ → ℕ → ℕ
sign_extend val bits =
    if bits == 0 || leb 64 bits
    then val
    else sub64 (bit_xor (mask_to_bits val bits) (2 ^ (bits - 1))) (2 ^ (bits - 1))

-- ~x in `uint64_t`
unfoldable pub not64 : ℕ → ℕ
not64 x = 2 ^ 64 - 1 - x

-- `static_cast<int64_t>(x) >> k`, for k < 64: the sign bit comes in from the left.
unfoldable pub asr64 : ℕ → ℕ → ℕ
asr64 x k = if ltb x (2 ^ 63) then x / 2 ^ k else not64 (not64 x / 2 ^ k)
