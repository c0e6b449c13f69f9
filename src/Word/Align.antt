-- ===== src/Word/Align.antt =====
-- Masks with clear low bits: the alignment to a power of two.
use aether_vm.Prelude.{
  ℕ, zero, suc, ◌+◌, ◌-◌, ◌*◌, ◌/◌, ◌^◌, bit_and, ◌≤◌, ◌<◌, ◌≡◌, sym, ap, ◌∙◌, arith, pow-suc,
  one-le-pow, mod-eq_of_lt, pow-le-pow_right, mod-lt,
}
use aether_vm.Word.{sub64, not64}
use aether_vm.Search.{align_up, align_down}
use aether_vm.Word.Digits.{bit_and_digit, bit_and-low_ones}
use native.Mathlib.Nat.{div-div-eq-div-mul, suc-mul, div-add-mod'}

swap : (t : ℕ) → t * 2 ≡ 2 * t
swap t = omega arith

regroup : (q t : ℕ) → q * (2 * t) ≡ q * t * 2
regroup q t = omega arith

less_one : (a b : ℕ) → (a - 1) * b ≡ a * b - b
less_one zero b = omega arith
less_one (suc a) b = ap (λ t. t * b) minus ∙ omega (arith, suc-mul a b)
  where
    minus : suc a - 1 ≡ a
    minus = omega arith

up : (m k : ℕ) → m + suc k ≡ suc (m + k)
up m k = omega arith

pow_sum : (a k : ℕ) → 2 ^ (a + k) ≡ 2 ^ a * 2 ^ k
pow_sum a zero = ap (λ n. 2 ^ n) (flat a) ∙ once (2 ^ a)
  where
    flat : (n : ℕ) → n + 0 ≡ n
    flat n = omega arith

    once : (t : ℕ) → t ≡ t * 2 ^ 0
    once t = omega arith
pow_sum a (suc k) =
    ap (λ n. 2 ^ n) (up a k)
    ∙ pow-suc 2 (a + k)
    ∙ ap (λ t. t * 2) (pow_sum a k)
    ∙ sym (regroup (2 ^ a) (2 ^ k))
    ∙ ap (λ t. 2 ^ a * t) (sym (swap (2 ^ k)) ∙ sym (pow-suc 2 k))

-- A mask of ones above k clear bits
pub and_ones_above :
    (k m a : ℕ) → a < 2 ^ (m + k) → bit_and a ((2 ^ m - 1) * 2 ^ k) ≡ a / 2 ^ k * 2 ^ k
and_ones_above zero m a h =
    ap (bit_and a) (one (2 ^ m - 1))
    ∙ bit_and-low_ones m a
    ∙ mod-eq_of_lt (omega (arith, h, ap (λ n. 2 ^ n) (flat m)))
    ∙ omega arith
  where
    one : (t : ℕ) → t * 2 ^ 0 ≡ t
    one t = omega arith

    flat : (n : ℕ) → n + 0 ≡ n
    flat n = omega arith
and_ones_above (suc k) m a h =
    let lower = and_ones_above k m (a / 2) inside in
    ground (arith, bit_and_digit a ((2 ^ m - 1) * 2 ^ suc k), mask, lower, halves, pow-suc 2 k)
  where
    mask : (2 ^ m - 1) * 2 ^ suc k ≡ (2 ^ m - 1) * 2 ^ k * 2
    mask = omega (arith, ap (λ t. (2 ^ m - 1) * t) (pow-suc 2 k))

    inside : a / 2 < 2 ^ (m + k)
    inside = omega (arith, h, ap (λ n. 2 ^ n) (up m k), pow-suc 2 (m + k))

    halves : a / 2 ^ suc k * 2 ^ suc k ≡ a / 2 / 2 ^ k * 2 ^ k * 2
    halves =
        ap (λ t. a / t * t) (pow-suc 2 k ∙ swap (2 ^ k))
        ∙ ap (λ t. t * (2 * 2 ^ k)) (sym (div-div-eq-div-mul a 2 (2 ^ k)))
        ∙ regroup (a / 2 / 2 ^ k) (2 ^ k)

-- The mask of an alignment
clear_mask : (k : ℕ) → k ≤ 63 → not64 (sub64 (2 ^ k) 1) ≡ (2 ^ (64 - k) - 1) * 2 ^ k
unfolding not64 sub64
clear_mask k h = omega (
  arith,
  less_one (2 ^ (64 - k)) (2 ^ k),
  pow_sum (64 - k) k,
  ap (λ n. 2 ^ n) (whole k h),
  one-le-pow k 2,
  pow-le-pow_right {n = 2} (omega arith) h,
)
  where
    whole : (k : ℕ) → k ≤ 63 → 64 - k + k ≡ 64
    whole k h = omega arith

-- Aligning down a value to a power of two takes the remainder away.
pub align_down-power :
    (value k : ℕ) → k ≤ 63 → value < 2 ^ 64 → align_down value (2 ^ k) ≡ value / 2 ^ k * 2 ^ k
unfolding align_down
align_down-power value k h b =
    ap (bit_and value) (clear_mask k h)
    ∙ and_ones_above k (64 - k) value (omega (arith, b, ap (λ n. 2 ^ n) (whole k h)))
  where
    whole : (k : ℕ) → k ≤ 63 → 64 - k + k ≡ 64
    whole k h = omega arith

pub align_up-power :
    (value k : ℕ)
    → k ≤ 63
    → value + 2 ^ k ≤ 2 ^ 64
    → align_up value (2 ^ k) ≡ (value + 2 ^ k - 1) / 2 ^ k * 2 ^ k
unfolding align_up align_down
align_up-power value k h b =
    ap (λ n. bit_and n (not64 (sub64 (2 ^ k) 1))) (omega (arith, b, one-le-pow k 2))
    ∙ align_down-power (value + 2 ^ k - 1) k h (omega (arith, b, one-le-pow k 2))

-- Aligning up gives the first multiple of the power that is not below the value.
pub align_up-least :
    (value k : ℕ)
    → k ≤ 63
    → value + 2 ^ k ≤ 2 ^ 64
    → (q : ℕ) × (align_up value (2 ^ k) ≡ q * 2 ^ k)
      × (value ≤ align_up value (2 ^ k))
      × (align_up value (2 ^ k) < value + 2 ^ k)
align_up-least value k h b =
    let q = (value + 2 ^ k - 1) / 2 ^ k in
    let whole = div-add-mod' (value + 2 ^ k - 1) (2 ^ k) in
    let small = mod-lt (value + 2 ^ k - 1) {m = 2 ^ k} (omega (arith, one-le-pow k 2)) in
    let is = align_up-power value k h b in
    (
      q,
      is,
      omega (arith, is, whole, small, one-le-pow k 2),
      omega (arith, is, whole, small, one-le-pow k 2),
    )
