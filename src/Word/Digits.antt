-- ===== src/Word/Digits.antt =====
-- The native bit operations one binary digit at a time, and the closed forms that follow: a mask of
-- low ones is a remainder, and flipping the top bit of a field adds or takes away its weight.
use Prim.Native.Nat.{digits, differ, bitwise, bit_and-bitwise, bit_or-bitwise, bit_xor-bitwise}
use native.Mathlib.Nat.{
  pow-suc, one-le-pow, mod-add-div', mod-lt, mod-eq_of_lt, add-mul-mod_self_right,
}
use aether_vm.Prelude.{
  ℕ, zero, suc, ◌+◌, ◌-◌, ◌*◌, ◌/◌, ◌%◌, ◌^◌, ◌≤◌, ◌<◌, min, max, bit_and, bit_or, bit_xor, ◌≡◌,
  refl, ap, ◌∙◌, arith,
}

-- Any two amounts of fuel that cover the first argument give the same digits.
fuel_irrelevant :
    (z : ℕ → ℕ) (f : ℕ → ℕ → ℕ) (n m a b : ℕ) → a ≤ n → a ≤ m → digits z f n a b ≡ digits z f m a b
fuel_irrelevant z f (suc n) (suc m) (suc a) b p q =
    omega (arith, fuel_irrelevant z f n m (suc a / 2) (b / 2) (omega arith) (omega arith))
fuel_irrelevant z f (suc n) (suc m) zero b p q = refl
fuel_irrelevant z f (suc n) zero (suc a) b p q = absurd (omega arith)
fuel_irrelevant z f (suc n) zero zero b p q = refl
fuel_irrelevant z f zero (suc m) (suc a) b p q = absurd (omega arith)
fuel_irrelevant z f zero (suc m) zero b p q = refl
fuel_irrelevant z f zero zero a b p q = refl

low_digit :
    (z : ℕ → ℕ) (f : ℕ → ℕ → ℕ) (a b : ℕ)
    → bitwise z f (suc a) b ≡ bitwise z f (suc a / 2) (b / 2) * 2 + f (suc a % 2) (b % 2)
low_digit z f a b =
    omega (arith, fuel_irrelevant z f a (suc a / 2) (suc a / 2) (b / 2) (omega arith) (omega arith))

pub bit_and_digit : (a b : ℕ) → bit_and a b ≡ bit_and (a / 2) (b / 2) * 2 + min (a % 2) (b % 2)
bit_and_digit zero b = simp bit_and-bitwise (omega arith)
bit_and_digit (suc a) b = simp bit_and-bitwise (low_digit (λ _. 0) min a b)

bit_or_digit : (a b : ℕ) → bit_or a b ≡ bit_or (a / 2) (b / 2) * 2 + max (a % 2) (b % 2)
bit_or_digit zero b = simp bit_or-bitwise (omega arith)
bit_or_digit (suc a) b = simp bit_or-bitwise (low_digit (λ b. b) max a b)

bit_xor_digit : (a b : ℕ) → bit_xor a b ≡ bit_xor (a / 2) (b / 2) * 2 + differ (a % 2) (b % 2)
bit_xor_digit zero b = simp bit_xor-bitwise (omega arith)
bit_xor_digit (suc a) b = simp bit_xor-bitwise (low_digit (λ b. b) differ a b)

and_nothing : (n a : ℕ) → a ≤ n → bit_and a 0 ≡ 0
and_nothing n zero h = refl
and_nothing zero (suc a) h = absurd (omega arith)
and_nothing (suc n) (suc a) h =
    omega (arith, bit_and_digit (suc a) 0, and_nothing n (suc a / 2) (omega arith))

differ-zero : (x : ℕ) → differ x 0 ≡ x
differ-zero zero = refl
differ-zero (suc x) = refl

xor_nothing : (n a : ℕ) → a ≤ n → bit_xor a 0 ≡ a
xor_nothing n zero h = refl
xor_nothing zero (suc a) h = absurd (omega arith)
xor_nothing (suc n) (suc a) h = ground (
  arith,
  bit_xor_digit (suc a) 0,
  differ-zero (suc a % 2),
  xor_nothing n (suc a / 2) (omega arith),
)

-- The halves of a remainder by 2 ^ (k + 1).
mod_pow_suc : (k a : ℕ) → a % 2 ^ suc k ≡ a / 2 % 2 ^ k * 2 + a % 2
mod_pow_suc k a = go (a / 2 % 2 ^ k * 2 + a % 2) (a / 2 / 2 ^ k) pos whole fits
  where
    pos : 0 < 2 ^ k
    pos = omega (arith, one-le-pow k 2)

    whole : a ≡ a / 2 % 2 ^ k * 2 + a % 2 + a / 2 / 2 ^ k * 2 ^ suc k
    whole = ground (
      arith,
      mod-add-div' (a / 2) (2 ^ k),
      pow-suc 2 k,
      ap (λ (t : ℕ). a / 2 / 2 ^ k * t) (pow-suc 2 k),
    )

    fits : a / 2 % 2 ^ k * 2 + a % 2 < 2 ^ suc k
    fits = omega (arith, mod-lt (a / 2) pos, pow-suc 2 k)

    go : (r q : ℕ) → 0 < 2 ^ k → a ≡ r + q * 2 ^ suc k → r < 2 ^ suc k → a % 2 ^ suc k ≡ r
    go r q p e h = rw e (add-mul-mod_self_right r q (2 ^ suc k) ∙ mod-eq_of_lt h)

-- A higher power of two has the low digit zero.
differ_low : (k a : ℕ) → differ (a % 2) (2 ^ suc k % 2) ≡ a % 2
differ_low k a =
    let e : 2 ^ suc k % 2 ≡ 0 = omega (arith, pow-suc 2 k) in rw e (differ-zero (a % 2))

pub bit_and-low_ones : (k a : ℕ) → bit_and a (2 ^ k - 1) ≡ a % 2 ^ k
bit_and-low_ones zero a = ground (arith, and_nothing a a (omega arith))
bit_and-low_ones (suc k) a = ground (
  arith,
  bit_and_digit a (2 ^ suc k - 1),
  pow-suc 2 k,
  one-le-pow k 2,
  mod_pow_suc k a,
  bit_and-low_ones k (a / 2),
)

-- The top bit of a field of k + 1 bits, flipped: set where it was clear, cleared where it was set.
pub bit_xor-top_clear : (k a : ℕ) → a < 2 ^ k → bit_xor a (2 ^ k) ≡ a + 2 ^ k
bit_xor-top_clear zero a h =
    ground (arith, bit_xor_digit a 1, xor_nothing (a / 2) (a / 2) (omega arith))
bit_xor-top_clear (suc k) a h = ground (
  arith,
  bit_xor_digit a (2 ^ suc k),
  pow-suc 2 k,
  differ_low k a,
  bit_xor-top_clear k (a / 2) (omega (arith, pow-suc 2 k)),
)

pub bit_xor-top_set : (k a : ℕ) → 2 ^ k ≤ a → a < 2 ^ suc k → bit_xor a (2 ^ k) + 2 ^ k ≡ a
bit_xor-top_set zero a l h =
    ground (arith, bit_xor_digit a 1, xor_nothing (a / 2) (a / 2) (omega arith))
bit_xor-top_set (suc k) a l h = ground (
  arith,
  bit_xor_digit a (2 ^ suc k),
  pow-suc 2 k,
  pow-suc 2 (suc k),
  differ_low k a,
  bit_xor-top_set k (a / 2) (omega (arith, pow-suc 2 k))
      (omega (arith, pow-suc 2 k, pow-suc 2 (suc k))),
)

or_nothing : (n a : ℕ) → a ≤ n → bit_or a 0 ≡ a
or_nothing n zero h = refl
or_nothing zero (suc a) h = absurd (omega arith)
or_nothing (suc n) (suc a) h =
    omega (arith, bit_or_digit (suc a) 0, or_nothing n (suc a / 2) (omega arith))

-- A field above k bits joined with one below them
pub bit_or-above : (k hi lo : ℕ) → lo < 2 ^ k → bit_or (hi * 2 ^ k) lo ≡ hi * 2 ^ k + lo
bit_or-above zero hi lo h = ground (arith, or_nothing hi hi (omega arith))
bit_or-above (suc k) hi lo h = ground (
  arith,
  bit_or_digit (hi * 2 ^ suc k) lo,
  ap (λ (t : ℕ). hi * t) (pow-suc 2 k),
  bit_or-above k hi (lo / 2) (omega (arith, pow-suc 2 k)),
)
