-- ===== src/Names/Decimal.antt =====
-- Numbers in the names of registers: std::to_string against std::from_chars.
use aether_vm.Prelude.{
  ℕ, zero, suc, ◌+◌, ◌-◌, ◌*◌, ◌/◌, ◌%◌, ◌^◌, ◌≤◌, ◌<◌, true, false, some, List, [], ◌∷◌, ◌++◌, ltb,
  leb, ◌==◌, ==_self, ◌≡◌, refl, ap, sym, ◌∙◌, arith, Bool-cases, inl, inr,
}
use aether_vm.Names.{
  starts_with, substr, digits, to_string, is_digit, read_digits, from_chars, numbered,
}

read_digits-digits :
    (fuel n : ℕ) (rest : List ℕ)
    → n < fuel
    → read_digits 0 (digits fuel n rest) ≡ read_digits n rest
read_digits-digits zero n rest h = absurd (omega (arith, h))
read_digits-digits (suc fuel) n rest h = elim (Bool-cases (ltb n 10)) [
  | inl e ↦
      let digit : is_digit (48 + n) ≡ true = ground (arith, e) in
      let value : 0 * 10 + (48 + n - 48) ≡ n = omega arith in rw (e, digit, value) refl
  | inr e ↦
      let digit : is_digit (48 + n % 10) ≡ true = ground arith in
      let value : n / 10 * 10 + (48 + n % 10 - 48) ≡ n = omega arith in
      let more : 10 ≤ n = ground (arith, e) in
      rw e (
        read_digits-digits fuel (n / 10) ((48 + n % 10) ∷ rest) (omega (arith, h, more))
        ∙ rw (digit, value) refl)
]

-- A written number begins with a digit.
first-digit :
    (fuel n : ℕ) (rest : List ℕ)
    → n < fuel
    → (c : ℕ) × (l : List ℕ) × (digits fuel n rest ≡ c ∷ l) × (is_digit c ≡ true)
first-digit zero n rest h = absurd (omega (arith, h))
first-digit (suc fuel) n rest h = elim (Bool-cases (ltb n 10)) [
  | inl e ↦ (48 + n, rest, rw e refl, ground (arith, e))
  | inr e ↦
      let more : 10 ≤ n = ground (arith, e) in
      let (c, l, same, digit) =
        first-digit fuel (n / 10) ((48 + n % 10) ∷ rest) (omega (arith, h, more)) in
      (c, l, rw e same, digit)
]

int_of-digit :
    (c : ℕ) (l : List ℕ) (n : ℕ)
    → is_digit c ≡ true
    → read_digits 0 (c ∷ l) ≡ n
    → n < 2 ^ 31
    → from_chars (c ∷ l) ≡ some n
unfolding from_chars
int_of-digit c l n digit value small =
    let plain : (c == 45) ≡ false = ground (arith, digit) in
    let fits : leb n (2 ^ 31 - 1) ≡ true = ground (arith, small) in
    rw (plain, value, digit, fits) refl

-- The number that is written in front of something that is no digit is read back.
pub from_chars-to_string :
    (n : ℕ) (rest : List ℕ)
    → n < 2 ^ 31
    → read_digits n rest ≡ n
    → from_chars (to_string n rest) ≡ some n
from_chars-to_string n rest small ends =
    let (c, l, same, digit) = first-digit (suc n) n rest (omega arith) in
    ap from_chars same
    ∙ int_of-digit c l n digit
        (ap (read_digits 0) (sym same) ∙ read_digits-digits (suc n) n rest (omega arith) ∙ ends)
        small

starts_with-append : (prefix l : List ℕ) → starts_with prefix (prefix ++ l) ≡ true
starts_with-append [] l = refl
starts_with-append (c ∷ prefix) l = rw (==_self c) (starts_with-append prefix l)

substr-append : (prefix l : List ℕ) → substr prefix (prefix ++ l) ≡ l
substr-append [] l = refl
substr-append (c ∷ prefix) l = substr-append prefix l

pub numbered-append {ℓ} :
    {A : Type ℓ} (prefix l : List ℕ) (trim : List ℕ → List ℕ) (first last i : ℕ) (field : ℕ → A)
    → from_chars (trim l) ≡ some i
    → first ≤ i
    → i ≤ last
    → numbered prefix trim first last field (prefix ++ l) ≡ some (field i)
numbered-append prefix l trim first last i field read from to =
    let low : leb first i ≡ true = ground (arith, from) in
    let high : leb i last ≡ true = ground (arith, to) in
    rw (starts_with-append prefix l, substr-append prefix l, read, low, high) refl
