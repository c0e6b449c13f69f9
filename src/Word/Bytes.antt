-- ===== src/Word/Bytes.antt =====
-- Little-endian numbers in memory: what memcpy of an unsigned field writes and reads.
use aether_vm.Prelude.{
  ℕ, zero, suc, ◌+◌, ◌*◌, ◌/◌, ◌%◌, ◌^◌, ◌<◌, List, [], ◌∷◌, ◌++◌, length, ◌≡◌, refl, ap, arith,
  pow-suc, take, drop,
}

-- The n low bytes of a number
abbrev pub le_bytes : ℕ → ℕ → List ℕ
le_bytes zero v = []
le_bytes (suc n) v = (v % 256) ∷ le_bytes n (v / 256)

-- The number of some bytes
abbrev pub read_le : List ℕ → ℕ
read_le [] = 0
read_le (b ∷ bytes) = b + 256 * read_le bytes

pub length-le_bytes : (n v : ℕ) → length (le_bytes n v) ≡ n
length-le_bytes zero v = refl
length-le_bytes (suc n) v = ap suc (length-le_bytes n (v / 256))

pub read_le-le_bytes : (n v : ℕ) → v < 256 ^ n → read_le (le_bytes n v) ≡ v
read_le-le_bytes zero v h = omega (arith, h)
read_le-le_bytes (suc n) v h =
    omega (arith, pow-suc 256 n, read_le-le_bytes n (v / 256) (omega (arith, h, pow-suc 256 n)))

-- The bytes in front of a list, and what follows them
pub take-le_bytes : (n v : ℕ) (rest : List ℕ) → take n (le_bytes n v ++ rest) ≡ le_bytes n v
take-le_bytes zero v rest = refl
take-le_bytes (suc n) v rest = ap (λ l. (v % 256) ∷ l) (take-le_bytes n (v / 256) rest)

pub drop-le_bytes : (n v : ℕ) (rest : List ℕ) → drop n (le_bytes n v ++ rest) ≡ rest
drop-le_bytes zero v rest = refl
drop-le_bytes (suc n) v rest = drop-le_bytes n (v / 256) rest
