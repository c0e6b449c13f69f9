-- ===== src/Search.antt =====
-- include/Utils.h: the branchless `binary_search` over a sorted array, `is_exact`, and the alignment
-- helpers. Every array that the program searches is ordered by one number of its elements, so the
-- array is the list of those numbers.
pub mod Bound
use aether_vm.Prelude.{
  ℕ, zero, suc, ◌+◌, ◌-◌, ◌/◌, ◌%◌, ◌^◌, bit_and, Bool, true, false, Option, none, some, List,
  length, get_elem?, ltb, ◌==◌, if◌then◌else◌,
}
use aether_vm.Word.{sub64, not64}

infixl 5 ◌>>=◌
abbrev pub ◌>>=◌ {ℓ κ} : {A : Type ℓ} {B : Type κ} → Option A → (A → Option B) → Option B
none >>= f = none
some a >>= f = f a

-- The loop on (base, size): `none` is a read outside the array. The rounds of fuel bound the loop.
unfoldable pub search_loop : ℕ → List ℕ → ℕ → ℕ → ℕ → Option (ℕ × ℕ)
search_loop zero arr key base size = none
search_loop (suc fuel) arr key base size = elim (ltb 1 size) [
  | false ↦ some (base, size)
  | true ↦ get_elem? arr (base + size / 2 - 1) >>= λ x.
      search_loop fuel arr key (if ltb x key then base + size / 2 else base) (size - size / 2)
]

-- binary_search: the index that `found - arr` gives
unfoldable pub binary_search : List ℕ → ℕ → ℕ → Option ℕ
binary_search arr size key = do
  (base, rest) ← search_loop (suc size) arr key 0 size
  x ← get_elem? arr base
  some (if ltb x key then base + 1 else base)

-- is_exact: `none` where `found` points outside the array and is read
unfoldable pub is_exact : List ℕ → ℕ → ℕ → ℕ → Option Bool
is_exact arr size found key =
    if found == size then some false else (do x ← get_elem? arr found; some (x == key))

-- align_up and align_down on 64-bit values
unfoldable pub align_up : ℕ → ℕ → ℕ
align_up value align_size =
    bit_and ((value + align_size + 2 ^ 64 - 1) % 2 ^ 64) (not64 (sub64 align_size 1))

unfoldable pub align_down : ℕ → ℕ → ℕ
align_down value align_size = bit_and value (not64 (sub64 align_size 1))
