-- ===== src/Intrinsics/Atomic.antt =====
-- The atomic functions of lifted code, one after the other: src/Intrinsic.cpp.
use aether_vm.Prelude.{
  ℕ, ◌+◌, ◌%◌, ◌^◌, ◌<◌, Bool, true, false, List, [], ◌∷◌, ◌==◌, ==_self, if◌then◌else◌, ◌≡◌, refl,
  ap, sym, ◌∙◌, arith, mod-lt, one-le-pow, mod-eq_of_lt, Bool-cases, inl, inr,
}
use native.Mathlib.Nat.{mod-add-mod}
use aether_vm.Word.Bytes.{le_bytes, read_le}
use aether_vm.Memory.{load, store}
use aether_vm.Intrinsics.{fetch_and_add, apply_op, fetch_and, compare_exchange}
use aether_vm.Intrinsics.Access.{read_back}

-- The number at an address
abbrev pub value_at : ℕ → ℕ → (ℕ → ℕ) → ℕ
value_at size addr bytes = read_le (load bytes addr size)

-- Additions of some values at an address: what each of them read, and the memory
abbrev pub run_adds : ℕ → ℕ → List ℕ → (ℕ → ℕ) → List ℕ × (ℕ → ℕ)
run_adds size addr [] bytes = ([], bytes)
run_adds size addr (v ∷ values) bytes =
    let first = fetch_and fetch_and_add size addr v bytes in
    let rest = run_adds size addr values first.1 in (first.0 ∷ rest.0, rest.1)

abbrev pub sum : List ℕ → ℕ
sum [] = 0
sum (v ∷ values) = v + sum values

-- The start with the sum of the values in front of each, modulo the width
abbrev pub sums_before : ℕ → ℕ → List ℕ → List ℕ
sums_before size start [] = []
sums_before size start (v ∷ values) = (start % 256 ^ size) ∷ sums_before size (start + v) values

fetch_and_add-value :
    (size addr v : ℕ) (bytes : ℕ → ℕ)
    → value_at size addr (fetch_and fetch_and_add size addr v bytes).1
      ≡ (value_at size addr bytes + v) % 256 ^ size
unfolding fetch_and apply_op
fetch_and_add-value size addr v bytes =
    read_back bytes size addr ((value_at size addr bytes + v) % 256 ^ size)
      (mod-lt (value_at size addr bytes + v) (one-le-pow size 256 (omega arith)))

-- A compare and exchange and what a second one with the value that the first one reports does: where the
-- first one fails and memory is as it left it, the second one, which expects the reported value, succeeds,
-- and the desired number is in memory. In every case the number in memory after it is the desired one.
pub compare_exchange-retry :
    (size addr expected desired : ℕ) (bytes : ℕ → ℕ)
    → desired < 256 ^ size
    → let first = compare_exchange size addr expected desired bytes in
      let second = compare_exchange size addr first.0 desired first.1 in
      (value_at size addr second.1 ≡ desired)
unfolding compare_exchange
compare_exchange-retry size addr expected desired bytes small =
    elim (Bool-cases (value_at size addr bytes == expected)) [
      | inl e ↦ rw e (
          still
            (value_at size addr (store bytes addr (le_bytes size desired))
              == value_at size addr bytes)
            (store bytes addr (le_bytes size desired)) (read_back bytes size addr desired small))
      | inr e ↦ rw (e, ==_self (value_at size addr bytes)) (read_back bytes size addr desired small)
    ]
  where
    still :
        (swapped : Bool) (bytes : ℕ → ℕ)
        → value_at size addr bytes ≡ desired
        → value_at size addr (if swapped then store bytes addr (le_bytes size desired) else bytes)
          ≡ desired
    still true bytes h = read_back bytes size addr desired small
    still false bytes h = h

run_adds-from :
    (size addr start : ℕ) (values : List ℕ) (bytes : ℕ → ℕ)
    → value_at size addr bytes ≡ start % 256 ^ size
    → ((run_adds size addr values bytes).0 ≡ sums_before size start values)
      × (value_at size addr (run_adds size addr values bytes).1 ≡ (start + sum values) % 256 ^ size)
unfolding fetch_and
run_adds-from size addr start [] bytes h = (refl, h ∙ ap (λ n. n % 256 ^ size) (omega arith))
run_adds-from size addr start (v ∷ values) bytes h =
    let step =
      fetch_and_add-value size addr v bytes
      ∙ ap (λ n. (n + v) % 256 ^ size) h
      ∙ mod-add-mod start (256 ^ size) v in
    let rest =
      run_adds-from size addr (start + v) values (fetch_and fetch_and_add size addr v bytes).1
        step in
    (
      ap (λ n. n ∷ (run_adds size addr values (fetch_and fetch_and_add size addr v bytes).1).0) h
          ∙ ap (λ l. (start % 256 ^ size) ∷ l) rest.0,
      rest.1 ∙ ap (λ n. n % 256 ^ size) (omega arith),
    )

-- Additions at one address, one after the other: each reads what was there first with the sum of the values
-- of those before it, modulo the width, and the sum of all is in memory at the end.
pub run_adds-sums :
    (size addr : ℕ) (values : List ℕ) (bytes : ℕ → ℕ)
    → value_at size addr bytes < 256 ^ size
    → ((run_adds size addr values bytes).0 ≡ sums_before size (value_at size addr bytes) values)
      × (value_at size addr (run_adds size addr values bytes).1
          ≡ (value_at size addr bytes + sum values) % 256 ^ size)
run_adds-sums size addr values bytes small =
    run_adds-from size addr (value_at size addr bytes) values bytes (sym (mod-eq_of_lt small))
