-- ===== src/Tests/Accesses.antt =====
-- Accesses to memory by lifted code
use aether_vm.Prelude.{
  ℕ, ◌+◌, ◌%◌, ◌^◌, true, false, none, some, [], ◌∷◌, ◌++◌, if◌then◌else◌, ◌≡◌, refl, arith,
}
use aether_vm.Events.{continue, processed}
use aether_vm.Intrinsics.{MemoryState, MemoryCallback, read_value, write_value, compare_exchange}
use aether_vm.Intrinsics.Access.{read_value-write_value}
use aether_vm.Intrinsics.Atomic.{value_at, sum, sums_before, run_adds, run_adds-sums}

-- A callback that changes its event and lets the access go on, and one that gives another value
abbrev counting : MemoryCallback
counting event = (continue, record event { value = 7 })

abbrev replacing : MemoryCallback
replacing event = (processed, record event { value = 65793 })

abbrev cleared : MemoryState
cleared = record { bytes = λ a. 0; rvalue = 0; noticed = [] }

-- A processed read gives the low bytes of the event's value; the debugger is not told of it.
replaced :
    read_value (counting ∷ replacing ∷ []) true 4096 2 512 cleared
    ≡ (257, record cleared { rvalue = 65793 })
unfolding read_value
replaced = refl

lost : write_value (replacing ∷ []) true 4096 2 512 9 cleared ≡ none
unfolding write_value
lost = refl

read_value-write_value_example :
    (s' : MemoryState) × (write_value (counting ∷ []) true 4096 4 512 100000 cleared ≡ some s')
    × ((read_value (counting ∷ []) true 4100 4 512 s').0 ≡ 100000)
    × ((read_value (counting ∷ []) true 4100 4 512 s').1.noticed
        ≡ (if true then ([] ++ (512, 4, true) ∷ []) ++ (512, 4, false) ∷ [] else []))
read_value-write_value_example =
    read_value-write_value (counting ∷ []) true 4096 4100 4 512 100000 cleared (λ event. refl)
      (omega arith)

-- A byte that holds 250, and three additions
abbrev filled : ℕ → ℕ
filled a = 250

run_adds-sums_example :
    ((run_adds 1 512 (3 ∷ 4 ∷ 5 ∷ []) filled).0 ≡ sums_before 1 250 (3 ∷ 4 ∷ 5 ∷ []))
    × (value_at 1 512 (run_adds 1 512 (3 ∷ 4 ∷ 5 ∷ []) filled).1
        ≡ (250 + sum (3 ∷ 4 ∷ 5 ∷ [])) % 256 ^ 1)
run_adds-sums_example = run_adds-sums 1 512 (3 ∷ 4 ∷ 5 ∷ []) filled (omega arith)

-- 262 in a byte
wrapped : sums_before 1 250 (3 ∷ 4 ∷ 5 ∷ []) ≡ 250 ∷ 253 ∷ 1 ∷ []
wrapped = refl

exchanged : (compare_exchange 1 512 251 9 filled).0 ≡ 250
unfolding compare_exchange
exchanged = refl
