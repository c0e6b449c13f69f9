-- ===== src/Tests/Guests.antt =====
-- Guest memory
use aether_vm.Prelude.{ℕ, ◌+◌, ◌≤◌, ◌^◌, true, Option, none, List, [], ◌∷◌, ◌≡◌, refl, arith}
use aether_vm.Word.{add64, sub64, not64}
use aether_vm.Search.{align_up}
use aether_vm.Memory.{
  GuestMemory, valid, guest_available, commit, map_memory, Engine, guest_address, mapped_address,
  read_memory, write_memory,
}
use aether_vm.Memory.Region.{IsGuest, map_memory-fresh}
use aether_vm.Memory.Access.{read_memory-write_memory}

-- Two pages are committed.
abbrev guest : GuestMemory
guest = record { base_pointer = 1048576; offset = 8192 }

guest-IsGuest : IsGuest guest
guest-IsGuest = (omega arith, omega arith)

mapped :
    map_memory (λ addr size. true) (2 ^ 12) guest 100 ≡ (record guest { offset = 12288 }, 1056768)
unfolding map_memory commit guest_available align_up add64 sub64 not64
mapped = refl

map_memory-fresh_example :
    (1056768 ≡ guest_available guest)
    × (1056768 + 100 ≤ guest_available (record guest { offset = 12288 }))
    × IsGuest (record guest { offset = 12288 })
map_memory-fresh_example =
    map_memory-fresh (λ addr size. true) 12 guest (record guest { offset = 12288 }) 100 1056768
      guest-IsGuest (omega arith) (omega arith) mapped (λ e. omega (arith, e))

abbrev pub engine : Engine
engine = record { guest_memory = guest; binary_opcode = none; bytes = λ addr. 0 }

abbrev pub no_write : (ℕ → ℕ) → ℕ → List ℕ → Option (ℕ → ℕ)
no_write bytes addr buff = none

abbrev pub no_read : (ℕ → ℕ) → ℕ → ℕ → Option (List ℕ)
no_read bytes addr size = none

is_mapped : mapped_address engine 16 3 ≡ 1048592
unfolding mapped_address guest_address valid add64
is_mapped = refl

read_memory-write_memory_example :
    read_memory no_read (write_memory no_write engine 16 (1 ∷ 2 ∷ 3 ∷ [])).0 16 3 ≡ 1 ∷ 2 ∷ 3 ∷ []
read_memory-write_memory_example =
    read_memory-write_memory no_write no_read engine 16 (1 ∷ 2 ∷ 3 ∷ [])
      (λ e. omega (arith, e, is_mapped))
