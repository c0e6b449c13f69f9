-- ===== src/FrontEnd/Words.antt =====
-- BinaryEngine::readUInt64 of src/AetherVM.cpp.
use aether_vm.Prelude.{ℕ, ◌^◌, ◌<◌, false, Option, List, ◌==◌, ◌≡◌, refl, ap, sym, ◌∙◌, ◌≢◌, arith}
use aether_vm.Word.Bytes.{le_bytes, read_le, read_le-le_bytes}
use aether_vm.Memory.{Engine, mapped_address, read_memory, write_memory}
use aether_vm.Memory.Access.{read_memory-write_memory}
use aether_vm.FrontEnd.{read_uint64}

-- On a mapped address, readUInt64 reads the eight bytes that readMemory reads.
read_uint64-mapped :
    (memory_read : (ℕ → ℕ) → ℕ → ℕ → Option (List ℕ)) (e : Engine) (addr : ℕ)
    → mapped_address e addr 8 ≢ 0
    → read_uint64 memory_read e addr ≡ read_le (read_memory memory_read e addr 8)
unfolding read_uint64 read_memory
read_uint64-mapped memory_read e addr h =
    let t : (mapped_address e addr 8 == 0) ≡ false = ground (arith, h) in
    simp (t, read_uint64, read_memory) refl

-- The eight bytes of a 64-bit number that are written to mapped memory are read back as the number.
pub read_uint64-write_memory :
    (memory_write : (ℕ → ℕ) → ℕ → List ℕ → Option (ℕ → ℕ))
    (memory_read : (ℕ → ℕ) → ℕ → ℕ → Option (List ℕ)) (e : Engine) (addr v : ℕ)
    → mapped_address e addr 8 ≢ 0
    → v < 2 ^ 64
    → read_uint64 memory_read (write_memory memory_write e addr (le_bytes 8 v)).0 addr ≡ v
unfolding mapped_address write_memory
read_uint64-write_memory memory_write memory_read e addr v h small =
    let written = (write_memory memory_write e addr (le_bytes 8 v)).0 in
    let t : (mapped_address e addr 8 == 0) ≡ false = ground (arith, h) in
    let same : mapped_address written addr 8 ≡ mapped_address e addr 8 =
      simp (write_memory, t) refl in
    read_uint64-mapped memory_read written addr (λ z. h (sym same ∙ z))
    ∙ ap read_le (read_memory-write_memory memory_write memory_read e addr (le_bytes 8 v) h)
    ∙ read_le-le_bytes 8 v small
