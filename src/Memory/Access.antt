-- ===== src/Memory/Access.antt =====
-- Reads and writes of guest memory.
use aether_vm.Prelude.{
  ℕ, suc, ◌+◌, ◌≤◌, ◌<◌, Bool, true, false, Option, List, [], ◌∷◌, length, ◌==◌, if◌then◌else◌, ◌≡◌,
  refl, ap, ◌∙◌, ◌≢◌, ◌⊎◌, arith, inl, inr, ==_self,
}
use aether_vm.Memory.{Engine, mapped_address, load, store, read_memory, write_memory}

-- Bytes outside the stored range keep their value.
pub store-outside :
    (bytes : ℕ → ℕ) (addr : ℕ) (buff : List ℕ) (a : ℕ)
    → (a < addr) ⊎ (addr + length buff ≤ a)
    → store bytes addr buff a ≡ bytes a
store-outside bytes addr [] a h = refl
store-outside bytes addr (b ∷ buff) a h =
    store-outside (λ x. if x == addr then b else bytes x) (suc addr) buff a (further h) ∙ kept h
  where
    further :
        (a < addr) ⊎ (addr + suc (length buff) ≤ a) → (a < suc addr) ⊎ (suc addr + length buff ≤ a)
    further (inl p) = inl (omega (arith, p))
    further (inr p) = inr (omega (arith, p))

    kept :
        (a < addr) ⊎ (addr + suc (length buff) ≤ a) → (if a == addr then b else bytes a) ≡ bytes a
    kept (inl p) = ground (arith, p)
    kept (inr p) = ground (arith, p)

pub load-store :
    (bytes : ℕ → ℕ) (addr : ℕ) (buff : List ℕ)
    → load (store bytes addr buff) addr (length buff) ≡ buff
load-store bytes addr [] = refl
load-store bytes addr (b ∷ buff) =
    rw
      (
        store-outside (λ x. if x == addr then b else bytes x) (suc addr) buff addr
            (inl (omega arith)),
        ==_self addr,
      )
      (ap (λ l. b ∷ l) (load-store (λ x. if x == addr then b else bytes x) (suc addr) buff))

mapped_address-bytes :
    (e : Engine) (bytes : ℕ → ℕ) (addr size : ℕ)
    → mapped_address (record e { bytes = bytes }) addr size ≡ mapped_address e addr size
unfolding mapped_address
mapped_address-bytes e bytes addr size = refl

write_memory-mapped :
    (memory_write : (ℕ → ℕ) → ℕ → List ℕ → Option (ℕ → ℕ)) (e : Engine) (addr : ℕ) (buff : List ℕ)
    → (mapped_address e addr (length buff) == 0) ≡ false
    → write_memory memory_write e addr buff
      ≡ (record e { bytes = store e.bytes (mapped_address e addr (length buff)) buff }, true)
unfolding write_memory
write_memory-mapped memory_write e addr buff t = rw (write_memory, t) refl

read_memory-mapped :
    (memory_read : (ℕ → ℕ) → ℕ → ℕ → Option (List ℕ)) (e : Engine) (addr size : ℕ)
    → (mapped_address e addr size == 0) ≡ false
    → read_memory memory_read e addr size ≡ load e.bytes (mapped_address e addr size) size
unfolding read_memory
read_memory-mapped memory_read e addr size t = rw (read_memory, t) refl

-- What is written to mapped memory is read back, whatever the host's memory functions do.
pub read_memory-write_memory :
    (memory_write : (ℕ → ℕ) → ℕ → List ℕ → Option (ℕ → ℕ))
    (memory_read : (ℕ → ℕ) → ℕ → ℕ → Option (List ℕ)) (e : Engine) (addr : ℕ) (buff : List ℕ)
    → mapped_address e addr (length buff) ≢ 0
    → read_memory memory_read (write_memory memory_write e addr buff).0 addr (length buff) ≡ buff
read_memory-write_memory memory_write memory_read e addr buff h =
    let n = length buff in
    let mapped = mapped_address e addr n in
    let written = record e { bytes = store e.bytes mapped buff } in
    let t : (mapped == 0) ≡ false = ground (arith, h) in
    let same = mapped_address-bytes e (store e.bytes mapped buff) addr n in
    ap (λ (r : Engine × Bool). read_memory memory_read r.0 addr n)
      (write_memory-mapped memory_write e addr buff t)
    ∙ read_memory-mapped memory_read written addr n (ap (λ a. a == 0) same ∙ t)
    ∙ ap (λ a. load (store e.bytes mapped buff) a n) same
    ∙ load-store e.bytes mapped buff

-- A write to mapped memory changes no byte outside the range that the address is mapped to.
pub write_memory-outside :
    (memory_write : (ℕ → ℕ) → ℕ → List ℕ → Option (ℕ → ℕ)) (e : Engine) (addr : ℕ) (buff : List ℕ)
    (a : ℕ)
    → mapped_address e addr (length buff) ≢ 0
    → (a < mapped_address e addr (length buff))
      ⊎ (mapped_address e addr (length buff) + length buff ≤ a)
    → (write_memory memory_write e addr buff).0.bytes a ≡ e.bytes a
write_memory-outside memory_write e addr buff a h out =
    let mapped = mapped_address e addr (length buff) in
    let t : (mapped == 0) ≡ false = ground (arith, h) in
    ap (λ (r : Engine × Bool). r.0.bytes a) (write_memory-mapped memory_write e addr buff t)
    ∙ store-outside e.bytes mapped buff a out
