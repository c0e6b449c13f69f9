-- ===== src/Memory.antt =====
-- src/Memory.h, src/Memory.cpp and the memory functions of src/AetherVM.cpp: the guest's reserved region,
-- its commits, and the reads and writes of guest and host memory.
-- Memory is a function from addresses to bytes. What the operating system does is a parameter: whether it
-- commits a page range, and whether it reads or writes a range of host memory.
pub mod Region
pub mod Access
use aether_vm.Prelude.{
  ℕ, zero, suc, ◌+◌, ◌-◌, ◌*◌, ◌%◌, Bool, true, false, ◌&&◌, Option, none, some, List, [], ◌∷◌,
  length, ltb, leb, ◌==◌, if◌then◌else◌,
}
use aether_vm.Word.{add64, sub64}
use aether_vm.Search.{align_up}

-- GUEST_SIZE
abbrev pub guest_size : ℕ
guest_size = 3221225472

-- GuestMemory: basePointer and m_offset
pub record GuestMemory : Type 0 where
  pub base_pointer : ℕ
  pub offset : ℕ

unfoldable pub valid : GuestMemory → ℕ → ℕ → Bool
valid m vmaddr size =
    leb m.base_pointer vmaddr
    && ltb vmaddr (add64 m.base_pointer m.offset)
    && ltb (add64 vmaddr size) (add64 m.base_pointer m.offset)

unfoldable pub guest_available : GuestMemory → ℕ
guest_available m = add64 m.base_pointer m.offset

-- GuestMemory::commit
unfoldable pub commit : (ℕ → ℕ → Bool) → GuestMemory → ℕ → ℕ → GuestMemory × Bool
commit page_commit m vmaddr size =
    if leb guest_size (add64 m.offset size)
    then (m, false)
    else if leb guest_size (add64 (sub64 vmaddr m.base_pointer) size)
    then (m, false)
    else (record m { offset = add64 m.offset size }, page_commit vmaddr size)

-- A binary whose file is executed in place: what mappedAddress reads of it
pub record OpcodeBinary : Type 0 where
  pub image_base : ℕ
  pub section_end : ℕ
  pub addr_buff : ℕ → ℕ

-- The state that the memory functions read and write
pub record Engine : Type 0 where
  pub guest_memory : GuestMemory
  pub binary_opcode : Option OpcodeBinary
  pub bytes : ℕ → ℕ

-- BinaryEngine::mapMemory
unfoldable pub map_memory : (ℕ → ℕ → Bool) → ℕ → GuestMemory → ℕ → GuestMemory × ℕ
map_memory page_commit page_size m size =
    let (m', done) = commit page_commit m (guest_available m) (align_up size page_size) in
    (m', if done then guest_available m else 0)

unfoldable pub guest_address : GuestMemory → ℕ → ℕ → ℕ
guest_address m addr size =
    let rtaddr = add64 m.base_pointer addr in if valid m rtaddr size then rtaddr else 0

-- BinaryEngine::mappedAddress
unfoldable pub mapped_address : Engine → ℕ → ℕ → ℕ
mapped_address e addr size = elim e.binary_opcode [
  | none ↦ guest_address e.guest_memory addr size
  | some bin ↦
      if leb bin.image_base addr && ltb addr bin.section_end
      then bin.addr_buff addr
      else guest_address e.guest_memory addr size
]

-- memcpy from memory and to it
abbrev pub load : (ℕ → ℕ) → ℕ → ℕ → List ℕ
load bytes addr zero = []
load bytes addr (suc n) = bytes addr ∷ load bytes (suc addr) n

abbrev pub store : (ℕ → ℕ) → ℕ → List ℕ → ℕ → ℕ
store bytes addr [] = bytes
store bytes addr (b ∷ buff) = store (λ a. if a == addr then b else bytes a) (suc addr) buff

-- BinaryEngine::readMemory: the empty buffer when the host's memory cannot be read
unfoldable pub read_memory : ((ℕ → ℕ) → ℕ → ℕ → Option (List ℕ)) → Engine → ℕ → ℕ → List ℕ
read_memory memory_read e addr size =
    let rtaddr = mapped_address e addr size in
    if rtaddr == 0
    then elim (memory_read e.bytes addr size) [ none ↦ [] | some buff ↦ buff ]
    else load e.bytes rtaddr size

-- BinaryEngine::writeMemory
unfoldable pub write_memory :
    ((ℕ → ℕ) → ℕ → List ℕ → Option (ℕ → ℕ)) → Engine → ℕ → List ℕ → Engine × Bool
write_memory memory_write e addr buff =
    let rtaddr = mapped_address e addr (length buff) in
    if rtaddr == 0
    then elim (memory_write e.bytes addr buff) [
      | none ↦ (e, false)
      | some bytes ↦ (record e { bytes = bytes }, true)
    ]
    else (record e { bytes = store e.bytes rtaddr buff }, true)
