-- ===== src/FrontEnd.antt =====
-- src/AetherVM.cpp: the functions of `BinaryEngine` that put the engine's parts together. A binary is a
-- parsed one of another library, as far as the code reads it; the disassembler is the parameter
-- `disassemble`, from an offset in the section to the length of the instruction there, 0 for none; what
-- `Lifter::transform` and a callback do with an instruction is left out.
pub mod Lift
pub mod Counter
pub mod Load
pub mod Words
use aether_vm.Prelude.{
  ℕ, zero, suc, ◌+◌, ◌-◌, Bool, true, false, ◌&&◌, Option, none, some, List, [], ◌∷◌, ◌++◌, length,
  ltb, leb, ◌==◌, if◌then◌else◌,
}
use aether_vm.Word.{add64, sub64}
use aether_vm.Word.Bytes.{read_le}
use aether_vm.Search.{◌>>=◌, align_up}
use aether_vm.Cpu.{Slot, CpuState, pc_reg, pc_field, get_register}
use aether_vm.Memory.{
  GuestMemory, guest_available, commit, Engine, mapped_address, load, read_memory, write_memory,
}
use aether_vm.Blocks.{EventConfig, BasicBlocks}
use aether_vm.Blocks.Encode.{ArchType, arm64, x86_64, Func, encode}

-- An entry of `sections()`: its key, and the fields of the section; `content` is the `size` bytes that
-- `addrBuff` points to.
pub record Section : Type 0 where
  pub key : ℕ
  pub addr : ℕ
  pub foff : ℕ
  pub size : ℕ
  pub is_text : Bool
  pub content : List ℕ

-- What the engine reads of a parsed binary
pub record Binary : Type 0 where
  pub image_base : ℕ
  pub arch : ArchType
  pub sections : List Section
  pub functions : List Func

-- The loop over the sections of the opcode binary in getRegister, with its buffer in memory
unfoldable pub find_section : List Section → ℕ → ℕ → Option ℕ
find_section [] filebuf pc = none
find_section (s ∷ sections) filebuf pc =
    let rest = find_section sections filebuf pc in
    let sectbuf = add64 filebuf s.foff in
    if leb sectbuf pc && ltb pc (add64 sectbuf s.size)
    then some (sub64 (add64 s.key pc) sectbuf)
    else if s.is_text
    then rest
    else none

-- The conversion of the pc in getRegister: of `m_binary`, or of the opcode binary and its file buffer
unfoldable pub convert_pc : Option Binary → Option (ℕ × List Section) → ℕ → ℕ → Option ℕ
convert_pc (some bin) opcode base_pointer pc = some (sub64 (add64 bin.image_base pc) base_pointer)
convert_pc none (some (filebuf, sections)) base_pointer pc = find_section sections filebuf pc
convert_pc none none base_pointer pc = none

-- What getRegister points to: the converted pc, or a register of the state
pub data Pointed : Type 0 where
  converted : ℕ → Pointed
  register : Slot → Pointed

module _ {F : Type 0} (join : F → ℕ → ℕ) (split : ℕ → F) (slot_of : ℕ → Option Slot)
    (flags_reg first_vector : ℕ) where
  -- BinaryEngine::getRegister, where `slot_of` and the numbers are those of the engine's architecture
  unfoldable pub front_register :
      Option Binary
      → Option (ℕ × List Section)
      → ℕ
      → CpuState F
      → ℕ
      → Bool
      → Option (CpuState F × Pointed)
  front_register binary opcode base_pointer s reg cvtpc =
      let plain = get_register join split slot_of flags_reg first_vector s reg >>= λ r.
      some (r.0, register r.1) in
      if reg == pc_reg && cvtpc
      then elim (convert_pc binary opcode base_pointer (s.words (pc_field, 0))) [
        | none ↦ plain
        | some pc ↦ some (s, converted pc)
      ]
      else plain

-- BinaryEngine::readUInt64
unfoldable pub read_uint64 : ((ℕ → ℕ) → ℕ → ℕ → Option (List ℕ)) → Engine → ℕ → ℕ
read_uint64 memory_read e addr =
    let rtaddr = mapped_address e addr 8 in
    if rtaddr == 0
    then (let buff = read_memory memory_read e addr 8 in
        if length buff == 0 then 0 else read_le buff)
    else read_le (load e.bytes rtaddr 8)

-- One round of liftOpcodes: where it stands, how far it goes, and whether it transforms the instruction
-- there or sends an InvalidInsn event; both are given the address.
pub record Piece : Type 0 where
  pub offset : ℕ
  pub oplen : ℕ
  pub vmaddr : ℕ
  pub is_lifted : Bool

-- The loop for ARM64, from an offset on; `none` is the end of the fuel.
unfoldable pub lift_arm64 : ℕ → (ℕ → ℕ) → ℕ → ℕ → ℕ → Option (List Piece)
lift_arm64 zero disassemble addr size offset = none
lift_arm64 (suc fuel) disassemble addr size offset = elim (ltb offset size) [
  | false ↦ some []
  | true ↦ lift_arm64 fuel disassemble addr size (offset + 4) >>= λ rest. some (
      record {
        offset = offset;
        oplen = 4;
        vmaddr = add64 addr offset;
        is_lifted = disassemble offset == 4;
      }
      ∷ rest)
]

-- The loop for x86, with the size that a byte which is no instruction is skipped by
unfoldable pub lift_x86 : ℕ → ℕ → (ℕ → ℕ) → ℕ → ℕ → ℕ → Option (List Piece)
lift_x86 zero default_size disassemble addr size offset = none
lift_x86 (suc fuel) default_size disassemble addr size offset = elim (ltb offset size) [
  | false ↦ some []
  | true ↦
      let invalid = disassemble offset == 0 in
      let oplen = if invalid then default_size else disassemble offset in
      lift_x86 fuel default_size disassemble addr size (offset + oplen) >>= λ rest. some (
        record {
          offset = offset;
          oplen = oplen;
          vmaddr = add64 addr offset;
          is_lifted = if invalid then false else true;
        }
        ∷ rest)
]

-- BinaryEngine::liftOpcodes: the rounds are no more than the bytes, and one that ends the loop.
unfoldable pub lift_opcodes : ArchType → ℕ → (ℕ → ℕ) → ℕ → ℕ → Option (List Piece)
lift_opcodes arm64 default_size disassemble addr size =
    lift_arm64 (suc size) disassemble addr size 0
lift_opcodes x86_64 default_size disassemble addr size =
    lift_x86 (suc size) default_size disassemble addr size 0

-- The sum of the sizes
unfoldable pub total_size : List Section → ℕ
total_size [] = 0
total_size (s ∷ sections) = add64 s.size (total_size sections)

module _ (page_commit : ℕ → ℕ → Bool) (memory_write : (ℕ → ℕ) → ℕ → List ℕ → Option (ℕ → ℕ))
    (page_size default_size : ℕ) (disassemble : Section → ℕ → ℕ)
    (lookup : List Piece → ℕ → Option ℕ) where
  -- `if (sect.type == TEXT) liftOpcodes(...)`
  abbrev pub section_pieces : ArchType → Section → ℕ → Option (List Piece)
  section_pieces arch s vmaddr =
      if s.is_text
      then lift_opcodes arch default_size (disassemble s) vmaddr (length s.content)
      else some []

  -- The loop over the sections of orchBinary: the memory, and what was lifted
  unfoldable pub map_sections : ArchType → ℕ → List Section → Engine → Option (Engine × List Piece)
  map_sections arch addend [] e = some (e, [])
  map_sections arch addend (s ∷ sections) e = elim (s.size == 0) [
    | true ↦ map_sections arch addend sections e
    | false ↦
        let vmaddr = add64 s.addr addend in
        let e' = (write_memory memory_write e vmaddr s.content).0 in
        section_pieces arch s vmaddr >>= λ pieces.
        map_sections arch addend sections e' >>= λ r. some (r.0, pieces ++ r.1)
  ]

  -- BinaryEngine::orchBinary: the memory, and the blocks that the orchestrator appends
  unfoldable pub orch_binary : EventConfig → Binary → ℕ → Engine → Option (Engine × BasicBlocks)
  orch_binary config bin addend e =
      let size = align_up (total_size bin.sections) page_size in
      let committed = commit page_commit e.guest_memory (add64 bin.image_base addend) size in
      map_sections bin.arch addend bin.sections (record e { guest_memory = committed.0 }) >>= λ r.
      encode config bin.arch (lookup r.1) addend bin.functions >>= λ blocks. some (r.0, blocks)

  -- BinaryEngine::execute of an address, up to startVM: the engine, the blocks that are appended, and the
  -- address that the machine starts at, 0 where it does not
  unfoldable pub execute_target :
      EventConfig → Option Binary → ℕ → Engine → Option (Engine × List BasicBlocks × ℕ)
  execute_target config none target e = some (e, [], 0)
  execute_target config (some bin) target e =
      if guest_available e.guest_memory == e.guest_memory.base_pointer
      then (orch_binary config bin e.guest_memory.base_pointer e >>= λ r.
          some (r.0, r.1 ∷ [], mapped_address r.0 target 1))
      else some (e, [], mapped_address e target 1)

  -- BinaryEngine::execute of a raw binary that was created, up to startVM: the entry comes from the first
  -- function.
  unfoldable pub execute_raw :
      EventConfig → Binary → Engine → Option (Engine × List BasicBlocks × ℕ)
  execute_raw config bin e = elim bin.functions [
    | [] ↦ some (e, [], 0)
    | f ∷ functions ↦
        let vmbase = guest_available e.guest_memory in
        orch_binary config bin vmbase e >>= λ r.
        some (r.0, r.1 ∷ [], sub64 (add64 vmbase f.start) bin.image_base)
  ]
