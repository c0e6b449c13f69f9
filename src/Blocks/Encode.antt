-- ===== src/Blocks/Encode.antt =====
-- Orchestrator::encode: the blocks of a binary. The binary is a parsed one of another library, as far
-- as the code reads it; the set of lifted handlers is the parameter `lookup`, from the bytes of an
-- instruction to the entry of its handler.
use aether_vm.Prelude.{
  ℕ, Bool, true, false, not, ◌&&◌, ◌||◌, Option, none, some, List, [], ◌∷◌, ◌++◌, ◌==◌,
  if◌then◌else◌,
}
use aether_vm.Word.{add64}
use aether_vm.Blocks.{
  event_func_before, event_func_after, event_insn_before, event_insn_after, event_block_before,
  event_block_after, event_debugging, syscall_interpret, interrupt_interpret, jump_interpret,
  call_interpret, finish_function, finish_emulation, terminate_execution, lifted, Instruction,
  event_instruction, opcode_instruction, EventConfig, insn_before, insn_after, block_before,
  block_after, func_before, func_after, setup_event, BasicBlocks, convert,
}

pub data ArchType : Type 0 where
  arm64 x86_64 : ArchType

-- The kinds of instruction that the encoding tells apart
pub data InsnType : Type 0 where
  syscall trap jcond jump call ret plain : InsnType

-- An instruction of a parsed function; `opcode` stands for its bytes.
pub record Insn : Type 0 where
  pub fnoff : ℕ
  pub oplen : ℕ
  pub opcode : ℕ
  pub kind : InsnType
  pub comins : ℕ

pub record Func : Type 0 where
  pub start : ℕ
  pub insns : List Insn
  pub end_addr : ℕ

-- The real handler
abbrev pub real_handler : (ℕ → Option ℕ) → Insn → Instruction
real_handler lookup i = elim (lookup i.opcode) [
  | none ↦ opcode_instruction terminate_execution i.oplen
  | some entry ↦ opcode_instruction (lifted entry) i.oplen
]

abbrev pub after_insn : EventConfig → ArchType → InsnType → List Instruction
after_insn cfg arm64 syscall = event_instruction syscall_interpret ∷ []
after_insn cfg x86_64 syscall = []
after_insn cfg x86_64 trap = event_instruction interrupt_interpret ∷ []
after_insn cfg arm64 trap = []
after_insn cfg arch jcond = setup_event cfg insn_after event_insn_after
after_insn cfg arch jump = setup_event cfg insn_after event_insn_after
after_insn cfg arch call = setup_event cfg insn_after event_insn_after
after_insn cfg arch ret = setup_event cfg insn_after event_insn_after
after_insn cfg arch plain = setup_event cfg insn_after event_insn_after

abbrev pub transfer : EventConfig → InsnType → List Instruction
transfer cfg syscall = []
transfer cfg trap = []
transfer cfg jcond = event_instruction jump_interpret ∷ []
transfer cfg jump = event_instruction jump_interpret ∷ []
transfer cfg call = event_instruction call_interpret ∷ []
transfer cfg ret =
    setup_event cfg func_after event_func_after ++ event_instruction finish_function ∷ []
transfer cfg plain = []

abbrev pub ends_block : InsnType → Bool
ends_block syscall = false
ends_block trap = false
ends_block jcond = true
ends_block jump = true
ends_block call = true
ends_block ret = true
ends_block plain = false

-- The handlers that one instruction appends, before its own and with it
abbrev pub before_insn : EventConfig → List Instruction
before_insn cfg =
    setup_event cfg insn_before event_insn_before
    ++ (if cfg.debug then event_instruction event_debugging ∷ [] else [])

unfoldable pub insn_handlers : EventConfig → ArchType → (ℕ → Option ℕ) → Insn → List Instruction
insn_handlers cfg arch lookup i =
    before_insn cfg ++ real_handler lookup i ∷ (after_insn cfg arch i.kind ++ transfer cfg i.kind)

-- The blocks under construction: `vmaddrs` and `handlers`
pub record Building : Type 0 where
  pub vmaddrs : List ℕ
  pub handlers : List (List Instruction)

-- `handlers->push_back`: the last block is the one that is open.
abbrev pub push_last : List (List Instruction) → List Instruction → List (List Instruction)
push_last [] new = []
push_last (block ∷ []) new = (block ++ new) ∷ []
push_last (block ∷ next ∷ rest) new = block ∷ push_last (next ∷ rest) new

abbrev pub push : Building → List Instruction → Building
push b new = record b { handlers = push_last b.handlers new }

abbrev pub open_block : Building → ℕ → Building
open_block b vmaddr = record {
  vmaddrs = b.vmaddrs ++ vmaddr ∷ [];
  handlers = b.handlers ++ [] ∷ [];
}

-- The end of the current block and the start of a new one
abbrev pub start_block : EventConfig → ℕ → Building → Building
start_block cfg vmaddr b =
    push (open_block (push b (setup_event cfg block_after event_block_after)) vmaddr)
      (setup_event cfg block_before event_block_before)

-- The loop over the instructions after the first
unfoldable pub encode_rest :
    EventConfig → ArchType → (ℕ → Option ℕ) → ℕ → Bool → List Insn → Building → Building
encode_rest cfg arch lookup base newbb [] b = b
encode_rest cfg arch lookup base newbb (i ∷ insns) b =
    let fresh = not (i.comins == 0) || newbb in
    let opened = if fresh then start_block cfg (add64 base i.fnoff) b else b in
    encode_rest cfg arch lookup base (not fresh && newbb || ends_block i.kind) insns
      (push opened (insn_handlers cfg arch lookup i))

-- All the instructions of a function
unfoldable pub encode_insns :
    EventConfig → ArchType → (ℕ → Option ℕ) → ℕ → List Insn → Building → Building
encode_insns cfg arch lookup base [] b = b
encode_insns cfg arch lookup base (i ∷ insns) b =
    encode_rest cfg arch lookup base (ends_block i.kind) insns
      (push b (insn_handlers cfg arch lookup i))

unfoldable pub encode_func :
    EventConfig → ArchType → (ℕ → Option ℕ) → ℕ → Func → Building → Building
encode_func cfg arch lookup addend func b =
    encode_insns cfg arch lookup (add64 func.start addend) func.insns (
      push
        (push (open_block b (add64 func.start addend))
          (setup_event cfg func_before event_func_before))
        (setup_event cfg block_before event_block_before))

unfoldable pub encode_funcs :
    EventConfig → ArchType → (ℕ → Option ℕ) → ℕ → List Func → Building → Building
encode_funcs cfg arch lookup addend [] b = b
encode_funcs cfg arch lookup addend (func ∷ funcs) b =
    encode_funcs cfg arch lookup addend funcs (encode_func cfg arch lookup addend func b)

-- The end of the last function: `none` where there is none, and the code reads one all the same.
abbrev pub last_end : List Func → Option ℕ
last_end [] = none
last_end (func ∷ []) = some func.end_addr
last_end (func ∷ next ∷ rest) = last_end (next ∷ rest)

-- A binary with one function gets a final handler.
abbrev pub finish_snippet : List Func → Building → Building
finish_snippet (func ∷ []) b = push b (event_instruction finish_emulation ∷ [])
finish_snippet funcs b = b

-- Orchestrator::encode: the blocks that it appends to `basicblocks`
unfoldable pub encode : EventConfig → ArchType → (ℕ → Option ℕ) → ℕ → List Func → Option BasicBlocks
encode cfg arch lookup addend funcs =
    let b =
      finish_snippet funcs
        (encode_funcs cfg arch lookup addend funcs (record { vmaddrs = []; handlers = [] })) in
    elim (last_end funcs) [
      | none ↦ none
      | some end_addr ↦ some (convert b.vmaddrs (add64 end_addr addend) b.handlers)
    ]
