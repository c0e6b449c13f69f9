-- ===== src/Blocks.antt =====
-- src/Orchestrator.h and src/Orchestrator.cpp: the encoding of a binary's functions into basic blocks
-- of handlers, and the lookup of the handler of an address through the caches.
-- A code pointer is the name of the function it points to, or the entry of a lifted handler. A pointer
-- to an instruction is its index in the `rthandlers` of its blocks.
pub mod Absent
pub mod Build
pub mod Cache
pub mod Coherent
pub mod Encode
pub mod Find
pub mod Flat
pub mod Paired
pub mod Contents
use aether_vm.Prelude.{
  ℕ, zero, suc, ◌+◌, ◌-◌, ◌%◌, ◌^◌, Bool, true, false, not, ◌&&◌, ◌||◌, Option, none, some, List,
  [], ◌∷◌, ◌++◌, length, get_elem?, ltb, leb, ◌==◌, if◌then◌else◌,
}
use aether_vm.Word.{add64}
use aether_vm.Search.{◌>>=◌, binary_search, is_exact}

-- event_func_t and the entries of lifted handlers
pub data Target : Type 0 where
  event_func_before : Target
  event_func_after : Target
  event_insn_before : Target
  event_insn_after : Target
  event_block_before : Target
  event_block_after : Target
  event_debugging : Target
  syscall_interpret : Target
  interrupt_interpret : Target
  jump_interpret : Target
  call_interpret : Target
  finish_function : Target
  finish_emulation : Target
  terminate_execution : Target
  lifted : ℕ → Target

-- Instruction
pub record Instruction : Type 0 where
  pub handler : Target
  pub event : Bool
  pub oplen : ℕ

-- A handler's 59 bits: the functions of the host stand for their addresses, which fit.
abbrev pub handler_bits : Target → Target
handler_bits (lifted entry) = lifted (entry % 2 ^ 59)
handler_bits func = func

-- The two constructors: `oplen` has four bits.
abbrev pub event_instruction : Target → Instruction
event_instruction func = record { handler = func; event = true; oplen = 0 }

abbrev pub opcode_instruction : Target → ℕ → Instruction
opcode_instruction entry size = record {
  handler = handler_bits entry;
  event = false;
  oplen = size % 16;
}

-- EventConfig: the events that are asked for
pub record EventConfig : Type 0 where
  pub insn : Bool
  pub block : Bool
  pub func : Bool
  pub debug : Bool

-- EventType, as far as do_setup_event reads it
pub data EventType : Type 0 where
  insn_before : EventType
  insn_after : EventType
  block_before : EventType
  block_after : EventType
  func_before : EventType
  func_after : EventType
  other_event : EventType

-- do_setup_event: the handlers it appends
abbrev pub setup_event : EventConfig → EventType → Target → List Instruction
setup_event cfg insn_before event = if cfg.insn then event_instruction event ∷ [] else []
setup_event cfg insn_after event = if cfg.insn then event_instruction event ∷ [] else []
setup_event cfg block_before event = if cfg.block then event_instruction event ∷ [] else []
setup_event cfg block_after event = if cfg.block then event_instruction event ∷ [] else []
setup_event cfg func_before event = if cfg.func then event_instruction event ∷ [] else []
setup_event cfg func_after event = if cfg.func then event_instruction event ∷ [] else []
setup_event cfg other_event event = []

-- BasicBlocks after `convert`
pub record BasicBlocks : Type 0 where
  pub vmaddrs : List ℕ
  pub maxaddr : ℕ
  pub bbhandlers : List (List ℕ)
  pub rthandlers : List Instruction

-- BasicBlocks::convert: the pointers of one block, and of all
abbrev pub pointers : ℕ → List Instruction → List ℕ
pointers rt [] = []
pointers rt (insn ∷ insns) = rt ∷ pointers (suc rt) insns

abbrev pub convert_blocks : ℕ → List (List Instruction) → List (List ℕ)
convert_blocks rt [] = []
convert_blocks rt (insns ∷ rest) = pointers rt insns ∷ convert_blocks (rt + length insns) rest

abbrev pub flatten : List (List Instruction) → List Instruction
flatten [] = []
flatten (insns ∷ rest) = insns ++ flatten rest

unfoldable pub convert : List ℕ → ℕ → List (List Instruction) → BasicBlocks
convert vmaddrs maxaddr handlers = record {
  vmaddrs = vmaddrs;
  maxaddr = maxaddr;
  bbhandlers = convert_blocks 0 handlers;
  rthandlers = flatten handlers;
}

-- Orchestrator::findBlocks, the handler that ends at the address. `none` is a pointer before
-- `rthandlers` or a read outside an array.
unfoldable pub choose : List Instruction → ℕ → ℕ → Option (Option ℕ)
choose rthandlers first zero = none
choose rthandlers first (suc ptr) =
    if leb first ptr
    then (get_elem? rthandlers ptr >>= λ i.
        if i.event then some (some ptr) else some (some (suc ptr)))
    else some (some ptr)

-- Its loop over the handlers of a block
unfoldable pub scan : List Instruction → ℕ → ℕ → ℕ → List ℕ → Option (Option ℕ)
scan rthandlers first vmaddr addr [] = some none
scan rthandlers first vmaddr addr (insn ∷ rest) = get_elem? rthandlers insn >>= λ i.
    let later = scan rthandlers first vmaddr (add64 addr i.oplen) rest in
    if add64 addr i.oplen == vmaddr then choose rthandlers first insn else later

-- The first pointer of a block: `*bbhandlers[index].data()`
unfoldable pub first_of : BasicBlocks → ℕ → Option ℕ
first_of blocks index = get_elem? blocks.bbhandlers index >>= λ insns. get_elem? insns 0

unfoldable pub find_inside : BasicBlocks → ℕ → ℕ → Option (Option ℕ)
find_inside blocks index vmaddr = do
  addr ← get_elem? blocks.vmaddrs index
  insns ← get_elem? blocks.bbhandlers index
  elim insns [
    | [] ↦ some none
    | first ∷ rest ↦ scan blocks.rthandlers first vmaddr addr (first ∷ rest)
  ]

-- Orchestrator::findBlocks
unfoldable pub find_blocks : BasicBlocks → ℕ → Option (Option ℕ)
find_blocks blocks vmaddr = get_elem? blocks.vmaddrs 0 >>= λ lowest.
    if ltb vmaddr lowest || leb blocks.maxaddr vmaddr then some none else (do
      found ← binary_search blocks.vmaddrs (length blocks.vmaddrs) vmaddr
      exact ← is_exact blocks.vmaddrs (length blocks.vmaddrs) found vmaddr
      if exact
          then (first_of blocks found >>= λ insn. some (some insn))
          else find_inside blocks (found - 1) vmaddr)
