-- ===== src/Tests/Front.antt =====
-- The front end
use aether_vm.Prelude.{
  ℕ, ◌+◌, Bool, true, false, Option, none, some, List, [], ◌∷◌, ◌==◌, if◌then◌else◌, ◌≡◌, refl, ◌≢◌,
  ◌≤◌, ◌<◌, arith, All, inl, inr,
}
use aether_vm.Word.{add64, sub64, not64}
use aether_vm.Word.Bytes.{le_bytes}
use aether_vm.Search.{align_up}
use aether_vm.Memory.{
  valid, commit, Engine, OpcodeBinary, guest_address, mapped_address, store, write_memory,
}
use aether_vm.Blocks.{EventConfig, BasicBlocks}
use aether_vm.Blocks.Encode.{x86_64, arm64, ret, Func, encode}
use aether_vm.FrontEnd.{
  Section, Binary, Piece, find_section, convert_pc, lift_opcodes, read_uint64, total_size,
  orch_binary,
}
use aether_vm.FrontEnd.Counter.{IsSection, convert_pc-mapped_address}
use aether_vm.FrontEnd.Lift.{IsTiling, decoded, lift_opcodes-IsTiling}
use aether_vm.FrontEnd.Load.{
  committed, lifted_pieces, IsOutside, IsLoaded, section_place, orch_binary-IsLoaded,
}
use aether_vm.FrontEnd.Words.{read_uint64-write_memory}
use aether_vm.Tests.Guests.{engine, no_read, no_write}

-- An instruction of two bytes, one byte that is none, and an instruction that ends behind the section
abbrev lengths : ℕ → ℕ
lengths offset = if offset == 0 then 2 else if offset == 2 then 0 else 3

lift_opcodes-IsTiling_example :
    (pieces : List Piece) × (lift_opcodes x86_64 1 lengths 4096 5 ≡ some pieces)
    × IsTiling (decoded x86_64 1 lengths) 4096 5 0 pieces
lift_opcodes-IsTiling_example =
    lift_opcodes-IsTiling x86_64 1 lengths 4096 5 (λ e. omega (arith, e))

-- An opcode binary of one section, whose file is at 65536
abbrev text : Section
text = record { key = 4096; addr = 4096; foff = 16; size = 32; is_text = true; content = [] }

abbrev in_place : OpcodeBinary
in_place = record { image_base = 4096; section_end = 4128; addr_buff = λ a. a + 61456 }

abbrev running : Engine
running = record engine { binary_opcode = some in_place }

text-IsSection : IsSection in_place 65536 text
text-IsSection = record {
  in_memory = omega arith;
  from_base = omega arith;
  to_end = omega arith;
  addresses = omega arith;
  buffer = λ d below. omega arith;
}

shown : convert_pc none (some (65536, text ∷ [])) 1048576 65560 ≡ some 4104
unfolding convert_pc find_section add64 sub64
shown = refl

convert_pc-mapped_address_example :
    (4096 ≤ 4104) × (4104 < 4128) × (mapped_address running 4104 4 ≡ 65560)
convert_pc-mapped_address_example =
    convert_pc-mapped_address running in_place 65536 65560 4 (text ∷ []) refl (text-IsSection, tt)
      shown

word_mapped : mapped_address engine 16 8 ≡ 1048592
unfolding mapped_address guest_address valid add64
word_mapped = refl

read_uint64-write_memory_example :
    read_uint64 no_read (write_memory no_write engine 16 (le_bytes 8 3596551104)).0 16 ≡ 3596551104
read_uint64-write_memory_example =
    read_uint64-write_memory no_write no_read engine 16 3596551104
      (λ e. omega (arith, e, word_mapped)) (omega arith)

-- A binary of one function of one return, with a text and a data section
abbrev code : Section
code = record {
  key = 100;
  addr = 100;
  foff = 0;
  size = 4;
  is_text = true;
  content = 192 ∷ 3 ∷ 95 ∷ 214 ∷ [];
}

abbrev data_section : Section
data_section = record {
  key = 200;
  addr = 200;
  foff = 4;
  size = 3;
  is_text = false;
  content = 7 ∷ 8 ∷ 9 ∷ [];
}

abbrev only : Func
only = record {
  start = 100;
  insns = record { fnoff = 0; oplen = 4; opcode = 3596551104; kind = ret; comins = 0 } ∷ [];
  end_addr = 104;
}

abbrev small : Binary
small = record {
  image_base = 0;
  arch = arm64;
  sections = code ∷ data_section ∷ [];
  functions = only ∷ [];
}

abbrev granted : ℕ → ℕ → Bool
granted addr size = true

abbrev no_events : EventConfig
no_events = record { insn = false; block = false; func = false; debug = false }

-- The host writes what it is asked to.
abbrev host_write : (ℕ → ℕ) → ℕ → List ℕ → Option (ℕ → ℕ)
host_write bytes addr buff = some (store bytes addr buff)

positive : ◌≢◌ {A = ℕ} 1 0
positive e = omega (arith, e)

abbrev loaded_engine : Engine
loaded_engine =
    committed granted host_write 4096 1 (λ s offset. 4) (λ pieces opcode. none) positive small
      1048576 engine

code_place : section_place loaded_engine 1048576 code ≡ 1048676
unfolding mapped_address guest_address valid commit align_up total_size add64 sub64 not64
code_place = refl

data_place : section_place loaded_engine 1048576 data_section ≡ 1048776
unfolding mapped_address guest_address valid commit align_up total_size add64 sub64 not64
data_place = refl

orch_binary-IsLoaded_example :
    (bytes : ℕ → ℕ) × (blocks : BasicBlocks) × (orch_binary granted host_write 4096 1
        (λ s offset. 4)
        (λ pieces opcode. none)
        no_events
        small
        1048576
        engine
      ≡ some (record loaded_engine { bytes = bytes }, blocks))
    × ((pieces : List Piece) × (lifted_pieces granted host_write 4096 1
            (λ s offset. 4)
            (λ pieces opcode. none)
            positive
            arm64
            1048576
            (code ∷ data_section ∷ [])
          ≡ some pieces)
        × (encode no_events arm64 (λ opcode. none) 1048576 (only ∷ []) ≡ some blocks))
    × ((a : ℕ)
        → All (IsOutside loaded_engine 1048576 a) (code ∷ data_section ∷ [])
        → bytes a ≡ engine.bytes a)
    × All (IsLoaded loaded_engine bytes 1048576) (code ∷ data_section ∷ [])
orch_binary-IsLoaded_example =
    orch_binary-IsLoaded granted host_write 4096 1 (λ s offset. 4) (λ pieces opcode. none) positive
      no_events small 1048576 engine only [] refl (refl, (refl, tt))
      (inr (λ bytes. refl), (inr (λ bytes. refl), tt))
      ((inl (omega (arith, code_place, data_place)), tt), (tt, tt))
