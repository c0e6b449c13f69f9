-- ===== src/Tests/Emulation.antt =====
-- Opcode handlers, and the registers of both architectures
use aether_vm.Prelude.{
  ℕ, ◌+◌, ◌*◌, ◌^◌, Bool, true, false, some, [], ◌∷◌, length, ◌==◌, if◌then◌else◌, ◌≡◌, ◌≢◌, refl,
  arith,
}
use aether_vm.Emulate.{
  bytes4, OpcodeEngine, no_handlers, rejected, interpreted, uninitialised, prefetch, emulate,
  width_of, put, prefetch_insn, emulate_bytes,
}
use aether_vm.Emulate.Cached.{emulate-outcome, emulate-invalid}
use aether_vm.Emulate.Bytes.{emulate_bytes-prefetch_insn}
use aether_vm.Cpu.{
  Slot, gpr_field, segment_field, is_segment, get_register, set_register_x86, read_register_x86,
  CpuState, slot_aarch64, slot_x86, set_register, read_register, nzcv_reg, q0_reg,
}
use aether_vm.Cpu.File.{set_register-aarch64}
use aether_vm.Cpu.Segments.{selector, read_register_x86-set_register_x86}

-- A decoder that rejects only the opcode 0, and handlers named by their opcode
abbrev decodes : ℕ → Bool
decodes opcode = if opcode == 0 then false else true

abbrev body : ℕ → ℕ
body opcode = opcode + 1000

emulate-outcome_example : (emulate bytes4 decodes body false no_handlers 5).1 ≡ interpreted 1005
emulate-outcome_example = emulate-outcome bytes4 decodes body false no_handlers 5

emulate-invalid_example :
    ((emulate bytes4 decodes body false no_handlers 0).1 ≡ rejected)
    × ((emulate bytes4 decodes body false (emulate bytes4 decodes body false no_handlers 0).0 0).1
        ≡ uninitialised)
emulate-invalid_example = emulate-invalid bytes4 decodes body no_handlers 0 refl refl

abbrev fresh : OpcodeEngine
fresh = record {
  opc1 = no_handlers;
  opc2 = no_handlers;
  opc4 = no_handlers;
  opc8 = no_handlers;
  opc16 = no_handlers;
  readonly = true;
}

abbrev prefetched : OpcodeEngine
prefetched = put fresh bytes4 (prefetch bytes4 body no_handlers 197121)

prefetch_one : prefetch_insn body fresh 3 (1 ∷ 2 ∷ 3 ∷ []) ≡ some prefetched
unfolding prefetch_insn width_of
prefetch_one = refl

emulate_bytes-prefetch_insn_example :
    (e'' : OpcodeEngine) × (emulate_bytes false length decodes body prefetched (1 ∷ 2 ∷ 3 ∷ [])
      ≡ some (e'', interpreted 198121))
unfolding width_of
emulate_bytes-prefetch_insn_example =
    emulate_bytes-prefetch_insn length decodes body fresh prefetched (1 ∷ 2 ∷ 3 ∷ []) (omega arith)
      refl refl refl prefetch_one

-- Flags that are the whole word
abbrev join : ℕ → ℕ → ℕ
join flags word = flags

abbrev split : ℕ → ℕ
split word = word

abbrev zeroes : CpuState ℕ
zeroes = record { words = λ slot. 0; highs = λ slot. 0; flags = 0 }

x5 : slot_aarch64 7 ≡ some (gpr_field, 5)
unfolding slot_aarch64
x5 = refl

set_register-aarch64_example :
    (read_register join split slot_aarch64 nzcv_reg q0_reg
        (set_register join split slot_aarch64 nzcv_reg q0_reg zeroes 7 42).0
        7
      ≡ some 42)
    × ((other : ℕ) (place : Slot)
        → slot_aarch64 other ≡ some place
        → 7 ≢ other
        → read_register join split slot_aarch64 nzcv_reg q0_reg
            (set_register join split slot_aarch64 nzcv_reg q0_reg zeroes 7 42).0
            other
          ≡ read_register join split slot_aarch64 nzcv_reg q0_reg zeroes other)
set_register-aarch64_example = set_register-aarch64 join split zeroes 7 42 x5 refl

-- SS is set to a value with bits from 32 on: they are the new selector of ES.
ss : slot_x86 49 ≡ some (segment_field, 0)
unfolding slot_x86
ss = refl

clobbered :
    read_register_x86 join split (set_register_x86 join split zeroes 49 (5 + 7 * 2 ^ 32)).0 50
    ≡ some 7
unfolding read_register_x86 set_register_x86 get_register slot_x86
clobbered = refl

read_register_x86-set_register_x86_example :
    (read_register_x86 join split (set_register_x86 join split zeroes 49 42).0 49 ≡ some 42)
    × ((other : ℕ) (place : Slot)
        → slot_x86 other ≡ some place
        → 49 ≢ other
        → is_segment place ≡ false
        → read_register_x86 join split (set_register_x86 join split zeroes 49 42).0 other
          ≡ read_register_x86 join split zeroes other)
    × ((other : ℕ) (place : Slot)
        → slot_x86 other ≡ some place
        → 49 ≢ other
        → true ≡ true
        → is_segment place ≡ true
        → selector (read_register_x86 join split (set_register_x86 join split zeroes 49 42).0 other)
          ≡ (if place.1 == 1 then some 0 else selector (read_register_x86 join split zeroes other)))
read_register_x86-set_register_x86_example =
    read_register_x86-set_register_x86 join split zeroes 49 42 ss (omega arith) refl
