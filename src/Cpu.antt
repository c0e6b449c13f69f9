-- ===== src/Cpu.antt =====
-- src/CPUState.cpp and include/Register.h: the registers of a thread's CPU state, read and written by
-- their number in `Register`. The numbers of the x86 registers after RSP go on from SP, so they overlap
-- those of NZCV and the Q registers.
-- The layout of the state is another library's. A register's storage is named by a group of fields of
-- the state and an index in it; `join` and `split` are what the bit fields of the flags word do: `join`
-- writes the flags into the word, `split` reads them.
pub mod File
pub mod Segments
pub mod Slots
use aether_vm.Prelude.{
  ℕ, zero, suc, ◌+◌, ◌-◌, ◌*◌, ◌/◌, ◌%◌, ◌^◌, Bool, true, false, ◌&&◌, Option, none, some, ltb, leb,
  ◌==◌, if◌then◌else◌,
}

-- The numbers of `Register`
abbrev pub zero_reg : ℕ
zero_reg = 0

abbrev pub pc_reg : ℕ
pc_reg = 1

abbrev pub x0_reg : ℕ
x0_reg = 2

abbrev pub nzcv_reg : ℕ
nzcv_reg = 34

abbrev pub q0_reg : ℕ
q0_reg = 35

abbrev pub fpsr_reg : ℕ
fpsr_reg = 67

abbrev pub fpcr_reg : ℕ
fpcr_reg = 68

abbrev pub rax_reg : ℕ
rax_reg = 34

abbrev pub rflags_reg : ℕ
rflags_reg = 48

abbrev pub ss_reg : ℕ
ss_reg = 49

abbrev pub st0_reg : ℕ
st0_reg = 55

abbrev pub mm0_reg : ℕ
mm0_reg = 63

abbrev pub xmm0_reg : ℕ
xmm0_reg = 71

-- The fields of the state that registers are stored in
pub data Group : Type 0 where
  pc_field zero_field gpr_field flags_field vector_field fpsr_field fpcr_field : Group
  segment_field st_field mmx_field : Group

abbrev pub group_code : Group → ℕ
group_code pc_field = 0
group_code zero_field = 1
group_code gpr_field = 2
group_code flags_field = 3
group_code vector_field = 4
group_code fpsr_field = 5
group_code fpcr_field = 6
group_code segment_field = 7
group_code st_field = 8
group_code mmx_field = 9

abbrev pub Slot : Type 0
Slot = Group × ℕ

abbrev pub same_slot : Slot → Slot → Bool
same_slot a b = group_code a.0 == group_code b.0 && a.1 == b.1

-- `reg` from `first` on, `count` of them
abbrev pub within : ℕ → ℕ → ℕ → Bool
within first count reg = leb first reg && ltb reg (first + count)

-- The switch of getRegisterAArch64: X31 is the stack pointer.
unfoldable pub slot_aarch64 : ℕ → Option Slot
slot_aarch64 reg =
    if reg == pc_reg
    then some (pc_field, 0)
    else if reg == zero_reg
    then some (zero_field, 0)
    else if within x0_reg 32 reg
    then some (gpr_field, reg - x0_reg)
    else if reg == nzcv_reg
    then some (flags_field, 0)
    else if within q0_reg 32 reg
    then some (vector_field, reg - q0_reg)
    else if reg == fpsr_reg
    then some (fpsr_field, 0)
    else if reg == fpcr_reg
    then some (fpcr_field, 0)
    else none

-- The switch of getRegisterX86: RBP and RSP are the numbers of X29 and X31, and the index of a general
-- register is its number.
unfoldable pub slot_x86 : ℕ → Option Slot
slot_x86 reg =
    if reg == pc_reg
    then some (pc_field, 0)
    else if reg == zero_reg
    then some (zero_field, 0)
    else if reg == 31
    then some (gpr_field, 31)
    else if reg == 33
    then some (gpr_field, 33)
    else if within rax_reg 14 reg
    then some (gpr_field, reg)
    else if reg == rflags_reg
    then some (flags_field, 0)
    else if within ss_reg 6 reg
    then some (segment_field, reg - ss_reg)
    else if within st0_reg 8 reg
    then some (st_field, reg - st0_reg)
    else if within mm0_reg 8 reg
    then some (mmx_field, reg - mm0_reg)
    else if within xmm0_reg 32 reg
    then some (vector_field, reg - xmm0_reg)
    else none

-- The state: the low and the high 64 bits of each slot (of a segment selector, the 4 bytes that begin at it),
-- and the flags that the handlers use (`sr`, `aflag`)
pub record CpuState (F : Type 0) : Type 0 where
  pub words : Slot → ℕ
  pub highs : Slot → ℕ
  pub flags : F

abbrev pub write : (Slot → ℕ) → Slot → ℕ → Slot → ℕ
write words slot value = λ s. if same_slot s slot then value else words s

module _ {F : Type 0} (join : F → ℕ → ℕ) (split : ℕ → F) (slot_of : ℕ → Option Slot)
    (flags_reg first_vector : ℕ) where
  -- getRegisterAArch64 and getRegisterX86, which first write the flags into their word: the state, and the
  -- slot pointed to
  unfoldable pub get_register : CpuState F → ℕ → Option (CpuState F × Slot)
  get_register s reg = elim (slot_of reg) [
    | none ↦ none
    | some slot ↦
        if reg == flags_reg
        then some (record s { words = write s.words slot (join s.flags (s.words slot)) }, slot)
        else some (s, slot)
  ]

  -- setRegisterAArch64
  unfoldable pub set_register : CpuState F → ℕ → ℕ → CpuState F × Bool
  set_register s reg value = elim (get_register s reg) [
    | none ↦ (s, false)
    | some (s', slot) ↦
        if reg == flags_reg
        then (record s' { words = write s'.words slot value; flags = split value }, true)
        else (record s' { words = write s'.words slot value }, true)
  ]

  -- setRegisterNEON and setRegisterSSE
  unfoldable pub set_vector : CpuState F → ℕ → ℕ → ℕ → CpuState F × Bool
  set_vector s reg low high =
      if within first_vector 32 reg
      then elim (get_register s reg) [
        | none ↦ (s, false)
        | some (s', slot) ↦
            (record s' { words = write s'.words slot low; highs = write s'.highs slot high }, true)
      ]
      else (s, false)

  -- What the caller of getRegister reads, on AArch64
  unfoldable pub read_register : CpuState F → ℕ → Option ℕ
  read_register s reg = elim (get_register s reg) [
    | none ↦ none
    | some (s', slot) ↦ some (s'.words slot)
  ]

-- The segment selectors are 2 bytes wide and 4 bytes apart, so the 8 bytes of a RegisterValue reach into the
-- next one. The word of a selector's slot is the 4 bytes that begin at it, and the one behind CS is what
-- follows the selectors in the state.
abbrev pub is_segment : Slot → Bool
is_segment slot = group_code slot.0 == 7

abbrev pub next_segment : Slot → Slot
next_segment slot = (segment_field, suc slot.1)

-- `*ptr` of a RegisterValue
abbrev pub load_slot : (Slot → ℕ) → Slot → ℕ
load_slot words slot =
    if is_segment slot then words slot + 2 ^ 32 * words (next_segment slot) else words slot

-- `*ptr = val`
abbrev pub store_slot : (Slot → ℕ) → Slot → ℕ → Slot → ℕ
store_slot words slot value =
    if is_segment slot
    then write (write words slot (value % 2 ^ 32)) (next_segment slot) (value / 2 ^ 32 % 2 ^ 32)
    else write words slot value

module _ {F : Type 0} (join : F → ℕ → ℕ) (split : ℕ → F) where
  -- setRegisterX86
  unfoldable pub set_register_x86 : CpuState F → ℕ → ℕ → CpuState F × Bool
  set_register_x86 s reg value = elim (get_register join split slot_x86 rflags_reg xmm0_reg s reg) [
    | none ↦ (s, false)
    | some (s', slot) ↦
        if reg == rflags_reg
        then (record s' { words = store_slot s'.words slot value; flags = split value }, true)
        else (record s' { words = store_slot s'.words slot value }, true)
  ]

  -- What the caller of getRegister reads, on x86
  unfoldable pub read_register_x86 : CpuState F → ℕ → Option ℕ
  read_register_x86 s reg = elim (get_register join split slot_x86 rflags_reg xmm0_reg s reg) [
    | none ↦ none
    | some (s', slot) ↦ some (load_slot s'.words slot)
  ]
