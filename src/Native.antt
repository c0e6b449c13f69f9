-- ===== src/Native.antt =====
-- The native handlers of src/Lifter.cpp: `nativeHandlerAArch64`, which wraps an instruction that cannot be
-- lifted into assembly that switches from the host's registers to the guest's and back, and what that
-- assembly does.
-- The text of the assembly is a list of instructions, whose operands are the numbers in `Register` of the
-- registers that the text names. The guest's state is addressed through the register that holds the pointer
-- to it, in cells of 16 bytes at the offsets of `offset_reg`; a register is its low and its high 64 bits.
pub mod Guest
pub mod Host
pub mod Moves
pub mod Context
pub mod Run
pub mod Switch
use aether_vm.Prelude.{
  ℕ, suc, ◌+◌, ◌-◌, ◌*◌, ◌%◌, ◌^◌, Bool, true, false, ◌&&◌, ◌||◌, Option, none, some, List, [], ◌∷◌,
  ◌++◌, length, contains, leb, ◌==◌, if◌then◌else◌,
}
use aether_vm.Search.{◌>>=◌}
use aether_vm.Cpu.{x0_reg, q0_reg}
use aether_vm.Renaming.{next_free}

-- X19, X26, X27, X30, Q8, Q15 and Q31
abbrev pub x_reg_at : ℕ → ℕ
x_reg_at n = x0_reg + n

abbrev pub q_reg_at : ℕ → ℕ
q_reg_at n = q0_reg + n

abbrev pub between : ℕ → ℕ → ℕ → Bool
between first last r = leb first r && leb r last

-- `Register::X0 <= r && r <= Register::X30`, and the like of Q0 and Q31
unfoldable pub is_x : ℕ → Bool
is_x r = between x0_reg (x_reg_at 30) r

unfoldable pub is_q : ℕ → Bool
is_q r = between q0_reg (q_reg_at 31) r

unfoldable pub is_saved_x : ℕ → Bool
is_saved_x r = between (x_reg_at 19) (x_reg_at 30) r

unfoldable pub is_saved_q : ℕ → Bool
is_saved_q r = between (q_reg_at 8) (q_reg_at 15) r

-- The instructions that the text has: `str [sp, #-0x10]!` and `ldr [sp], #0x10` of an x or a d register,
-- `mov`, `ldr` and `str` of the guest's state, the instruction itself, and those that set the pc.
pub data Asm : Type 0 where
  push_x push_d pop_x pop_d : ℕ → Asm
  mov : ℕ → ℕ → Asm
  load_x load_q store_x store_q : ℕ → ℕ → ℕ → Asm
  opcode : Asm
  load_pcptr load_pc store_pc : ℕ → ℕ → Asm
  add : ℕ → ℕ → Asm

-- aarch64::offset_reg of a register, for the offsets of X0 and of V0 in the state
abbrev pub offset_reg : ℕ → ℕ → ℕ → ℕ
offset_reg gpr simd r = if is_q r then simd + 16 * (r - q0_reg) else gpr + 16 * (r - x0_reg)

-- The loops over the used registers
unfoldable pub save_host : List ℕ → List Asm
save_host [] = []
save_host (r ∷ used) =
    (if is_saved_x r then push_x r ∷ [] else if is_saved_q r then push_d r ∷ [] else [])
    ++ save_host used

unfoldable pub load_guest : ℕ → ℕ → ℕ → List ℕ → List Asm
load_guest gpr simd base [] = []
load_guest gpr simd base (r ∷ used) =
    (if is_x r
      then load_x r base (offset_reg gpr simd r) ∷ []
      else if is_q r
      then load_q r base (offset_reg gpr simd r) ∷ []
      else [])
    ++ load_guest gpr simd base used

unfoldable pub store_guest : ℕ → ℕ → ℕ → List ℕ → List Asm
store_guest gpr simd base [] = []
store_guest gpr simd base (r ∷ used) =
    (if is_x r
      then store_x r base (offset_reg gpr simd r) ∷ []
      else if is_q r
      then store_q r base (offset_reg gpr simd r) ∷ []
      else [])
    ++ store_guest gpr simd base used

-- The loop from `rbegin` to `rend`
unfoldable pub restore_host : List ℕ → List Asm
restore_host [] = []
restore_host (r ∷ used) =
    restore_host used
    ++ (if is_saved_x r then pop_x r ∷ [] else if is_saved_q r then pop_d r ∷ [] else [])

-- The register of the cpu context: X26, or the first one from X0 on that is not used. The fuel is one round
-- more than there are used registers.
unfoldable pub context_register : List ℕ → Option ℕ
context_register used =
    if contains used (x_reg_at 26)
    then (next_free (suc (length used)) used x0_reg 0 >>= λ free. some (x0_reg + free))
    else some (x_reg_at 26)

abbrev pub move_context : ℕ → ℕ → ℕ → List Asm
move_context base to from = if base == x_reg_at 26 then [] else mov to from ∷ []

-- `update pc`, and the arguments of the next handler
abbrev pub update_pc : List Asm
update_pc =
    mov (x_reg_at 0) (x_reg_at 26)
    ∷ load_pcptr (x_reg_at 1) (x_reg_at 0)
    ∷ load_pc (x_reg_at 2) (x_reg_at 1)
    ∷ add (x_reg_at 2) 4
    ∷ store_pc (x_reg_at 2) (x_reg_at 1)
    ∷ mov (x_reg_at 1) (x_reg_at 2)
    ∷ add (x_reg_at 27) 8
    ∷ mov (x_reg_at 2) (x_reg_at 27)
    ∷ []

-- nativeHandlerAArch64 up to the branch to the next handler, for the registers of parse_regused
unfoldable pub native_handler : ℕ → ℕ → List ℕ → Option (List Asm)
native_handler gpr simd used = context_register used >>= λ base. some (
    save_host used
    ++ (move_context base base (x_reg_at 26)
        ++ (load_guest gpr simd base used
            ++ (opcode
                ∷ (store_guest gpr simd base used
                    ++ (move_context base (x_reg_at 26) base
                        ++ (restore_host used ++ update_pc)))))))

-- The registers, the cells of the guest's state, the host's stack, and the guest's pc
pub record Machine : Type 0 where
  pub regs : ℕ → ℕ × ℕ
  pub cells : ℕ → ℕ × ℕ
  pub stack : List ℕ
  pub pc : ℕ

abbrev pub set : (ℕ → ℕ × ℕ) → ℕ → ℕ × ℕ → ℕ → ℕ × ℕ
set f r v = λ s. if r == s then v else f s

abbrev pub pop : ℕ → Machine → List ℕ → Option Machine
pop r m [] = none
pop r m (v ∷ stack) = some (record m { regs = set m.regs r (v, 0); stack = stack })

-- What the instructions do, for a state at `cpu` whose pc is pointed to by `pcptr`: `none` is an access to
-- other memory. `exec` is what the opcode does to the registers.
module _ (cpu pcptr : ℕ) (exec : (ℕ → ℕ × ℕ) → ℕ → ℕ × ℕ) where
  abbrev pub at_pointer : ℕ → Machine → ℕ → Machine → Option Machine
  at_pointer pointer m base m' = if (m.regs base).0 == pointer then some m' else none

  abbrev pub step : Asm → Machine → Option Machine
  step (push_x r) m = some (record m { stack = (m.regs r).0 ∷ m.stack })
  step (push_d r) m = some (record m { stack = (m.regs r).0 ∷ m.stack })
  step (pop_x r) m = pop r m m.stack
  step (pop_d r) m = pop r m m.stack
  step (mov a b) m = some (record m { regs = set m.regs a ((m.regs b).0, 0) })
  step (load_x r base offset) m =
      at_pointer cpu m base (record m { regs = set m.regs r ((m.cells offset).0, 0) })
  step (load_q r base offset) m =
      at_pointer cpu m base (record m { regs = set m.regs r (m.cells offset) })
  step (store_x r base offset) m =
      at_pointer cpu m base
        (record m { cells = set m.cells offset ((m.regs r).0, (m.cells offset).1) })
  step (store_q r base offset) m =
      at_pointer cpu m base (record m { cells = set m.cells offset (m.regs r) })
  step opcode m = some (record m { regs = exec m.regs })
  step (load_pcptr a b) m = at_pointer cpu m b (record m { regs = set m.regs a (pcptr, 0) })
  step (load_pc a b) m = at_pointer pcptr m b (record m { regs = set m.regs a (m.pc, 0) })
  step (store_pc a b) m = at_pointer pcptr m b (record m { pc = (m.regs a).0 })
  step (add a n) m = some (record m { regs = set m.regs a (((m.regs a).0 + n) % 2 ^ 64, 0) })

  unfoldable pub run : List Asm → Machine → Option Machine
  run [] m = some m
  run (i ∷ code) m = step i m >>= λ m'. run code m'
