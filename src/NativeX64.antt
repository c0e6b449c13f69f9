-- ===== src/NativeX64.antt =====
-- The native handlers of x64 in src/Lifter.cpp: the registers that an instruction uses, and
-- `nativeHandlerX64`, the assembly that switches between the host's registers and the guest's around it.
-- LLVM's enumeration of registers is generated: a register is its name there, and those of the vector
-- classes have their number. An operand that is not a register is `none`. The text of the assembly is a list
-- of instructions on the numbers in `Register`.
pub mod Temporaries
pub mod Mirror
use Prim.Native.String.{String}
use aether_vm.Prelude.{
  ℕ, ◌+◌, ◌-◌, Bool, true, false, ◌&&◌, ◌||◌, Option, none, some, List, [], ◌∷◌, ◌++◌, contains,
  insert, leb, ◌==◌, if◌then◌else◌,
}
use aether_vm.Search.{◌>>=◌}
use aether_vm.Cpu.{rax_reg, xmm0_reg}

-- llvm::X86 registers
pub data X86Register : Type 0 where
  no_register other_register : X86Register
  rax eax ax al ah rbx ebx bx bl bh rcx ecx cx cl ch rdx edx dx dl dh : X86Register
  rdi edi di dil rsi esi si sil rbp ebp bp bpl rsp esp sp spl : X86Register
  r_quad r_dword r_word r_byte : ℕ → X86Register
  xmm ymm zmm : ℕ → X86Register

-- The numbers of the general registers: RBP and RSP are those of X29 and X31.
abbrev pub rbp_reg : ℕ
rbp_reg = 31

abbrev pub rsp_reg : ℕ
rsp_reg = 33

abbrev pub rbx_reg : ℕ
rbx_reg = rax_reg + 1

abbrev pub rcx_reg : ℕ
rcx_reg = rax_reg + 2

abbrev pub rdi_reg : ℕ
rdi_reg = rax_reg + 3

abbrev pub rdx_reg : ℕ
rdx_reg = rax_reg + 4

abbrev pub rsi_reg : ℕ
rsi_reg = rax_reg + 5

-- R8 to R15
abbrev pub r_reg : ℕ → ℕ
r_reg i = rax_reg + 6 + (i - 8)

abbrev pub numbered_gpr : ℕ → Option ℕ
numbered_gpr i = if leb 8 i && leb i 15 then some (r_reg i) else none

-- x86::canonicalize: `none` is abort.
unfoldable pub canonicalize : X86Register → Option ℕ
canonicalize rax = some rax_reg
canonicalize eax = some rax_reg
canonicalize ax = some rax_reg
canonicalize al = some rax_reg
canonicalize ah = some rax_reg
canonicalize rbx = some rbx_reg
canonicalize ebx = some rbx_reg
canonicalize bx = some rbx_reg
canonicalize bl = some rbx_reg
canonicalize bh = some rbx_reg
canonicalize rcx = some rcx_reg
canonicalize ecx = some rcx_reg
canonicalize cx = some rcx_reg
canonicalize cl = some rcx_reg
canonicalize ch = some rcx_reg
canonicalize rdx = some rdx_reg
canonicalize edx = some rdx_reg
canonicalize dx = some rdx_reg
canonicalize dl = some rdx_reg
canonicalize dh = some rdx_reg
canonicalize rdi = some rdi_reg
canonicalize edi = some rdi_reg
canonicalize di = some rdi_reg
canonicalize dil = some rdi_reg
canonicalize rsi = some rsi_reg
canonicalize esi = some rsi_reg
canonicalize si = some rsi_reg
canonicalize sil = some rsi_reg
canonicalize rbp = some rbp_reg
canonicalize ebp = some rbp_reg
canonicalize bp = some rbp_reg
canonicalize bpl = some rbp_reg
canonicalize rsp = some rsp_reg
canonicalize esp = some rsp_reg
canonicalize sp = some rsp_reg
canonicalize spl = some rsp_reg
canonicalize (r_quad i) = numbered_gpr i
canonicalize (r_dword i) = numbered_gpr i
canonicalize (r_word i) = numbered_gpr i
canonicalize (r_byte i) = numbered_gpr i
canonicalize _ = none

-- x86::is_gpr64
unfoldable pub is_gpr64 : ℕ → Bool
is_gpr64 r =
    r == rax_reg
    || r == rbx_reg
    || r == rcx_reg
    || r == rdx_reg
    || r == rdi_reg
    || r == rsi_reg
    || r == rsp_reg
    || r == rbp_reg
    || (leb (r_reg 8) r && leb r (r_reg 15))

-- A register in parse_regused, NoRegister excepted
unfoldable pub register_of : X86Register → Option ℕ
register_of (xmm i) = if leb i 31 then some (xmm0_reg + i) else none
register_of (ymm i) = if leb i 31 then some (xmm0_reg + i) else none
register_of (zmm i) = if leb i 31 then some (xmm0_reg + i) else none
register_of reg = canonicalize reg

abbrev pub is_none : X86Register → Bool
is_none no_register = true
is_none reg = false

-- x86::parse_regused, with the registers that were inserted
unfoldable pub parse_operands : List (Option X86Register) → List ℕ → Option (List ℕ)
parse_operands [] used = some used
parse_operands (none ∷ operands) used = parse_operands operands used
parse_operands (some reg ∷ operands) used = elim (is_none reg) [
  | true ↦ parse_operands operands used
  | false ↦ register_of reg >>= λ r. parse_operands operands (insert r used)
]

unfoldable pub parse_regused : List (Option X86Register) → Option (List ℕ)
parse_regused operands = parse_operands operands []

-- What the ABIs save: Microsoft's, and System V's
abbrev pub is_callee_saved_gpr : Bool → ℕ → Bool
is_callee_saved_gpr windows r =
    r == rbx_reg
    || r == rbp_reg
    || (windows && (r == rdi_reg || r == rsi_reg))
    || (leb (r_reg 12) r && leb r (r_reg 15))

abbrev pub is_callee_saved_xmm : Bool → ℕ → Bool
is_callee_saved_xmm windows r = windows && (leb (xmm0_reg + 6) r && leb r (xmm0_reg + 15))

-- kCpuCandidates
abbrev pub cpu_candidates : Bool → List ℕ
cpu_candidates true = rax_reg ∷ rcx_reg ∷ rdx_reg ∷ r_reg 8 ∷ r_reg 9 ∷ r_reg 10 ∷ r_reg 11 ∷ []
cpu_candidates false =
    rax_reg ∷ rcx_reg ∷ rdx_reg ∷ rsi_reg ∷ rdi_reg ∷ r_reg 8 ∷ r_reg 9 ∷ r_reg 10 ∷ r_reg 11 ∷ []

-- The `while (true)` over the candidates from `candidx` on: the one taken, and the rest; `none` is a read
-- behind the array.
abbrev pub next_candidate : List ℕ → List ℕ → Option (ℕ × List ℕ)
next_candidate used [] = none
next_candidate used (cand ∷ candidates) =
    let rest = next_candidate used candidates in
    if contains used cand then rest else some (cand, candidates)

-- `regcpu` and `regrsp`
unfoldable pub temporaries : Bool → List ℕ → Option (ℕ × ℕ)
temporaries windows used = do
  cpu ←
      if contains used (r_reg 12)
      then next_candidate used (cpu_candidates windows)
      else some (r_reg 12, cpu_candidates windows)
  stack ← if contains used rsp_reg then next_candidate used cpu.1 else some (rsp_reg, cpu.1)
  some (cpu.0, stack.0)

-- The instructions of the text: `push` and `pop`, an xmm register to and from the stack with the move of
-- rsp, `mov` between registers, the state's cells by the register that they belong to, the instruction
-- itself, and those that set the pc and the arguments.
pub data Asm64 : Type 0 where
  push pop save_xmm restore_xmm : ℕ → Asm64
  mov : ℕ → ℕ → Asm64
  load_gpr load_xmm store_gpr store_xmm : ℕ → ℕ → Asm64
  opcode : Asm64
  load_pcptr load_pc store_pc : ℕ → ℕ → Asm64
  add : ℕ → ℕ → Asm64

abbrev pub for_each : (ℕ → List Asm64) → List ℕ → List Asm64
for_each code [] = []
for_each code (r ∷ used) = code r ++ for_each code used

-- The loop from `rbegin` to `rend`
abbrev pub for_each_back : (ℕ → List Asm64) → List ℕ → List Asm64
for_each_back code [] = []
for_each_back code (r ∷ used) = for_each_back code used ++ code r

abbrev pub is_low_xmm : ℕ → Bool
is_low_xmm r = leb xmm0_reg r && leb r (xmm0_reg + 15)

unfoldable pub save_host64 : Bool → List ℕ → List Asm64
save_host64 windows used =
    for_each (λ r. if is_callee_saved_gpr windows r then push r ∷ [] else []) used
    ++ for_each (λ r. if is_callee_saved_xmm windows r then save_xmm r ∷ [] else []) used

unfoldable pub restore_host64 : Bool → List ℕ → List Asm64
restore_host64 windows used =
    for_each_back (λ r. if is_callee_saved_xmm windows r then restore_xmm r ∷ [] else []) used
    ++ for_each_back (λ r. if is_callee_saved_gpr windows r then pop r ∷ [] else []) used

abbrev pub move_unless : ℕ → ℕ → ℕ → ℕ → List Asm64
move_unless base plain from to = if base == plain then [] else mov from to ∷ []

-- `update pc` and the arguments, in the argument registers of the ABI
abbrev pub update_pc64 : Bool → ℕ → List Asm64
update_pc64 windows size =
    mov (r_reg 12) rax_reg
    ∷ load_pcptr rax_reg rcx_reg
    ∷ load_pc rcx_reg rdx_reg
    ∷ add rdx_reg size
    ∷ store_pc rdx_reg rcx_reg
    ∷ mov rax_reg (if windows then rcx_reg else rdi_reg)
    ∷ mov rdx_reg (if windows then rdx_reg else rsi_reg)
    ∷ add (r_reg 13) 8
    ∷ mov (r_reg 13) (if windows then r_reg 8 else rdx_reg)
    ∷ []

-- nativeHandlerX64 up to the jump to the next handler, for the registers of parse_regused and an opcode of
-- a size
unfoldable pub native_handler64 : Bool → ℕ → List ℕ → Option (List Asm64)
native_handler64 windows size used = temporaries windows used >>= λ t. some (
    save_host64 windows used
    ++ (move_unless t.0 (r_reg 12) (r_reg 12) t.0
        ++ (move_unless t.1 rsp_reg rsp_reg t.1
            ++ (for_each
                  (λ r.
                    if is_gpr64 r
                    then load_gpr r t.0 ∷ []
                    else if is_low_xmm r
                    then load_xmm r t.0 ∷ []
                    else [])
                  used
                ++ (opcode
                    ∷ (for_each
                          (λ r.
                            if is_gpr64 r
                            then store_gpr r t.0 ∷ []
                            else if is_low_xmm r
                            then store_xmm r t.0 ∷ []
                            else [])
                          used
                        ++ (move_unless t.0 (r_reg 12) t.0 (r_reg 12)
                            ++ (move_unless t.1 rsp_reg t.1 rsp_reg
                                ++ (restore_host64 windows used ++ update_pc64 windows size)))))))))
