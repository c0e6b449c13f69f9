-- ===== src/Tests/Registers.antt =====
-- The renaming of registers and the generators of opcodes
use aether_vm.Prelude.{
  ℕ, ◌+◌, false, Option, none, some, List, [], ◌∷◌, ◌%◌, if◌then◌else◌, ◌==◌, ◌≡◌,
}
use aether_vm.Cpu.{x0_reg, q0_reg}
use aether_vm.Renaming.{LlvmRegister, x_reg, normalize_operands, rename_all}
use aether_vm.Renaming.Fresh.{IsRenaming}
use aether_vm.Renaming.Operands.{normalize_operands-IsRenaming}
use aether_vm.Renaming.Generate.{Generator, generate, IsSplit, generate-IsSplit}

-- add x0, x1, x0 with an immediate
abbrev operands : List (Option LlvmRegister)
operands = some (x_reg 0) ∷ some (x_reg 1) ∷ some (x_reg 0) ∷ none ∷ []

abbrev used : List ℕ
used = (x0_reg + 0) ∷ (x0_reg + 1) ∷ []

normalize_operands-IsRenaming_example :
    (regmaps fpumaps : List (ℕ × ℕ)) × (renamed : List (Option LlvmRegister)) × (normalize_operands
        used operands
      ≡ some renamed)
    × (rename_all regmaps fpumaps operands ≡ some renamed)
    × IsRenaming used x0_reg 6 regmaps
    × IsRenaming used q0_reg 6 fpumaps
normalize_operands-IsRenaming_example = normalize_operands-IsRenaming used operands

-- Every opcode is of the class of its parity; the odd ones can be lifted.
abbrev disassemble : ℕ → Option (ℕ × List (Option LlvmRegister))
disassemble opcode = if opcode == 3 then none else some (opcode % 2, operands)

abbrev empty : Generator
empty = record { opcodes = []; canopc = []; cannot = [] }

generate-IsSplit_example :
    (g : Generator) × (generate disassemble
        (λ opc. false)
        (λ opc l. some 7)
        (λ opcode. opcode % 2 == 1)
        empty
        (1 ∷ 2 ∷ 3 ∷ 4 ∷ [])
      ≡ some g)
    × IsSplit disassemble (λ opc. false) (λ opc l. some 7) (λ opcode. opcode % 2 == 1) g
generate-IsSplit_example =
    generate-IsSplit disassemble (λ opc. false) (λ opc l. some 7) (λ opcode. opcode % 2 == 1)
      (1 ∷ 2 ∷ 3 ∷ 4 ∷ []) empty (λ opc c. cc)
