-- ===== src/Tests/Natives64.antt =====
-- Native handlers of x64
use aether_vm.Prelude.{ℕ, ◌+◌, true, none, some, List, [], ◌∷◌, ◌≡◌, refl, arith}
use aether_vm.NativeX64.{
  rax, al, r_dword, ymm, no_register, r_reg, rsp_reg, canonicalize, register_of, parse_operands,
  parse_regused, temporaries, save_host64, restore_host64,
}
use aether_vm.NativeX64.Temporaries.{AreTemporaries, temporaries-total}
use aether_vm.NativeX64.Mirror.{undo_all, restore_host64-save_host64}
use aether_vm.Cpu.{rax_reg, xmm0_reg}

-- Registers are counted once, whatever their width.
used_once :
    parse_regused
      (some rax ∷ none ∷ some no_register ∷ some al ∷ some (r_dword 12) ∷ some (ymm 3) ∷ [])
    ≡ some (rax_reg ∷ r_reg 12 ∷ (xmm0_reg + 3) ∷ [])
unfolding parse_regused parse_operands register_of canonicalize aether_vm.Prelude.insert
used_once = refl

-- The instruction uses RSP, RAX and R12: the context is in RCX and the stack pointer in RDX.
abbrev used : List ℕ
used = rsp_reg ∷ rax_reg ∷ r_reg 12 ∷ []

taken : temporaries true used ≡ some (rax_reg + 2, rax_reg + 4)
unfolding temporaries
taken = refl

temporaries-total_example :
    (cpu stack : ℕ) × (temporaries true used ≡ some (cpu, stack))
    × AreTemporaries true used cpu stack
temporaries-total_example = temporaries-total true used (omega arith)

-- RDI, R12, XMM6 and XMM7
abbrev saved : List ℕ
saved = (rax_reg + 3) ∷ r_reg 12 ∷ (xmm0_reg + 6) ∷ (xmm0_reg + 7) ∷ []

restore_host64-save_host64_example : restore_host64 true saved ≡ undo_all (save_host64 true saved)
restore_host64-save_host64_example = restore_host64-save_host64 true saved
