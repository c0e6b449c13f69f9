-- ===== src/Native/Context.antt =====
-- The register that holds the cpu context in a native handler, and what a handler relies on of its instruction.
use aether_vm.Prelude.{
  ℕ, suc, ◌+◌, ◌≤◌, true, false, ◌&&◌, some, List, length, contains, ◌==◌, ◌≡◌, refl, arith,
  Bool-cases, ◌⊎◌, inl, inr,
}
use aether_vm.Cpu.{x0_reg}
use aether_vm.Renaming.Fresh.{count_from-le, next_free-total}
use aether_vm.Native.{x_reg_at, is_saved_x, is_saved_q, context_register}
use aether_vm.Native.Guest.{is_guest}
use aether_vm.Native.Host.{is_saved}

-- An instruction that reads and writes no registers but its used ones
pub record IsLocal (used : List ℕ) (exec : (ℕ → ℕ × ℕ) → ℕ → ℕ × ℕ) : Type 0 where
  pub keeps :
      (regs : ℕ → ℕ × ℕ) (s : ℕ) → (contains used s && is_guest s) ≡ false → exec regs s ≡ regs s
  pub reads :
      (regs regs' : ℕ → ℕ × ℕ)
      → ((s : ℕ) → (contains used s && is_guest s) ≡ true → regs s ≡ regs' s)
      → (s : ℕ) → (contains used s && is_guest s) ≡ true
      → exec regs s ≡ exec regs' s

-- The context register: it is not used, and it is X26 or one that need not be saved.
pub record IsContext (used : List ℕ) (base : ℕ) : Type 0 where
  pub unused : contains used base ≡ false
  pub free : ((base == x_reg_at 26) ≡ true) ⊎ (is_saved base ≡ false)

pub context_register-total :
    (used : List ℕ)
    → length used ≤ 17
    → (base : ℕ) × (context_register used ≡ some base) × IsContext used base
unfolding context_register is_saved_x is_saved_q
context_register-total used few = elim (Bool-cases (contains used (x_reg_at 26))) [
  | inl e ↦
      let (free, found, from, unused, bound) =
        next_free-total (suc (length used)) used x0_reg 0
          (omega (arith, count_from-le used (x0_reg + 0))) in
      (
        x0_reg + free,
        rw (context_register, e, found) refl,
        record {
          unused = unused;
          free = inr (ground (arith, bound, few, count_from-le used (x0_reg + 0)));
        },
      )
  | inr e ↦ (x_reg_at 26, rw (context_register, e) refl, record { unused = e; free = inl refl })
]
