-- ===== src/Native/Moves.antt =====
-- The register moves of a native handler, and the code that updates the pc.
use aether_vm.Prelude.{
  ℕ, ◌+◌, ◌%◌, ◌^◌, true, false, some, ◌==◌, ==_self, ==_iff, if◌then◌else◌, ◌≡◌, refl, ap, sym,
  ◌∙◌, arith, Bool-cases, inl, inr,
}
use aether_vm.Native.{x_reg_at, is_saved_x, is_saved_q, move_context, update_pc, Machine, set, run}
use aether_vm.Native.Host.{is_saved}

-- The registers that `update pc` leaves
abbrev pub final : ℕ → ℕ → (ℕ → ℕ × ℕ) → ℕ → ℕ → ℕ × ℕ
final cpu pcptr regs pc =
    let started = set (set regs (x_reg_at 0) (cpu, 0)) (x_reg_at 1) (pcptr, 0) in
    let counted = set (set started (x_reg_at 2) (pc, 0)) (x_reg_at 2) ((pc + 4) % 2 ^ 64, 0) in
    let moved = set counted (x_reg_at 1) ((pc + 4) % 2 ^ 64, 0) in
    let next = ((regs (x_reg_at 27)).0 + 8) % 2 ^ 64 in
    set (set moved (x_reg_at 27) (next, 0)) (x_reg_at 2) (next, 0)

pub final-saved :
    (cpu pcptr : ℕ) (regs : ℕ → ℕ × ℕ) (pc s : ℕ)
    → is_saved s ≡ true
    → (s == x_reg_at 27) ≡ false
    → final cpu pcptr regs pc s ≡ regs s
unfolding is_saved_x is_saved_q
final-saved cpu pcptr regs pc s h other = ground (arith, h, other)

-- The registers after the first move, and after the one back
abbrev pub moved_in : ℕ → (ℕ → ℕ × ℕ) → ℕ → ℕ × ℕ
moved_in base regs = if base == x_reg_at 26 then regs else set regs base ((regs (x_reg_at 26)).0, 0)

abbrev pub moved_out : ℕ → (ℕ → ℕ × ℕ) → ℕ → ℕ × ℕ
moved_out base regs =
    if base == x_reg_at 26 then regs else set regs (x_reg_at 26) ((regs base).0, 0)

pub moved_out-same :
    (base : ℕ) (regs : ℕ → ℕ × ℕ) (s : ℕ)
    → (base == x_reg_at 26) ≡ true
    → moved_out base regs s ≡ regs s
moved_out-same base regs s e = rw e refl

pub moved_out-other :
    (base : ℕ) (regs : ℕ → ℕ × ℕ) (s : ℕ)
    → (base == x_reg_at 26) ≡ false
    → moved_out base regs s ≡ set regs (x_reg_at 26) ((regs base).0, 0) s
moved_out-other base regs s e = rw e refl

pub moved_in-same :
    (base : ℕ) (regs : ℕ → ℕ × ℕ) (s : ℕ)
    → (base == x_reg_at 26) ≡ true
    → moved_in base regs s ≡ regs s
moved_in-same base regs s e = rw e refl

pub moved_in-base :
    (cpu base : ℕ) (regs : ℕ → ℕ × ℕ)
    → (regs (x_reg_at 26)).0 ≡ cpu
    → (moved_in base regs base).0 ≡ cpu
moved_in-base cpu base regs at = elim (Bool-cases (base == x_reg_at 26)) [
  | inl e ↦ rw e (ap (λ r. (regs r).0) ((==_iff base (x_reg_at 26)).0 e) ∙ at)
  | inr e ↦ rw (e, ==_self base) at
]

pub moved_out-context :
    (cpu base : ℕ) (regs : ℕ → ℕ × ℕ)
    → (regs base).0 ≡ cpu
    → (moved_out base regs (x_reg_at 26)).0 ≡ cpu
moved_out-context cpu base regs at = elim (Bool-cases (base == x_reg_at 26)) [
  | inl e ↦ rw e (ap (λ r. (regs r).0) (sym ((==_iff base (x_reg_at 26)).0 e)) ∙ at)
  | inr e ↦ rw e at
]

module _ (cpu pcptr : ℕ) (exec : (ℕ → ℕ × ℕ) → ℕ → ℕ × ℕ) where
  pub run-update_pc :
      (m : Machine)
      → (m.regs (x_reg_at 26)).0 ≡ cpu
      → run cpu pcptr exec update_pc m
        ≡ some (record m { regs = final cpu pcptr m.regs m.pc; pc = (m.pc + 4) % 2 ^ 64 })
  unfolding run
  run-update_pc m at = simp (at, ==_self) refl

  pub run-move_in :
      (base : ℕ) (m : Machine)
      → run cpu pcptr exec (move_context base base (x_reg_at 26)) m
        ≡ some (record m { regs = moved_in base m.regs })
  unfolding run
  run-move_in base m = elim (Bool-cases (base == x_reg_at 26)) [
    | inl e ↦ rw e refl
    | inr e ↦ rw e refl
  ]

  pub run-move_out :
      (base : ℕ) (m : Machine)
      → run cpu pcptr exec (move_context base (x_reg_at 26) base) m
        ≡ some (record m { regs = moved_out base m.regs })
  unfolding run
  run-move_out base m = elim (Bool-cases (base == x_reg_at 26)) [
    | inl e ↦ rw e refl
    | inr e ↦ rw e refl
  ]
