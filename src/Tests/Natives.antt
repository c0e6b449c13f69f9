-- ===== src/Tests/Natives.antt =====
-- A native handler
use aether_vm.Prelude.{
  ℕ, ◌+◌, ◌%◌, ◌^◌, true, false, ◌&&◌, some, List, [], ◌∷◌, contains, ◌==◌, if◌then◌else◌, ◌≡◌,
  refl, arith, Bool-cases, inl, inr,
}
use aether_vm.Native.{x_reg_at, is_x, Asm, native_handler, Machine, run}
use aether_vm.Native.Guest.{is_guest}
use aether_vm.Native.Context.{IsLocal}
use aether_vm.Native.Switch.{IsSwitched, native_handler-IsSwitched}

-- add x0, x0, x26
abbrev added : (ℕ → ℕ × ℕ) → ℕ → ℕ × ℕ
added regs s =
    if x_reg_at 0 == s
    then (((regs (x_reg_at 0)).0 + (regs (x_reg_at 26)).0) % 2 ^ 64, 0)
    else regs s

abbrev used : List ℕ
used = x_reg_at 0 ∷ x_reg_at 26 ∷ []

added-keeps :
    (regs : ℕ → ℕ × ℕ) (s : ℕ) → (contains used s && is_guest s) ≡ false → added regs s ≡ regs s
unfolding is_x
added-keeps regs s h = elim (Bool-cases (x_reg_at 0 == s)) [
  | inl e ↦ absurd (ground (arith, e, h))
  | inr e ↦ rw e refl
]

added-reads :
    (regs regs' : ℕ → ℕ × ℕ)
    → ((s : ℕ) → (contains used s && is_guest s) ≡ true → regs s ≡ regs' s)
    → (s : ℕ) → (contains used s && is_guest s) ≡ true
    → added regs s ≡ added regs' s
unfolding is_x
added-reads regs regs' h s g = elim (Bool-cases (x_reg_at 0 == s)) [
  | inl e ↦ rw (e, h (x_reg_at 0) refl, h (x_reg_at 26) refl) refl
  | inr e ↦ rw (e, h s g) refl
]

added-IsLocal : IsLocal used added
added-IsLocal = record { keeps = added-keeps; reads = added-reads }

-- The state is at 65536, and X1 and the guest's registers hold some numbers.
abbrev before : Machine
before = record {
  regs = λ r. if r == x_reg_at 26 then (65536, 0) else (r, 0);
  cells = λ a. (a, 1);
  stack = 5 ∷ [];
  pc = 4096;
}

native_handler-IsSwitched_example :
    (code : List Asm) × (m' : Machine) × (native_handler 1024 16 used ≡ some code)
    × (run 65536 65000 added code before ≡ some m')
    × IsSwitched 1024 16 65536 65000 added used before m'
native_handler-IsSwitched_example =
    native_handler-IsSwitched 1024 16 65536 65000 added used before (inr (omega arith))
      (omega arith) added-IsLocal refl
