-- ===== src/Cpu/Slots.antt =====
-- The slots of the registers.
use aether_vm.Prelude.{
  ℕ, ◌+◌, Bool, true, Option, none, some, ◌==◌, if◌then◌else◌, ◌≡◌, refl, sym, ap, ◌∙◌, arith,
  ==_iff, ==_self,
}
use aether_vm.Cpu.{
  Slot, Group, group_code, pc_field, zero_field, gpr_field, flags_field, vector_field, fpsr_field,
  fpcr_field, segment_field, st_field, mmx_field, same_slot, slot_aarch64, slot_x86,
}

-- The register that a slot belongs to
pub register_aarch64 : Slot → ℕ
register_aarch64 (pc_field, n) = 1
register_aarch64 (zero_field, n) = 0
register_aarch64 (gpr_field, n) = 2 + n
register_aarch64 (flags_field, n) = 34
register_aarch64 (vector_field, n) = 35 + n
register_aarch64 (fpsr_field, n) = 67
register_aarch64 (fpcr_field, n) = 68
register_aarch64 (segment_field, n) = 0
register_aarch64 (st_field, n) = 0
register_aarch64 (mmx_field, n) = 0

pub register_x86 : Slot → ℕ
register_x86 (pc_field, n) = 1
register_x86 (zero_field, n) = 0
register_x86 (gpr_field, n) = n
register_x86 (flags_field, n) = 48
register_x86 (vector_field, n) = 71 + n
register_x86 (fpsr_field, n) = 0
register_x86 (fpcr_field, n) = 0
register_x86 (segment_field, n) = 49 + n
register_x86 (st_field, n) = 55 + n
register_x86 (mmx_field, n) = 63 + n

abbrev pub is_owned : (Slot → ℕ) → Option Slot → ℕ → Bool
is_owned owner none reg = true
is_owned owner (some slot) reg = owner slot == reg

pub owned_aarch64 : (reg : ℕ) → is_owned register_aarch64 (slot_aarch64 reg) reg ≡ true
unfolding slot_aarch64 register_aarch64
owned_aarch64 reg = ground arith

pub owned_x86 : (reg : ℕ) → is_owned register_x86 (slot_x86 reg) reg ≡ true
unfolding slot_x86 register_x86
owned_x86 reg = ground arith

group_of : ℕ → Group
group_of n =
    if n == 0
    then pc_field
    else if n == 1
    then zero_field
    else if n == 2
    then gpr_field
    else if n == 3
    then flags_field
    else if n == 4
    then vector_field
    else if n == 5
    then fpsr_field
    else if n == 6
    then fpcr_field
    else if n == 7
    then segment_field
    else if n == 8
    then st_field
    else mmx_field

group_of-code : (g : Group) → group_of (group_code g) ≡ g
unfolding group_of
group_of-code pc_field = refl
group_of-code zero_field = refl
group_of-code gpr_field = refl
group_of-code flags_field = refl
group_of-code vector_field = refl
group_of-code fpsr_field = refl
group_of-code fpcr_field = refl
group_of-code segment_field = refl
group_of-code st_field = refl
group_of-code mmx_field = refl

group_code-injective : (g k : Group) → group_code g ≡ group_code k → g ≡ k
group_code-injective g k h = sym (group_of-code g) ∙ ap group_of h ∙ group_of-code k

pair_eq : (g k : Group) (m n : ℕ) → g ≡ k → m ≡ n → ◌≡◌ {A = Slot} (g, m) (k, n)
pair_eq g k m n h e = ap (λ x. (x, m)) h ∙ ap (λ x. (k, x)) e

pub same_slot-eq : (a b : Slot) → same_slot a b ≡ true → a ≡ b
same_slot-eq (g, m) (k, n) h =
    pair_eq g k m n (group_code-injective g k (ground (arith, h))) (ground (arith, h))

pub same_slot_self : (a : Slot) → same_slot a a ≡ true
same_slot_self a = ground (arith, ==_self (group_code a.0), ==_self a.1)

-- Two registers with the same slot are one register.
abbrev pub IsInjective : (ℕ → Option Slot) → Type 0
IsInjective slot_of =
    (r q : ℕ) (slot : Slot) → slot_of r ≡ some slot → slot_of q ≡ some slot → r ≡ q

pub owner-IsInjective :
    (owner : Slot → ℕ) (slot_of : ℕ → Option Slot)
    → ((reg : ℕ) → is_owned owner (slot_of reg) reg ≡ true)
    → IsInjective slot_of
owner-IsInjective owner slot_of h r q slot e f = sym (owned r e) ∙ owned q f
  where
    owned : (reg : ℕ) → slot_of reg ≡ some slot → owner slot ≡ reg
    owned reg e = (==_iff (owner slot) reg).0 (ap (λ o. is_owned owner o reg) (sym e) ∙ h reg)
