-- ===== src/Cpu/File.antt =====
-- The reads and writes of registers on AArch64.
use aether_vm.Prelude.{
  ℕ, Bool, true, false, Option, some, ◌==◌, if◌then◌else◌, ◌≡◌, refl, sym, ap, ◌∙◌, ◌≢◌, ◌⊎◌, arith,
  Bool-cases, inl, inr,
}
use aether_vm.Cpu.{
  Slot, same_slot, slot_aarch64, CpuState, get_register, set_register, read_register, nzcv_reg,
  q0_reg,
}
use aether_vm.Cpu.Slots.{
  register_aarch64, owned_aarch64, same_slot-eq, same_slot_self, IsInjective, owner-IsInjective,
}

module _ {F : Type 0} (join : F → ℕ → ℕ) (split : ℕ → F) (slot_of : ℕ → Option Slot)
    (flags_reg first_vector : ℕ) (injective : IsInjective slot_of) where
  apart :
      (r q : ℕ) (a b : Slot)
      → slot_of r ≡ some a
      → slot_of q ≡ some b
      → r ≢ q
      → same_slot b a ≡ false
  apart r q a b e f d = elim (Bool-cases (same_slot b a)) [
    | inr t ↦ t
    | inl t ↦ absurd (d (injective r q b (e ∙ ap some (sym (same_slot-eq b a t))) f))
  ]

  -- Whether the register is the one that holds the flags or not
  set-words :
      (s : CpuState F) (reg value : ℕ) {slot : Slot}
      → slot_of reg ≡ some slot
      → (q : Slot)
      → (set_register join split slot_of flags_reg first_vector s reg value).0.words q
        ≡ (if same_slot q slot then value else s.words q)
  unfolding set_register get_register
  set-words s reg value {slot} e q = elim (Bool-cases (reg == flags_reg)) [
    | inl t ↦ elim (Bool-cases (same_slot q slot)) [
      | inl u ↦ rw (set_register, get_register, e, t, t, u) refl
      | inr u ↦ rw (set_register, get_register, e, t, t, u) refl
    ]
    | inr t ↦ rw (set_register, get_register, e, t, t) refl
  ]

  set-flags :
      (s : CpuState F) (reg value : ℕ) {slot : Slot}
      → slot_of reg ≡ some slot
      → (set_register join split slot_of flags_reg first_vector s reg value).0.flags
        ≡ (if reg == flags_reg then split value else s.flags)
  unfolding set_register get_register
  set-flags s reg value {slot} e = elim (Bool-cases (reg == flags_reg)) [
    | inl t ↦ rw (set_register, get_register, e, t, t) refl
    | inr t ↦ rw (set_register, get_register, e, t, t) refl
  ]

  read-slot :
      (s : CpuState F) (reg : ℕ) {slot : Slot}
      → slot_of reg ≡ some slot
      → read_register join split slot_of flags_reg first_vector s reg
        ≡ some (if reg == flags_reg then join s.flags (s.words slot) else s.words slot)
  unfolding read_register get_register
  read-slot s reg {slot} e = elim (Bool-cases (reg == flags_reg)) [
    | inl t ↦ rw (read_register, get_register, e, t, same_slot_self slot) refl
    | inr t ↦ rw (read_register, get_register, e, t) refl
  ]

  -- A register that is set reads back the value, the flags register where the flags of the value make up
  -- the value again.
  read-set :
      (s : CpuState F) (reg value : ℕ) {slot : Slot}
      → slot_of reg ≡ some slot
      → join (split value) value ≡ value
      → read_register join split slot_of flags_reg first_vector
          (set_register join split slot_of flags_reg first_vector s reg value).0
          reg
        ≡ some value
  read-set s reg value {slot} e j =
      let s' = (set_register join split slot_of flags_reg first_vector s reg value).0 in
      let word : s'.words slot ≡ value =
        set-words s reg value e slot
        ∙ ap (λ b. if b then value else s.words slot) (same_slot_self slot) in
      read-slot s' reg e
      ∙ ap some
          (value_of (reg == flags_reg) s'.flags (s'.words slot) word (set-flags s reg value e))
    where
      value_of :
          (b : Bool) (f : F) (word : ℕ)
          → word ≡ value
          → f ≡ (if b then split value else s.flags)
          → (if b then join f word else word) ≡ value
      value_of true f word w h = ap (λ x. join x word) h ∙ ap (join (split value)) w ∙ j
      value_of false f word w h = w

  -- Every other register reads as before.
  read-set_other :
      (s : CpuState F) (reg value other : ℕ) {slot place : Slot}
      → slot_of reg ≡ some slot
      → slot_of other ≡ some place
      → reg ≢ other
      → read_register join split slot_of flags_reg first_vector
          (set_register join split slot_of flags_reg first_vector s reg value).0
          other
        ≡ read_register join split slot_of flags_reg first_vector s other
  read-set_other s reg value other {slot} {place} e f d =
      let s' = (set_register join split slot_of flags_reg first_vector s reg value).0 in
      let word : s'.words place ≡ s.words place =
        set-words s reg value e place
        ∙ ap (λ b. if b then value else s.words place) (apart reg other slot place e f d) in
      read-slot s' other f
      ∙ ap some (value_of (Bool-cases (other == flags_reg)) word)
      ∙ sym (read-slot s other f)
    where
      not_flags : (other == flags_reg) ≡ true → (reg == flags_reg) ≡ false
      not_flags t = ground (arith, d, t)

      flags_kept :
          (other == flags_reg) ≡ true
          → (if reg == flags_reg then split value else s.flags) ≡ s.flags
      flags_kept t = ap (λ b. if b then split value else s.flags) (not_flags t)

      value_of :
          ((other == flags_reg) ≡ true) ⊎ ((other == flags_reg) ≡ false)
          → (set_register join split slot_of flags_reg first_vector s reg value).0.words place
            ≡ s.words place
          → (if other == flags_reg
              then join
                  (set_register join split slot_of flags_reg first_vector s reg value).0.flags
                  ((set_register join split slot_of flags_reg first_vector s reg value).0.words
                    place)
              else (set_register join split slot_of flags_reg first_vector s reg value).0.words
                  place)
            ≡ (if other == flags_reg then join s.flags (s.words place) else s.words place)
      value_of (inl t) word = rw t (
          ap
            (λ w.
              join (set_register join split slot_of flags_reg first_vector s reg value).0.flags w)
            word
          ∙ ap (λ x. join x (s.words place)) (set-flags s reg value e ∙ flags_kept t))
      value_of (inr t) word = rw t word

-- The registers of AArch64 are independent cells: a supported register that is set reads back the value,
-- and every other supported register reads as before. The flags of the value are those that `split` reads
-- of it, and writing them back makes no change.
pub set_register-aarch64 :
    {F : Type 0} (join : F → ℕ → ℕ) (split : ℕ → F) (s : CpuState F) (reg value : ℕ) {slot : Slot}
    → slot_aarch64 reg ≡ some slot
    → join (split value) value ≡ value
    → (read_register join split slot_aarch64 nzcv_reg q0_reg
          (set_register join split slot_aarch64 nzcv_reg q0_reg s reg value).0
          reg
        ≡ some value)
      × ((other : ℕ) (place : Slot)
          → slot_aarch64 other ≡ some place
          → reg ≢ other
          → read_register join split slot_aarch64 nzcv_reg q0_reg
              (set_register join split slot_aarch64 nzcv_reg q0_reg s reg value).0
              other
            ≡ read_register join split slot_aarch64 nzcv_reg q0_reg s other)
set_register-aarch64 join split s reg value e j =
    let injective = owner-IsInjective register_aarch64 slot_aarch64 owned_aarch64 in
    (
      read-set join split slot_aarch64 nzcv_reg q0_reg injective s reg value e j,
      λ other place f d.
          read-set_other join split slot_aarch64 nzcv_reg q0_reg injective s reg value other e f d,
    )
