-- ===== src/Cpu/Segments.antt =====
-- The reads and writes of registers on x86-64, where the segment selectors overlap: src/CPUState.cpp.
use aether_vm.Prelude.{
  ℕ, suc, ◌/◌, ◌%◌, ◌^◌, ◌<◌, Bool, true, false, ◌&&◌, Option, none, some, ◌==◌, if◌then◌else◌, ◌≡◌,
  refl, sym, ap, ◌∙◌, ◌≢◌, arith, Bool-cases, inl, inr,
}
use aether_vm.Cpu.{
  Slot, same_slot, slot_x86, CpuState, get_register, is_segment, load_slot, store_slot, write,
  set_register_x86, read_register_x86, rflags_reg,
}
use aether_vm.Cpu.Slots.{register_x86, owned_x86, same_slot-eq, same_slot_self, owner-IsInjective}

-- The selector in the value that is read of a segment register
abbrev pub selector : Option ℕ → Option ℕ
selector none = none
selector (some value) = some (value % 2 ^ 16)

abbrev is_segment_at : Option Slot → Bool
is_segment_at none = false
is_segment_at (some slot) = is_segment slot

slot-flags : (reg : ℕ) → (reg == rflags_reg) ≡ true → is_segment_at (slot_x86 reg) ≡ false
unfolding slot_x86
slot-flags reg t = ground (arith, t)

flags-plain :
    (reg : ℕ) {slot : Slot}
    → slot_x86 reg ≡ some slot
    → (reg == rflags_reg) ≡ true
    → is_segment slot ≡ false
flags-plain reg {slot} e t = sym (ap is_segment_at e) ∙ slot-flags reg t

apart :
    (r q : ℕ) (a b : Slot)
    → slot_x86 r ≡ some a
    → slot_x86 q ≡ some b
    → r ≢ q
    → same_slot b a ≡ false
apart r q a b e f d = elim (Bool-cases (same_slot b a)) [
  | inr t ↦ t
  | inl t ↦ absurd (
      d (
        owner-IsInjective register_x86 slot_x86 owned_x86 r q b
          (e ∙ ap some (sym (same_slot-eq b a t))) f))
]

-- A store leaves no trace of an earlier one at the same place.
store-write :
    (words : Slot → ℕ) (slot : Slot) (old value : ℕ) (q : Slot)
    → store_slot (write words slot old) slot value q ≡ store_slot words slot value q
store-write words slot old value q = ground arith

store-other :
    (words : Slot → ℕ) (slot place : Slot) (value : ℕ)
    → same_slot place slot ≡ false
    → (is_segment slot && is_segment place) ≡ false
    → store_slot words slot value place ≡ words place
store-other words slot place value d h = ground (arith, d, h)

load-other :
    (words : Slot → ℕ) (slot place : Slot) (value : ℕ)
    → same_slot place slot ≡ false
    → (is_segment slot && is_segment place) ≡ false
    → load_slot (store_slot words slot value) place ≡ load_slot words place
load-other words slot place value d h = ground (arith, d, h)

load-store :
    (words : Slot → ℕ) (slot : Slot) (value : ℕ)
    → value < 2 ^ 64
    → load_slot (store_slot words slot value) slot ≡ value
load-store words slot value small = ground (arith, small, same_slot_self slot)

selector-store :
    (words : Slot → ℕ) (slot place : Slot) (value : ℕ)
    → same_slot place slot ≡ false
    → is_segment slot ≡ true
    → is_segment place ≡ true
    → load_slot (store_slot words slot value) place % 2 ^ 16
      ≡ (if place.1 == suc slot.1 then value / 2 ^ 32 % 2 ^ 16 else load_slot words place % 2 ^ 16)
selector-store words slot place value d h k = ground (arith, d, h, k)

plain-word :
    (words : Slot → ℕ) (slot : Slot) (value : ℕ)
    → is_segment slot ≡ false
    → store_slot words slot value slot ≡ value
plain-word words slot value h = ground (arith, h, same_slot_self slot)

module _ {F : Type 0} (join : F → ℕ → ℕ) (split : ℕ → F) where
  flagged : CpuState F → Slot → Slot → ℕ
  flagged s slot = write s.words slot (join s.flags (s.words slot))

  set-plain :
      (s : CpuState F) (reg value : ℕ) {slot : Slot}
      → slot_x86 reg ≡ some slot
      → (reg == rflags_reg) ≡ false
      → (set_register_x86 join split s reg value).0
        ≡ record s { words = store_slot s.words slot value }
  unfolding set_register_x86 get_register
  set-plain s reg value e t = rw (set_register_x86, get_register, e, t, t) refl

  set-flagged :
      (s : CpuState F) (reg value : ℕ) {slot : Slot}
      → slot_x86 reg ≡ some slot
      → (reg == rflags_reg) ≡ true
      → (set_register_x86 join split s reg value).0
        ≡ record s { words = store_slot (flagged s slot) slot value; flags = split value }
  unfolding set_register_x86 get_register flagged
  set-flagged s reg value e t = rw (set_register_x86, get_register, e, t, t) refl

  read-plain :
      (s : CpuState F) (reg : ℕ) {slot : Slot}
      → slot_x86 reg ≡ some slot
      → (reg == rflags_reg) ≡ false
      → read_register_x86 join split s reg ≡ some (load_slot s.words slot)
  unfolding read_register_x86 get_register
  read-plain s reg e t = rw (read_register_x86, get_register, e, t) refl

  read-flagged :
      (s : CpuState F) (reg : ℕ) {slot : Slot}
      → slot_x86 reg ≡ some slot
      → (reg == rflags_reg) ≡ true
      → read_register_x86 join split s reg ≡ some (join s.flags (s.words slot))
  unfolding read_register_x86 get_register
  read-flagged s reg {slot} e t =
      rw (read_register_x86, get_register, e, t, flags-plain reg e t, same_slot_self slot) refl

  read-set :
      (s : CpuState F) (reg value : ℕ) {slot : Slot}
      → slot_x86 reg ≡ some slot
      → value < 2 ^ 64
      → join (split value) value ≡ value
      → read_register_x86 join split (set_register_x86 join split s reg value).0 reg ≡ some value
  read-set s reg value {slot} e small j = elim (Bool-cases (reg == rflags_reg)) [
    | inl t ↦
        ap (λ x. read_register_x86 join split x reg) (set-flagged s reg value e t)
        ∙ read-flagged
            (record s { words = store_slot (flagged s slot) slot value; flags = split value }) reg e
            t
        ∙ ap (λ w. some (join (split value) w))
            (plain-word (flagged s slot) slot value (flags-plain reg e t))
        ∙ ap some j
    | inr t ↦
        ap (λ x. read_register_x86 join split x reg) (set-plain s reg value e t)
        ∙ read-plain (record s { words = store_slot s.words slot value }) reg e t
        ∙ ap some (load-store s.words slot value small)
  ]

  -- A register that is not the flags' reads the same where a store left its place as it was.
  read-set_other :
      (s : CpuState F) (reg value other : ℕ) {slot place : Slot}
      → slot_x86 reg ≡ some slot
      → slot_x86 other ≡ some place
      → reg ≢ other
      → (is_segment slot && is_segment place) ≡ false
      → read_register_x86 join split (set_register_x86 join split s reg value).0 other
        ≡ read_register_x86 join split s other
  unfolding flagged
  read-set_other s reg value other {slot} {place} e f d h =
      let away = apart reg other slot place e f d in
      elim (Bool-cases (reg == rflags_reg)) [
        | inl t ↦
            let t' : (other == rflags_reg) ≡ false = ground (arith, t, d) in
            let plain = flags-plain reg e t in
            ap (λ x. read_register_x86 join split x other) (set-flagged s reg value e t)
            ∙ read-plain
                (record s { words = store_slot (flagged s slot) slot value; flags = split value })
                other f t'
            ∙ ap some
                (load-other (flagged s slot) slot place value away h ∙ ground (arith, away, plain))
            ∙ sym (read-plain s other f t')
        | inr t ↦
            ap (λ x. read_register_x86 join split x other) (set-plain s reg value e t)
            ∙ (elim (Bool-cases (other == rflags_reg)) [
              | inl u ↦
                  read-flagged (record s { words = store_slot s.words slot value }) other f u
                  ∙ ap (λ w. some (join s.flags w)) (store-other s.words slot place value away h)
                  ∙ sym (read-flagged s other f u)
              | inr u ↦
                  read-plain (record s { words = store_slot s.words slot value }) other f u
                  ∙ ap some (load-other s.words slot place value away h)
                  ∙ sym (read-plain s other f u)
            ])
      ]

  read-set_segment :
      (s : CpuState F) (reg value other : ℕ) {slot place : Slot}
      → slot_x86 reg ≡ some slot
      → slot_x86 other ≡ some place
      → reg ≢ other
      → is_segment slot ≡ true
      → is_segment place ≡ true
      → selector (read_register_x86 join split (set_register_x86 join split s reg value).0 other)
        ≡ (if place.1 == suc slot.1
            then some (value / 2 ^ 32 % 2 ^ 16)
            else selector (read_register_x86 join split s other))
  read-set_segment s reg value other {slot} {place} e f d h k =
      let t = not_flags reg e h in
      let u = not_flags other f k in
      ap (λ x. selector (read_register_x86 join split x other)) (set-plain s reg value e t)
      ∙ ap selector (read-plain (record s { words = store_slot s.words slot value }) other f u)
      ∙ ap some (selector-store s.words slot place value (apart reg other slot place e f d) h k)
      ∙ into (place.1 == suc slot.1) (load_slot s.words place) (read-plain s other f u)
    where
      not_flags :
          (r : ℕ) {a : Slot} → slot_x86 r ≡ some a → is_segment a ≡ true → (r == rflags_reg) ≡ false
      not_flags r e h = elim (Bool-cases (r == rflags_reg)) [
        | inl t ↦ (let no = flags-plain r e t in cc)
        | inr t ↦ t
      ]

      into :
          (b : Bool) (w : ℕ)
          → read_register_x86 join split s other ≡ some w
          → some (if b then value / 2 ^ 32 % 2 ^ 16 else w % 2 ^ 16) ≡ (
              if b
              then some (value / 2 ^ 32 % 2 ^ 16)
              else selector (read_register_x86 join split s other))
      into true w r = refl
      into false w r = sym (ap selector r)

-- On x86-64 a supported register that is set to a value of 64 bits reads back the value, and every other
-- supported register reads as before, except that the segment selectors share the 8 bytes of each other's
-- values: setting one replaces the selector behind it by the bits of the value from 32 on, and no other
-- selector changes. The flags of the value are those that `split` reads of it, and writing them back makes
-- no change.
pub read_register_x86-set_register_x86 :
    {F : Type 0} (join : F → ℕ → ℕ) (split : ℕ → F) (s : CpuState F) (reg value : ℕ) {slot : Slot}
    → slot_x86 reg ≡ some slot
    → value < 2 ^ 64
    → join (split value) value ≡ value
    → (read_register_x86 join split (set_register_x86 join split s reg value).0 reg ≡ some value)
      × ((other : ℕ) (place : Slot)
          → slot_x86 other ≡ some place
          → reg ≢ other
          → (is_segment slot && is_segment place) ≡ false
          → read_register_x86 join split (set_register_x86 join split s reg value).0 other
            ≡ read_register_x86 join split s other)
      × ((other : ℕ) (place : Slot)
          → slot_x86 other ≡ some place
          → reg ≢ other
          → is_segment slot ≡ true
          → is_segment place ≡ true
          → selector
              (read_register_x86 join split (set_register_x86 join split s reg value).0 other)
            ≡ (if place.1 == suc slot.1
                then some (value / 2 ^ 32 % 2 ^ 16)
                else selector (read_register_x86 join split s other)))
read_register_x86-set_register_x86 join split s reg value e small j = (
  read-set join split s reg value e small j,
  λ other place f d h. read-set_other join split s reg value other e f d h,
  λ other place f d h k. read-set_segment join split s reg value other e f d h k,
)
