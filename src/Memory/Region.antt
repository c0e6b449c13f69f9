-- ===== src/Memory/Region.antt =====
-- The committed region: `valid`, `commit` and `mapMemory`.
use aether_vm.Prelude.{
  ℕ, ◌+◌, ◌^◌, ◌≤◌, ◌<◌, Bool, true, false, ◌&&◌, ltb, leb, ◌≡◌, refl, sym, ap, ◌∙◌, arith,
  Bool-cases, inl, inr, ◌≢◌, subst, pow-le-pow_right,
}
use aether_vm.Word.{add64, sub64}
use aether_vm.Word.Align.{align_up-least}
use aether_vm.Search.{align_up}
use aether_vm.Memory.{guest_size, GuestMemory, valid, guest_available, commit, map_memory}

-- A reservation below 2^64 whose committed part lies inside it
abbrev pub IsGuest : GuestMemory → Type 0
IsGuest m = (m.base_pointer + guest_size ≤ 2 ^ 64) × (m.offset < guest_size)

-- The range test takes exactly the ranges that end at least one byte before the committed end: a range
-- that fills the region to its end is rejected.
pub valid-range :
    (m : GuestMemory) (vmaddr size : ℕ)
    → IsGuest m
    → vmaddr + size < 2 ^ 64
    → valid m vmaddr size
      ≡ (leb m.base_pointer vmaddr && ltb (vmaddr + size) (m.base_pointer + m.offset))
unfolding valid add64
valid-range m vmaddr size (h, k) b = ground arith

-- A commit, granted or not, keeps the committed part inside the reservation.
pub commit-IsGuest :
    (page_commit : ℕ → ℕ → Bool) (m : GuestMemory) (vmaddr size : ℕ)
    → IsGuest m
    → IsGuest (commit page_commit m vmaddr size).0
unfolding commit
commit-IsGuest page_commit m vmaddr size h =
    elim (Bool-cases (leb guest_size (add64 m.offset size))) [
      | inl e ↦ rw e h
      | inr e ↦ elim (Bool-cases (leb guest_size (add64 (sub64 vmaddr m.base_pointer) size))) [
        | inl f ↦ rw (e, f) h
        | inr f ↦ rw (e, f) (h.0, ground (arith, e))
      ]
    ]

add64-plain : (a b : ℕ) → a + b < 2 ^ 64 → add64 a b ≡ a + b
unfolding add64
add64-plain a b h = omega arith

-- What a commit that is granted has done
commit-granted :
    (page_commit : ℕ → ℕ → Bool) (m m' : GuestMemory) (vmaddr size : ℕ)
    → commit page_commit m vmaddr size ≡ (m', true)
    → (m'.base_pointer ≡ m.base_pointer) × (m'.offset ≡ add64 m.offset size)
unfolding commit
commit-granted page_commit m m' vmaddr size e =
    elim (Bool-cases (leb guest_size (add64 m.offset size))) [
      | inl f ↦ absurd (ground (arith, e, f))
      | inr f ↦ elim (Bool-cases (leb guest_size (add64 (sub64 vmaddr m.base_pointer) size))) [
        | inl g ↦ absurd (ground (arith, e, f, g))
        | inr g ↦
            let same : record m { offset = add64 m.offset size } ≡ m' = ground (arith, e, f, g) in
            (ap (λ x. x.base_pointer) (sym same), ap (λ x. x.offset) (sym same))
      ]
    ]

available-plain : (m : GuestMemory) → IsGuest m → guest_available m ≡ m.base_pointer + m.offset
unfolding guest_available add64
available-plain m h = omega (arith, h.0, h.1)

-- A map that succeeds gives the committed end as its address and moves that end past the size asked for,
-- so the regions of successive maps do not overlap. The page size is a power of two, and the size leaves
-- room for the alignment below 2^64.
pub map_memory-fresh :
    (page_commit : ℕ → ℕ → Bool) (k : ℕ) (m m' : GuestMemory) (size vmaddr : ℕ)
    → IsGuest m
    → k ≤ 30
    → size < 2 ^ 63
    → map_memory page_commit (2 ^ k) m size ≡ (m', vmaddr)
    → vmaddr ≢ 0
    → (vmaddr ≡ guest_available m) × (vmaddr + size ≤ guest_available m') × IsGuest m'
unfolding map_memory
map_memory-fresh page_commit k m m' size vmaddr h p b e d =
    granted (commit page_commit m (guest_available m) aligned) refl
  where
    aligned : ℕ
    aligned = align_up size (2 ^ k)

    page : 2 ^ k ≤ 2 ^ 30
    page = pow-le-pow_right {n = 2} (omega arith) p

    fits : (size ≤ aligned) × (aligned < size + 2 ^ 30)
    fits =
        let (q, _, above, below) =
          align_up-least size k (omega (arith, p)) (omega (arith, b, page)) in
        (above, omega (arith, below, page))

    granted :
        (r : GuestMemory × Bool)
        → commit page_commit m (guest_available m) aligned ≡ r
        → (vmaddr ≡ guest_available m) × (vmaddr + size ≤ guest_available m') × IsGuest m'
    granted (m1, false) f = absurd (d (sym (ap (λ x. x.1) (sym mapped ∙ e))))
      where
        mapped : map_memory page_commit (2 ^ k) m size ≡ (m1, 0)
        mapped = rw (map_memory, f) refl
    granted (m1, true) f =
        let same : m1 ≡ m' = ap (λ x. x.0) (sym mapped ∙ e) in
        let at_end : guest_available m ≡ vmaddr = ap (λ x. x.1) (sym mapped ∙ e) in
        let (base, off) = commit-granted page_commit m m1 (guest_available m) aligned f in
        let guest =
          subst IsGuest (ap (λ x. x.0) f ∙ same)
            (commit-IsGuest page_commit m (guest_available m) aligned h) in
        (
          sym at_end,
          grown (sym at_end) (ap (λ x. x.base_pointer) (sym same) ∙ base)
              (ap (λ x. x.offset) (sym same) ∙ off) guest,
          guest,
        )
      where
        mapped : map_memory page_commit (2 ^ k) m size ≡ (m1, guest_available m)
        mapped = rw (map_memory, f) refl

        grown :
            vmaddr ≡ guest_available m
            → m'.base_pointer ≡ m.base_pointer
            → m'.offset ≡ add64 m.offset aligned
            → IsGuest m'
            → vmaddr + size ≤ guest_available m'
        grown v base off guest = omega (
          arith,
          v,
          base,
          off,
          available-plain m h,
          available-plain m' guest,
          add64-plain m.offset aligned (omega (arith, h.1, fits.1, b)),
          fits.0,
        )
