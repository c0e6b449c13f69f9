-- ===== src/Renaming/Fresh.antt =====
-- `normalize_opcode` of src/UtilsAArch64.cpp: the maps of registers that it makes.
use aether_vm.Prelude.{
  contains, ℕ, zero, suc, ◌+◌, ◌≤◌, ◌<◌, true, false, some, List, [], ◌∷◌, length, leb, ◌==◌,
  if◌then◌else◌, ◌≡◌, ◌⊎◌, refl, ap, arith, Bool-cases, inl, inr,
}
use aether_vm.Renaming.{next_free, assign, lookup}

-- The used registers from a number on: a bound of the rounds of the search
abbrev pub count_from : List ℕ → ℕ → ℕ
count_from [] k = 0
count_from (x ∷ l) k = if leb k x then suc (count_from l k) else count_from l k

pub count_from-le : (l : List ℕ) (k : ℕ) → count_from l k ≤ length l
count_from-le [] k = omega arith
count_from-le (x ∷ l) k = ground (arith, count_from-le l k)

count_from-suc : (l : List ℕ) (k : ℕ) → count_from l (k + 1) ≤ count_from l k
count_from-suc [] k = omega arith
count_from-suc (x ∷ l) k = ground (arith, count_from-suc l k)

count_from-used :
    (l : List ℕ) (k : ℕ) → contains l k ≡ true → count_from l (k + 1) + 1 ≤ count_from l k
count_from-used [] k h = cc
count_from-used (x ∷ l) k h = elim (Bool-cases (x == k)) [
  | inl e ↦ ground (arith, e, count_from-suc l k)
  | inr e ↦ ground (arith, e, h, count_from-used l k (ground (arith, e, h)))
]

pub next_free-total :
    (fuel : ℕ) (used : List ℕ) (first ireg : ℕ)
    → count_from used (first + ireg) < fuel
    → (free : ℕ) × (next_free fuel used first ireg ≡ some free)
      × (ireg ≤ free)
      × (contains used (first + free) ≡ false)
      × (free + count_from used (first + free) ≤ ireg + count_from used (first + ireg))
unfolding next_free
next_free-total zero used first ireg h = absurd (omega arith)
next_free-total (suc fuel) used first ireg h = elim (Bool-cases (contains used (first + ireg))) [
  | inl e ↦
      let same : first + (ireg + 1) ≡ first + ireg + 1 = omega arith in
      let fewer : count_from used (first + (ireg + 1)) + 1 ≤ count_from used (first + ireg) =
        rw same (count_from-used used (first + ireg) e) in
      let (free, found, from, unused, bound) =
        next_free-total fuel used first (ireg + 1) (omega arith) in
      (free, rw (e, next_free) found, omega arith, unused, omega arith)
  | inr e ↦ (ireg, rw (e, next_free) refl, omega arith, e, omega arith)
]

-- Targets that ascend from `lo` on, below `hi`, and are no used registers
abbrev pub IsFresh : List ℕ → ℕ → ℕ → ℕ → List (ℕ × ℕ) → Type 0
IsFresh used first lo hi [] = lo ≤ hi
IsFresh used first lo hi (m ∷ maps) =
    (lo ≤ m.1) × (contains used (first + m.1) ≡ false) × IsFresh used first (m.1 + 1) hi maps

abbrev pub keys : List (ℕ × ℕ) → List ℕ
keys [] = []
keys (m ∷ maps) = m.0 ∷ keys maps

pub assign-IsFresh :
    (fuel : ℕ) (used : List ℕ) (first lo hi : ℕ) (regs : List ℕ)
    → length used < fuel
    → lo + count_from used (first + lo) + length regs ≤ hi
    → (maps : List (ℕ × ℕ)) × (assign fuel used first lo regs ≡ some maps)
      × (keys maps ≡ regs)
      × IsFresh used first lo hi maps
unfolding assign
assign-IsFresh fuel used first lo hi [] f h = ([], refl, refl, omega arith)
assign-IsFresh fuel used first lo hi (i ∷ regs) f h =
    let (free, found, from, unused, bound) =
      next_free-total fuel used first lo (omega (arith, count_from-le used (first + lo))) in
    let same : first + (free + 1) ≡ first + free + 1 = omega arith in
    let fewer : count_from used (first + (free + 1)) ≤ count_from used (first + free) =
      rw same (count_from-suc used (first + free)) in
    let (maps, made, of_regs, fresh) =
      assign-IsFresh fuel used first (free + 1) hi regs f (omega arith) in
    ((i, free) ∷ maps, rw (found, made) refl, ap (λ l. i ∷ l) of_regs, (from, unused, fresh))

IsFresh-range :
    (used : List ℕ) (first lo hi : ℕ) (maps : List (ℕ × ℕ))
    → IsFresh used first lo hi maps
    → lo ≤ hi
IsFresh-range used first lo hi [] h = h
IsFresh-range used first lo hi (m ∷ maps) (from, unused, h) =
    omega (arith, from, IsFresh-range used first (m.1 + 1) hi maps h)

lookup-cases :
    (m : ℕ × ℕ) (maps : List (ℕ × ℕ)) (i : ℕ) {v : ℕ}
    → lookup (m ∷ maps) i ≡ some v
    → ((m.0 ≡ i) × (m.1 ≡ v)) ⊎ (lookup maps i ≡ some v)
unfolding lookup
lookup-cases m maps i e = elim (Bool-cases (m.0 == i)) [
  | inl f ↦ inl (ground (arith, f), ground (arith, f, e))
  | inr f ↦ inr (ground (arith, f, e))
]

lookup-fresh :
    (used : List ℕ) (first lo hi : ℕ) (maps : List (ℕ × ℕ)) (i : ℕ) {v : ℕ}
    → IsFresh used first lo hi maps
    → lookup maps i ≡ some v
    → (lo ≤ v) × (v < hi) × (contains used (first + v) ≡ false)
unfolding lookup
lookup-fresh used first lo hi [] i h e = cc
lookup-fresh used first lo hi (m ∷ maps) i {v} (from, unused, h) e =
    elim (lookup-cases m maps i e) [
      | inl (k, same) ↦
          let inside = IsFresh-range used first (m.1 + 1) hi maps h in
          (omega arith, omega arith, rw (← same) unused)
      | inr later ↦
          let (above, below, free) = lookup-fresh used first (m.1 + 1) hi maps i h later in
          (omega arith, below, free)
    ]

lookup-injective :
    (used : List ℕ) (first lo hi : ℕ) (maps : List (ℕ × ℕ)) (i j : ℕ) {v : ℕ}
    → IsFresh used first lo hi maps
    → lookup maps i ≡ some v
    → lookup maps j ≡ some v
    → i ≡ j
unfolding lookup
lookup-injective used first lo hi [] i j h e f = cc
lookup-injective used first lo hi (m ∷ maps) i j (from, unused, h) e f =
    elim (lookup-cases m maps i e) [
      | inl (k, same) ↦ elim (lookup-cases m maps j f) [
        | inl (k', same') ↦ omega arith
        | inr later ↦
            absurd (omega (arith, (lookup-fresh used first (m.1 + 1) hi maps j h later).0))
      ]
      | inr later ↦ elim (lookup-cases m maps j f) [
        | inl (k', same') ↦
            absurd (omega (arith, (lookup-fresh used first (m.1 + 1) hi maps i h later).0))
        | inr later' ↦ lookup-injective used first (m.1 + 1) hi maps i j h later later'
      ]
    ]

pub lookup-key :
    (maps : List (ℕ × ℕ)) (i : ℕ)
    → contains (keys maps) i ≡ true
    → (v : ℕ) × (lookup maps i ≡ some v)
unfolding lookup
lookup-key [] i h = cc
lookup-key (m ∷ maps) i h = elim (Bool-cases (m.0 == i)) [
  | inl e ↦ (m.1, rw e refl)
  | inr e ↦ let (v, found) = lookup-key maps i (ground (arith, e, h)) in (v, rw e found)
]

-- A map to registers that are not used, below a bound, no two to the same
pub record IsRenaming (used : List ℕ) (first bound : ℕ) (maps : List (ℕ × ℕ)) : Type 0 where
  pub unused : (i v : ℕ) → lookup maps i ≡ some v → contains used (first + v) ≡ false
  pub below : (i v : ℕ) → lookup maps i ≡ some v → v < bound
  pub distinct : (i j v : ℕ) → lookup maps i ≡ some v → lookup maps j ≡ some v → i ≡ j

pub fresh-IsRenaming :
    (used : List ℕ) (first hi : ℕ) (maps : List (ℕ × ℕ))
    → IsFresh used first 0 hi maps
    → IsRenaming used first hi maps
fresh-IsRenaming used first hi maps h = record {
  unused = λ i v e. (lookup-fresh used first 0 hi maps i h e).2;
  below = λ i v e. (lookup-fresh used first 0 hi maps i h e).1;
  distinct = λ i j v e f. lookup-injective used first 0 hi maps i j h e f;
}
