-- ===== src/Native/Guest.antt =====
-- The loads and the stores of the guest's registers in a native handler.
use aether_vm.Prelude.{
  ℕ, ◌+◌, ◌*◌, ◌≤◌, Bool, true, false, ◌&&◌, ◌||◌, some, List, [], ◌∷◌, contains, ◌==◌, ==_self,
  ==_iff, if◌then◌else◌, ◌≡◌, refl, ap, subst, sym, ◌∙◌, arith, Bool-cases, ◌⊎◌, inl, inr,
}
use aether_vm.Native.Run.{run-append}
use aether_vm.Native.{
  is_x, is_q, Asm, load_x, load_q, store_x, store_q, offset_reg, load_guest, store_guest, Machine,
  set, run,
}

-- The offsets of two guest registers are two cells.
abbrev pub IsLayout : ℕ → ℕ → Type 0
IsLayout gpr simd = (gpr + 16 * 32 ≤ simd) ⊎ (simd + 16 * 32 ≤ gpr)

abbrev pub is_guest : ℕ → Bool
is_guest r = is_x r || is_q r

-- Two writes of the same value in turn
pub either_write {ℓ} :
    {A : Type ℓ} (a c g : Bool) (v w : A)
    → (if c && g then v else if a && g then v else w) ≡ (if (a || c) && g then v else w)
either_write true true true v w = refl
either_write true true false v w = refl
either_write true false true v w = refl
either_write true false false v w = refl
either_write false true true v w = refl
either_write false true false v w = refl
either_write false false true v w = refl
either_write false false false v w = refl

module _ (gpr simd : ℕ) where
  abbrev pub cell_of : ℕ → ℕ
  cell_of r = offset_reg gpr simd r

  cell_of-injective :
      (r s : ℕ)
      → IsLayout gpr simd
      → is_guest r ≡ true
      → is_guest s ≡ true
      → (cell_of r == cell_of s) ≡ (r == s)
  unfolding is_x is_q
  cell_of-injective r s (inl apart) h k =
      ground (arith, apart, h, k, ==_iff (cell_of r) (cell_of s), ==_iff r s)
  cell_of-injective r s (inr apart) h k =
      ground (arith, apart, h, k, ==_iff (cell_of r) (cell_of s), ==_iff r s)

  -- The registers of the guest, as its state has them
  abbrev pub guest_value : (ℕ → ℕ × ℕ) → ℕ → ℕ × ℕ
  guest_value cells r = if is_x r then ((cells (cell_of r)).0, 0) else cells (cell_of r)

  abbrev pub loaded : (ℕ → ℕ × ℕ) → List ℕ → (ℕ → ℕ × ℕ) → ℕ → ℕ × ℕ
  loaded cells [] regs = regs
  loaded cells (r ∷ used) regs =
      loaded cells used (if is_guest r then set regs r (guest_value cells r) else regs)

  one-loaded :
      (cells regs : ℕ → ℕ × ℕ) (r s : ℕ)
      → (if is_guest r then set regs r (guest_value cells r) else regs) s
        ≡ (if (r == s) && is_guest s then guest_value cells s else regs s)
  one-loaded cells regs r s = elim (Bool-cases (r == s)) [
    | inl e ↦
        subst
          (λ t.
            (if is_guest r then set regs r (guest_value cells r) else regs) t
            ≡ (if (r == t) && is_guest t then guest_value cells t else regs t))
          ((==_iff r s).0 e) (self (Bool-cases (is_guest r)))
    | inr e ↦ elim (Bool-cases (is_guest r)) [ inl g ↦ rw (g, e) refl | inr g ↦ rw (g, e) refl ]
  ]
    where
      self :
          (is_guest r ≡ true) ⊎ (is_guest r ≡ false)
          → (if is_guest r then set regs r (guest_value cells r) else regs) r
            ≡ (if (r == r) && is_guest r then guest_value cells r else regs r)
      self (inl g) = rw (g, ==_self r) refl
      self (inr g) = rw (g, ==_self r) refl

  pub loaded-at :
      (cells : ℕ → ℕ × ℕ) (used : List ℕ) (regs : ℕ → ℕ × ℕ) (s : ℕ)
      → loaded cells used regs s
        ≡ (if contains used s && is_guest s then guest_value cells s else regs s)
  loaded-at cells [] regs s = refl
  loaded-at cells (r ∷ used) regs s =
      loaded-at cells used (if is_guest r then set regs r (guest_value cells r) else regs) s
      ∙ ap (λ w. if contains used s && is_guest s then guest_value cells s else w)
          (one-loaded cells regs r s)
      ∙ either_write (r == s) (contains used s) (is_guest s) (guest_value cells s) (regs s)

  -- What a store leaves in the cell of a register
  abbrev pub stored_value : (ℕ → ℕ × ℕ) → (ℕ → ℕ × ℕ) → ℕ → ℕ × ℕ
  stored_value regs cells r = if is_x r then ((regs r).0, (cells (cell_of r)).1) else regs r

  abbrev pub stored : (ℕ → ℕ × ℕ) → List ℕ → (ℕ → ℕ × ℕ) → ℕ → ℕ × ℕ
  stored regs [] cells = cells
  stored regs (r ∷ used) cells =
      stored regs used
        (if is_guest r then set cells (cell_of r) (stored_value regs cells r) else cells)

  abbrev one_stored : (ℕ → ℕ × ℕ) → ℕ → (ℕ → ℕ × ℕ) → ℕ → ℕ × ℕ
  one_stored regs r cells =
      if is_guest r then set cells (cell_of r) (stored_value regs cells r) else cells

  module _ (layout : IsLayout gpr simd) (regs cells : ℕ → ℕ × ℕ) where
    one-stored :
        (r s : ℕ)
        → is_guest s ≡ true
        → one_stored regs r cells (cell_of s)
          ≡ (if r == s then stored_value regs cells s else cells (cell_of s))
    one-stored r s h = elim (Bool-cases (is_guest r)) [
      | inl g ↦
          let cell = cell_of-injective r s layout g h in
          elim (Bool-cases (r == s)) [
            | inl e ↦
                let same = (==_iff r s).0 e in rw (g, cell, e) (ap (stored_value regs cells) same)
            | inr e ↦ rw (g, cell, e) refl
          ]
      | inr g ↦ let apart : (r == s) ≡ false = differ (Bool-cases (r == s)) g in rw (g, apart) refl
    ]
      where
        differ : ((r == s) ≡ true) ⊎ ((r == s) ≡ false) → is_guest r ≡ false → (r == s) ≡ false
        differ (inl e) g =
            let same : r ≡ s = (==_iff r s).0 e in
            let wrong : true ≡ false = sym h ∙ ap is_guest (sym same) ∙ g in cc
        differ (inr e) g = e

    again-stored :
        (r s : ℕ)
        → is_guest s ≡ true
        → stored_value regs (one_stored regs r cells) s ≡ stored_value regs cells s
    again-stored r s h = elim (Bool-cases (is_x s)) [
      | inl x ↦ rw x (
          ap (λ n. ((regs s).0, n))
            (ap (λ c. c.1) (one-stored r s h) ∙ high (Bool-cases (r == s)) x))
      | inr x ↦ rw x refl
    ]
      where
        high :
            ((r == s) ≡ true) ⊎ ((r == s) ≡ false)
            → is_x s ≡ true
            → (if r == s then stored_value regs cells s else cells (cell_of s)).1
              ≡ (cells (cell_of s)).1
        high (inl e) x = rw (e, x) refl
        high (inr e) x = rw e refl

  pub stored-at :
      (layout : IsLayout gpr simd) (regs : ℕ → ℕ × ℕ) (used : List ℕ) (cells : ℕ → ℕ × ℕ) (s : ℕ)
      → is_guest s ≡ true
      → stored regs used cells (cell_of s)
        ≡ (if contains used s then stored_value regs cells s else cells (cell_of s))
  stored-at layout regs [] cells s h = refl
  stored-at layout regs (r ∷ used) cells s h =
      stored-at layout regs used (one_stored regs r cells) s h
      ∙ ap (λ w. if contains used s then w else one_stored regs r cells (cell_of s))
          (again-stored layout regs cells r s h)
      ∙ ap (λ w. if contains used s then stored_value regs cells s else w)
          (one-stored layout regs cells r s h)
      ∙ both (r == s) (contains used s)
    where
      both :
          (a c : Bool)
          → (if c
              then stored_value regs cells s
              else if a
              then stored_value regs cells s
              else cells (cell_of s))
            ≡ (if a || c then stored_value regs cells s else cells (cell_of s))
      both true true = refl
      both true false = refl
      both false true = refl
      both false false = refl

  neither : (a b : Bool) → (a || b) ≡ false → (a ≡ false) × (b ≡ false)
  neither true b h = cc
  neither false b h = (refl, h)

  module _ (cpu pcptr : ℕ) (exec : (ℕ → ℕ × ℕ) → ℕ → ℕ × ℕ) where
    module _ (base : ℕ) where
      load_one : ℕ → List Asm
      load_one r =
          if is_x r
          then load_x r base (cell_of r) ∷ []
          else if is_q r
          then load_q r base (cell_of r) ∷ []
          else []

      store_one : ℕ → List Asm
      store_one r =
          if is_x r
          then store_x r base (cell_of r) ∷ []
          else if is_q r
          then store_q r base (cell_of r) ∷ []
          else []

      run-load_one :
          (r : ℕ) (m : Machine)
          → (m.regs base).0 ≡ cpu
          → run cpu pcptr exec (load_one r) m
            ≡ some (record m {
              regs = if is_guest r then set m.regs r (guest_value m.cells r) else m.regs;
            })
      unfolding run load_one
      run-load_one r m at = elim (Bool-cases (is_x r)) [
        | inl x ↦ rw (load_one, x, at, ==_self cpu) refl
        | inr x ↦ elim (Bool-cases (is_q r)) [
          | inl q ↦ rw (load_one, x, q, at, ==_self cpu) refl
          | inr q ↦ rw (load_one, x, q) refl
        ]
      ]

      pub run-load_guest :
          (used : List ℕ) (m : Machine)
          → (m.regs base).0 ≡ cpu
          → contains used base ≡ false
          → run cpu pcptr exec (load_guest gpr simd base used) m
            ≡ some (record m { regs = loaded m.cells used m.regs })
      unfolding run load_guest load_one
      run-load_guest [] m at unused = refl
      run-load_guest (r ∷ used) m at unused =
          let (other, rest) = neither (r == base) (contains used base) unused in
          run-append cpu pcptr exec (load_one r) (load_guest gpr simd base used) m
            (run-load_one r m at)
          ∙ run-load_guest used
              (record m {
                regs = if is_guest r then set m.regs r (guest_value m.cells r) else m.regs;
              })
              (kept other (Bool-cases (is_guest r))) rest
        where
          kept :
              (r == base) ≡ false
              → (is_guest r ≡ true) ⊎ (is_guest r ≡ false)
              → ((if is_guest r then set m.regs r (guest_value m.cells r) else m.regs) base).0 ≡ cpu
          kept other (inl g) = rw (g, other) at
          kept other (inr g) = rw g at

      run-store_one :
          (r : ℕ) (m : Machine)
          → (m.regs base).0 ≡ cpu
          → run cpu pcptr exec (store_one r) m
            ≡ some (record m { cells = one_stored m.regs r m.cells })
      unfolding run store_one
      run-store_one r m at = elim (Bool-cases (is_x r)) [
        | inl x ↦ rw (store_one, x, at, ==_self cpu) refl
        | inr x ↦ elim (Bool-cases (is_q r)) [
          | inl q ↦ rw (store_one, x, q, at, ==_self cpu) refl
          | inr q ↦ rw (store_one, x, q) refl
        ]
      ]

      pub run-store_guest :
          (used : List ℕ) (m : Machine)
          → (m.regs base).0 ≡ cpu
          → run cpu pcptr exec (store_guest gpr simd base used) m
            ≡ some (record m { cells = stored m.regs used m.cells })
      unfolding run store_guest store_one
      run-store_guest [] m at = refl
      run-store_guest (r ∷ used) m at =
          run-append cpu pcptr exec (store_one r) (store_guest gpr simd base used) m
            (run-store_one r m at)
          ∙ run-store_guest used (record m { cells = one_stored m.regs r m.cells }) at
