-- ===== src/Native/Host.antt =====
-- The host's registers on the stack, before and after a native handler.
use aether_vm.Prelude.{
  ℕ, Bool, true, false, ◌&&◌, ◌||◌, some, List, [], ◌∷◌, contains, ◌==◌, ==_self, ==_iff,
  if◌then◌else◌, ◌≡◌, refl, ap, subst, ◌∙◌, Bool-cases, ◌⊎◌, inl, inr,
}
use aether_vm.Native.{
  is_saved_x, is_saved_q, Asm, push_x, push_d, pop_x, pop_d, save_host, restore_host, Machine, set,
  run,
}
use aether_vm.Native.Run.{run-append}

abbrev pub is_saved : ℕ → Bool
is_saved r = is_saved_x r || is_saved_q r

abbrev pub pushed : (ℕ → ℕ × ℕ) → List ℕ → List ℕ → List ℕ
pushed regs [] stack = stack
pushed regs (r ∷ used) stack = pushed regs used (if is_saved r then (regs r).0 ∷ stack else stack)

-- The registers once what was pushed of `old` is popped
abbrev pub popped : (ℕ → ℕ × ℕ) → List ℕ → (ℕ → ℕ × ℕ) → ℕ → ℕ × ℕ
popped old [] regs = regs
popped old (r ∷ used) regs =
    if is_saved r then set (popped old used regs) r ((old r).0, 0) else popped old used regs

one-popped :
    (old regs : ℕ → ℕ × ℕ) (r s : ℕ)
    → (if is_saved r then set regs r ((old r).0, 0) else regs) s
      ≡ (if (r == s) && is_saved s then ((old s).0, 0) else regs s)
one-popped old regs r s = elim (Bool-cases (r == s)) [
  | inl e ↦
      subst
        (λ t.
          (if is_saved r then set regs r ((old r).0, 0) else regs) t
          ≡ (if (r == t) && is_saved t then ((old t).0, 0) else regs t))
        ((==_iff r s).0 e) (self (Bool-cases (is_saved r)))
  | inr e ↦ elim (Bool-cases (is_saved r)) [ inl g ↦ rw (g, e) refl | inr g ↦ rw (g, e) refl ]
]
  where
    self :
        (is_saved r ≡ true) ⊎ (is_saved r ≡ false)
        → (if is_saved r then set regs r ((old r).0, 0) else regs) r
          ≡ (if (r == r) && is_saved r then ((old r).0, 0) else regs r)
    self (inl g) = rw (g, ==_self r) refl
    self (inr g) = rw (g, ==_self r) refl

swap_write {ℓ} :
    {A : Type ℓ} (a c g : Bool) (v w : A)
    → (if a && g then v else if c && g then v else w) ≡ (if (a || c) && g then v else w)
swap_write true true true v w = refl
swap_write true true false v w = refl
swap_write true false true v w = refl
swap_write true false false v w = refl
swap_write false true true v w = refl
swap_write false true false v w = refl
swap_write false false true v w = refl
swap_write false false false v w = refl

pub popped-at :
    (old : ℕ → ℕ × ℕ) (used : List ℕ) (regs : ℕ → ℕ × ℕ) (s : ℕ)
    → popped old used regs s ≡ (if contains used s && is_saved s then ((old s).0, 0) else regs s)
popped-at old [] regs s = refl
popped-at old (r ∷ used) regs s =
    one-popped old (popped old used regs) r s
    ∙ ap (λ w. if (r == s) && is_saved s then ((old s).0, 0) else w) (popped-at old used regs s)
    ∙ swap_write (r == s) (contains used s) (is_saved s) ((old s).0, 0) (regs s)

module _ (cpu pcptr : ℕ) (exec : (ℕ → ℕ × ℕ) → ℕ → ℕ × ℕ) where
  save_one : ℕ → List Asm
  save_one r = if is_saved_x r then push_x r ∷ [] else if is_saved_q r then push_d r ∷ [] else []

  restore_one : ℕ → List Asm
  restore_one r = if is_saved_x r then pop_x r ∷ [] else if is_saved_q r then pop_d r ∷ [] else []

  run-save_one :
      (r : ℕ) (m : Machine)
      → run cpu pcptr exec (save_one r) m
        ≡ some (record m { stack = if is_saved r then (m.regs r).0 ∷ m.stack else m.stack })
  unfolding run save_one
  run-save_one r m = elim (Bool-cases (is_saved_x r)) [
    | inl x ↦ rw (save_one, x) refl
    | inr x ↦ elim (Bool-cases (is_saved_q r)) [
      | inl q ↦ rw (save_one, x, q) refl
      | inr q ↦ rw (save_one, x, q) refl
    ]
  ]

  pub run-save_host :
      (used : List ℕ) (m : Machine)
      → run cpu pcptr exec (save_host used) m
        ≡ some (record m { stack = pushed m.regs used m.stack })
  unfolding run save_host save_one
  run-save_host [] m = refl
  run-save_host (r ∷ used) m =
      run-append cpu pcptr exec (save_one r) (save_host used) m (run-save_one r m)
      ∙ run-save_host used
          (record m { stack = if is_saved r then (m.regs r).0 ∷ m.stack else m.stack })

  run-restore_one :
      (r : ℕ) (m : Machine) (v : ℕ) (stack : List ℕ)
      → run cpu pcptr exec
          (restore_one r)
          (record m { stack = if is_saved r then v ∷ stack else stack })
        ≡ some
            (record m { regs = if is_saved r then set m.regs r (v, 0) else m.regs; stack = stack })
  unfolding run restore_one
  run-restore_one r m v stack = elim (Bool-cases (is_saved_x r)) [
    | inl x ↦ rw (restore_one, x) refl
    | inr x ↦ elim (Bool-cases (is_saved_q r)) [
      | inl q ↦ rw (restore_one, x, q) refl
      | inr q ↦ rw (restore_one, x, q) refl
    ]
  ]

  pub run-restore_host :
      (old : ℕ → ℕ × ℕ) (used : List ℕ) (m : Machine) (stack : List ℕ)
      → m.stack ≡ pushed old used stack
      → run cpu pcptr exec (restore_host used) m
        ≡ some (record m { regs = popped old used m.regs; stack = stack })
  unfolding run restore_host restore_one
  run-restore_host old [] m stack h = ap (λ st. some (record m { stack = st })) h
  run-restore_host old (r ∷ used) m stack h =
      run-append cpu pcptr exec (restore_host used) (restore_one r) m
        (run-restore_host old used m (if is_saved r then (old r).0 ∷ stack else stack) h)
      ∙ run-restore_one r (record m { regs = popped old used m.regs }) (old r).0 stack
