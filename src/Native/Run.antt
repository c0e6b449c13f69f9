-- ===== src/Native/Run.antt =====
-- Runs of the assembly of a native handler, one part after the other.
use aether_vm.Prelude.{ℕ, some, List, [], ◌∷◌, ◌++◌, ◌≡◌, ap, arith, Option-cases, inl, inr}
use aether_vm.Search.{◌>>=◌}
use aether_vm.Native.{Asm, Machine, step, run}

module _ (cpu pcptr : ℕ) (exec : (ℕ → ℕ × ℕ) → ℕ → ℕ × ℕ) where
  pub run-append :
      (a b : List Asm) (m : Machine) {m' : Machine}
      → run cpu pcptr exec a m ≡ some m'
      → run cpu pcptr exec (a ++ b) m ≡ run cpu pcptr exec b m'
  unfolding run
  run-append [] b m {m'} h = ap (λ o. o >>= run cpu pcptr exec b) h
  run-append (i ∷ a) b m h = elim (Option-cases (step cpu pcptr exec i m)) [
    | inl e ↦ absurd (ground (arith, h, e))
    | inr (m1, e) ↦ rw (run, e) (run-append a b m1 (ground (arith, h, e)))
  ]
