-- ===== src/Prelude/Sets.antt =====
-- std::set of numbers, on the ascending list of its elements.
use Prim.Native.Nat.{ℕ, ◌+◌, ◌≤◌}
use mathlib.Core.Path.{◌≡◌, refl}
use mathlib.Core.Bool.{Bool, false, ◌||◌}
use mathlib.Core.List.{List, [], ◌∷◌}
use native.Mathlib.Omega.{arith}
use aether_vm.Prelude.Tests.{ltb, ◌==◌, if◌then◌else◌}
use aether_vm.Prelude.Lists.{length}

abbrev pub contains : List ℕ → ℕ → Bool
contains [] n = false
contains (x ∷ l) n = x == n || contains l n

unfoldable pub insert : ℕ → List ℕ → List ℕ
insert n [] = n ∷ []
insert n (x ∷ l) =
    let rest = insert n l in if ltb n x then n ∷ x ∷ l else if n == x then x ∷ l else x ∷ rest

pub contains-insert :
    (n : ℕ) (l : List ℕ) (k : ℕ) → contains (insert n l) k ≡ (n == k || contains l k)
unfolding insert
contains-insert n [] k = refl
contains-insert n (x ∷ l) k = ground (arith, contains-insert n l k)

pub length-insert : (n : ℕ) (l : List ℕ) → length (insert n l) ≤ length l + 1
unfolding insert
length-insert n [] = omega arith
length-insert n (x ∷ l) = ground (arith, length-insert n l)
