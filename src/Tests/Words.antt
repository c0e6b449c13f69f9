-- ===== src/Tests/Words.antt =====
-- Words, alignment and the binary search
use aether_vm.Prelude.{ℕ, some, List, [], ◌∷◌, ◌≡◌, arith}
use aether_vm.Search.{binary_search}
use aether_vm.Search.Bound.{IsAscending, count_below, binary_search-eq-count_below}

abbrev three : List ℕ
three = 10 ∷ 20 ∷ 30 ∷ []

three-IsAscending : IsAscending three
three-IsAscending = (omega arith, (omega arith, tt))

binary_search-eq-count_below_example : binary_search three 3 25 ≡ some 2
unfolding count_below
binary_search-eq-count_below_example =
    binary_search-eq-count_below three 25 three-IsAscending (omega arith)
