-- ===== src/Search/Bound.antt =====
-- `binary_search` against the lower bound of the key, with its reads and its rounds.
use aether_vm.Prelude.{
  ℕ, zero, suc, ◌+◌, ◌-◌, ◌/◌, ◌≤◌, ◌<◌, some, List, [], ◌∷◌, length, get_elem?, ltb, if◌then◌else◌,
  ◌≡◌, arith, get_elem?-some, Bool-cases, inl, inr, ltb→lt,
}
use aether_vm.Search.{search_loop, binary_search}

-- Sorted in strictly ascending order
abbrev pub IsAscending : List ℕ → Type 0
IsAscending [] = Unit
IsAscending (x ∷ []) = Unit
IsAscending (x ∷ y ∷ l) = (x < y) × IsAscending (y ∷ l)

-- The specification: how many elements are below the key
unfoldable pub count_below : List ℕ → ℕ → ℕ
count_below [] key = 0
count_below (x ∷ l) key = if ltb x key then suc (count_below l key) else 0

-- Elements before the count are below the key, and from it on they are not.
pub head_lt_all :
    (x : ℕ) (l : List ℕ) (i : ℕ) {y : ℕ} → IsAscending (x ∷ l) → get_elem? l i ≡ some y → x < y
head_lt_all x [] i h e = cc
head_lt_all x (z ∷ l) zero {y} h e = let e' : z ≡ y = ground arith in omega (arith, e', h.0)
head_lt_all x (z ∷ l) (suc i) h e = omega (arith, h.0, head_lt_all z l i h.1 e)

tail-IsAscending : (x : ℕ) (l : List ℕ) → IsAscending (x ∷ l) → IsAscending l
tail-IsAscending x [] h = tt
tail-IsAscending x (y ∷ l) h = h.1

pub below_iff :
    (l : List ℕ) (key i : ℕ) {y : ℕ}
    → IsAscending l
    → get_elem? l i ≡ some y
    → ltb y key ≡ ltb i (count_below l key)
unfolding count_below
below_iff [] key i h e = cc
below_iff (x ∷ l) key zero h e = ground arith
below_iff (x ∷ l) key (suc i) {y} h e =
    ground (arith, below_iff l key i (tail-IsAscending x l h) e, head_lt_all x l i h e)

count_below-le : (l : List ℕ) (key : ℕ) → count_below l key ≤ length l
unfolding count_below
count_below-le [] key = omega arith
count_below-le (x ∷ l) key = ground (arith, count_below-le l key)

-- The loop keeps the count between base and base + size, and ends with size 1.
loop_ends :
    (fuel : ℕ) (arr : List ℕ) (key base size : ℕ)
    → IsAscending arr
    → size < fuel
    → 0 < size
    → base + size ≤ length arr
    → base ≤ count_below arr key
    → count_below arr key ≤ base + size
    → (b : ℕ) × (search_loop fuel arr key base size ≡ some (b, 1))
      × (b < length arr)
      × (b ≤ count_below arr key)
      × (count_below arr key ≤ b + 1)
unfolding search_loop
loop_ends zero arr key base size h f p q l u = absurd (omega arith)
loop_ends (suc fuel) arr key base size h f p q l u = elim (Bool-cases (ltb 1 size)) [
  | inr done ↦
      let one : size ≡ 1 = ground arith in
      (base, rw (done, one, search_loop), omega arith, omega arith, omega arith)
  | inl more ↦
      let (x, ex) = get_elem?-some arr (base + size / 2 - 1) (omega (arith, ltb→lt 1 size more)) in
      let split = below_iff arr key (base + size / 2 - 1) h ex in
      rw (more, ex, search_loop)
        (loop_ends fuel arr key (if ltb x key then base + size / 2 else base) (size - size / 2) h
          (omega (arith, ltb→lt 1 size more)) (omega arith) (ground arith) (ground arith)
          (ground arith))
]

-- Total correctness: in an ascending array that is not empty the search reads only inside the array,
-- ends, and returns the number of elements below the key.
pub binary_search-eq-count_below :
    (arr : List ℕ) (key : ℕ)
    → IsAscending arr
    → 0 < length arr
    → binary_search arr (length arr) key ≡ some (count_below arr key)
unfolding binary_search
binary_search-eq-count_below arr key h p =
    let (b, e, q, l, u) =
      loop_ends (suc (length arr)) arr key 0 (length arr) h (omega arith) p (omega arith)
        (omega arith) (omega (arith, count_below-le arr key)) in
    let (x, ex) = get_elem?-some arr b q in rw (e, ex) (ground (arith, below_iff arr key b h ex))

-- A key of the array is found at its place.
pub count_below-get_elem? :
    (l : List ℕ) (i : ℕ) {x : ℕ} → IsAscending l → get_elem? l i ≡ some x → count_below l x ≡ i
unfolding count_below
count_below-get_elem? [] i h e = cc
count_below-get_elem? (y ∷ l) zero h e = ground arith
count_below-get_elem? (y ∷ l) (suc i) h e =
    ground (arith, count_below-get_elem? l i (tail-IsAscending y l h) e, head_lt_all y l i h e)

-- A key between two neighbours is counted up to the second of them.
pub count_below-between :
    (l : List ℕ) (i key : ℕ) {x y : ℕ}
    → IsAscending l
    → get_elem? l i ≡ some x
    → get_elem? l (suc i) ≡ some y
    → x < key
    → key ≤ y
    → count_below l key ≡ suc i
unfolding count_below
count_below-between [] i key h e f p q = cc
count_below-between (z ∷ []) zero key h e f p q = cc
count_below-between (z ∷ w ∷ l) zero key h e f p q = ground arith
count_below-between (z ∷ l) (suc i) key h e f p q =
    ground
      (arith, count_below-between l i key (tail-IsAscending z l h) e f p q, head_lt_all z l i h e)

-- A key above all elements
pub count_below-all :
    (l : List ℕ) (i : ℕ) {x : ℕ} (key : ℕ)
    → IsAscending l
    → get_elem? l i ≡ some x
    → length l ≡ suc i
    → x < key
    → count_below l key ≡ suc i
unfolding count_below
count_below-all [] i key h e f p = cc
count_below-all (y ∷ []) zero key h e f p = ground arith
count_below-all (y ∷ z ∷ l) zero key h e f p = absurd (omega (arith, f))
count_below-all (y ∷ []) (suc i) key h e f p = cc
count_below-all (y ∷ z ∷ l) (suc i) {x} key h e f p =
    let rest = count_below-all (z ∷ l) i key h.1 e (omega (arith, f)) p in
    let first : y < x = head_lt_all y (z ∷ l) i h e in ground (arith, rest, first, p)
