-- ===== src/PreEncode/Index.antt =====
-- `handlerIndex`: from an opcode to the place of its handler.
use aether_vm.Prelude.{
  ℕ, zero, suc, ◌+◌, ◌≤◌, ◌<◌, false, ◌||◌, some, List, [], ◌∷◌, ◌++◌, length, get_elem?, ltb, ◌==◌,
  if◌then◌else◌, ◌≡◌, refl, sym, ap, ◌∙◌, arith, ==_iff, ==_self, Bool-cases, Option-cases, inl,
  inr, get_elem?-some_lt, get_elem?-append_left,
}
use aether_vm.Search.Bound.{IsAscending, count_below, count_below-get_elem?}
use aether_vm.Blocks.Flat.{get_elem?-append_right}
use aether_vm.Emulate.{Width, bytes1, bytes2, bytes4, bytes8, bytes16, read_opcode}
use aether_vm.PreEncode.{
  Sets, set_of, sized, m_handlers, range_start, lower_bound, search_range, index_width,
  handler_index,
}

length-sized : (w : Width) (l : List ℕ) → length (sized w l) ≡ length l
length-sized w [] = refl
length-sized w (x ∷ l) = ap suc (length-sized w l)

get_elem?-sized :
    (w : Width) (l : List ℕ) (j : ℕ) {x : ℕ}
    → get_elem? l j ≡ some x
    → get_elem? (sized w l) j ≡ some (w, x)
get_elem?-sized w [] j h = cc
get_elem?-sized w (x ∷ l) zero h = ground arith
get_elem?-sized w (x ∷ l) (suc j) h = get_elem?-sized w l j h

-- A place behind the handlers of one size
behind :
    (w : Width) (l : List ℕ) (rest : List (Width × ℕ)) (k : ℕ)
    → get_elem? (sized w l ++ rest) (length l + k) ≡ get_elem? rest k
behind w l rest k =
    ap (λ n. get_elem? (sized w l ++ rest) (n + k)) (sym (length-sized w l))
    ∙ get_elem?-append_right (sized w l) rest k

here :
    (w : Width) (l : List ℕ) (rest : List (Width × ℕ)) (j : ℕ) {x : ℕ}
    → get_elem? l j ≡ some x
    → get_elem? (sized w l ++ rest) j ≡ some (w, x)
here w l rest j h =
    get_elem?-append_left (sized w l) rest j
      (omega (arith, get_elem?-some_lt l j h, length-sized w l))
    ∙ get_elem?-sized w l j h

get_elem?-m_handlers :
    (s : Sets) (w : Width) (j : ℕ) {x : ℕ}
    → get_elem? (set_of s w) j ≡ some x
    → get_elem? (m_handlers s) (range_start s w + j) ≡ some (w, x)
unfolding m_handlers range_start
get_elem?-m_handlers s bytes1 j h =
    ap (get_elem? (m_handlers s)) (start j) ∙ here bytes1 s.set1 _ j h
  where
    start : (n : ℕ) → 0 + n ≡ n
    start n = omega arith
get_elem?-m_handlers s bytes2 j h = behind bytes1 s.set1 _ j ∙ here bytes2 s.set2 _ j h
get_elem?-m_handlers s bytes4 j h =
    ap (get_elem? (m_handlers s)) (split (length s.set1) (length s.set2))
    ∙ behind bytes1 s.set1 _ (length s.set2 + j)
    ∙ behind bytes2 s.set2 _ j
    ∙ here bytes4 s.set4 _ j h
  where
    split : (a b : ℕ) → a + b + j ≡ a + (b + j)
    split a b = omega arith
get_elem?-m_handlers s bytes8 j h =
    ap (get_elem? (m_handlers s)) (split (length s.set1) (length s.set2) (length s.set4))
    ∙ behind bytes1 s.set1 _ (length s.set2 + (length s.set4 + j))
    ∙ behind bytes2 s.set2 _ (length s.set4 + j)
    ∙ behind bytes4 s.set4 _ j
    ∙ here bytes8 s.set8 _ j h
  where
    split : (a b c : ℕ) → a + (b + c) + j ≡ a + (b + (c + j))
    split a b c = omega arith
get_elem?-m_handlers s bytes16 j h =
    ap (get_elem? (m_handlers s))
      (split (length s.set1) (length s.set2) (length s.set4) (length s.set8))
    ∙ behind bytes1 s.set1 _ (length s.set2 + (length s.set4 + (length s.set8 + j)))
    ∙ behind bytes2 s.set2 _ (length s.set4 + (length s.set8 + j))
    ∙ behind bytes4 s.set4 _ (length s.set8 + j)
    ∙ behind bytes8 s.set8 _ j
    ∙ get_elem?-sized bytes16 s.set16 j h
  where
    split : (a b c d : ℕ) → a + (b + (c + d)) + j ≡ a + (b + (c + (d + j)))
    split a b c d = omega arith

search_range_sound :
    (s : Sets) (w : Width) (key i : ℕ)
    → search_range s w key ≡ some i
    → get_elem? (m_handlers s) i ≡ some (w, key)
unfolding search_range
search_range_sound s w key i h =
    elim (Option-cases (get_elem? (set_of s w) (lower_bound (set_of s w) key))) [
      | inl e ↦ absurd (ground (arith, h, e))
      | inr (x, e) ↦ elim (Bool-cases (x == key)) [
        | inr t ↦ absurd (ground (arith, h, e, t))
        | inl t ↦
            let place : range_start s w + lower_bound (set_of s w) key ≡ i =
              ground (arith, h, e, t) in
            ap (get_elem? (m_handlers s)) (sym place)
            ∙ get_elem?-m_handlers s w (lower_bound (set_of s w) key) e
            ∙ ap (λ k. some (w, k)) ((==_iff x key).0 t)
      ]
    ]

-- The index found for the bytes of an opcode is that of a handler of their size with that opcode.
pub handler_index_sound :
    (s : Sets) (opcode : List ℕ) (i : ℕ)
    → handler_index s opcode ≡ some i
    → (key : ℕ) × (read_opcode (length opcode) opcode ≡ some key)
      × (get_elem? (m_handlers s) i ≡ some (index_width (length opcode), key))
unfolding handler_index
handler_index_sound s opcode i h =
    elim (Bool-cases (length opcode == 0 || ltb 16 (length opcode))) [
      | inl e ↦ absurd (ground (arith, h, e))
      | inr e ↦ elim (Option-cases (read_opcode (length opcode) opcode)) [
        | inl f ↦ absurd (ground (arith, h, e, f))
        | inr (key, f) ↦ (
          key,
          f,
          search_range_sound s (index_width (length opcode)) key i (ground (arith, h, e, f)),
        )
      ]
    ]

lower_bound-eq-count_below : (l : List ℕ) (key : ℕ) → lower_bound l key ≡ count_below l key
unfolding count_below
lower_bound-eq-count_below [] key = refl
lower_bound-eq-count_below (x ∷ l) key =
    ap (λ n. if ltb x key then suc n else 0) (lower_bound-eq-count_below l key)

-- An opcode of one to sixteen bytes that has a handler of its size gets the index of that handler.
pub handler_index_complete :
    (s : Sets) (opcode : List ℕ) (j : ℕ) {key : ℕ}
    → 0 < length opcode
    → length opcode ≤ 16
    → IsAscending (set_of s (index_width (length opcode)))
    → read_opcode (length opcode) opcode ≡ some key
    → get_elem? (set_of s (index_width (length opcode))) j ≡ some key
    → handler_index s opcode ≡ some (range_start s (index_width (length opcode)) + j)
unfolding handler_index search_range
handler_index_complete s opcode j {key} p q h r e =
    let w = index_width (length opcode) in
    let found : lower_bound (set_of s w) key ≡ j =
      lower_bound-eq-count_below (set_of s w) key ∙ count_below-get_elem? (set_of s w) j h e in
    let inside : (length opcode == 0 || ltb 16 (length opcode)) ≡ false = ground (arith, p, q) in
    rw (handler_index, inside, r, search_range, found, e, ==_self key) refl
