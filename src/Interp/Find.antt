-- ===== src/Interp/Find.antt =====
-- The two lookups, on sorted arrays.
use aether_vm.Prelude.{
  get_elem?-some_lt, ℕ, zero, suc, ◌+◌, ◌^◌, ◌≤◌, ◌<◌, some, List, [], ◌∷◌, length, get_elem?, ◌==◌,
  ◌≡◌, refl, sym, ap, ◌∙◌, arith, ==_self, ==_iff, Bool-cases, Option-cases, inl, inr,
}
use aether_vm.Word.{sub64}
use aether_vm.Search.{binary_search}
use aether_vm.Search.Bound.{
  IsAscending, count_below, binary_search-eq-count_below, count_below-get_elem?,
  count_below-between, count_below-all,
}
use aether_vm.Interp.{InsnMeta, Runtime, rvas, bases, key_of, find_insn, find_runtime}

length-rvas : (l : List InsnMeta) → length (rvas l) ≡ length l
length-rvas [] = refl
length-rvas (x ∷ l) = ap suc (length-rvas l)

length-bases : (l : List Runtime) → length (bases l) ≡ length l
length-bases [] = refl
length-bases (x ∷ l) = ap suc (length-bases l)

get_elem?-rvas :
    (l : List InsnMeta) (i : ℕ) {x : InsnMeta}
    → get_elem? l i ≡ some x
    → get_elem? (rvas l) i ≡ some x.rva
get_elem?-rvas [] i h = cc
get_elem?-rvas (x ∷ l) zero h = ground arith
get_elem?-rvas (x ∷ l) (suc i) h = get_elem?-rvas l i h

get_elem?-bases :
    (l : List Runtime) (i : ℕ) {x : Runtime}
    → get_elem? l i ≡ some x
    → get_elem? (bases l) i ≡ some x.rtbase
get_elem?-bases [] i h = cc
get_elem?-bases (x ∷ l) zero h = ground arith
get_elem?-bases (x ∷ l) (suc i) h = get_elem?-bases l i h

-- The key of a pc that lies at most 4 GB into its binary
pub key_of-offset :
    (rt : Runtime) (rva : ℕ)
    → rt.rtbase + rva < 2 ^ 64
    → rva < 2 ^ 32
    → key_of rt (rt.rtbase + rva) ≡ rva
unfolding key_of sub64
key_of-offset rt rva h k = omega arith

-- In a binary whose instructions are sorted by rva, the instruction of a key that one of them has is
-- found, at its index.
pub find_insn_complete :
    (rt : Runtime) (addr i : ℕ) {x : InsnMeta}
    → IsAscending (rvas rt.insns)
    → get_elem? rt.insns i ≡ some x
    → key_of rt addr ≡ x.rva
    → find_insn rt addr ≡ some (some i)
unfolding find_insn
find_insn_complete rt addr i {x} h e k = rw (k, searched, e, ==_self x.rva) refl
  where
    keyed : count_below (rvas rt.insns) x.rva ≡ i
    keyed = count_below-get_elem? (rvas rt.insns) i h (get_elem?-rvas rt.insns i e)

    searched : binary_search (rvas rt.insns) (length rt.insns) x.rva ≡ some i
    searched = rw (sym (length-rvas rt.insns)) (
        binary_search-eq-count_below (rvas rt.insns) x.rva h
          (rw (length-rvas rt.insns) (omega (arith, get_elem?-some_lt rt.insns i e)))
        ∙ ap some keyed)

-- Whatever is found has the key of the address.
pub find_insn_sound :
    (rt : Runtime) (addr j : ℕ)
    → find_insn rt addr ≡ some (some j)
    → (x : InsnMeta) × (get_elem? rt.insns j ≡ some x) × (x.rva ≡ key_of rt addr)
unfolding find_insn
find_insn_sound rt addr j h =
    elim (Option-cases (binary_search (rvas rt.insns) (length rt.insns) (key_of rt addr))) [
      | inl e ↦ absurd (ground (arith, e, h))
      | inr (i, e) ↦ elim (Option-cases (get_elem? rt.insns i)) [
        | inl f ↦ absurd (ground (arith, e, f, h))
        | inr (x, f) ↦ elim (Bool-cases (x.rva == key_of rt addr)) [
          | inr g ↦ absurd (ground (arith, e, f, g, h))
          | inl g ↦
              let same : i ≡ j = ground (arith, e, f, g, h) in
              (x, sym (ap (get_elem? rt.insns) same) ∙ f, (==_iff x.rva (key_of rt addr)).0 g)
        ]
      ]
    ]

-- The choice of a runtime, by the number of bases below the address
find_runtime-count :
    (rts : List Runtime) (addr i : ℕ) {r : Runtime}
    → IsAscending (bases rts)
    → count_below (bases rts) addr ≡ i
    → get_elem? rts i ≡ some r
    → addr ≤ r.rtend
    → find_runtime rts addr ≡ some (some i)
unfolding find_runtime
find_runtime-count rts addr i {r} h c e p = rw searched (ground (arith, e, p, here))
  where
    here : i < length rts
    here = get_elem?-some_lt rts i e

    searched : binary_search (bases rts) (length rts) addr ≡ some i
    searched = rw (sym (length-bases rts)) (
        binary_search-eq-count_below (bases rts) addr h
          (rw (length-bases rts) (omega (arith, here)))
        ∙ ap some c)

-- An address inside a binary that is not the last, past its first byte, chooses the binary that follows.
pub find_runtime-inside :
    (rts : List Runtime) (i addr : ℕ) {r following : Runtime}
    → IsAscending (bases rts)
    → get_elem? rts i ≡ some r
    → get_elem? rts (suc i) ≡ some following
    → r.rtbase < addr
    → addr ≤ following.rtbase
    → following.rtbase ≤ following.rtend
    → find_runtime rts addr ≡ some (some (suc i))
find_runtime-inside rts i addr {r} {following} h e f p q u =
    find_runtime-count rts addr (suc i) h
      (count_below-between (bases rts) i addr h (get_elem?-bases rts i e)
        (get_elem?-bases rts (suc i) f) p q)
      f (omega (arith, q, u))

-- An address past the first byte of the last binary and up to its end chooses the last binary.
pub find_runtime-last :
    (rts : List Runtime) (i addr : ℕ) {r : Runtime}
    → IsAscending (bases rts)
    → get_elem? rts i ≡ some r
    → length rts ≡ suc i
    → r.rtbase < addr
    → addr ≤ r.rtend
    → find_runtime rts addr ≡ some (some i)
unfolding find_runtime
find_runtime-last rts i addr {r} h e f p q =
    rw (searched, f, ==_self (suc i)) (ground (arith, e, q))
  where
    searched : binary_search (bases rts) (length rts) addr ≡ some (suc i)
    searched = rw (sym (length-bases rts)) (
        binary_search-eq-count_below (bases rts) addr h (rw (length-bases rts) (omega (arith, f)))
        ∙ ap some (
            count_below-all (bases rts) i addr h (get_elem?-bases rts i e) (length-bases rts ∙ f)
              p))
