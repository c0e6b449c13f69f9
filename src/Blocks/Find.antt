-- ===== src/Blocks/Find.antt =====
-- `Orchestrator::findBlocks`: the start of a block, and an address inside one.
use aether_vm.Prelude.{
  get_elem?-some_lt, ℕ, zero, suc, ◌≤◌, ◌<◌, true, false, ◌||◌, Option, some, List, [], ◌∷◌, length,
  get_elem?, take, ltb, leb, ◌==◌, ◌≡◌, refl, sym, ap, ◌∙◌, arith, ==_self, ==_iff, Bool-cases,
  Option-cases, inl, inr, get_elem?-some,
}
use aether_vm.Word.{add64}
use aether_vm.Search.{◌>>=◌, binary_search, is_exact}
use aether_vm.Search.Bound.{
  IsAscending, binary_search-eq-count_below, count_below-get_elem?, head_lt_all,
}
use aether_vm.Blocks.{Instruction, BasicBlocks, choose, scan, first_of, find_blocks}

first_le :
    (l : List ℕ) (i : ℕ) {x y : ℕ}
    → IsAscending l
    → get_elem? l 0 ≡ some x
    → get_elem? l i ≡ some y
    → x ≤ y
first_le [] i h e f = cc
first_le (z ∷ l) zero h e f = ground arith
first_le (z ∷ l) (suc i) h e f = ground (arith, e, head_lt_all z l i h f)

-- The address where a block begins gives the first handler of that block.
pub find_blocks-start :
    (blocks : BasicBlocks) (k : ℕ) {vmaddr insn : ℕ}
    → IsAscending blocks.vmaddrs
    → get_elem? blocks.vmaddrs k ≡ some vmaddr
    → vmaddr < blocks.maxaddr
    → first_of blocks k ≡ some insn
    → find_blocks blocks vmaddr ≡ some (some insn)
unfolding find_blocks is_exact
find_blocks-start blocks k {vmaddr} {insn} h e p f =
    rw (lowest.1, in_range, searched, e, not_end, ==_self vmaddr, f) refl
  where
    inside : k < length blocks.vmaddrs
    inside = get_elem?-some_lt blocks.vmaddrs k e

    lowest : (x : ℕ) × (get_elem? blocks.vmaddrs 0 ≡ some x)
    lowest = get_elem?-some blocks.vmaddrs 0 (omega (arith, inside))

    in_range : (ltb vmaddr lowest.0 || leb blocks.maxaddr vmaddr) ≡ false
    in_range = ground (arith, p, first_le blocks.vmaddrs k h lowest.1 e)

    searched : binary_search blocks.vmaddrs (length blocks.vmaddrs) vmaddr ≡ some k
    searched =
        binary_search-eq-count_below blocks.vmaddrs vmaddr h (omega (arith, inside))
        ∙ ap some (count_below-get_elem? blocks.vmaddrs k h e)

    not_end : (k == length blocks.vmaddrs) ≡ false
    not_end = ground (arith, inside)

-- The address after a list of handlers
abbrev pub after : List Instruction → ℕ → List ℕ → Option ℕ
after rthandlers addr [] = some addr
after rthandlers addr (p ∷ ps) =
    get_elem? rthandlers p >>= λ i. after rthandlers (add64 addr i.oplen) ps

choose-le :
    (rthandlers : List Instruction) (first p q : ℕ)
    → choose rthandlers first p ≡ some (some q)
    → q ≤ p
unfolding choose
choose-le rthandlers first zero q h = cc
choose-le rthandlers first (suc ptr) q h = elim (Bool-cases (leb first ptr)) [
  | inr e ↦ let same : ptr ≡ q = ground (arith, e, h) in omega (arith, same)
  | inl e ↦ elim (Option-cases (get_elem? rthandlers ptr)) [
    | inl f ↦ absurd (ground (arith, e, f, h))
    | inr (i, f) ↦ elim (Bool-cases i.event) [
      | inl g ↦ let same : ptr ≡ q = ground (arith, e, f, g, h) in omega (arith, same)
      | inr g ↦ let same : suc ptr ≡ q = ground (arith, e, f, g, h) in omega (arith, same)
    ]
  ]
]

-- The pointer that the scan of a block gives for an address lies at or before a handler of the block
-- that ends at the address: the handler of the instruction at the address itself comes after it.
pub scan-before :
    (rthandlers : List Instruction) (first vmaddr addr q : ℕ) (ps : List ℕ)
    → scan rthandlers first vmaddr addr ps ≡ some (some q)
    → (k : ℕ) × (p : ℕ) × (get_elem? ps k ≡ some p)
      × (after rthandlers addr (take (suc k) ps) ≡ some vmaddr)
      × (q ≤ p)
unfolding scan
scan-before rthandlers first vmaddr addr q [] h = cc
scan-before rthandlers first vmaddr addr q (p ∷ ps) h =
    elim (Option-cases (get_elem? rthandlers p)) [
      | inl e ↦ absurd (ground (arith, e, h))
      | inr (i, e) ↦ elim (Bool-cases (add64 addr i.oplen == vmaddr)) [
        | inl t ↦ (
          0,
          p,
          refl,
          rw e (ap some ((==_iff (add64 addr i.oplen) vmaddr).0 t)),
          choose-le rthandlers first p q (sym (reached i e t) ∙ h),
        )
        | inr t ↦
            let (k, r, f, g, u) =
              scan-before rthandlers first vmaddr (add64 addr i.oplen) q ps
                (sym (passed i e t) ∙ h) in
            (suc k, r, f, rw e g, u)
      ]
    ]
  where
    reached :
        (i : Instruction)
        → get_elem? rthandlers p ≡ some i
        → (add64 addr i.oplen == vmaddr) ≡ true
        → scan rthandlers first vmaddr addr (p ∷ ps) ≡ choose rthandlers first p
    reached i e t = rw (scan, e, t) refl

    passed :
        (i : Instruction)
        → get_elem? rthandlers p ≡ some i
        → (add64 addr i.oplen == vmaddr) ≡ false
        → scan rthandlers first vmaddr addr (p ∷ ps)
          ≡ scan rthandlers first vmaddr (add64 addr i.oplen) ps
    passed i e t = rw (scan, e, t) refl
