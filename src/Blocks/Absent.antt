-- ===== src/Blocks/Absent.antt =====
-- The addresses that `Orchestrator::find` answers with `&terminate`.
use aether_vm.Prelude.{
  ℕ, zero, suc, ◌+◌, false, none, some, List, [], ◌∷◌, get_elem?, ◌==◌, ◌≡◌, sym, ap, ◌∙◌, arith,
  ==_iff, Bool-cases, Option-cases, inl, inr,
}
use aether_vm.Blocks.{BasicBlocks, find_blocks}
use aether_vm.Blocks.Cache.{
  Cache, cache_index, find_and_cache, find_cache, is_current, find_others, find,
}

module _ (all : List BasicBlocks) (vmaddr : ℕ) where
  find_and_cache-none :
      (cache cache' : Cache) (c : ℕ) {blocks : BasicBlocks}
      → find_and_cache all cache c vmaddr ≡ some (cache', none)
      → get_elem? all c ≡ some blocks
      → (find_blocks blocks vmaddr ≡ some none) × (cache' ≡ cache)
  unfolding find_and_cache
  find_and_cache-none cache cache' c {blocks} e f =
      elim (Option-cases (find_blocks blocks vmaddr)) [
        | inl g ↦ absurd (ground (arith, e, f, g))
        | inr (none, g) ↦ (g, ground (arith, e, f, g))
        | inr (some p, g) ↦ absurd (ground (arith, e, f, g))
      ]

  -- What the loop over the other blocks has ruled out
  others_rest :
      (cache cache' : Cache) (c : ℕ) (b : BasicBlocks) (todo : List BasicBlocks)
      → find_others all cache vmaddr c (b ∷ todo) ≡ some (cache', none)
      → find_others all cache vmaddr (suc c) todo ≡ some (cache', none)
  unfolding find_others
  others_rest cache cache' c b todo e = elim (Bool-cases (is_current cache.current c)) [
    | inl g ↦ ground (arith, e, g)
    | inr g ↦ elim (Option-cases (find_and_cache all cache c vmaddr)) [
      | inl u ↦ absurd (ground (arith, e, g, u))
      | inr ((cache1, some insn), u) ↦ absurd (ground (arith, e, g, u))
      | inr ((cache1, none), u) ↦ ground (arith, e, g, u)
    ]
  ]

  others_head :
      (cache cache' : Cache) (c : ℕ) (b : BasicBlocks) (todo : List BasicBlocks)
      {blocks : BasicBlocks}
      → find_others all cache vmaddr c (b ∷ todo) ≡ some (cache', none)
      → is_current cache.current c ≡ false
      → get_elem? all c ≡ some blocks
      → find_blocks blocks vmaddr ≡ some none
  unfolding find_others
  others_head cache cache' c b todo e g a =
      elim (Option-cases (find_and_cache all cache c vmaddr)) [
        | inl u ↦ absurd (ground (arith, e, g, u))
        | inr ((cache1, some insn), u) ↦ absurd (ground (arith, e, g, u))
        | inr ((cache1, none), u) ↦ (find_and_cache-none cache cache1 c u a).0
      ]

  others-none :
      (cache cache' : Cache) (c : ℕ) (todo : List BasicBlocks) (k : ℕ) {x blocks : BasicBlocks}
      → find_others all cache vmaddr c todo ≡ some (cache', none)
      → get_elem? todo k ≡ some x
      → get_elem? all (c + k) ≡ some blocks
      → is_current cache.current (c + k) ≡ false
      → find_blocks blocks vmaddr ≡ some none
  others-none cache cache' c [] k e f a n = cc
  others-none cache cache' c (b ∷ todo) zero e f a n =
      others_head cache cache' c b todo e (sym (ap (is_current cache.current) here) ∙ n)
        (sym (ap (get_elem? all) here) ∙ a)
    where
      here : c + 0 ≡ c
      here = omega arith
  others-none cache cache' c (b ∷ todo) (suc k) e f a n =
      others-none cache cache' (suc c) todo k (others_rest cache cache' c b todo e) f
        (sym (ap (get_elem? all) shift) ∙ a) (sym (ap (is_current cache.current) shift) ∙ n)
    where
      shift : c + suc k ≡ suc c + k
      shift = omega arith

  find_cache-none :
      (cache cache' : Cache) (c : ℕ) {blocks : BasicBlocks}
      → find_cache all cache c vmaddr ≡ some (cache', none)
      → get_elem? all c ≡ some blocks
      → (find_blocks blocks vmaddr ≡ some none) × (cache' ≡ cache)
  unfolding find_cache
  find_cache-none cache cache' c e f = elim (Option-cases (cache.l1 (cache_index vmaddr)).insn) [
    | inl g ↦ find_and_cache-none cache cache' c (ground (arith, e, g)) f
    | inr (p, g) ↦ elim (Bool-cases ((cache.l1 (cache_index vmaddr)).vmaddr == vmaddr)) [
      | inr t ↦ find_and_cache-none cache cache' c (ground (arith, e, g, t)) f
      | inl t ↦ absurd (ground (arith, e, g, t))
    ]
  ]

  -- When `find` answers `&terminate` and its current blocks, if any, are among all blocks, `findBlocks`
  -- finds the address in none of them.
  pub find-none :
      (cache cache' : Cache) (k : ℕ) {blocks : BasicBlocks}
      → ((c : ℕ) → cache.current ≡ some c → (b : BasicBlocks) × (get_elem? all c ≡ some b))
      → find all cache vmaddr ≡ some (cache', none)
      → get_elem? all k ≡ some blocks
      → find_blocks blocks vmaddr ≡ some none
  unfolding find
  find-none cache cache' k {blocks} present e a = elim (Option-cases cache.current) [
    | inl f ↦
        others-none cache cache' 0 all k (ground (arith, e, f)) a (ap (get_elem? all) front ∙ a)
          (ap (λ o. is_current o (0 + k)) f)
    | inr (c, f) ↦ elim (Option-cases (find_cache all cache c vmaddr)) [
      | inl g ↦ absurd (ground (arith, e, f, g))
      | inr ((cache1, some insn), g) ↦ absurd (ground (arith, e, f, g))
      | inr ((cache1, none), g) ↦ elim (Bool-cases (c == k)) [
        | inl t ↦ (find_cache-none cache cache1 c g (ap (get_elem? all) ((==_iff c k).0 t) ∙ a)).0
        | inr t ↦
            let (b, h) = present c f in
            others-none cache1 cache' 0 all k (ground (arith, e, f, g)) a
              (ap (get_elem? all) front ∙ a)
              (ap (λ o. is_current o (0 + k))
                  (ap (λ x. x.current) (find_cache-none cache cache1 c g h).1 ∙ f)
                ∙ ap (λ j. c == j) front
                ∙ t)
      ]
    ]
  ]
    where
      front : 0 + k ≡ k
      front = omega arith
