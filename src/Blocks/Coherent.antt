-- ===== src/Blocks/Coherent.antt =====
-- `Orchestrator::find` with its caches against the lookup without them.
use aether_vm.Prelude.{
  ℕ, suc, Bool, true, false, Option, none, some, List, [], ◌∷◌, get_elem?, ◌==◌, if◌then◌else◌, ◌≡◌,
  subst, arith, ==_iff, Bool-cases, Option-cases, inl, inr,
}
use aether_vm.Blocks.{BasicBlocks, find_blocks}
use aether_vm.Blocks.Cache.{
  Entry, Cache, no_cache, cache_index, remember, find_and_cache, find_cache, find_others, find,
  is_current,
}

-- What `findBlocks` answers without a cache
abbrev pub IsAnswer : List BasicBlocks → ℕ → ℕ × ℕ → Type 0
IsAnswer all vmaddr insn =
    (blocks : BasicBlocks) × (get_elem? all insn.0 ≡ some blocks)
    × (find_blocks blocks vmaddr ≡ some (some insn.1))

-- Every entry of L1 holds what `findBlocks` answers for its address.
abbrev pub IsCoherent : List BasicBlocks → Cache → Type 0
IsCoherent all cache =
    (index : ℕ) (insn : ℕ × ℕ)
    → (cache.l1 index).insn ≡ some insn
    → IsAnswer all (cache.l1 index).vmaddr insn

abbrev pub IsSound : List BasicBlocks → ℕ → Cache × Option (ℕ × ℕ) → Type 0
IsSound all vmaddr result =
    IsCoherent all result.0 × ((insn : ℕ × ℕ) → result.1 ≡ some insn → IsAnswer all vmaddr insn)

pub no_cache-IsCoherent : (all : List BasicBlocks) → IsCoherent all no_cache
unfolding no_cache
no_cache-IsCoherent all index insn h = absurd (ground (arith, h))

-- An entry holds what `findBlocks` answers for its address.
abbrev IsTrue : List BasicBlocks → Entry → Type 0
IsTrue all entry = (insn : ℕ × ℕ) → entry.insn ≡ some insn → IsAnswer all entry.vmaddr insn

if-IsTrue :
    (all : List BasicBlocks) (b : Bool) (new old : Entry)
    → IsTrue all new
    → IsTrue all old
    → IsTrue all (if b then new else old)
if-IsTrue all true new old h k = h
if-IsTrue all false new old h k = k

module _ (all : List BasicBlocks) (vmaddr : ℕ) where
  remember-IsCoherent :
      (cache : Cache) (insn : ℕ × ℕ)
      → IsCoherent all cache
      → IsAnswer all vmaddr insn
      → IsCoherent all (remember cache vmaddr insn)
  unfolding remember
  remember-IsCoherent cache insn h a index =
      if-IsTrue all (index == cache_index vmaddr) (record { vmaddr = vmaddr; insn = some insn })
        (cache.l1 index) (λ other e. subst (IsAnswer all vmaddr) (ground (arith, e)) a) (h index)

  find_and_cache-IsSound :
      (cache : Cache) (c : ℕ) {result : Cache × Option (ℕ × ℕ)}
      → IsCoherent all cache
      → find_and_cache all cache c vmaddr ≡ some result
      → IsSound all vmaddr result
  unfolding find_and_cache
  find_and_cache-IsSound cache c {result} h e = elim (Option-cases (get_elem? all c)) [
    | inl f ↦ absurd (ground (arith, e, f))
    | inr (blocks, f) ↦ elim (Option-cases (find_blocks blocks vmaddr)) [
      | inl g ↦ absurd (ground (arith, e, f, g))
      | inr (none, g) ↦
          let same : (cache, none) ≡ result = ground (arith, e, f, g) in
          subst (IsSound all vmaddr) same (h, λ insn n. absurd (ground (arith, n)))
      | inr (some p, g) ↦
          let same : (remember cache vmaddr (c, p), some (c, p)) ≡ result =
            ground (arith, e, f, g) in
          subst (IsSound all vmaddr) same (
            remember-IsCoherent cache (c, p) h (blocks, f, g),
            λ insn n. answer blocks p insn f g n,
          )
    ]
  ]
    where
      answer :
          (blocks : BasicBlocks) (p : ℕ) (insn : ℕ × ℕ)
          → get_elem? all c ≡ some blocks
          → find_blocks blocks vmaddr ≡ some (some p)
          → some (c, p) ≡ some insn
          → IsAnswer all vmaddr insn
      answer blocks p insn f g n = subst (IsAnswer all vmaddr) (ground (arith, n)) (blocks, f, g)

  find_cache-IsSound :
      (cache : Cache) (c : ℕ) {result : Cache × Option (ℕ × ℕ)}
      → IsCoherent all cache
      → find_cache all cache c vmaddr ≡ some result
      → IsSound all vmaddr result
  unfolding find_cache
  find_cache-IsSound cache c {result} h e =
      elim (Option-cases (cache.l1 (cache_index vmaddr)).insn) [
        | inl f ↦ find_and_cache-IsSound cache c {result = result} h (ground (arith, e, f))
        | inr (p, f) ↦ elim (Bool-cases ((cache.l1 (cache_index vmaddr)).vmaddr == vmaddr)) [
          | inr g ↦ find_and_cache-IsSound cache c {result = result} h (ground (arith, e, f, g))
          | inl g ↦
              let same : (cache, some p) ≡ result = ground (arith, e, f, g) in
              subst (IsSound all vmaddr) same (
                h,
                λ insn n. subst (IsAnswer all vmaddr) (ground (arith, n)) (
                    subst (λ v. IsAnswer all v p)
                      ((==_iff (cache.l1 (cache_index vmaddr)).vmaddr vmaddr).0 g)
                      (h (cache_index vmaddr) p f)),
              )
        ]
      ]

  entered-IsSound :
      (cache : Cache) (c : Option ℕ) (insn : ℕ × ℕ)
      → IsSound all vmaddr (cache, some insn)
      → IsSound all vmaddr (record cache { current = c }, some insn)
  entered-IsSound cache c insn h = h

  find_others-IsSound :
      (cache : Cache) (c : ℕ) (todo : List BasicBlocks) {result : Cache × Option (ℕ × ℕ)}
      → IsCoherent all cache
      → find_others all cache vmaddr c todo ≡ some result
      → IsSound all vmaddr result
  unfolding find_others
  find_others-IsSound cache c [] {result} h e =
      let same : (cache, none) ≡ result = ground (arith, e) in
      subst (IsSound all vmaddr) same (h, λ insn n. absurd (ground (arith, n)))
  find_others-IsSound cache c (blocks ∷ todo) {result} h e =
      elim (Bool-cases (is_current cache.current c)) [
        | inl f ↦ find_others-IsSound cache (suc c) todo {result = result} h (ground (arith, e, f))
        | inr f ↦ elim (Option-cases (find_and_cache all cache c vmaddr)) [
          | inl g ↦ absurd (ground (arith, e, f, g))
          | inr ((cache', none), g) ↦
              find_others-IsSound cache (suc c) todo {result = result} h (ground (arith, e, f, g))
          | inr ((cache', some insn), g) ↦
              let same : (record cache' { current = some c }, some insn) ≡ result =
                ground (arith, e, f, g) in
              subst (IsSound all vmaddr) same (
                entered-IsSound cache' (some c) insn
                  (find_and_cache-IsSound cache c {result = (cache', some insn)} h g))
        ]
      ]

  -- With a coherent cache, whatever `find` answers is what `findBlocks` answers for some blocks, and the
  -- cache is coherent after it.
  pub find-IsSound :
      (cache : Cache) {result : Cache × Option (ℕ × ℕ)}
      → IsCoherent all cache
      → find all cache vmaddr ≡ some result
      → IsSound all vmaddr result
  unfolding find
  find-IsSound cache {result} h e = elim (Option-cases cache.current) [
    | inl f ↦ find_others-IsSound cache 0 all {result = result} h (ground (arith, e, f))
    | inr (c, f) ↦ elim (Option-cases (find_cache all cache c vmaddr)) [
      | inl g ↦ absurd (ground (arith, e, f, g))
      | inr ((cache', none), g) ↦
          find_others-IsSound cache' 0 all {result = result}
            (find_cache-IsSound cache c {result = (cache', none)} h g).0 (ground (arith, e, f, g))
      | inr ((cache', some insn), g) ↦
          let same : (cache', some insn) ≡ result = ground (arith, e, f, g) in
          subst (IsSound all vmaddr) same
            (find_cache-IsSound cache c {result = (cache', some insn)} h g)
    ]
  ]
