-- ===== src/Interp/Cache.antt =====
-- The cache of the next instruction: `vmEntry` and the constructor of `RuntimeMetaData`.
use aether_vm.Prelude.{
  get_elem?-some_lt, ℕ, zero, suc, ◌+◌, ◌^◌, ◌<◌, none, some, List, length, get_elem?, set, ltb,
  ◌==◌, ◌≡◌, refl, sym, ap, ◌∙◌, ◌≢◌, ◌⊎◌, arith, ==_iff, Bool-cases, Option-cases, inl, inr,
  get_elem?-set_ne, get_elem?-set_self, get_elem?-none, length-set, get_elem?-some, subst, ltb→lt,
}
use aether_vm.Search.Bound.{IsAscending}
use aether_vm.Interp.{InsnMeta, Runtime, rvas, find_insn, look, look_up, resolve, sequential}
use aether_vm.Interp.Find.{find_insn_complete, key_of-offset}
use aether_vm.Interp.Resolve.{IsInside, resolve_sound}

-- Every instruction has a cache entry, which is the index of an instruction unless it is that of the
-- last instruction.
abbrev pub IsCache : Runtime → Type 0
IsCache rt =
    (length rt.nexticache ≡ length rt.insns)
    × ((i c : ℕ)
        → suc i < length rt.insns
        → get_elem? rt.nexticache i ≡ some c
        → c < length rt.insns)

look_up-keeps :
    (rt rt' : Runtime) (pc j : ℕ)
    → look_up rt pc ≡ some (rt', j)
    → rt' ≡ record rt { nexticache = set rt.nexticache j j }
unfolding look_up
look_up-keeps rt rt' pc j h = elim (Option-cases (find_insn rt pc)) [
  | inl e ↦ absurd (ground (arith, e, h))
  | inr (none, e) ↦ absurd (ground (arith, e, h))
  | inr (some i, e) ↦ ground (arith, e, h)
]

-- A step leaves the binary as it is, or writes the one cache entry of its target.
resolve_writes :
    (rt rt' : Runtime) (insn pc j : ℕ)
    → resolve rt insn pc ≡ some (rt', j)
    → (rt' ≡ rt) ⊎ (rt' ≡ record rt { nexticache = set rt.nexticache j j })
unfolding resolve look
resolve_writes rt rt' insn pc j h = elim (Option-cases (get_elem? rt.insns (insn + 1))) [
  | inl e ↦ absurd (ground (arith, e, h))
  | inr (g, e) ↦ elim (Bool-cases (rt.rtbase + g.rva == pc)) [
    | inl t ↦ inl (ground (arith, e, t, h))
    | inr t ↦ elim (Option-cases (get_elem? rt.nexticache insn)) [
      | inl e' ↦ absurd (ground (arith, e, t, e', h))
      | inr (c, e') ↦ elim (Option-cases (get_elem? rt.insns c)) [
        | inl f ↦ absurd (ground (arith, e, t, e', f, h))
        | inr (g', f) ↦ elim (Bool-cases (rt.rtbase + g'.rva == pc)) [
          | inl t' ↦ inl (ground (arith, e, t, e', f, t', h))
          | inr t' ↦ inr (look_up-keeps rt rt' pc j (ground (arith, e, t, e', f, t', h)))
        ]
      ]
    ]
  ]
]

-- A step to another instruction never changes the cache entry of the instruction it left: what a lookup
-- found is not remembered for the instruction that needed it.
pub resolve-source_entry :
    (rt rt' : Runtime) (insn pc j : ℕ)
    → resolve rt insn pc ≡ some (rt', j)
    → j ≢ insn
    → get_elem? rt'.nexticache insn ≡ get_elem? rt.nexticache insn
resolve-source_entry rt rt' insn pc j h d = elim (resolve_writes rt rt' insn pc j h) [
  | inl e ↦ ap (λ r. get_elem? r.nexticache insn) e
  | inr e ↦ ap (λ r. get_elem? r.nexticache insn) e ∙ get_elem?-set_ne rt.nexticache j d
]

set-bounded :
    (l : List ℕ) (j b : ℕ)
    → j < b
    → ((i c : ℕ) → suc i < b → get_elem? l i ≡ some c → c < b)
    → (i c : ℕ) → suc i < b
    → get_elem? (set l j j) i ≡ some c
    → c < b
set-bounded l j b p all i c u e = elim (Bool-cases (j == i)) [
  | inr t ↦ all i c u (sym (get_elem?-set_ne l j (λ s. ground (arith, s, t))) ∙ e)
  | inl t ↦ let same : j ≡ i = (==_iff j i).0 t in written same
]
  where
    written : j ≡ i → c < b
    written same = elim (Bool-cases (ltb j (length l))) [
      | inl q ↦ ground (
        arith,
        p,
        e,
        ap (get_elem? (set l j j)) same ∙ e,
        get_elem?-set_self l j j (ltb→lt j (length l) q),
      )
      | inr q ↦ absurd (
          ground (
            arith,
            e,
            sym same,
            get_elem?-none (set l j j) i (rw (length-set l j j) (ground (arith, same, q))),
          ))
    ]

-- A step for a pc inside the binary keeps the cache well formed.
pub resolve-IsCache :
    (rt rt' : Runtime) (insn pc j : ℕ)
    → IsInside rt pc
    → IsCache rt
    → resolve rt insn pc ≡ some (rt', j)
    → IsCache rt'
resolve-IsCache rt rt' insn pc j inside (n, all) h = elim (resolve_writes rt rt' insn pc j h) [
  | inl e ↦ subst IsCache (sym e) (n, all)
  | inr e ↦
      let (x, f, _) = resolve_sound rt rt' insn pc j inside h in
      subst IsCache (sym e) (
        length-set rt.nexticache j j ∙ n,
        set-bounded rt.nexticache j (length rt.insns) (get_elem?-some_lt rt.insns j f) all,
      )
]

look_up_complete :
    (rt : Runtime) (i : ℕ) {x : InsnMeta}
    → IsAscending (rvas rt.insns)
    → get_elem? rt.insns i ≡ some x
    → rt.rtbase + x.rva < 2 ^ 64
    → x.rva < 2 ^ 32
    → look_up rt (rt.rtbase + x.rva) ≡ some (record rt { nexticache = set rt.nexticache i i }, i)
unfolding look_up
look_up_complete rt i {x} h e p q =
    rw (find_insn_complete rt (rt.rtbase + x.rva) i h e (key_of-offset rt x.rva p q)) refl

-- With a well-formed cache and sorted instructions, a step to the address of an instruction from one
-- that is not the last goes on with some instruction: no array is read out of range and no assertion
-- fails.
pub resolve-total :
    (rt : Runtime) (insn i : ℕ) {x : InsnMeta}
    → IsAscending (rvas rt.insns)
    → IsCache rt
    → insn + 1 < length rt.insns
    → get_elem? rt.insns i ≡ some x
    → rt.rtbase + x.rva < 2 ^ 64
    → x.rva < 2 ^ 32
    → (rt' : Runtime) × (j : ℕ) × (resolve rt insn (rt.rtbase + x.rva) ≡ some (rt', j))
unfolding resolve look
resolve-total rt insn i {x} h (n, all) r e p q =
    let pc = rt.rtbase + x.rva in
    let (g, f) = get_elem?-some rt.insns (insn + 1) r in
    elim (Bool-cases (rt.rtbase + g.rva == pc)) [
      | inl t ↦ (rt, insn + 1, rw (f, t) refl)
      | inr t ↦
          let (c, k) = get_elem?-some rt.nexticache insn (omega (arith, n, r)) in
          let (g', f') = get_elem?-some rt.insns c (all insn c (omega (arith, r)) k) in
          elim (Bool-cases (rt.rtbase + g'.rva == pc)) [
            | inl t' ↦ (rt, c, rw (f, t, k, f', t') refl)
            | inr t' ↦ (
              record rt { nexticache = set rt.nexticache i i },
              i,
              rw (f, t, k, f', t') (look_up_complete rt i h e p q),
            )
          ]
    ]

-- The constructor's cache
pub sequential-length : (i n : ℕ) → length (sequential i n) ≡ n
unfolding sequential
sequential-length i zero = refl
sequential-length i (suc n) = ap suc (sequential-length (suc i) n)

-- The constructor's cache sends each instruction to the one that follows it; the last entry is the
-- number of instructions, which is no instruction.
pub sequential-next : (i n k : ℕ) → k < n → get_elem? (sequential i n) k ≡ some (suc (i + k))
unfolding sequential
sequential-next i zero k p = absurd (omega arith)
sequential-next i (suc n) zero p = ground arith
sequential-next i (suc n) (suc k) p = ground (arith, sequential-next (suc i) n k (omega arith))

-- The cache that the constructor fills is well formed.
pub sequential-IsCache :
    (insns : List InsnMeta) (rtbase rtend : ℕ)
    → IsCache (record {
      insns = insns;
      nexticache = sequential 0 (length insns);
      rtbase = rtbase;
      rtend = rtend;
    })
sequential-IsCache insns rtbase rtend = (sequential-length 0 (length insns), bounded)
  where
    bounded :
        (i c : ℕ)
        → suc i < length insns
        → get_elem? (sequential 0 (length insns)) i ≡ some c
        → c < length insns
    bounded i c u e = ground (arith, u, e, sequential-next 0 (length insns) i (omega (arith, u)))
