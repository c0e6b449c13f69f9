-- ===== src/Interp/Resolve.antt =====
-- The step of `vmEntry` to the next instruction inside a binary.
use aether_vm.Prelude.{
  ℕ, ◌+◌, ◌^◌, ◌≤◌, ◌<◌, none, some, get_elem?, ◌==◌, ◌≡◌, sym, ap, ◌∙◌, arith, ==_iff, Bool-cases,
  Option-cases, inl, inr,
}
use aether_vm.Word.{sub64}
use aether_vm.Interp.{InsnMeta, Runtime, key_of, find_insn, look, look_up, resolve}
use aether_vm.Interp.Find.{find_insn_sound}

-- The pc lies in the binary, which is at most 4 GB long and ends below 2^64.
abbrev pub IsInside : Runtime → ℕ → Type 0
IsInside rt pc =
    (rt.rtbase ≤ pc) × (pc < rt.rtend) × (rt.rtend ≤ 2 ^ 64) × (rt.rtend ≤ rt.rtbase + 2 ^ 32)

-- The address of an instruction
abbrev pub IsAt : Runtime → ℕ → ℕ → Type 0
IsAt rt j pc = (x : InsnMeta) × (get_elem? rt.insns j ≡ some x) × (rt.rtbase + x.rva ≡ pc)

key_of-inside : (rt : Runtime) (pc : ℕ) → IsInside rt pc → rt.rtbase + key_of rt pc ≡ pc
unfolding key_of sub64
key_of-inside rt pc (a, b, c, d) = omega arith

look_up_sound :
    (rt rt' : Runtime) (pc j : ℕ) → IsInside rt pc → look_up rt pc ≡ some (rt', j) → IsAt rt j pc
unfolding look_up
look_up_sound rt rt' pc j inside h = elim (Option-cases (find_insn rt pc)) [
  | inl e ↦ absurd (ground (arith, e, h))
  | inr (none, e) ↦ absurd (ground (arith, e, h))
  | inr (some i, e) ↦
      let same : i ≡ j = ground (arith, e, h) in
      let (x, f, k) = find_insn_sound rt pc i e in
      (
        x,
        sym (ap (get_elem? rt.insns) same) ∙ f,
        ap (λ r. rt.rtbase + r) k ∙ key_of-inside rt pc inside,
      )
]

look_sound :
    (rt rt' : Runtime) (insn pc j : ℕ)
    → IsInside rt pc
    → look rt insn pc ≡ some (rt', j)
    → IsAt rt j pc
unfolding look
look_sound rt rt' insn pc j inside h = elim (Option-cases (get_elem? rt.nexticache insn)) [
  | inl e ↦ absurd (ground (arith, e, h))
  | inr (c, e) ↦ elim (Option-cases (get_elem? rt.insns c)) [
    | inl f ↦ absurd (ground (arith, e, f, h))
    | inr (g, f) ↦ elim (Bool-cases (rt.rtbase + g.rva == pc)) [
      | inl t ↦
          let same : c ≡ j = ground (arith, e, f, t, h) in
          (g, sym (ap (get_elem? rt.insns) same) ∙ f, (==_iff (rt.rtbase + g.rva) pc).0 t)
      | inr t ↦ look_up_sound rt rt' pc j inside (ground (arith, e, f, t, h))
    ]
  ]
]

-- For a pc inside the binary, whatever the cache holds, the instruction that the step goes on with lies
-- at the pc.
pub resolve_sound :
    (rt rt' : Runtime) (insn pc j : ℕ)
    → IsInside rt pc
    → resolve rt insn pc ≡ some (rt', j)
    → IsAt rt j pc
unfolding resolve
resolve_sound rt rt' insn pc j inside h = elim (Option-cases (get_elem? rt.insns (insn + 1))) [
  | inl e ↦ absurd (ground (arith, e, h))
  | inr (g, e) ↦ elim (Bool-cases (rt.rtbase + g.rva == pc)) [
    | inl t ↦
        let same : insn + 1 ≡ j = ground (arith, e, t, h) in
        (g, sym (ap (get_elem? rt.insns) same) ∙ e, (==_iff (rt.rtbase + g.rva) pc).0 t)
    | inr t ↦ look_sound rt rt' insn pc j inside (ground (arith, e, t, h))
  ]
]
