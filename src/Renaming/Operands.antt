-- ===== src/Renaming/Operands.antt =====
-- `normalize_opcode` of src/UtilsAArch64.cpp: the renaming of the operands of an instruction.
use aether_vm.Prelude.{
  contains, insert, contains-insert, length-insert, ℕ, suc, ◌+◌, ◌≤◌, true, Option, none, some,
  List, [], ◌∷◌, length, ◌≡◌, refl, arith, Option-cases, inl, inr, subst,
}
use aether_vm.Cpu.{x0_reg, q0_reg}
use aether_vm.Renaming.{
  LlvmRegister, collect, gpr_number, fpu_number, one_of, renumber, rename, rename_all,
  normalize_operands,
}
use aether_vm.Renaming.Fresh.{
  count_from-le, keys, assign-IsFresh, lookup-key, IsRenaming, fresh-IsRenaming,
}

module _ (number : LlvmRegister → Option ℕ) where
  -- The numbers of all operands are in the set that the first loop fills.
  abbrev AllIn : List ℕ → List (Option LlvmRegister) → Type 0
  AllIn l [] = Unit
  AllIn l (none ∷ operands) = AllIn l operands
  AllIn l (some reg ∷ operands) =
      ((i : ℕ) → number reg ≡ some i → contains l i ≡ true) × AllIn l operands

  collect-keeps :
      (operands : List (Option LlvmRegister)) (l : List ℕ) (k : ℕ)
      → contains l k ≡ true
      → contains (collect (one_of number) operands l) k ≡ true
  unfolding collect
  collect-keeps [] l k h = h
  collect-keeps (none ∷ operands) l k h = collect-keeps operands l k h
  collect-keeps (some reg ∷ operands) l k h = elim (Option-cases (number reg)) [
    | inl e ↦ rw (e, one_of) (collect-keeps operands l k h)
    | inr (i, e) ↦
        rw (e, one_of)
          (collect-keeps operands (insert i l) k (ground (arith, h, contains-insert i l k)))
  ]

  length-collect :
      (operands : List (Option LlvmRegister)) (l : List ℕ)
      → length (collect (one_of number) operands l) ≤ length l + length operands
  unfolding collect
  length-collect [] l = omega arith
  length-collect (none ∷ operands) l = omega (arith, length-collect operands l)
  length-collect (some reg ∷ operands) l = elim (Option-cases (number reg)) [
    | inl e ↦ rw (e, one_of) (omega (arith, length-collect operands l))
    | inr (i, e) ↦
        rw (e, one_of) (omega (arith, length-collect operands (insert i l), length-insert i l))
  ]

  collect-AllIn :
      (operands : List (Option LlvmRegister)) (l : List ℕ)
      → AllIn (collect (one_of number) operands l) operands
  unfolding collect
  collect-AllIn [] l = tt
  collect-AllIn (none ∷ operands) l = collect-AllIn operands l
  collect-AllIn (some reg ∷ operands) l = elim (Option-cases (number reg)) [
    | inl e ↦
        let skipped : collect (one_of number) operands l
            ≡ collect (one_of number) (some reg ∷ operands) l =
          rw (e, one_of) refl in
        subst (λ c. AllIn c (some reg ∷ operands)) skipped ((λ i f. cc), collect-AllIn operands l)
    | inr (k, e) ↦
        let added : collect (one_of number) operands (insert k l)
            ≡ collect (one_of number) (some reg ∷ operands) l =
          rw (e, one_of) refl in
        subst (λ c. AllIn c (some reg ∷ operands)) added
          (
            λ i f.
                collect-keeps operands (insert k l) i (ground (arith, e, f, contains-insert k l i)),
            collect-AllIn operands (insert k l),
          )
  ]

rename-total :
    (regmaps fpumaps : List (ℕ × ℕ)) (reg : LlvmRegister)
    → ((i : ℕ) → gpr_number reg ≡ some i → contains (keys regmaps) i ≡ true)
    → ((i : ℕ) → fpu_number reg ≡ some i → contains (keys fpumaps) i ≡ true)
    → (reg' : LlvmRegister) × (rename regmaps fpumaps reg ≡ some reg')
unfolding rename
rename-total regmaps fpumaps reg g f = elim (Option-cases (gpr_number reg)) [
  | inr (i, e) ↦
      let (v, found) = lookup-key regmaps i (g i e) in (renumber reg v, rw (rename, e, found) refl)
  | inl e ↦ elim (Option-cases (fpu_number reg)) [
    | inr (i, k) ↦
        let (v, found) = lookup-key fpumaps i (f i k) in
        (renumber reg v, rw (rename, e, k, found) refl)
    | inl k ↦ (reg, rw (rename, e, k) refl)
  ]
]

rename_all-total :
    (regmaps fpumaps : List (ℕ × ℕ)) (operands : List (Option LlvmRegister))
    → AllIn gpr_number (keys regmaps) operands
    → AllIn fpu_number (keys fpumaps) operands
    → (renamed : List (Option LlvmRegister)) × (rename_all regmaps fpumaps operands ≡ some renamed)
unfolding rename_all
rename_all-total regmaps fpumaps [] g f = ([], refl)
rename_all-total regmaps fpumaps (none ∷ operands) g f =
    let (rest, done) = rename_all-total regmaps fpumaps operands g f in (none ∷ rest, rw done refl)
rename_all-total regmaps fpumaps (some reg ∷ operands) g f =
    let (reg', one) = rename-total regmaps fpumaps reg g.0 f.0 in
    let (rest, done) = rename_all-total regmaps fpumaps operands g.1 f.1 in
    (some reg' ∷ rest, rw (one, done) refl)

-- The two maps that normalize_opcode makes of the registers of an instruction, and what it makes of the
-- operands with them: the searches end, no look-up misses, every operand is renamed through the maps, and
-- each map takes different registers to different ones, which are not among the used ones and lie below
-- the number of used registers and operands.
pub normalize_operands-IsRenaming :
    (used : List ℕ) (operands : List (Option LlvmRegister))
    → (regmaps fpumaps : List (ℕ × ℕ)) × (renamed : List (Option LlvmRegister))
      × (normalize_operands used operands ≡ some renamed)
      × (rename_all regmaps fpumaps operands ≡ some renamed)
      × IsRenaming used x0_reg (length used + length operands) regmaps
      × IsRenaming used q0_reg (length used + length operands) fpumaps
unfolding normalize_operands
normalize_operands-IsRenaming used operands =
    let gprs = collect (one_of gpr_number) operands [] in
    let fpus = collect (one_of fpu_number) operands [] in
    let hi = length used + length operands in
    let (regmaps, made, of_gprs, fresh) =
      assign-IsFresh (suc (length used)) used x0_reg 0 hi gprs (omega arith)
        (omega (arith, count_from-le used (x0_reg + 0), length-collect gpr_number operands [])) in
    let (fpumaps, made', of_fpus, fresh') =
      assign-IsFresh (suc (length used)) used q0_reg 0 hi fpus (omega arith)
        (omega (arith, count_from-le used (q0_reg + 0), length-collect fpu_number operands [])) in
    let (renamed, done) =
      rename_all-total regmaps fpumaps operands (rw of_gprs (collect-AllIn gpr_number operands []))
        (rw of_fpus (collect-AllIn fpu_number operands [])) in
    (
      regmaps,
      fpumaps,
      renamed,
      rw (made, made', done) refl,
      done,
      fresh-IsRenaming used x0_reg hi regmaps fresh,
      fresh-IsRenaming used q0_reg hi fpumaps fresh',
    )
