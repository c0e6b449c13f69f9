-- ===== src/Renaming/Generate.antt =====
-- The generators of src/UtilsAArch64.cpp: `opcode_generator`, which goes through the opcodes and keeps those
-- of the classes that cannot be lifted, and the loop of `opcret_generator` over the file that it writes.
-- An opcode is disassembled to its LLVM opcode, the class here, and its operands.
use aether_vm.Prelude.{
  contains, insert, contains-insert, ℕ, suc, ◌+◌, Bool, true, false, ◌||◌, Option, none, some, List,
  [], ◌∷◌, ◌++◌, length, ◌==◌, if◌then◌else◌, ◌≡◌, ◌⊎◌, refl, arith, Bool-cases, Option-cases, inl,
  inr,
}
use aether_vm.Word.Bytes.{le_bytes}
use aether_vm.Search.{◌>>=◌}
use aether_vm.Cpu.{x0_reg}
use aether_vm.Renaming.{LlvmRegister, parse_regused, normalize_opcode}
use aether_vm.Renaming.Operands.{normalize_operands-IsRenaming}

pub record Generator : Type 0 where
  pub opcodes : List ℕ
  pub canopc : List ℕ
  pub cannot : List ℕ

-- X18, X26, X27, X30 and X31
unfoldable pub reserved : List ℕ → Bool
reserved used =
    contains used (x0_reg + 18)
    || contains used (x0_reg + 26)
    || contains used (x0_reg + 27)
    || contains used (x0_reg + 30)
    || contains used (x0_reg + 31)

module _ (disassemble : ℕ → Option (ℕ × List (Option LlvmRegister))) (is_pseudo : ℕ → Bool)
    (assemble : ℕ → List (Option LlvmRegister) → Option ℕ) (can_lift : ℕ → Bool) where
  -- The end of a round: the normalized opcode is kept.
  unfoldable pub keep : Generator → ℕ → ℕ → List (Option LlvmRegister) → Option Generator
  keep g opcode opc operands =
      normalize_opcode (assemble opc) (parse_regused operands) operands opcode >>= λ new.
      some (record g { opcodes = insert new g.opcodes })

  -- The round of one opcode, once it is disassembled
  unfoldable pub generate_decoded :
      Generator → ℕ → ℕ → List (Option LlvmRegister) → Option Generator
  generate_decoded g opcode opc operands =
      if is_pseudo opc
      then some g
      else if contains g.canopc opc
      then some g
      else if reserved (parse_regused operands)
      then some g
      else if contains g.cannot opc
      then keep g opcode opc operands
      else if can_lift opcode
      then some (record g { canopc = insert opc g.canopc })
      else keep (record g { cannot = insert opc g.cannot }) opcode opc operands

  unfoldable pub generate_step : Generator → ℕ → Option Generator
  generate_step g opcode = elim (disassemble opcode) [
    | none ↦ some g
    | some inst ↦ generate_decoded g opcode inst.0 inst.1
  ]

  -- opcode_generator, over the opcodes of its range
  unfoldable pub generate : Generator → List ℕ → Option Generator
  generate g [] = some g
  generate g (opcode ∷ range) = generate_step g opcode >>= λ g'. generate g' range

  -- No class is both liftable and not.
  abbrev pub IsSplit : Generator → Type 0
  IsSplit g = (opc : ℕ) → contains g.canopc opc ≡ true → contains g.cannot opc ≡ false

  normalize-total :
      (opc opcode : ℕ) (used : List ℕ) (operands : List (Option LlvmRegister))
      → (new : ℕ) × (normalize_opcode (assemble opc) used operands opcode ≡ some new)
  unfolding normalize_opcode
  normalize-total opc opcode used operands =
      let (regmaps, fpumaps, renamed, done, through, gprs, fpus) =
        normalize_operands-IsRenaming used operands in
      elim (Option-cases (assemble opc renamed)) [
        | inl e ↦ (opcode, rw (done, e) refl)
        | inr (new, e) ↦ (new, rw (done, e) refl)
      ]

  keep-IsSplit :
      (g : Generator) (opcode opc : ℕ) (operands : List (Option LlvmRegister))
      → IsSplit g
      → (g' : Generator) × (keep g opcode opc operands ≡ some g') × IsSplit g'
  unfolding keep
  keep-IsSplit g opcode opc operands h =
      let (new, e) = normalize-total opc opcode (parse_regused operands) operands in
      (record g { opcodes = insert new g.opcodes }, rw e refl, h)

  decoded-IsSplit :
      (g : Generator) (opcode opc : ℕ) (operands : List (Option LlvmRegister))
      → IsSplit g
      → (g' : Generator) × (generate_decoded g opcode opc operands ≡ some g') × IsSplit g'
  unfolding generate_decoded
  decoded-IsSplit g opcode opc operands h = elim (Bool-cases (is_pseudo opc)) [
    | inl e ↦ (g, rw e refl, h)
    | inr e ↦ elim (Bool-cases (contains g.canopc opc)) [
      | inl f ↦ (g, rw (e, f) refl, h)
      | inr f ↦ elim (Bool-cases (reserved (parse_regused operands))) [
        | inl k ↦ (g, rw (e, f, k) refl, h)
        | inr k ↦ elim (Bool-cases (contains g.cannot opc)) [
          | inl l ↦
              let (g', made, split) = keep-IsSplit g opcode opc operands h in
              (g', rw (e, f, k, l) made, split)
          | inr l ↦ elim (Bool-cases (can_lift opcode)) [
            | inl m ↦ (
              record g { canopc = insert opc g.canopc },
              rw (e, f, k, l, m) refl,
              λ other c. liftable other (Bool-cases (opc == other)) l c,
            )
            | inr m ↦
                let (g', made, split) =
                  keep-IsSplit (record g { cannot = insert opc g.cannot }) opcode opc operands
                    (λ other c. other_class other f c) in
                (g', rw (e, f, k, l, m) made, split)
          ]
        ]
      ]
    ]
  ]
    where
      liftable :
          (other : ℕ)
          → ((opc == other) ≡ true) ⊎ ((opc == other) ≡ false)
          → contains g.cannot opc ≡ false
          → contains (insert opc g.canopc) other ≡ true
          → contains g.cannot other ≡ false
      liftable other (inl same) l c = ground (arith, same, l)
      liftable other (inr differs) l c =
          h other (ground (arith, differs, c, contains-insert opc g.canopc other))

      other_class :
          (other : ℕ)
          → contains g.canopc opc ≡ false
          → contains g.canopc other ≡ true
          → contains (insert opc g.cannot) other ≡ false
      other_class other f c = ground (arith, f, c, h other c, contains-insert opc g.cannot other)

  -- The generator goes through any opcodes without a missing register, and never has a class of
  -- instructions among both those that can be lifted and those that cannot.
  pub generate-IsSplit :
      (range : List ℕ) (g : Generator)
      → IsSplit g
      → (g' : Generator) × (generate g range ≡ some g') × IsSplit g'
  unfolding generate generate_step
  generate-IsSplit [] g h = (g, refl, h)
  generate-IsSplit (opcode ∷ range) g h = elim (Option-cases (disassemble opcode)) [
    | inl e ↦
        let (g', made, split) = generate-IsSplit range g h in
        (g', rw (e, generate_step) made, split)
    | inr (inst, e) ↦
        let (g1, one, split1) = decoded-IsSplit g opcode inst.0 inst.1 h in
        let (g', made, split) = generate-IsSplit range g1 split1 in
        (g', rw (e, generate_step, one) made, split)
  ]

-- The file that opcode_generator writes
abbrev pub opcode_file : List ℕ → List ℕ
opcode_file [] = []
opcode_file (opcode ∷ opcodes) = le_bytes 4 opcode ++ opcode_file opcodes

-- insn_ret, 0xD65F03C0
abbrev pub ret_bytes : List ℕ
ret_bytes = le_bytes 4 3596551104

-- The loop of opcret_generator: what it writes, and the count
unfoldable pub opcret : List ℕ → List ℕ × ℕ
opcret (a ∷ b ∷ c ∷ d ∷ file) =
    let rest = opcret file in ((a ∷ b ∷ c ∷ d ∷ []) ++ (ret_bytes ++ rest.0), suc rest.1)
opcret _ = ([], 0)

abbrev pub with_ret : List ℕ → List ℕ
with_ret [] = []
with_ret (opcode ∷ opcodes) = le_bytes 4 opcode ++ (ret_bytes ++ with_ret opcodes)

-- From the file of the opcodes, every opcode is written with a return behind it, and all are counted.
pub opcret-opcode_file :
    (opcodes : List ℕ) → opcret (opcode_file opcodes) ≡ (with_ret opcodes, length opcodes)
unfolding opcret
opcret-opcode_file [] = refl
opcret-opcode_file (opcode ∷ opcodes) = rw (opcret-opcode_file opcodes) refl
