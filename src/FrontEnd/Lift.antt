-- ===== src/FrontEnd/Lift.antt =====
-- BinaryEngine::liftOpcodes of src/AetherVM.cpp: the instructions of a section.
use aether_vm.Prelude.{
  ℕ, zero, suc, ◌+◌, ◌≤◌, ◌<◌, Bool, true, false, some, List, [], ◌∷◌, ltb, ◌==◌, if◌then◌else◌,
  ◌≡◌, refl, ◌≢◌, arith, Bool-cases, inl, inr,
}
use aether_vm.Word.{add64}
use aether_vm.Blocks.Encode.{ArchType, arm64, x86_64}
use aether_vm.FrontEnd.{Piece, lift_arm64, lift_x86, lift_opcodes}

-- What stands at an offset: the bytes that it takes, and whether it is an instruction
abbrev pub decoded : ArchType → ℕ → (ℕ → ℕ) → ℕ → ℕ × Bool
decoded arm64 default_size disassemble offset = (4, disassemble offset == 4)
decoded x86_64 default_size disassemble offset =
    let invalid = disassemble offset == 0 in
    (if invalid then default_size else disassemble offset, if invalid then false else true)

abbrev pub piece_at : (ℕ → ℕ × Bool) → ℕ → ℕ → Piece
piece_at what addr offset = record {
  offset = offset;
  oplen = (what offset).0;
  vmaddr = add64 addr offset;
  is_lifted = (what offset).1;
}

-- The pieces follow each other from an offset on, each begins inside the section, and the last one ends
-- at the section's end or behind it.
abbrev pub IsTiling : (ℕ → ℕ × Bool) → ℕ → ℕ → ℕ → List Piece → Type 0
IsTiling what addr size offset [] = size ≤ offset
IsTiling what addr size offset (p ∷ pieces) =
    (offset < size)
    × (p ≡ piece_at what addr offset)
    × IsTiling what addr size (offset + (what offset).0) pieces

arm64-IsTiling :
    (default_size : ℕ) (disassemble : ℕ → ℕ) (addr size fuel offset : ℕ)
    → size ≤ offset + fuel
    → (pieces : List Piece) × (lift_arm64 (suc fuel) disassemble addr size offset ≡ some pieces)
      × IsTiling (decoded arm64 default_size disassemble) addr size offset pieces
unfolding lift_arm64
arm64-IsTiling default_size disassemble addr size zero offset h =
    ([], ground (arith, h), omega (arith, h))
arm64-IsTiling default_size disassemble addr size (suc fuel) offset h =
    elim (Bool-cases (ltb offset size)) [
      | inl e ↦
          let (rest, done, tiles) =
            arm64-IsTiling default_size disassemble addr size fuel (offset + 4)
              (omega (arith, h)) in
          (
            piece_at (decoded arm64 default_size disassemble) addr offset ∷ rest,
            rw (e, lift_arm64, done) refl,
            (ground (arith, e), refl, tiles),
          )
      | inr e ↦ ([], rw (e, lift_arm64) refl, ground (arith, e))
    ]

x86-IsTiling :
    (default_size : ℕ) (disassemble : ℕ → ℕ) (addr size : ℕ)
    → default_size ≢ 0
    → (fuel offset : ℕ) → size ≤ offset + fuel
    → (pieces : List Piece) × (lift_x86 (suc fuel) default_size disassemble addr size offset
        ≡ some pieces)
      × IsTiling (decoded x86_64 default_size disassemble) addr size offset pieces
unfolding lift_x86
x86-IsTiling default_size disassemble addr size positive zero offset h =
    ([], ground (arith, h), omega (arith, h))
x86-IsTiling default_size disassemble addr size positive (suc fuel) offset h =
    elim (Bool-cases (ltb offset size)) [
      | inl e ↦
          let step = (decoded x86_64 default_size disassemble offset).0 in
          let ahead : 0 < step = ground (arith, positive) in
          let (rest, done, tiles) =
            x86-IsTiling default_size disassemble addr size positive fuel (offset + step)
              (omega (arith, h, ahead)) in
          (
            piece_at (decoded x86_64 default_size disassemble) addr offset ∷ rest,
            rw (e, lift_x86, done) refl,
            (ground (arith, e), refl, tiles),
          )
      | inr e ↦ ([], rw (e, lift_x86) refl, ground (arith, e))
    ]

-- Where the size that an invalid x86 instruction is skipped by is not 0, liftOpcodes ends, and goes through
-- the section without a gap: by four bytes on ARM64 and by the length of the decoded instruction on x86,
-- from its begin to its end or past it, and reports as invalid exactly what cannot be decoded.
pub lift_opcodes-IsTiling :
    (arch : ArchType) (default_size : ℕ) (disassemble : ℕ → ℕ) (addr size : ℕ)
    → default_size ≢ 0
    → (pieces : List Piece) × (lift_opcodes arch default_size disassemble addr size ≡ some pieces)
      × IsTiling (decoded arch default_size disassemble) addr size 0 pieces
unfolding lift_opcodes
lift_opcodes-IsTiling arm64 default_size disassemble addr size positive =
    arm64-IsTiling default_size disassemble addr size size 0 (omega arith)
lift_opcodes-IsTiling x86_64 default_size disassemble addr size positive =
    x86-IsTiling default_size disassemble addr size positive size 0 (omega arith)
