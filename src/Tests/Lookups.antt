-- ===== src/Tests/Lookups.antt =====
-- The interpreter's lookups
use aether_vm.Prelude.{ℕ, ◌+◌, some, List, [], ◌∷◌, ◌≡◌, refl, arith}
use aether_vm.Search.Bound.{IsAscending}
use aether_vm.Interp.{
  InsnMeta, Runtime, rvas, bases, find_insn, key_of, resolve, look, look_up, sequential,
}
use aether_vm.Interp.Resolve.{IsAt, resolve_sound}
use aether_vm.Interp.Cache.{IsCache, resolve-total, sequential-IsCache}

abbrev insn_at : ℕ → InsnMeta
insn_at rva = record { rva = rva; handler = 0 }

-- Three instructions of four bytes at 4096
abbrev program : Runtime
program = record {
  insns = insn_at 0 ∷ insn_at 4 ∷ insn_at 8 ∷ [];
  nexticache = sequential 0 3;
  rtbase = 4096;
  rtend = 4108;
}

abbrev second_program : Runtime
second_program = record {
  insns = insn_at 0 ∷ [];
  nexticache = sequential 0 1;
  rtbase = 8192;
  rtend = 8196;
}

abbrev loaded : List Runtime
loaded = program ∷ second_program ∷ []

program-IsAscending : IsAscending (rvas program.insns)
program-IsAscending = (omega arith, (omega arith, tt))

loaded-IsAscending : IsAscending (bases loaded)
loaded-IsAscending = (omega arith, tt)

program-IsCache : IsCache program
program-IsCache = sequential-IsCache program.insns 4096 4108

abbrev after_jump : Runtime
after_jump = record program { nexticache = 1 ∷ 2 ∷ 2 ∷ [] }

-- A jump from the first instruction to the third
jump : resolve program 0 4104 ≡ some (after_jump, 2)
unfolding resolve look look_up find_insn key_of aether_vm.Word.sub64 sequential
    aether_vm.Search.binary_search aether_vm.Search.search_loop
jump = refl

resolve_sound_example : IsAt program 2 4104
resolve_sound_example =
    resolve_sound program after_jump 0 4104 2 (omega arith, omega arith, omega arith, omega arith)
      jump

resolve-total_example : (rt' : Runtime) × (j : ℕ) × (resolve program 0 (4096 + 8) ≡ some (rt', j))
resolve-total_example =
    resolve-total program 0 2 program-IsAscending program-IsCache (omega arith) refl (omega arith)
      (omega arith)
