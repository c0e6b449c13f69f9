-- ===== src/Interp.antt =====
-- src/InterpMetaData.h and src/InterpMetaData.cpp: the mapped metadata of each loaded binary, the
-- lookup of the binary and the instruction of an address, and the step of the interpreter's loop to
-- the next instruction.
pub mod Cache
pub mod Find
pub mod Resolve
use aether_vm.Prelude.{
  ℕ, zero, suc, ◌+◌, ◌-◌, ◌%◌, ◌^◌, Bool, true, false, ◌&&◌, Option, none, some, List, [], ◌∷◌, map,
  length, get_elem?, set, ltb, leb, ◌==◌, if◌then◌else◌,
}
use aether_vm.Word.{sub64, add64}
use aether_vm.Search.{◌>>=◌, binary_search}

-- IMetaData::InsnMeta
pub record InsnMeta : Type 0 where
  pub rva : ℕ
  pub handler : ℕ

-- RuntimeMetaData: what the lookups read
pub record Runtime : Type 0 where
  pub insns : List InsnMeta
  pub nexticache : List ℕ
  pub rtbase : ℕ
  pub rtend : ℕ

-- The order of InsnMeta, and that of RuntimeMetaData
abbrev pub rvas : List InsnMeta → List ℕ
rvas l = map (λ i. i.rva) l

abbrev pub bases : List Runtime → List ℕ
bases l = map (λ r. r.rtbase) l

-- RuntimeMetaData::contain
unfoldable pub contain : Runtime → ℕ → Bool
contain rt addr = leb rt.rtbase addr && ltb addr rt.rtend

-- `(uint32_t)(addr - rtbase)`
unfoldable pub key_of : Runtime → ℕ → ℕ
key_of rt addr = sub64 addr rt.rtbase % 2 ^ 32

-- RuntimeMetaData::find: the index of the instruction. The outer `none` is a read outside the array.
unfoldable pub find_insn : Runtime → ℕ → Option (Option ℕ)
find_insn rt addr = do
  i ← binary_search (rvas rt.insns) (length rt.insns) (key_of rt addr)
  x ← get_elem? rt.insns i
  some (if x.rva == key_of rt addr then some i else none)

-- InterpMetaData::find, its choice of a runtime
unfoldable pub find_runtime : List Runtime → ℕ → Option (Option ℕ)
find_runtime rts addr = do
  found ← binary_search (bases rts) (length rts) addr
  let i = if found == length rts then length rts - 1 else found
  rt ← get_elem? rts i
  some (if ltb rt.rtend addr then none else some i)

-- InterpMetaData::find with the instruction asked for
unfoldable pub find : List Runtime → ℕ → Option (Option (ℕ × Option ℕ))
find rts addr = do
  chosen ← find_runtime rts addr
  elim chosen [
    | none ↦ some none
    | some i ↦ (do rt ← get_elem? rts i; insn ← find_insn rt addr; some (some (i, insn)))
  ]

-- The constructor's cache: the next instruction of each is the one that follows it.
unfoldable pub sequential : ℕ → ℕ → List ℕ
sequential i zero = []
sequential i (suc n) = suc i ∷ sequential (suc i) n

-- A pc that the cached instruction does not have is looked up, and the cache is written at the place
-- of the instruction that was found: `insn` has been overwritten by then.
unfoldable pub look_up : Runtime → ℕ → Option (Runtime × ℕ)
look_up rt pc = do
  found ← find_insn rt pc
  j ← found
  some (record rt { nexticache = set rt.nexticache j j }, j)

unfoldable pub look : Runtime → ℕ → ℕ → Option (Runtime × ℕ)
look rt insn pc = get_elem? rt.nexticache insn >>= λ cached. get_elem? rt.insns cached >>= λ guess.
    if rt.rtbase + guess.rva == pc then some (rt, cached) else look_up rt pc

-- The branch of InterpMetaData::vmEntry for a pc inside the same binary: the index of the next
-- instruction, and the binary with its cache. `none` is a read outside an array, or the failed
-- assertion that the instruction was found.
unfoldable pub resolve : Runtime → ℕ → ℕ → Option (Runtime × ℕ)
resolve rt insn pc = get_elem? rt.insns (insn + 1) >>= λ following.
    if rt.rtbase + following.rva == pc then some (rt, insn + 1) else look rt insn pc
