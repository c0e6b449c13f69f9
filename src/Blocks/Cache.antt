-- ===== src/Blocks/Cache.antt =====
-- Orchestrator::find, findCache and the thread's cache: the current blocks and the 256 entries of `L1`.
-- A pointer to an instruction is the index of its blocks and its index in their `rthandlers`.
use aether_vm.Prelude.{
  ℕ, suc, ◌%◌, Bool, false, Option, none, some, List, [], ◌∷◌, get_elem?, ◌==◌, if◌then◌else◌,
}
use aether_vm.Search.{◌>>=◌}
use aether_vm.Blocks.{BasicBlocks, find_blocks}

-- An entry of L1: an address, and the instruction cached for it
pub record Entry : Type 0 where
  pub vmaddr : ℕ
  pub insn : Option (ℕ × ℕ)

-- Orchestrator::Cache
pub record Cache : Type 0 where
  pub current : Option ℕ
  pub l1 : ℕ → Entry

-- The zeroed cache
unfoldable pub no_cache : Cache
no_cache = record { current = none; l1 = λ index. record { vmaddr = 0; insn = none } }

unfoldable pub cache_index : ℕ → ℕ
cache_index vmaddr = vmaddr % 256

-- `cache.L1[cache_index(vmaddr)] = {vmaddr, insn}`
unfoldable pub remember : Cache → ℕ → ℕ × ℕ → Cache
remember cache vmaddr insn = record cache {
  l1 = λ index.
      if index == cache_index vmaddr
      then record { vmaddr = vmaddr; insn = some insn }
      else cache.l1 index;
}

-- findBlocks with the cache that it writes
unfoldable pub find_and_cache : List BasicBlocks → Cache → ℕ → ℕ → Option (Cache × Option (ℕ × ℕ))
find_and_cache all cache c vmaddr = do
  blocks ← get_elem? all c
  found ← find_blocks blocks vmaddr
  elim found [
    | none ↦ some (cache, none)
    | some insn ↦ some (remember cache vmaddr (c, insn), some (c, insn))
  ]

-- findCache
unfoldable pub find_cache : List BasicBlocks → Cache → ℕ → ℕ → Option (Cache × Option (ℕ × ℕ))
find_cache all cache c vmaddr = elim (cache.l1 (cache_index vmaddr)).insn [
  | none ↦ find_and_cache all cache c vmaddr
  | some insn ↦
      if (cache.l1 (cache_index vmaddr)).vmaddr == vmaddr
      then some (cache, some insn)
      else find_and_cache all cache c vmaddr
]

-- `cache.current == &c`
abbrev pub is_current : Option ℕ → ℕ → Bool
is_current none c = false
is_current (some current) c = current == c

-- The loop over all blocks but the current ones; `c` counts from the front, and `todo` are the blocks
-- left. The answer `none` is `&terminate`.
unfoldable pub find_others :
    List BasicBlocks → Cache → ℕ → ℕ → List BasicBlocks → Option (Cache × Option (ℕ × ℕ))
find_others all cache vmaddr c [] = some (cache, none)
find_others all cache vmaddr c (blocks ∷ todo) =
    let later = find_others all cache vmaddr (suc c) todo in
    if is_current cache.current c
    then later
    else (find_and_cache all cache c vmaddr >>= λ r. elim r.1 [
      | none ↦ later
      | some insn ↦ some (record r.0 { current = some c }, some insn)
    ])

-- find
unfoldable pub find : List BasicBlocks → Cache → ℕ → Option (Cache × Option (ℕ × ℕ))
find all cache vmaddr = elim cache.current [
  | none ↦ find_others all cache vmaddr 0 all
  | some c ↦ find_cache all cache c vmaddr >>= λ r. elim r.1 [
    | none ↦ find_others all r.0 vmaddr 0 all
    | some insn ↦ some (r.0, some insn)
  ]
]
