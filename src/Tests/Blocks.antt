-- ===== src/Tests/Blocks.antt =====
-- The encoding, its lookups and the events
use aether_vm.Prelude.{
  ℕ, ◌+◌, true, false, Option, some, none, List, [], ◌∷◌, ◌++◌, length, get_elem?, ◌≡◌, refl, arith,
}
use aether_vm.Word.{add64}
use aether_vm.Search.{binary_search, search_loop, is_exact}
use aether_vm.Blocks.{
  EventConfig, BasicBlocks, Instruction, convert, choose, scan, first_of, find_inside, find_blocks,
  opcode_instruction, lifted,
}
use aether_vm.Blocks.Encode.{
  arm64, Insn, Func, plain, ret, real_handler, insn_handlers, encode_rest, encode_insns,
  encode_func, encode_funcs, encode, last_end,
}
use aether_vm.Blocks.Contents.{all_blocks}
use aether_vm.Blocks.Build.{all_starts, encode-starts}
use aether_vm.Blocks.Flat.{convert-pointers}
use aether_vm.Blocks.Cache.{
  Cache, no_cache, remember, find_and_cache, find_cache, find_others, find,
}
use aether_vm.Blocks.Coherent.{IsSound, no_cache-IsCoherent, find-IsSound}
use aether_vm.Blocks.Absent.{find-none}
use aether_vm.Events.{
  EventKind, EventResult, continue, processed, Event, runtime_event, handle_event,
  host_event_insn_before, next_insn,
}
use aether_vm.Events.Skip.{skip-runs_handler}

abbrev quiet : EventConfig
quiet = record { insn = false; block = false; func = false; debug = false }

abbrev debugged : EventConfig
debugged = record { insn = true; block = false; func = false; debug = true }

abbrev watched : EventConfig
watched = record { insn = true; block = false; func = false; debug = false }

abbrev nop : Insn
nop = record { fnoff = 0; oplen = 4; opcode = 7; kind = plain; comins = 0 }

abbrev joined : Insn
joined = record { fnoff = 4; oplen = 4; opcode = 8; kind = plain; comins = 1 }

abbrev returns : Insn
returns = record { fnoff = 8; oplen = 4; opcode = 9; kind = ret; comins = 0 }

abbrev entries : ℕ → Option ℕ
entries opcode = some (opcode + 100)

abbrev func : Func
func = record { start = 64; insns = nop ∷ joined ∷ returns ∷ []; end_addr = 76 }

abbrev insn_of : ℕ → Instruction
insn_of entry = opcode_instruction (lifted entry) 4

-- The blocks of the function at 4096: one instruction, and two with the end of the function
abbrev blocks : BasicBlocks
blocks = record {
  vmaddrs = 4160 ∷ 4164 ∷ [];
  maxaddr = 4172;
  bbhandlers = (0 ∷ []) ∷ (1 ∷ 2 ∷ 3 ∷ 4 ∷ []) ∷ [];
  rthandlers =
      insn_of 107
      ∷ insn_of 108
      ∷ insn_of 109
      ∷ aether_vm.Blocks.event_instruction aether_vm.Blocks.finish_function
      ∷ aether_vm.Blocks.event_instruction aether_vm.Blocks.finish_emulation
      ∷ [];
}

encoded : encode quiet arm64 entries 4096 (func ∷ []) ≡ some blocks
unfolding encode encode_funcs encode_func encode_insns encode_rest insn_handlers convert add64
encoded = refl

encode-starts_example :
    (blocks.vmaddrs ≡ all_starts 4096 (func ∷ []))
    × (length blocks.bbhandlers ≡ length blocks.vmaddrs)
    × ((end_addr : ℕ) × (last_end (func ∷ []) ≡ some end_addr)
        × (blocks
            ≡ convert
                (all_starts 4096 (func ∷ []))
                (add64 end_addr 4096)
                (all_blocks quiet arm64 entries (func ∷ []))))
encode-starts_example = encode-starts quiet arm64 entries 4096 (func ∷ []) encoded

abbrev handlers : List (List Instruction)
handlers = (insn_of 107 ∷ []) ∷ (insn_of 108 ∷ insn_of 109 ∷ []) ∷ []

convert-pointers_example :
    (ps : List ℕ) × (p : ℕ) × (get_elem? (convert [] 0 handlers).bbhandlers 1 ≡ some ps)
    × (get_elem? ps 1 ≡ some p)
    × (get_elem? (convert [] 0 handlers).rthandlers p ≡ some (insn_of 109))
convert-pointers_example = convert-pointers [] 0 handlers 1 1 refl refl

starts_second : first_of blocks 1 ≡ some 1
unfolding first_of
starts_second = refl

-- The third instruction is looked up inside its block: the second is found.
found_before : scan blocks.rthandlers 1 4168 4164 (1 ∷ 2 ∷ 3 ∷ []) ≡ some (some 0)
unfolding scan choose add64
found_before = refl

abbrev cached : Cache
cached = remember (record no_cache { current = some 0 }) 4164 (0, 1)

looked_up :
    find (blocks ∷ []) (record no_cache { current = some 0 }) 4164 ≡ some (cached, some (0, 1))
unfolding find find_cache find_and_cache find_blocks first_of is_exact binary_search search_loop
    no_cache
looked_up = refl

current-IsCoherent :
    aether_vm.Blocks.Coherent.IsCoherent (blocks ∷ []) (record no_cache { current = some 0 })
current-IsCoherent = no_cache-IsCoherent (blocks ∷ [])

find-IsSound_example : IsSound (blocks ∷ []) 4164 (cached, some (0, 1))
find-IsSound_example =
    find-IsSound (blocks ∷ []) 4164 (record no_cache { current = some 0 })
      {result = (cached, some (0, 1))} current-IsCoherent looked_up

not_found : find (blocks ∷ []) no_cache 8192 ≡ some (no_cache, none)
unfolding find find_others find_and_cache find_blocks no_cache
not_found = refl

find-none_example : find_blocks blocks 8192 ≡ some none
unfolding no_cache
find-none_example =
    find-none (blocks ∷ []) 8192 no_cache no_cache 0 (λ c e. absurd (ground (arith, e))) not_found
      refl

abbrev skips : Event → EventResult
skips event = processed

abbrev ignores : Event → EventResult
ignores event = continue

skipped : (handle_event (skips ∷ []) (runtime_event EventKind.insn_before 64)).0 ≡ processed
unfolding handle_event
skipped = refl

skip-runs_handler_example :
    (n : ℕ) × ((host_event_insn_before (skips ∷ []) 64 0 0).next ≡ next_insn n)
    × (get_elem? ([] ++ (insn_handlers debugged arm64 entries nop ++ [])) n
        ≡ some (real_handler entries nop))
skip-runs_handler_example =
    skip-runs_handler debugged arm64 entries nop (skips ∷ []) 64 0 [] [] refl refl skipped
