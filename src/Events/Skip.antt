-- ===== src/Events/Skip.antt =====
-- Skipping an instruction from its before event: what `encode` lays out, and where
-- `host_event_insn_before` goes on.
use aether_vm.Prelude.{
  ℕ, suc, ◌+◌, true, false, Option, some, List, [], ◌∷◌, ◌++◌, length, get_elem?, ◌≡◌, refl, ap,
  ◌∙◌, arith,
}
use aether_vm.Blocks.{Instruction, EventConfig}
use aether_vm.Blocks.Encode.{ArchType, Insn, real_handler, insn_handlers}
use aether_vm.Blocks.Flat.{get_elem?-append_right}
use aether_vm.Events.{
  EventKind, runtime_event, Event, EventResult, processed, has_event_handler, handle_event,
  next_insn, host_event_insn_before,
}

processed-has_event_handler :
    (callbacks : List (Event → EventResult)) (event : Event)
    → (handle_event callbacks event).0 ≡ processed
    → has_event_handler callbacks ≡ true
unfolding handle_event has_event_handler
processed-has_event_handler [] event h = absurd (ground (arith, h))
processed-has_event_handler (c ∷ callbacks) event h = refl

-- A callback that answers `Processed` sends the before event of an instruction two places on.
goes_on :
    (callbacks : List (Event → EventResult)) (pc x0 current : ℕ)
    → (handle_event callbacks (runtime_event EventKind.insn_before pc)).0 ≡ processed
    → (host_event_insn_before callbacks pc x0 current).next ≡ next_insn (current + 1 + 1)
unfolding host_event_insn_before
goes_on callbacks pc x0 current h =
    rw (processed-has_event_handler callbacks (runtime_event EventKind.insn_before pc) h, h) refl

-- With instruction events and the debugger on, `Processed` from the before event of an instruction goes
-- on with the real handler of that instruction, which is not skipped. `before` and `rest` are the
-- handlers around those of the instruction.
pub skip-runs_handler :
    (cfg : EventConfig) (arch : ArchType) (lookup : ℕ → Option ℕ) (i : Insn)
    (callbacks : List (Event → EventResult)) (pc x0 : ℕ) (before rest : List Instruction)
    → cfg.insn ≡ true
    → cfg.debug ≡ true
    → (handle_event callbacks (runtime_event EventKind.insn_before pc)).0 ≡ processed
    → (n : ℕ) × ((host_event_insn_before callbacks pc x0 (length before)).next ≡ next_insn n)
      × (get_elem? (before ++ (insn_handlers cfg arch lookup i ++ rest)) n
          ≡ some (real_handler lookup i))
unfolding insn_handlers
skip-runs_handler cfg arch lookup i callbacks pc x0 before rest e d h = (
  length before + 2,
  goes_on callbacks pc x0 (length before) h ∙ ap next_insn (omega arith),
  get_elem?-append_right before (insn_handlers cfg arch lookup i ++ rest) 2
      ∙ rw (insn_handlers, e, d) refl,
)

-- With the debugger off it goes on behind the real handler.
pub skip-passes_handler :
    (cfg : EventConfig) (arch : ArchType) (lookup : ℕ → Option ℕ) (i : Insn)
    (callbacks : List (Event → EventResult)) (pc x0 : ℕ) (before rest : List Instruction)
    → cfg.insn ≡ true
    → cfg.debug ≡ false
    → (handle_event callbacks (runtime_event EventKind.insn_before pc)).0 ≡ processed
    → (n : ℕ) × ((host_event_insn_before callbacks pc x0 (length before)).next ≡ next_insn (suc n))
      × (get_elem? (before ++ (insn_handlers cfg arch lookup i ++ rest)) n
          ≡ some (real_handler lookup i))
unfolding insn_handlers
skip-passes_handler cfg arch lookup i callbacks pc x0 before rest e d h = (
  length before + 1,
  goes_on callbacks pc x0 (length before) h ∙ ap next_insn (omega arith),
  get_elem?-append_right before (insn_handlers cfg arch lookup i ++ rest) 1
      ∙ rw (insn_handlers, e, d) refl,
)
