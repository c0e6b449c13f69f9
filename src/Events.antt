-- ===== src/Events.antt =====
-- src/Event.cpp, include/Event.h and BinaryEngineImpl::handleEvent: the host side of the event handlers,
-- which run between the lifted handlers and choose the next instruction.
pub mod Dispatch
pub mod Skip
use aether_vm.Prelude.{
  ℕ, suc, ◌+◌, Bool, true, false, Option, none, some, List, [], ◌∷◌, ◌==◌, if◌then◌else◌,
}
use aether_vm.Blocks.{
  Target, event_func_before, event_func_after, event_insn_before, event_insn_after,
  event_block_before, event_block_after, event_debugging, syscall_interpret, interrupt_interpret,
  jump_interpret, call_interpret, finish_function, finish_emulation, terminate_execution, lifted,
}

-- EventType, as far as the handlers send it
pub data EventKind : Type 0 where
  insn_before insn_after block_before block_after func_before func_after : EventKind
  syscall_before syscall_after trap_hit : EventKind

pub data EventResult : Type 0 where
  continue processed terminate : EventResult

-- EventRuntime
pub record Event : Type 0 where
  pub kind : EventKind
  pub addr : ℕ

abbrev pub runtime_event : EventKind → ℕ → Event
runtime_event kind addr = record { kind = kind; addr = addr }

abbrev pub is_continue : EventResult → Bool
is_continue continue = true
is_continue processed = false
is_continue terminate = false

-- hasEventHandler
unfoldable pub has_event_handler : List (Event → EventResult) → Bool
has_event_handler [] = false
has_event_handler (callback ∷ callbacks) = true

-- handleEvent, with the number of callbacks that it called
unfoldable pub handle_event : List (Event → EventResult) → Event → EventResult × ℕ
handle_event [] event = (continue, 0)
handle_event (callback ∷ callbacks) event =
    let rest = handle_event callbacks event in
    if is_continue (callback event) then (rest.0, suc rest.1) else (callback event, 1)

-- The instruction a handler goes on with: an index of the sequence, the target of the orchestrator's
-- `find`, the slot of the return address, or no return at all (`abort`).
pub data Next : Type 0 where
  next_insn : ℕ → Next
  find_target : ℕ → Next
  return_slot : Next
  aborted : Next

-- What a host handler does to x0 besides: the system call it makes, if it does
pub record Outcome : Type 0 where
  pub next : Next
  pub x0 : ℕ
  pub sent : List Event

-- An event that is only announced
abbrev pub announce : List (Event → EventResult) → EventKind → ℕ → ℕ → ℕ → Outcome
announce callbacks kind pc x0 current = record {
  next = next_insn (current + 1);
  x0 = x0;
  sent = if has_event_handler callbacks then runtime_event kind pc ∷ [] else [];
}

-- host_event_insn_before: `current` is the index of the event's own instruction.
abbrev pub insn_before_next : EventResult → ℕ → Next
insn_before_next continue current = next_insn (current + 1)
insn_before_next processed current = next_insn (current + 1 + 1)
insn_before_next terminate current = return_slot

unfoldable pub host_event_insn_before : List (Event → EventResult) → ℕ → ℕ → ℕ → Outcome
host_event_insn_before callbacks pc x0 current =
    let event = runtime_event insn_before pc in
    if has_event_handler callbacks
    then record {
      next = insn_before_next (handle_event callbacks event).0 current;
      x0 = x0;
      sent = event ∷ [];
    }
    else record { next = next_insn (current + 1); x0 = x0; sent = [] }

-- host_syscall_interpret on a POSIX host: `syscall` is the host's, of the number in x0.
abbrev pub syscall_result :
    EventResult → (ℕ → ℕ) → List (Event → EventResult) → ℕ → ℕ → ℕ × List Event
syscall_result processed syscall callbacks pc x0 = (x0, [])
syscall_result continue syscall callbacks pc x0 =
    (syscall x0, if has_event_handler callbacks then runtime_event syscall_after pc ∷ [] else [])
syscall_result terminate syscall callbacks pc x0 =
    (syscall x0, if has_event_handler callbacks then runtime_event syscall_after pc ∷ [] else [])

unfoldable pub host_syscall_interpret : (ℕ → ℕ) → List (Event → EventResult) → ℕ → ℕ → ℕ → Outcome
host_syscall_interpret syscall callbacks pc x0 current =
    let before = runtime_event syscall_before pc in
    let (x0', after) = syscall_result (handle_event callbacks before).0 syscall callbacks pc x0 in
    record { next = next_insn (current + 1); x0 = x0'; sent = before ∷ after }

-- The host handlers, by the event function that forwards to them: `none` is a lifted handler, which
-- has none.
unfoldable pub host : (ℕ → ℕ) → List (Event → EventResult) → ℕ → ℕ → ℕ → ℕ → Target → Option Outcome
host syscall callbacks retaddr pc x0 current event_func_before =
    some (announce callbacks func_before pc x0 current)
host syscall callbacks retaddr pc x0 current event_func_after =
    some (announce callbacks func_after pc x0 current)
host syscall callbacks retaddr pc x0 current event_insn_before =
    some (host_event_insn_before callbacks pc x0 current)
host syscall callbacks retaddr pc x0 current event_insn_after =
    some (announce callbacks insn_after pc x0 current)
host syscall callbacks retaddr pc x0 current event_block_before =
    some (announce callbacks block_before pc x0 current)
host syscall callbacks retaddr pc x0 current event_block_after =
    some (announce callbacks block_after pc x0 current)
host syscall callbacks retaddr pc x0 current event_debugging =
    some (record { next = next_insn (current + 1); x0 = x0; sent = [] })
host syscall callbacks retaddr pc x0 current syscall_interpret =
    some (host_syscall_interpret syscall callbacks pc x0 current)
host syscall callbacks retaddr pc x0 current interrupt_interpret =
    some (record { next = aborted; x0 = x0; sent = runtime_event trap_hit pc ∷ [] })
host syscall callbacks retaddr pc x0 current jump_interpret =
    some (record { next = find_target pc; x0 = x0; sent = [] })
host syscall callbacks retaddr pc x0 current call_interpret =
    some (record { next = find_target pc; x0 = x0; sent = [] })
host syscall callbacks retaddr pc x0 current finish_function =
    some
      (record { next = if pc == retaddr then return_slot else find_target pc; x0 = x0; sent = [] })
host syscall callbacks retaddr pc x0 current finish_emulation =
    some (record { next = return_slot; x0 = x0; sent = [] })
host syscall callbacks retaddr pc x0 current terminate_execution =
    some (record { next = aborted; x0 = x0; sent = [] })
host syscall callbacks retaddr pc x0 current (lifted entry) = none
