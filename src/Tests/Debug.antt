-- ===== src/Tests/Debug.antt =====
-- The debugged process
use aether_vm.Prelude.{ℕ, true, Option, some, List, [], ◌∷◌, ◌≡◌, refl, arith, inl}
use aether_vm.Debugger.{
  StateType, state_running, executing, reported, waiting, Thread, Process, new_thread, new_process,
  attach_thread, sleep, resume_one, ref_count, resume,
}
use aether_vm.Debugger.Breakpoints.{
  Command, set_at, remove_at, run_commands, count_all, Counts, run_commands-Counts,
}
use aether_vm.Debugger.Threads.{run_events, stopped_at, resume-run}
use aether_vm.Debugger.Wakeup.{resume-first}
use aether_vm.Debugger.Ids.{Reach, here, next, attached, resumed, HasIds, Reach-HasIds}
use aether_vm.Tests.Guests.{engine}

-- A breakpoint that is set twice and removed three times
abbrev commands : List Command
commands = set_at 16 ∷ set_at 16 ∷ remove_at 16 ∷ remove_at 16 ∷ remove_at 16 ∷ []

abbrev no_count : ℕ → ℕ
no_count a = 0

run_commands-Counts_example :
    (p' : Process) × (run_commands engine commands new_process
      ≡ some (p', (count_all engine commands no_count).1))
    × Counts p' (count_all engine commands no_count).0
unfolding ref_count
run_commands-Counts_example =
    run_commands-Counts engine commands new_process no_count (λ a. refl) (λ a. omega arith)

-- A thread in the wait, and the breakpoint at its third instruction
abbrev breakpoints : List (ℕ × ℕ)
breakpoints = (108, 1) ∷ []

abbrev parked : Thread
parked = record (new_thread 1 500 true) { phase = waiting }

resume-run_example :
    ((resume_one parked).phase ≡ executing)
    × (run_events breakpoints (resume_one parked) (100 ∷ 104 ∷ 108 ∷ 112 ∷ [])
        ≡ some (2, stopped_at true (resume_one parked)))
unfolding ref_count
resume-run_example = resume-run breakpoints parked (100 ∷ 104 ∷ 108 ∷ 112 ∷ []) refl

-- A thread that has reported its stop and is not in the wait yet
abbrev reporting : Thread
reporting = record (new_thread 1 500 true) { phase = reported }

-- A resume that finds the thread in the wait releases it; one that comes before the wait is lost.
released : (resume_one (sleep reporting)).phase ≡ executing
unfolding sleep resume_one
released = refl

lost : (sleep (resume_one reporting)).phase ≡ waiting
unfolding sleep resume_one
lost = refl

-- Two threads that are both asked to run
abbrev second : Thread
second = record (new_thread 2 501 true) { phase = waiting }

abbrev pair : Process
pair = record new_process { threads = parked ∷ second ∷ []; next_tid = 3 }

abbrev run_all : ℕ → Option StateType
run_all tid = some state_running

resume-first_example : (resume run_all pair).threads ≡ resume_one parked ∷ second ∷ []
resume-first_example =
    resume-first run_all pair [] parked (second ∷ []) state_running refl tt (inl refl) refl

abbrev attached_once : Process
attached_once = attach_thread new_process 500 true

reached : Reach engine (resume run_all attached_once)
reached = next (next here (attached 500 true refl)) (resumed run_all refl)

Reach-HasIds_example : HasIds (resume run_all attached_once)
Reach-HasIds_example = Reach-HasIds engine reached
