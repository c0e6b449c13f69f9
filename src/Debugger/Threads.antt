-- ===== src/Debugger/Threads.antt =====
-- The instruction events of a thread between two commands of the client: AetherThread::WatchDog, Resume and
-- SingleStep of lldb/src/Thread.cpp; and the ids of the threads of a process.
use aether_vm.Prelude.{
  ℕ, suc, Bool, true, false, Option, none, some, List, [], ◌∷◌, if◌then◌else◌, ◌≡◌, refl, arith,
  Option-cases, inl, inr,
}
use aether_vm.Search.{◌>>=◌}
use aether_vm.Debugger.{
  state_stopped, state_running, single_stepped, breakpoint_hit, executing, reported, waiting,
  Thread, watch_thread, hit_breakpoint, resume_one, single_step, ref_count, look_breakpoint,
}

-- The events of a thread's instructions, up to the first that it stops at: the number of those that it
-- passed, and the thread as it stands then. `none` is abort.
abbrev pub run_events : List (ℕ × ℕ) → Thread → List ℕ → Option (ℕ × Thread)
run_events bps t [] = some (0, t)
run_events bps t (pc ∷ pcs) = watch_thread (look_breakpoint bps pc t) >>= λ r.
    if r.1 then some (0, r.0) else (run_events bps r.0 pcs >>= λ q. some (suc q.0, q.1))

-- The specification: the first instruction with a breakpoint
abbrev pub before_breakpoint : List (ℕ × ℕ) → List ℕ → ℕ × Bool
before_breakpoint bps [] = (0, false)
before_breakpoint bps (pc ∷ pcs) = elim (ref_count bps pc) [
  | none ↦ let rest = before_breakpoint bps pcs in (suc rest.0, rest.1)
  | some n ↦ (0, true)
]

abbrev pub stopped_at : Bool → Thread → Thread
stopped_at false t = t
stopped_at true t = record (hit_breakpoint t) { phase = reported }

pub event-hit :
    (bps : List (ℕ × ℕ)) (t : Thread) (pc : ℕ) {n : ℕ}
    → ref_count bps pc ≡ some n
    → watch_thread (look_breakpoint bps pc t) ≡ some (stopped_at true t, true)
unfolding watch_thread look_breakpoint
event-hit bps t pc e = rw (e, look_breakpoint) refl

pub event-passed :
    (bps : List (ℕ × ℕ)) (t : Thread) (pc : ℕ)
    → t.state ≡ state_running
    → ref_count bps pc ≡ none
    → watch_thread (look_breakpoint bps pc t) ≡ some (t, false)
unfolding watch_thread look_breakpoint
event-passed bps t pc h e = ground (arith, h, e)

running-run :
    (bps : List (ℕ × ℕ)) (t : Thread) (pcs : List ℕ)
    → t.state ≡ state_running
    → run_events bps t pcs
      ≡ some ((before_breakpoint bps pcs).0, stopped_at (before_breakpoint bps pcs).1 t)
running-run bps t [] h = refl
running-run bps t (pc ∷ pcs) h = elim (Option-cases (ref_count bps pc)) [
  | inl e ↦ ground (arith, e, event-passed bps t pc h e, running-run bps t pcs h)
  | inr (n, e) ↦ ground (arith, e, event-hit bps t pc e)
]

-- A thread that waits for the client and is resumed leaves the wait and executes: it passes every
-- instruction before the first that has a breakpoint and stops there, reporting the hit, or passes them all
-- if none has one.
pub resume-run :
    (bps : List (ℕ × ℕ)) (t : Thread) (pcs : List ℕ)
    → t.phase ≡ waiting
    → ((resume_one t).phase ≡ executing)
      × (run_events bps (resume_one t) pcs
          ≡ some (
            (before_breakpoint bps pcs).0,
            stopped_at (before_breakpoint bps pcs).1 (resume_one t),
          ))
unfolding resume_one
resume-run bps t pcs h = (rw h refl, running-run bps (resume_one t) pcs refl)

-- A thread that is stepped stops at its next instruction, with the breakpoint as the reason where there is
-- one and the step as the reason where there is none.
pub step-run :
    (bps : List (ℕ × ℕ)) (t : Thread) (pc : ℕ) (pcs : List ℕ)
    → run_events bps (single_step t) (pc ∷ pcs)
      ≡ some (
        0,
        record (single_step t) {
          state = state_stopped;
          description = elim (ref_count bps pc) [ none ↦ single_stepped | some n ↦ breakpoint_hit ];
          phase = reported;
        },
      )
unfolding single_step watch_thread look_breakpoint
step-run bps t pc pcs = ground arith
