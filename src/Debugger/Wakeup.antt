-- ===== src/Debugger/Wakeup.antt =====
-- The client's Resume: AetherProcess::Resume of lldb/src/Process.cpp.
use aether_vm.Prelude.{
  ℕ, Option, some, List, [], ◌∷◌, ◌++◌, ◌≡◌, refl, ◌≢◌, ◌⊎◌, inl, inr, arith, All,
}
use aether_vm.Search.{◌>>=◌}
use aether_vm.Debugger.{
  StateType, state_running, state_stepping, Thread, Process, resume_one, single_step,
  resume_threads, resume,
}

-- A thread that the client has no running or stepping action for
abbrev pub IsPassedOver : (ℕ → Option StateType) → Thread → Type 0
IsPassedOver action t = (action t.tid ≢ some state_running) × (action t.tid ≢ some state_stepping)

passed_over :
    (action : ℕ → Option StateType) (t : Thread) (threads : List Thread)
    → IsPassedOver action t
    → resume_threads action (t ∷ threads) ≡ (resume_threads action threads >>= λ l. some (t ∷ l))
unfolding resume_threads
passed_over action t threads h = ground (arith, h.0, h.1)

-- What an action does to a thread: running or stepping
abbrev pub acted : StateType → Thread → Thread
acted state_stepping t = single_step t
acted state t = resume_one t

abbrev pub IsGo : StateType → Type 0
IsGo go = (go ≡ state_running) ⊎ (go ≡ state_stepping)

first_go :
    (action : ℕ → Option StateType) (go : StateType) (t : Thread) (threads : List Thread)
    → IsGo go
    → action t.tid ≡ some go
    → resume_threads action (t ∷ threads) ≡ some (acted go t ∷ threads)
unfolding resume_threads
first_go action go t threads (inl e) h = rw (resume_threads, h, e) refl
first_go action go t threads (inr e) h = rw (resume_threads, h, e) refl

-- The client's Resume changes one thread, the first one that it has a running or stepping action for, which
-- resumes or steps accordingly: those in front of it and those behind it stay as they are, whatever the
-- actions of those behind.
pub resume-first :
    (action : ℕ → Option StateType) (p : Process) (before : List Thread) (t : Thread)
    (after : List Thread) (go : StateType)
    → p.threads ≡ before ++ t ∷ after
    → All (IsPassedOver action) before
    → (go ≡ state_running) ⊎ (go ≡ state_stepping)
    → action t.tid ≡ some go
    → (resume action p).threads ≡ before ++ acted go t ∷ after
unfolding resume
resume-first action p before t after go h idle runs given = rw (resume, h, first before idle) refl
  where
    first :
        (l : List Thread)
        → All (IsPassedOver action) l
        → resume_threads action (l ++ t ∷ after) ≡ some (l ++ acted go t ∷ after)
    first [] idle = first_go action go t after runs given
    first (u ∷ l) (i, idle) = rw (passed_over action u (l ++ t ∷ after) i, first l idle) refl
