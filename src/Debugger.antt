-- ===== src/Debugger.antt =====
-- lldb/src/Process.cpp and lldb/src/Thread.cpp: the debugged process with its breakpoints, and the states
-- of its threads between the guest's instruction events and the client's commands.
-- LLDB's own classes are the base of both; what the code reads and writes of them is in the records. The
-- wait on a thread's condition variable is its phase: a thread reports that it stopped, then waits, and
-- between the two the client may run. Signals are not read by the code.
pub mod Breakpoints
pub mod Ids
pub mod Threads
pub mod Wakeup
use aether_vm.Prelude.{
  ℕ, suc, ◌+◌, ◌-◌, ◌%◌, ◌^◌, Bool, true, false, Option, none, some, List, [], ◌∷◌, ◌++◌, map,
  length, ltb, ◌==◌, if◌then◌else◌,
}
use aether_vm.Search.{◌>>=◌, align_down}
use aether_vm.Memory.{Engine, mapped_address, read_memory, write_memory}

-- lldb::StateType
pub data StateType : Type 0 where
  state_invalid state_unloaded state_connected state_attaching state_launching state_stopped
        state_running state_stepping state_crashed state_detached state_exited state_suspended :
      StateType

-- The texts of m_stop_description
pub data Description : Type 0 where
  finished_attaching single_stepped breakpoint_hit interrupted : Description

-- Where a thread stands in AetherThread::WatchDog: not in it, behind ReportStopped, or in the wait.
pub data Phase : Type 0 where
  executing reported waiting : Phase

-- AetherThread: `tid` is the protocol's id, `native` that of the thread that attached.
pub record Thread : Type 0 where
  pub tid : ℕ
  pub native : ℕ
  pub arm64 : Bool
  pub state : StateType
  pub description : Description
  pub phase : Phase

-- Status, as far as the code tells errors apart
pub data Status : Type 0 where
  success invalid_address breakpoint_not_found : Status

-- AetherProcess and what it uses of NativeProcessProtocol: m_software_breakpoints as the reference count
-- of each address, 0 where there is none, and the states that SetState announced, the last one first.
pub record Process : Type 0 where
  pub threads : List Thread
  pub next_tid : ℕ
  pub current_tid : ℕ
  pub states : List StateType
  pub breakpoints : List (ℕ × ℕ)

-- AetherThread::AetherThread
abbrev pub new_thread : ℕ → ℕ → Bool → Thread
new_thread tid native arm64 = record {
  tid = tid;
  native = native;
  arm64 = arm64;
  state = state_stopped;
  description = finished_attaching;
  phase = executing;
}

-- AetherProcess::AetherProcess
abbrev pub new_process : Process
new_process = record {
  threads = [];
  next_tid = 1;
  current_tid = 1;
  states = state_stopped ∷ [];
  breakpoints = [];
}

-- AetherProcess::AttachThread
unfoldable pub attach_thread : Process → ℕ → Bool → Process
attach_thread p native arm64 = record p {
  threads = p.threads ++ new_thread p.next_tid native arm64 ∷ [];
  next_tid = p.next_tid + 1;
}

-- `m_threads.erase(found)`, of the first thread with the id
unfoldable pub erase : ℕ → List Thread → List Thread
erase native [] = []
erase native (t ∷ threads) =
    let rest = erase native threads in if t.native == native then threads else t ∷ rest

-- AetherProcess::DetachThread
unfoldable pub detach_thread : Process → ℕ → Process
detach_thread p native = record p { threads = erase native p.threads }

-- AetherProcess::ThisThread: `none` is the end of the list, which the code reads.
unfoldable pub this_thread : List Thread → ℕ → Option Thread
this_thread [] native = none
this_thread (t ∷ threads) native =
    let rest = this_thread threads native in if t.native == native then some t else rest

-- A change to the object that ThisThread points to
unfoldable pub put_thread : List Thread → ℕ → Thread → List Thread
put_thread [] native t' = []
put_thread (t ∷ threads) native t' =
    let rest = put_thread threads native t' in if t.native == native then t' ∷ threads else t ∷ rest

-- AetherThread::WatchDog up to the wait: the thread, and whether it called ReportStopped. `none` is abort.
unfoldable pub watch_thread : Thread → Option (Thread × Bool)
watch_thread t = elim t.state [
  | state_stopped ↦ some (record t { phase = reported }, true)
  | state_stepping ↦
      some
        (record t { state = state_stopped; description = single_stepped; phase = reported }, true)
  | state_running ↦ some (t, false)
  | _ ↦ none
]

-- AetherThread::HitBreakpoint, up to its WatchDog
abbrev pub hit_breakpoint : Thread → Thread
hit_breakpoint t = record t { state = state_stopped; description = breakpoint_hit }

-- `m_condvar.wait(lock)`: it returns when a notification comes, whatever the state is then.
unfoldable pub sleep : Thread → Thread
sleep t = elim t.phase [ reported ↦ record t { phase = waiting } | _ ↦ t ]

-- `m_condvar.notify_all()`
abbrev pub notify_all : Phase → Phase
notify_all waiting = executing
notify_all phase = phase

-- AetherThread::Resume, SingleStep and Interrupt
unfoldable pub resume_one : Thread → Thread
resume_one t = record t { state = state_running; phase = notify_all t.phase }

unfoldable pub single_step : Thread → Thread
single_step t = record t { state = state_stepping; phase = notify_all t.phase }

unfoldable pub interrupt_one : Thread → Thread
interrupt_one t = record t { state = state_stopped; description = interrupted }

-- AetherThread::GetStopReason: the description, where there is a reason
unfoldable pub stop_reason : Thread → Option Description
stop_reason t = elim t.state [
  | state_stopped ↦ some t.description
  | state_crashed ↦ some t.description
  | state_exited ↦ some t.description
  | state_suspended ↦ some t.description
  | state_unloaded ↦ some t.description
  | _ ↦ none
]

-- AetherProcess::ReportStopped
abbrev pub report_stopped : Process → Thread → Process
report_stopped p t = record p { current_tid = t.tid; states = state_stopped ∷ p.states }

-- m_software_breakpoints: `find`, `insert` or `ref_count++`, and `erase`
unfoldable pub ref_count : List (ℕ × ℕ) → ℕ → Option ℕ
ref_count [] addr = none
ref_count ((a, n) ∷ bps) addr = let rest = ref_count bps addr in if a == addr then some n else rest

unfoldable pub put_count : List (ℕ × ℕ) → ℕ → ℕ → List (ℕ × ℕ)
put_count [] addr n = (addr, n) ∷ []
put_count ((a, k) ∷ bps) addr n =
    let rest = put_count bps addr n in if a == addr then (addr, n) ∷ bps else (a, k) ∷ rest

unfoldable pub erase_count : List (ℕ × ℕ) → ℕ → List (ℕ × ℕ)
erase_count [] addr = []
erase_count ((a, k) ∷ bps) addr =
    let rest = erase_count bps addr in if a == addr then rest else (a, k) ∷ rest

-- The look at the breakpoints, at the address of the next instruction
unfoldable pub look_breakpoint : List (ℕ × ℕ) → ℕ → Thread → Thread
look_breakpoint bps pc t = elim (ref_count bps pc) [ none ↦ t | some n ↦ hit_breakpoint t ]

-- AetherProcess::WatchDog, in the thread `native`
unfoldable pub watch_dog : Process → ℕ → ℕ → Option Process
watch_dog p native pc = this_thread p.threads native >>= λ t.
    watch_thread (look_breakpoint p.breakpoints pc t) >>= λ r.
    let p' = record p { threads = put_thread p.threads native r.0 } in
    some (if r.1 then report_stopped p' r.0 else p')

-- The address of a breakpoint: the mapped one, or the one asked for
unfoldable pub breakpoint_address : Engine → ℕ → ℕ
breakpoint_address e addr =
    let rtaddr = mapped_address e addr 1 in if rtaddr == 0 then addr else rtaddr

-- AetherProcess::SetBreakpoint; the count is a `uint32_t`.
unfoldable pub set_breakpoint : Engine → Process → ℕ → Process × Status
set_breakpoint e p addr =
    let at = breakpoint_address e addr in
    (
      record p {
        breakpoints = elim (ref_count p.breakpoints at) [
          | none ↦ put_count p.breakpoints at 1
          | some n ↦ put_count p.breakpoints at ((n + 1) % 2 ^ 32)
        ];
      },
      success,
    )

-- AetherProcess::RemoveBreakpoint; `none` is the failed assertion.
unfoldable pub remove_breakpoint : Engine → Process → ℕ → Option (Process × Status)
remove_breakpoint e p addr =
    let at = breakpoint_address e addr in
    elim (ref_count p.breakpoints at) [
      | none ↦ some (p, breakpoint_not_found)
      | some n ↦
          if n == 0
          then none
          else if ltb 0 (n - 1)
          then some (record p { breakpoints = put_count p.breakpoints at (n - 1) }, success)
          else some (record p { breakpoints = erase_count p.breakpoints at }, success)
    ]

-- AetherProcess::Resume: the client's actions are LLDB's, by the id of a thread. ResumeThread sets the
-- state of the process, and the loop returns with it.
unfoldable pub resume_threads : (ℕ → Option StateType) → List Thread → Option (List Thread)
resume_threads action [] = none
resume_threads action (t ∷ threads) =
    let rest = resume_threads action threads >>= λ l. some (t ∷ l) in
    elim (action t.tid) [
      | none ↦ rest
      | some state ↦ elim state [
        | state_running ↦ some (resume_one t ∷ threads)
        | state_stepping ↦ some (single_step t ∷ threads)
        | _ ↦ rest
      ]
    ]

unfoldable pub resume : (ℕ → Option StateType) → Process → Process
resume action p = elim (resume_threads action p.threads) [
  | none ↦ p
  | some threads ↦ record p { threads = threads; states = state_running ∷ p.states }
]

-- AetherProcess::Interrupt and Detach
unfoldable pub interrupt : Process → Process
interrupt p = record p { threads = map interrupt_one p.threads; states = state_stopped ∷ p.states }

unfoldable pub detach : Process → Process
detach p = record p { threads = map resume_one p.threads; states = state_detached ∷ p.states }

-- AetherProcess::ReadMemory, WriteMemory and GetMemoryRegionInfo
unfoldable pub debug_read : ((ℕ → ℕ) → ℕ → ℕ → Option (List ℕ)) → Engine → ℕ → ℕ → List ℕ × Status
debug_read memory_read e addr size =
    let rdbuf = read_memory memory_read e addr size in
    (rdbuf, if length rdbuf == 0 then invalid_address else success)

unfoldable pub debug_write :
    ((ℕ → ℕ) → ℕ → List ℕ → Option (ℕ → ℕ)) → Engine → ℕ → List ℕ → Engine × Status
debug_write memory_write e addr buff =
    let r = write_memory memory_write e addr buff in (r.0, if r.1 then success else invalid_address)

unfoldable pub memory_region : ((ℕ → ℕ) → ℕ → ℕ → Option (List ℕ)) → ℕ → Engine → ℕ → Option (ℕ × ℕ)
memory_region memory_read page_size e load_addr =
    let page = align_down load_addr page_size in
    if length (read_memory memory_read e page 8) == 0 then none else some (page, page_size)
