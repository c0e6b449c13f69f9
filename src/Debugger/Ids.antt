-- ===== src/Debugger/Ids.antt =====
-- The ids of the threads of an AetherProcess, over all that happens to it.
use aether_vm.Prelude.{
  ℕ, ◌+◌, ◌≤◌, Bool, Option, some, List, [], ◌∷◌, ◌++◌, map, ◌==◌, ◌≡◌, refl, ap, arith, Bool-cases,
  Option-cases, inl, inr,
}
use aether_vm.Memory.{Engine}
use aether_vm.Debugger.{
  StateType, Thread, Process, Status, new_process, new_thread, attach_thread, erase, detach_thread,
  this_thread, put_thread, watch_thread, sleep, resume_one, single_step, interrupt_one,
  look_breakpoint, watch_dog, set_breakpoint, remove_breakpoint, resume_threads, resume, interrupt,
  detach,
}

-- What can happen to a process: a thread of the guest attaches, detaches, meets an instruction or begins
-- to wait, and the client sends a command.
pub data Step (e : Engine) (p u : Process) : Type 0 where
  attached : (native : ℕ) (arm64 : Bool) → u ≡ attach_thread p native arm64 → Step e p u
  detached : (native : ℕ) → u ≡ detach_thread p native → Step e p u
  stepped : (native pc : ℕ) → watch_dog p native pc ≡ some u → Step e p u
  slept :
      (native : ℕ) (t : Thread)
      → this_thread p.threads native ≡ some t
      → u ≡ record p { threads = put_thread p.threads native (sleep t) }
      → Step e p u
  resumed : (action : ℕ → Option StateType) → u ≡ resume action p → Step e p u
  paused : u ≡ interrupt p → Step e p u
  left : u ≡ detach p → Step e p u
  breakpoint_set : (addr : ℕ) → u ≡ (set_breakpoint e p addr).0 → Step e p u
  breakpoint_removed :
      (addr : ℕ) (s : Status) → remove_breakpoint e p addr ≡ some (u, s) → Step e p u

pub data Reach (e : Engine) : Process → Type 0 where
  here : Reach e new_process
  next : {p u : Process} → Reach e p → Step e p u → Reach e u

abbrev pub tids : List Thread → List ℕ
tids threads = map (λ t. t.tid) threads

-- Ascending numbers from `lo` on and below `hi`
abbrev pub IsBetween : ℕ → ℕ → List ℕ → Type 0
IsBetween lo hi [] = lo ≤ hi
IsBetween lo hi (x ∷ l) = (lo ≤ x) × IsBetween (x + 1) hi l

append-IsBetween :
    (lo hi : ℕ) (l : List ℕ) → IsBetween lo hi l → IsBetween lo (hi + 1) (l ++ hi ∷ [])
append-IsBetween lo hi [] h = (h, omega arith)
append-IsBetween lo hi (x ∷ l) (h, k) = (h, append-IsBetween (x + 1) hi l k)

lower-IsBetween : (lo lo' hi : ℕ) (l : List ℕ) → lo' ≤ lo → IsBetween lo hi l → IsBetween lo' hi l
lower-IsBetween lo lo' hi [] h k = omega (arith, k)
lower-IsBetween lo lo' hi (x ∷ l) h (k, rest) = (omega (arith, k), rest)

map-append : (l : List Thread) (t : Thread) → tids (l ++ t ∷ []) ≡ tids l ++ t.tid ∷ []
map-append [] t = refl
map-append (u ∷ l) t = ap (λ x. u.tid ∷ x) (map-append l t)

erase-IsBetween :
    (lo hi native : ℕ) (l : List Thread)
    → IsBetween lo hi (tids l)
    → IsBetween lo hi (tids (erase native l))
unfolding erase
erase-IsBetween lo hi native [] h = h
erase-IsBetween lo hi native (t ∷ l) (h, k) = elim (Bool-cases (t.native == native)) [
  | inl e ↦ rw e (lower-IsBetween (t.tid + 1) lo hi (tids l) (omega arith) k)
  | inr e ↦ rw e (h, erase-IsBetween (t.tid + 1) hi native l k)
]

tids-put_thread :
    (l : List Thread) (native : ℕ) (t t' : Thread)
    → this_thread l native ≡ some t
    → t'.tid ≡ t.tid
    → tids (put_thread l native t') ≡ tids l
unfolding this_thread put_thread
tids-put_thread [] native t t' h same = refl
tids-put_thread (u ∷ l) native t t' h same = elim (Bool-cases (u.native == native)) [
  | inl e ↦ ground (arith, e, h, same)
  | inr e ↦ ground (arith, e, h, tids-put_thread l native t t' (ground (arith, e, h)) same)
]

tid-watch_thread :
    (bps : List (ℕ × ℕ)) (pc : ℕ) (t : Thread) {r : Thread × Bool}
    → watch_thread (look_breakpoint bps pc t) ≡ some r
    → r.0.tid ≡ t.tid
unfolding watch_thread look_breakpoint
tid-watch_thread bps pc t h = ground arith

tid-sleep : (t : Thread) → (sleep t).tid ≡ t.tid
unfolding sleep
tid-sleep t = ground arith

tid-interrupt_one : (t : Thread) → (interrupt_one t).tid ≡ t.tid
unfolding interrupt_one
tid-interrupt_one t = refl

tid-resume_one : (t : Thread) → (resume_one t).tid ≡ t.tid
unfolding resume_one
tid-resume_one t = refl

tids-map :
    (f : Thread → Thread) (l : List Thread)
    → ((t : Thread) → (f t).tid ≡ t.tid)
    → tids (map f l) ≡ tids l
tids-map f [] h = refl
tids-map f (t ∷ l) h = cc (h t, tids-map f l h)

tids-resume_threads :
    (action : ℕ → Option StateType) (l : List Thread) {l' : List Thread}
    → resume_threads action l ≡ some l'
    → tids l' ≡ tids l
unfolding resume_threads resume_one single_step
tids-resume_threads action [] h = cc
tids-resume_threads action (t ∷ l) h = elim (Option-cases (resume_threads action l)) [
  | inl e ↦ ground (arith, e, h)
  | inr (m, e) ↦ ground (arith, e, h, tids-resume_threads action l e)
]

abbrev pub HasIds : Process → Type 0
HasIds p = IsBetween 1 p.next_tid (tids p.threads)

abbrev pub SameIds : Process → Process → Type 0
SameIds p u = (tids u.threads ≡ tids p.threads) × (u.next_tid ≡ p.next_tid)

same-HasIds : (p u : Process) → SameIds p u → HasIds p → HasIds u
same-HasIds p u (h, k) ids = rw (h, k) ids

watched : (p u : Process) (native pc : ℕ) → watch_dog p native pc ≡ some u → SameIds p u
unfolding watch_dog
watched p u native pc h = elim (Option-cases (this_thread p.threads native)) [
  | inl e ↦ absurd (ground (arith, e, h))
  | inr (t, e) ↦ elim (Option-cases (watch_thread (look_breakpoint p.breakpoints pc t))) [
    | inl f ↦ absurd (ground (arith, e, f, h))
    | inr (r, f) ↦
        let same =
          tids-put_thread p.threads native t r.0 e (tid-watch_thread p.breakpoints pc t f) in
        ground (arith, e, f, h, same)
  ]
]

resumed-SameIds : (action : ℕ → Option StateType) (p : Process) → SameIds p (resume action p)
unfolding resume
resumed-SameIds action p = elim (Option-cases (resume_threads action p.threads)) [
  | inl e ↦ rw (resume, e) (refl, refl)
  | inr (l, e) ↦ rw (resume, e) (tids-resume_threads action p.threads e, refl)
]

Step-HasIds : (e : Engine) {p u : Process} → Step e p u → HasIds p → HasIds u
unfolding attach_thread detach_thread resume interrupt detach set_breakpoint remove_breakpoint
Step-HasIds e {p} (attached native arm64 h) ids =
    rw (h, map-append p.threads (new_thread p.next_tid native arm64))
      (append-IsBetween 1 p.next_tid (tids p.threads) ids)
Step-HasIds e {p} (detached native h) ids = rw h (erase-IsBetween 1 p.next_tid native p.threads ids)
Step-HasIds e {p} {u} (stepped native pc h) ids = same-HasIds p u (watched p u native pc h) ids
Step-HasIds e {p} (slept native t h k) ids =
    rw (k, tids-put_thread p.threads native t (sleep t) h (tid-sleep t)) ids
Step-HasIds e {p} (resumed action h) ids =
    rw h (same-HasIds p (resume action p) (resumed-SameIds action p) ids)
Step-HasIds e {p} (paused h) ids = rw (h, tids-map interrupt_one p.threads tid-interrupt_one) ids
Step-HasIds e {p} (left h) ids = rw (h, tids-map resume_one p.threads tid-resume_one) ids
Step-HasIds e {p} (breakpoint_set addr h) ids = rw h ids
Step-HasIds e {p} {u} (breakpoint_removed addr s h) ids = same-HasIds p u (ground (arith, h)) ids

-- Whatever attaches, detaches, runs and is commanded, the ids of a process's threads stay distinct: they
-- ascend from 1 on in the order of the threads, below the id that the next thread gets.
pub Reach-HasIds : (e : Engine) {p : Process} → Reach e p → HasIds p
Reach-HasIds e here = omega arith
Reach-HasIds e (next r step) = Step-HasIds e step (Reach-HasIds e r)
