-- ===== src/Debugger/Breakpoints.antt =====
-- AetherProcess::SetBreakpoint and RemoveBreakpoint of lldb/src/Process.cpp against a count of each address.
use aether_vm.Prelude.{
  ℕ, suc, ◌+◌, ◌-◌, ◌%◌, ◌≤◌, ◌<◌, ◌^◌, Option, none, some, List, [], ◌∷◌, length, ◌==◌,
  if◌then◌else◌, ◌≡◌, refl, ◌≢◌, arith, ==_iff, Bool-cases, inl, inr,
}
use aether_vm.Search.{◌>>=◌}
use aether_vm.Memory.{Engine}
use aether_vm.Debugger.{
  Process, Status, success, breakpoint_not_found, ref_count, put_count, erase_count,
  breakpoint_address, set_breakpoint, remove_breakpoint,
}

pub ref_count-put_count :
    (bps : List (ℕ × ℕ)) (addr n b : ℕ)
    → ref_count (put_count bps addr n) b ≡ (if addr == b then some n else ref_count bps b)
unfolding ref_count put_count
ref_count-put_count [] addr n b = refl
ref_count-put_count ((a, k) ∷ bps) addr n b = ground (arith, ref_count-put_count bps addr n b)

pub ref_count-erase_count :
    (bps : List (ℕ × ℕ)) (addr b : ℕ)
    → ref_count (erase_count bps addr) b ≡ (if addr == b then none else ref_count bps b)
unfolding ref_count erase_count
ref_count-erase_count [] addr b = ground arith
ref_count-erase_count ((a, k) ∷ bps) addr b = ground (arith, ref_count-erase_count bps addr b)

-- What a client asks for
pub data Command : Type 0 where
  set_at remove_at : ℕ → Command

-- The commands one after the other, with the answers; `none` is a failed assertion.
abbrev pub run_command : Engine → Process → Command → Option (Process × Status)
run_command e p (set_at addr) = some (set_breakpoint e p addr)
run_command e p (remove_at addr) = remove_breakpoint e p addr

abbrev pub run_commands : Engine → List Command → Process → Option (Process × List Status)
run_commands e [] p = some (p, [])
run_commands e (c ∷ commands) p = run_command e p c >>= λ r.
    run_commands e commands r.0 >>= λ later. some (later.0, r.1 ∷ later.1)

-- The specification: how often each address was asked for and not given back
abbrev pub counted : Engine → Command → (ℕ → ℕ) → (ℕ → ℕ) × Status
counted e (set_at addr) count =
    (λ a. if breakpoint_address e addr == a then suc (count a) else count a, success)
counted e (remove_at addr) count = (
  λ a. if breakpoint_address e addr == a then count a - 1 else count a,
  if count (breakpoint_address e addr) == 0 then breakpoint_not_found else success,
)

abbrev pub count_all : Engine → List Command → (ℕ → ℕ) → (ℕ → ℕ) × List Status
count_all e [] count = (count, [])
count_all e (c ∷ commands) count =
    let later = count_all e commands (counted e c count).0 in
    (later.0, (counted e c count).1 ∷ later.1)

-- An address has a breakpoint with its count exactly where the count is not 0.
abbrev pub some_positive : ℕ → Option ℕ
some_positive n = if n == 0 then none else some n

abbrev pub Counts : Process → (ℕ → ℕ) → Type 0
Counts p count = (a : ℕ) → ref_count p.breakpoints a ≡ some_positive (count a)

module _ (e : Engine) (addr : ℕ) (p : Process) (count : ℕ → ℕ) (h : Counts p count) where
  set-Counts :
      ((a : ℕ) → count a + 1 < 2 ^ 32)
      → Counts (set_breakpoint e p addr).0 (counted e (set_at addr) count).0
  unfolding set_breakpoint
  set-Counts small a =
      let at = breakpoint_address e addr in
      ground (
        arith,
        h at,
        h a,
        small at,
        ref_count-put_count p.breakpoints at 1 a,
        ref_count-put_count p.breakpoints at ((count at + 1) % 2 ^ 32) a,
        ==_iff at a,
      )

  absent : count (breakpoint_address e addr) ≡ 0 → Counts p (counted e (remove_at addr) count).0
  absent none_left a = let at = breakpoint_address e addr in ground (arith, h a, ==_iff at a)

  missing :
      count (breakpoint_address e addr) ≡ 0
      → remove_breakpoint e p addr ≡ some (p, breakpoint_not_found)
  unfolding remove_breakpoint
  missing none_left = ground (arith, h (breakpoint_address e addr))

  removed :
      count (breakpoint_address e addr) ≢ 0
      → (p' : Process) × (remove_breakpoint e p addr ≡ some (p', success))
        × Counts p' (counted e (remove_at addr) count).0
  unfolding remove_breakpoint
  removed positive =
      let at = breakpoint_address e addr in
      elim (Bool-cases (count at == 1)) [
        | inl last ↦ (
          record p { breakpoints = erase_count p.breakpoints at },
          ground (arith, h at, positive),
          λ a.
              ground
                (arith, h at, h a, last, ref_count-erase_count p.breakpoints at a, ==_iff at a),
        )
        | inr more ↦ (
          record p { breakpoints = put_count p.breakpoints at (count at - 1) },
          ground (arith, h at, positive, more),
          λ a. ground (
            arith,
            h at,
            h a,
            positive,
            more,
            ref_count-put_count p.breakpoints at (count at - 1) a,
            ==_iff at a,
          ),
        )
      ]

counted-le :
    (e : Engine) (c : Command) (count : ℕ → ℕ) (a : ℕ) → (counted e c count).0 a ≤ count a + 1
counted-le e (set_at addr) count a = ground arith
counted-le e (remove_at addr) count a = ground arith

command-Counts :
    (e : Engine) (c : Command) (p : Process) (count : ℕ → ℕ)
    → Counts p count
    → ((a : ℕ) → count a + 1 < 2 ^ 32)
    → (p' : Process) × (run_command e p c ≡ some (p', (counted e c count).1))
      × Counts p' (counted e c count).0
unfolding set_breakpoint
command-Counts e (set_at addr) p count h small =
    ((set_breakpoint e p addr).0, refl, set-Counts e addr p count h small)
command-Counts e (remove_at addr) p count h small =
    elim (Bool-cases (count (breakpoint_address e addr) == 0)) [
      | inl none_left ↦
          let zero_count : count (breakpoint_address e addr) ≡ 0 = ground (arith, none_left) in
          (
            p,
            rw none_left (missing e addr p count h zero_count),
            absent e addr p count h zero_count,
          )
      | inr more ↦
          let (p', ran, kept) = removed e addr p count h (λ z. ground (arith, more, z)) in
          (p', rw more ran, kept)
    ]

-- A client's commands are answered as the counts say, and leave a breakpoint with its count exactly at the
-- addresses whose count is not 0, as long as no count can pass 32 bits: no assertion fails.
pub run_commands-Counts :
    (e : Engine) (commands : List Command) (p : Process) (count : ℕ → ℕ)
    → Counts p count
    → ((a : ℕ) → count a + length commands < 2 ^ 32)
    → (p' : Process) × (run_commands e commands p ≡ some (p', (count_all e commands count).1))
      × Counts p' (count_all e commands count).0
run_commands-Counts e [] p count h small = (p, refl, h)
run_commands-Counts e (c ∷ commands) p count h small =
    let (p1, ran, h1) = command-Counts e c p count h (λ a. omega (arith, small a)) in
    let (p2, rest, h2) =
      run_commands-Counts e commands p1 (counted e c count).0 h1
        (λ a. omega (arith, small a, counted-le e c count a)) in
    (p2, rw (ran, rest) refl, h2)
