-- ===== src/Native/Switch.antt =====
-- The native handler of an AArch64 instruction as a whole: `nativeHandlerAArch64` of src/Lifter.cpp.
use aether_vm.Prelude.{
  ℕ, ◌+◌, ◌%◌, ◌^◌, ◌≤◌, true, false, ◌&&◌, some, List, ◌∷◌, ◌++◌, length, contains, ◌==◌, ==_iff,
  if◌then◌else◌, ◌≡◌, refl, ap, sym, ◌∙◌, arith, Bool-cases, ◌⊎◌, inl, inr,
}
use aether_vm.Native.{
  x_reg_at, is_x, is_saved_x, Asm, opcode, save_host, load_guest, store_guest, restore_host,
  move_context, update_pc, native_handler, Machine, set, run,
}
use aether_vm.Native.Run.{run-append}
use aether_vm.Native.Guest.{
  IsLayout, is_guest, cell_of, guest_value, loaded, loaded-at, stored_value, stored, stored-at,
  run-load_guest, run-store_guest,
}
use aether_vm.Native.Host.{is_saved, pushed, popped, popped-at, run-save_host, run-restore_host}
use aether_vm.Native.Context.{IsLocal, IsContext, context_register-total}
use aether_vm.Native.Moves.{
  final, final-saved, moved_in, moved_out, moved_out-same, moved_out-other, moved_in-same,
  moved_in-base, run-update_pc, run-move_in, run-move_out,
}

module _ (gpr simd cpu pcptr : ℕ) (exec : (ℕ → ℕ × ℕ) → ℕ → ℕ × ℕ) where
  module _ (used : List ℕ) (base : ℕ) where
    -- The registers with the guest's values, and after the instruction
    abbrev guest_regs : Machine → ℕ → ℕ × ℕ
    guest_regs m = loaded gpr simd m.cells used (moved_in base m.regs)

    abbrev executed : Machine → ℕ → ℕ × ℕ
    executed m = exec (guest_regs m)

    abbrev restored : Machine → ℕ → ℕ × ℕ
    restored m = popped m.regs used (moved_out base (executed m))

    -- A register that is not used keeps its value up to the move back.
    unused-executed :
        (m : Machine) (s : ℕ)
        → IsLocal used exec
        → contains used s ≡ false
        → executed m s ≡ moved_in base m.regs s
    unused-executed m s local h =
        local.keeps (guest_regs m) s (rw h refl)
        ∙ loaded-at gpr simd m.cells used (moved_in base m.regs) s
        ∙ rw h refl

    -- What the instruction computes is what it computes from the guest's registers.
    used-executed :
        (m : Machine) (s : ℕ)
        → IsLocal used exec
        → (contains used s && is_guest s) ≡ true
        → executed m s ≡ exec (guest_value gpr simd m.cells) s
    used-executed m s local h =
        local.reads (guest_regs m) (guest_value gpr simd m.cells)
          (λ t g. loaded-at gpr simd m.cells used (moved_in base m.regs) t ∙ rw g refl) s h

    module _ (c : IsContext used base) (m : Machine) (local : IsLocal used exec)
        (at : (m.regs (x_reg_at 26)).0 ≡ cpu) where
      executed-base : (executed m base).0 ≡ cpu
      executed-base =
          ap (λ v. v.0) (unused-executed m base local c.unused) ∙ moved_in-base cpu base m.regs at

      unused-saved :
          (s : ℕ)
          → is_saved s ≡ true
          → contains used s ≡ false
          → (moved_out base (executed m) s).0 ≡ (m.regs s).0
      unused-saved s h u = elim (Bool-cases (base == x_reg_at 26)) [
        | inl e ↦
            ap (λ v. v.0)
              (moved_out-same base (executed m) s e
                ∙ unused-executed m s local u
                ∙ moved_in-same base m.regs s e)
        | inr e ↦
            ap (λ v. v.0) (moved_out-other base (executed m) s e)
            ∙ moved e (Bool-cases (x_reg_at 26 == s))
      ]
        where
          kept :
              ((base == s) ≡ true) ⊎ ((base == s) ≡ false)
              → (base == x_reg_at 26) ≡ false
              → (moved_in base m.regs s).0 ≡ (m.regs s).0
          kept (inl same) e =
              let saved : is_saved base ≡ true = ap is_saved ((==_iff base s).0 same) ∙ h in
              elim c.free [
                | inl f ↦ absurd (ground (arith, e, f))
                | inr f ↦ (let wrong : true ≡ false = sym saved ∙ f in cc)
              ]
          kept (inr other) e = rw (e, other) refl

          moved :
              (base == x_reg_at 26) ≡ false
              → ((x_reg_at 26 == s) ≡ true) ⊎ ((x_reg_at 26 == s) ≡ false)
              → (set (executed m) (x_reg_at 26) ((executed m base).0, 0) s).0 ≡ (m.regs s).0
          moved e (inl here) =
              rw here
                (executed-base ∙ sym at ∙ ap (λ r. (m.regs r).0) ((==_iff (x_reg_at 26) s).0 here))
          moved e (inr other) =
              rw other
                (ap (λ v. v.0) (unused-executed m s local u) ∙ kept (Bool-cases (base == s)) e)

      restored-saved : (s : ℕ) → is_saved s ≡ true → (restored m s).0 ≡ (m.regs s).0
      restored-saved s h =
          ap (λ v. v.0) (popped-at m.regs used (moved_out base (executed m)) s)
          ∙ either (Bool-cases (contains used s))
        where
          either :
              (contains used s ≡ true) ⊎ (contains used s ≡ false)
              → (if contains used s && is_saved s
                  then ((m.regs s).0, 0)
                  else moved_out base (executed m) s).0
                ≡ (m.regs s).0
          either (inl u) = rw (u, h) refl
          either (inr u) = rw u (unused-saved s h u)

      restored-context : (restored m (x_reg_at 26)).0 ≡ cpu
      unfolding is_saved_x
      restored-context = restored-saved (x_reg_at 26) refl ∙ at

      run-native :
          run cpu pcptr exec
            (save_host used
              ++ (move_context base base (x_reg_at 26)
                  ++ (load_guest gpr simd base used
                      ++ (opcode
                          ∷ (store_guest gpr simd base used
                              ++ (move_context base (x_reg_at 26) base
                                  ++ (restore_host used ++ update_pc)))))))
            m
          ≡ some (record m {
            regs = final cpu pcptr (restored m) m.pc;
            cells = stored gpr simd (executed m) used m.cells;
            pc = (m.pc + 4) % 2 ^ 64;
          })
      unfolding run
      run-native =
          let saved : Machine = record m { stack = pushed m.regs used m.stack } in
          let inside : Machine = record saved { regs = moved_in base m.regs } in
          let after : Machine = record saved { regs = executed m } in
          let written : Machine = record after {
            cells = stored gpr simd (executed m) used m.cells;
          } in
          let outside : Machine = record written { regs = moved_out base (executed m) } in
          let clean : Machine = record outside { regs = restored m; stack = m.stack } in
          run-append cpu pcptr exec (save_host used) _ m (run-save_host cpu pcptr exec used m)
          ∙ run-append cpu pcptr exec (move_context base base (x_reg_at 26)) _ saved
              (run-move_in cpu pcptr exec base saved)
          ∙ run-append cpu pcptr exec (load_guest gpr simd base used) _ inside (
              run-load_guest gpr simd cpu pcptr exec base used inside
                (moved_in-base cpu base m.regs at) c.unused)
          ∙ run-append cpu pcptr exec (store_guest gpr simd base used) _ after
              (run-store_guest gpr simd cpu pcptr exec base used after executed-base)
          ∙ run-append cpu pcptr exec (move_context base (x_reg_at 26) base) _ written
              (run-move_out cpu pcptr exec base written)
          ∙ run-append cpu pcptr exec (restore_host used) update_pc outside
              (run-restore_host cpu pcptr exec m.regs used outside m.stack refl)
          ∙ run-update_pc cpu pcptr exec clean restored-context

  -- What a native handler does to a machine
  pub record IsSwitched (used : List ℕ) (m m' : Machine) : Type 0 where
    pub guest_cells :
        (s : ℕ)
        → is_guest s ≡ true
        → m'.cells (cell_of gpr simd s) ≡ (
            if contains used s
            then stored_value gpr simd (exec (guest_value gpr simd m.cells)) m.cells s
            else m.cells (cell_of gpr simd s))
    pub host_regs :
        (s : ℕ) → is_saved s ≡ true → (s == x_reg_at 27) ≡ false → (m'.regs s).0 ≡ (m.regs s).0
    pub stack : m'.stack ≡ m.stack
    pub pc : m'.pc ≡ (m.pc + 4) % 2 ^ 64
    pub next : (m'.regs (x_reg_at 27)).0 ≡ ((m.regs (x_reg_at 27)).0 + 8) % 2 ^ 64
    pub state_argument : (m'.regs (x_reg_at 0)).0 ≡ cpu
    pub pc_argument : (m'.regs (x_reg_at 1)).0 ≡ m'.pc
    pub insn_argument : (m'.regs (x_reg_at 2)).0 ≡ (m'.regs (x_reg_at 27)).0

  guest-switched :
      (used : List ℕ) (base : ℕ) (m : Machine) (s : ℕ)
      → IsLayout gpr simd
      → IsLocal used exec
      → is_guest s ≡ true
      → stored gpr simd (executed used base m) used m.cells (cell_of gpr simd s) ≡ (
          if contains used s
          then stored_value gpr simd (exec (guest_value gpr simd m.cells)) m.cells s
          else m.cells (cell_of gpr simd s))
  guest-switched used base m s layout local h =
      stored-at gpr simd layout (executed used base m) used m.cells s h
      ∙ same (Bool-cases (contains used s))
    where
      same :
          (contains used s ≡ true) ⊎ (contains used s ≡ false)
          → (if contains used s
              then stored_value gpr simd (executed used base m) m.cells s
              else m.cells (cell_of gpr simd s))
            ≡ (if contains used s
                then stored_value gpr simd (exec (guest_value gpr simd m.cells)) m.cells s
                else m.cells (cell_of gpr simd s))
      same (inl u) = rw u (
          ap (λ (v : ℕ × ℕ). if is_x s then (v.0, (m.cells (cell_of gpr simd s)).1) else v)
            (used-executed used base m s local (rw (u, h) refl)))
      same (inr u) = rw u refl

  -- The native handler of an instruction with at most 17 used registers, which reads and writes no others,
  -- is made and runs through: in the guest's state every used register has the value that the instruction
  -- computes from the guest's registers and all others are kept; the host's registers that a callee saves,
  -- its stack and the context register are as before; the guest's pc is the next one, and the arguments
  -- are those of the next handler.
  pub native_handler-IsSwitched :
      (used : List ℕ) (m : Machine)
      → IsLayout gpr simd
      → length used ≤ 17
      → IsLocal used exec
      → (m.regs (x_reg_at 26)).0 ≡ cpu
      → (code : List Asm) × (m' : Machine) × (native_handler gpr simd used ≡ some code)
        × (run cpu pcptr exec code m ≡ some m')
        × IsSwitched used m m'
  unfolding native_handler is_saved_x
  native_handler-IsSwitched used m layout few local at =
      let (base, found, c) = context_register-total used few in
      let left = restored used base m in
      (
        _,
        record m {
          regs = final cpu pcptr left m.pc;
          cells = stored gpr simd (executed used base m) used m.cells;
          pc = (m.pc + 4) % 2 ^ 64;
        },
        rw (native_handler, found) refl,
        run-native used base c m local at,
        record {
          guest_cells = λ s h. guest-switched used base m s layout local h;
          host_regs = λ s h other.
              ap (λ v. v.0) (final-saved cpu pcptr left m.pc s h other)
              ∙ restored-saved used base c m local at s h;
          stack = refl;
          pc = refl;
          next =
              ap (λ n. (n + 8) % 2 ^ 64) (restored-saved used base c m local at (x_reg_at 27) refl);
          state_argument = refl;
          pc_argument = refl;
          insn_argument = refl;
        },
      )
