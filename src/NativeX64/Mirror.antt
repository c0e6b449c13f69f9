-- ===== src/NativeX64/Mirror.antt =====
-- The host's registers around a native handler of x64: src/Lifter.cpp.
use aether_vm.Prelude.{
  ℕ, Bool, List, [], ◌∷◌, ◌++◌, if◌then◌else◌, ◌≡◌, refl, ap, sym, ◌∙◌, Bool-cases, inl, inr,
}
use aether_vm.NativeX64.{
  Asm64, push, pop, save_xmm, restore_xmm, is_callee_saved_gpr, is_callee_saved_xmm, for_each,
  for_each_back, save_host64, restore_host64,
}

-- What takes back an instruction that saves a register
abbrev pub undo : Asm64 → Asm64
undo (push r) = pop r
undo (save_xmm r) = restore_xmm r
undo i = i

-- The instructions that take back a list of them, from the last one on
abbrev pub undo_all : List Asm64 → List Asm64
undo_all [] = []
undo_all (i ∷ code) = undo_all code ++ undo i ∷ []

append_nil : (a : List Asm64) → a ++ [] ≡ a
append_nil [] = refl
append_nil (i ∷ a) = ap (λ l. i ∷ l) (append_nil a)

append_assoc : (a b c : List Asm64) → (a ++ b) ++ c ≡ a ++ (b ++ c)
append_assoc [] b c = refl
append_assoc (i ∷ a) b c = ap (λ l. i ∷ l) (append_assoc a b c)

undo_all-append : (a b : List Asm64) → undo_all (a ++ b) ≡ undo_all b ++ undo_all a
undo_all-append [] b = sym (append_nil (undo_all b))
undo_all-append (i ∷ a) b =
    ap (λ l. l ++ undo i ∷ []) (undo_all-append a b)
    ∙ append_assoc (undo_all b) (undo_all a) (undo i ∷ [])

for_each-undo :
    (save restore : ℕ → List Asm64) (used : List ℕ)
    → ((r : ℕ) → restore r ≡ undo_all (save r))
    → for_each_back restore used ≡ undo_all (for_each save used)
for_each-undo save restore [] h = refl
for_each-undo save restore (r ∷ used) h =
    ap (λ l. l ++ restore r) (for_each-undo save restore used h)
    ∙ ap (λ l. undo_all (for_each save used) ++ l) (h r)
    ∙ sym (undo_all-append (save r) (for_each save used))

abbrev save_gpr : Bool → ℕ → List Asm64
save_gpr windows r = if is_callee_saved_gpr windows r then push r ∷ [] else []

abbrev restore_gpr : Bool → ℕ → List Asm64
restore_gpr windows r = if is_callee_saved_gpr windows r then pop r ∷ [] else []

abbrev save_high : Bool → ℕ → List Asm64
save_high windows r = if is_callee_saved_xmm windows r then save_xmm r ∷ [] else []

abbrev restore_high : Bool → ℕ → List Asm64
restore_high windows r = if is_callee_saved_xmm windows r then restore_xmm r ∷ [] else []

gpr-undo : (windows : Bool) (r : ℕ) → restore_gpr windows r ≡ undo_all (save_gpr windows r)
gpr-undo windows r = elim (Bool-cases (is_callee_saved_gpr windows r)) [
  | inl e ↦ rw e refl
  | inr e ↦ rw e refl
]

high-undo : (windows : Bool) (r : ℕ) → restore_high windows r ≡ undo_all (save_high windows r)
high-undo windows r = elim (Bool-cases (is_callee_saved_xmm windows r)) [
  | inl e ↦ rw e refl
  | inr e ↦ rw e refl
]

-- For both ABIs, the code behind the instruction restores the host's registers in the mirror order of the
-- code before it that saves them, each by the instruction that takes its save back.
pub restore_host64-save_host64 :
    (windows : Bool) (used : List ℕ)
    → restore_host64 windows used ≡ undo_all (save_host64 windows used)
unfolding restore_host64 save_host64
restore_host64-save_host64 windows used =
    ap (λ l. l ++ for_each_back (restore_gpr windows) used)
      (for_each-undo (save_high windows) (restore_high windows) used (high-undo windows))
    ∙ ap (λ l. undo_all (for_each (save_high windows) used) ++ l)
        (for_each-undo (save_gpr windows) (restore_gpr windows) used (gpr-undo windows))
    ∙ sym (undo_all-append (for_each (save_gpr windows) used) (for_each (save_high windows) used))
