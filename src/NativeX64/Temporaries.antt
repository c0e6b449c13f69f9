-- ===== src/NativeX64/Temporaries.antt =====
-- The registers that stand in for R12 and RSP in a native handler of x64: src/Lifter.cpp.
use aether_vm.Prelude.{
  ℕ, suc, ◌+◌, ◌≤◌, Bool, true, false, not, ◌&&◌, some, List, [], ◌∷◌, length, contains, ◌==◌,
  ==_iff, ==_self, if◌then◌else◌, ◌≡◌, refl, ap, sym, ◌∙◌, arith, Bool-cases, ◌⊎◌, inl, inr,
}
use aether_vm.NativeX64.{
  r_reg, rsp_reg, is_callee_saved_gpr, cpu_candidates, next_candidate, temporaries,
}

abbrev distinct : List ℕ → Bool
distinct [] = true
distinct (c ∷ l) = not (contains l c) && distinct l

-- The number of candidates that are not used
abbrev available : List ℕ → List ℕ → ℕ
available used [] = 0
available used (c ∷ l) = if contains used c then available used l else suc (available used l)

available-absent :
    (x : ℕ) (used l : List ℕ) → contains l x ≡ false → available (x ∷ used) l ≡ available used l
available-absent x used [] h = refl
available-absent x used (c ∷ l) h =
    let other : (x == c) ≡ false = ground (arith, h, ==_iff x c, ==_iff c x) in
    let same = available-absent x used l (ground (arith, h)) in ground (arith, other, same)

available-cons :
    (x : ℕ) (used l : List ℕ) → distinct l ≡ true → available used l ≤ available (x ∷ used) l + 1
available-cons x used [] h = omega arith
available-cons x used (c ∷ l) h = elim (Bool-cases (x == c)) [
  | inl e ↦
      let here = (==_iff x c).0 e in
      let gone : contains l x ≡ false = ap (contains l) here ∙ ground (arith, h) in
      let same = available-absent x used l gone in ground (arith, e, same)
  | inr e ↦ ground (arith, e, available-cons x used l (ground (arith, h)))
]

length-available : (used l : List ℕ) → distinct l ≡ true → length l ≤ available used l + length used
length-available [] l h = all l
  where
    all : (l : List ℕ) → length l ≤ available [] l + 0
    all [] = omega arith
    all (c ∷ l) = omega (arith, all l)
length-available (x ∷ used) l h =
    omega (arith, length-available used l h, available-cons x used l h)

-- One of the candidates is found while there is an available one.
record IsChosen (used candidates : List ℕ) (c : ℕ) (rest : List ℕ) : Type 0 where
  unused : contains used c ≡ false
  among : contains candidates c ≡ true
  fewer : available used candidates ≡ available used rest + 1
  later : contains rest c ≡ false
  within : (x : ℕ) → contains rest x ≡ true → contains candidates x ≡ true
  rest_distinct : distinct rest ≡ true

next_candidate-total :
    (used candidates : List ℕ)
    → distinct candidates ≡ true
    → 1 ≤ available used candidates
    → (c : ℕ) × (rest : List ℕ) × (next_candidate used candidates ≡ some (c, rest))
      × IsChosen used candidates c rest
next_candidate-total used [] d h = absurd (omega (arith, h))
next_candidate-total used (c ∷ l) d h = elim (Bool-cases (contains used c)) [
  | inl e ↦
      let (found, rest, done, chosen) =
        next_candidate-total used l (ground (arith, d)) (ground (arith, e, h)) in
      (
        found,
        rest,
        rw e done,
        record {
          unused = chosen.unused;
          among = ground (arith, chosen.among);
          fewer = rw e chosen.fewer;
          later = chosen.later;
          within = λ x k. ground (arith, chosen.within x k);
          rest_distinct = chosen.rest_distinct;
        },
      )
  | inr e ↦ (
    c,
    l,
    rw e refl,
    record {
      unused = e;
      among = rw (==_self c) refl;
      fewer = rw e (omega arith);
      later = ground (arith, d);
      within = λ x k. ground (arith, k);
      rest_distinct = ground (arith, d);
    },
  )
]

-- The two registers: the context's is not used, that of the stack pointer is not where the stack pointer is
-- used, they are two, and each is the register that it stands in for or one that no callee saves.
pub record AreTemporaries (windows : Bool) (used : List ℕ) (cpu stack : ℕ) : Type 0 where
  pub cpu_unused : contains used cpu ≡ false
  pub cpu_free : (cpu ≡ r_reg 12) ⊎ (is_callee_saved_gpr windows cpu ≡ false)
  pub stack_unused : contains used stack ≡ false
  pub stack_free : (stack ≡ rsp_reg) ⊎ (is_callee_saved_gpr windows stack ≡ false)
  pub two : (cpu == stack) ≡ false

candidates-free :
    (windows : Bool) (c : ℕ)
    → contains (cpu_candidates windows) c ≡ true
    → (is_callee_saved_gpr windows c ≡ false) × ((c == rsp_reg) ≡ false) × ((r_reg 12 == c) ≡ false)
candidates-free true c h = (ground (arith, h), ground (arith, h), ground (arith, h))
candidates-free false c h = (ground (arith, h), ground (arith, h), ground (arith, h))

candidates-distinct : (windows : Bool) → distinct (cpu_candidates windows) ≡ true
candidates-distinct true = refl
candidates-distinct false = refl

candidates-length : (windows : Bool) → 7 ≤ length (cpu_candidates windows)
candidates-length true = omega arith
candidates-length false = omega arith

candidates-without : (windows : Bool) → contains (cpu_candidates windows) (r_reg 12) ≡ false
candidates-without true = refl
candidates-without false = refl

apart : (l : List ℕ) (a b : ℕ) → contains l a ≡ false → contains l b ≡ true → (a == b) ≡ false
apart l a b h k = elim (Bool-cases (a == b)) [
  | inl e ↦ (let wrong : false ≡ true = sym h ∙ ap (contains l) ((==_iff a b).0 e) ∙ k in cc)
  | inr e ↦ e
]

-- The loop for the context register, and what is left for the other
context-total :
    (windows : Bool) (used : List ℕ)
    → length used ≤ 5
    → (cpu : ℕ) × (rest : List ℕ) × ((if contains used (r_reg 12)
          then next_candidate used (cpu_candidates windows)
          else some (r_reg 12, cpu_candidates windows))
        ≡ some (cpu, rest))
      × (contains used cpu ≡ false)
      × ((cpu ≡ r_reg 12) ⊎ (is_callee_saved_gpr windows cpu ≡ false))
      × ((cpu == rsp_reg) ≡ false)
      × (contains rest cpu ≡ false)
      × (1 ≤ available used rest)
      × (distinct rest ≡ true)
      × ((x : ℕ) → contains rest x ≡ true → contains (cpu_candidates windows) x ≡ true)
context-total windows used few =
    let d = candidates-distinct windows in
    let enough = length-available used (cpu_candidates windows) d in
    let many = candidates-length windows in
    elim (Bool-cases (contains used (r_reg 12))) [
      | inl e ↦
          let (c, rest, done, chosen) =
            next_candidate-total used (cpu_candidates windows) d
              (omega (arith, enough, many, few)) in
          let free = candidates-free windows c chosen.among in
          (
            c,
            rest,
            rw e done,
            chosen.unused,
            inr free.0,
            free.1,
            chosen.later,
            omega (arith, enough, many, few, chosen.fewer),
            chosen.rest_distinct,
            chosen.within,
          )
      | inr e ↦ (
        r_reg 12,
        cpu_candidates windows,
        rw e refl,
        e,
        inl refl,
        refl,
        candidates-without windows,
        omega (arith, enough, many, few),
        d,
        λ x k. k,
      )
    ]

-- For an instruction with at most five used registers both loops end within the candidates.
pub temporaries-total :
    (windows : Bool) (used : List ℕ)
    → length used ≤ 5
    → (cpu stack : ℕ) × (temporaries windows used ≡ some (cpu, stack))
      × AreTemporaries windows used cpu stack
unfolding temporaries
temporaries-total windows used few =
    let (cpu, rest, done, unused, free, other, later, enough, d, within) =
      context-total windows used few in
    elim (Bool-cases (contains used rsp_reg)) [
      | inl e ↦
          let (stack, rest', found, chosen) = next_candidate-total used rest d enough in
          let free' = candidates-free windows stack (within stack chosen.among) in
          (
            cpu,
            stack,
            rw (temporaries, done, e, found) refl,
            record {
              cpu_unused = unused;
              cpu_free = free;
              stack_unused = chosen.unused;
              stack_free = inr free'.0;
              two = apart rest cpu stack later chosen.among;
            },
          )
      | inr e ↦ (
        cpu,
        rsp_reg,
        rw (temporaries, done, e) refl,
        record {
          cpu_unused = unused;
          cpu_free = free;
          stack_unused = e;
          stack_free = inl refl;
          two = other;
        },
      )
    ]
