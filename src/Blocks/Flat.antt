-- ===== src/Blocks/Flat.antt =====
-- `BasicBlocks::convert`: the pointers of a block lead to its handlers.
use aether_vm.Prelude.{
  get_elem?-some_lt, ℕ, zero, suc, ◌+◌, ◌<◌, some, List, [], ◌∷◌, ◌++◌, length, get_elem?, ◌≡◌,
  refl, ap, ◌∙◌, arith, get_elem?-append_left,
}
use aether_vm.Blocks.{Instruction, convert, convert_blocks, pointers, flatten}

-- Where the handlers of a block begin
abbrev pub offset : List (List Instruction) → ℕ → ℕ
offset [] index = 0
offset (insns ∷ rest) zero = 0
offset (insns ∷ rest) (suc index) = length insns + offset rest index

get_elem?-pointers :
    (rt : ℕ) (insns : List Instruction) (k : ℕ)
    → k < length insns
    → get_elem? (pointers rt insns) k ≡ some (rt + k)
get_elem?-pointers rt [] k h = absurd (omega arith)
get_elem?-pointers rt (x ∷ insns) zero h = ground arith
get_elem?-pointers rt (x ∷ insns) (suc k) h =
    ground (arith, get_elem?-pointers (suc rt) insns k (omega arith))

get_elem?-convert_blocks :
    (rt : ℕ) (l : List (List Instruction)) (index : ℕ) {insns : List Instruction}
    → get_elem? l index ≡ some insns
    → get_elem? (convert_blocks rt l) index ≡ some (pointers (rt + offset l index) insns)
get_elem?-convert_blocks rt [] index h = cc
get_elem?-convert_blocks rt (x ∷ l) zero {insns} h =
    let same : x ≡ insns = ground (arith, h) in
    let at_start : rt + 0 ≡ rt = omega arith in rw (at_start, same) refl
get_elem?-convert_blocks rt (x ∷ l) (suc index) {insns} h =
    get_elem?-convert_blocks (rt + length x) l index h
    ∙ ap (λ n. some (pointers n insns)) (shift rt (length x) (offset l index))
  where
    shift : (a b c : ℕ) → a + b + c ≡ a + (b + c)
    shift a b c = omega arith

pub get_elem?-append_right {ℓ} :
    {A : Type ℓ} (a b : List A) (k : ℕ) → get_elem? (a ++ b) (length a + k) ≡ get_elem? b k
get_elem?-append_right [] b k = ground arith
get_elem?-append_right (x ∷ a) b k =
    ap (get_elem? (x ∷ (a ++ b))) (next (length a)) ∙ get_elem?-append_right a b k
  where
    next : (n : ℕ) → suc n + k ≡ suc (n + k)
    next n = omega arith

get_elem?-flatten :
    (l : List (List Instruction)) (index k : ℕ) {insns : List Instruction}
    → get_elem? l index ≡ some insns
    → k < length insns
    → get_elem? (flatten l) (offset l index + k) ≡ get_elem? insns k
get_elem?-flatten [] index k h p = cc
get_elem?-flatten (x ∷ l) zero k {insns} h p =
    let same : x ≡ insns = ground (arith, h) in
    ap (get_elem? (x ++ flatten l)) (start k)
    ∙ get_elem?-append_left x (flatten l) k (ground (arith, p, ap length same))
    ∙ ap (λ s. get_elem? s k) same
  where
    start : (n : ℕ) → 0 + n ≡ n
    start n = omega arith
get_elem?-flatten (x ∷ l) (suc index) k h p =
    ap (get_elem? (x ++ flatten l)) (shift (length x) (offset l index) k)
    ∙ get_elem?-append_right x (flatten l) (offset l index + k)
    ∙ get_elem?-flatten l index k h p
  where
    shift : (a b c : ℕ) → a + b + c ≡ a + (b + c)
    shift a b c = omega arith

-- For every handler of every block, the converted block has at its place a pointer into `rthandlers`
-- that leads to that handler.
pub convert-pointers :
    (vmaddrs : List ℕ) (maxaddr : ℕ) (handlers : List (List Instruction)) (index k : ℕ)
    {insns : List Instruction} {insn : Instruction}
    → get_elem? handlers index ≡ some insns
    → get_elem? insns k ≡ some insn
    → (ps : List ℕ) × (p : ℕ) × (get_elem? (convert vmaddrs maxaddr handlers).bbhandlers index
        ≡ some ps)
      × (get_elem? ps k ≡ some p)
      × (get_elem? (convert vmaddrs maxaddr handlers).rthandlers p ≡ some insn)
unfolding convert
convert-pointers vmaddrs maxaddr handlers index k {insns} {insn} h e =
    let inside = get_elem?-some_lt insns k e in
    (
      pointers (offset handlers index) insns,
      offset handlers index + k,
      get_elem?-convert_blocks 0 handlers index h ∙ ap (λ n. some (pointers n insns)) (omega arith),
      get_elem?-pointers (offset handlers index) insns k inside,
      get_elem?-flatten handlers index k h inside ∙ e,
    )
