-- ===== src/MetaFile/Insns.antt =====
-- The instructions of the metadata file: the offsets that `serialize` of src/PreEncoder.cpp puts in, and what
-- `dump` reads and checks of them.
use aether_vm.Prelude.{
  ℕ, zero, suc, ◌*◌, ◌^◌, ◌<◌, true, Option, none, some, List, [], ◌∷◌, ◌++◌, length, get_elem?,
  contains, insert, contains-insert, ltb, ◌==◌, ◌≡◌, refl, ◌∙◌, subst, arith, All, Bool-cases,
  Option-cases, inl, inr,
}
use aether_vm.Word.Bytes.{read_le-le_bytes}
use aether_vm.MetaFile.{no_handler, fix_up, insn_bytes}
use aether_vm.MetaFile.Dump.{Listed, dump_insns, referenced, computed, mismatches}
use aether_vm.MetaFile.Listing.{offsets, listed_offsets}

-- The metadata that is written for the instructions: the rva is kept, and the handler is the offset of the
-- one that the index names, or the mark of none.
abbrev pub IsFixed : List Listed → List (ℕ × Option ℕ) → List (ℕ × ℕ) → Type 0
IsFixed ls [] [] = Unit
IsFixed ls [] (m ∷ metas) = ⊥
IsFixed ls (i ∷ insns) [] = ⊥
IsFixed ls ((rva, none) ∷ insns) (m ∷ metas) =
    (m.0 ≡ rva) × (m.1 ≡ no_handler) × IsFixed ls insns metas
IsFixed ls ((rva, some index) ∷ insns) (m ∷ metas) =
    (m.0 ≡ rva)
    × (l : Listed) × (get_elem? ls index ≡ some l)
    × (m.1 ≡ l.offset)
    × IsFixed ls insns metas

-- The record at an index is listed there.
listed_at :
    (ls : List Listed) (records : List (ℕ × List ℕ)) (index : ℕ) {r : ℕ × List ℕ}
    → listed_offsets ls ≡ offsets records
    → get_elem? records index ≡ some r
    → (l : Listed) × (get_elem? ls index ≡ some l) × (r.0 ≡ l.offset)
listed_at ls [] index same e = cc
listed_at [] (r' ∷ records) index same e = absurd (ground (arith, same))
listed_at (l ∷ ls) (r' ∷ records) zero same e = (l, refl, ground (arith, same, e))
listed_at (l ∷ ls) (r' ∷ records) (suc index) same e =
    listed_at ls records index (ground (arith, same)) e

pub fix_up-IsFixed :
    (ls : List Listed) (records : List (ℕ × List ℕ)) (insns : List (ℕ × Option ℕ))
    {metas : List (ℕ × ℕ)}
    → listed_offsets ls ≡ offsets records
    → fix_up records insns ≡ some metas
    → IsFixed ls insns metas
unfolding fix_up
fix_up-IsFixed ls records [] {metas} same e =
    let empty : [] ≡ metas = ground (arith, e) in subst (IsFixed ls []) empty tt
fix_up-IsFixed ls records ((rva, none) ∷ insns) {metas} same e =
    elim (Option-cases (fix_up records insns)) [
      | inl f ↦ absurd (ground (arith, e, f))
      | inr (rest, f) ↦
          let made : (rva, no_handler) ∷ rest ≡ metas = ground (arith, e, f) in
          subst (IsFixed ls ((rva, none) ∷ insns)) made
            (refl, refl, fix_up-IsFixed ls records insns same f)
    ]
fix_up-IsFixed ls records ((rva, some index) ∷ insns) {metas} same e =
    elim (Option-cases (get_elem? records index)) [
      | inl g ↦ absurd (ground (arith, e, g))
      | inr (r, g) ↦ elim (Option-cases (fix_up records insns)) [
        | inl f ↦ absurd (ground (arith, e, f, g))
        | inr (rest, f) ↦
            let made : (rva, r.0) ∷ rest ≡ metas = ground (arith, e, f, g) in
            let (l, found, offset) = listed_at ls records index same g in
            subst (IsFixed ls ((rva, some index) ∷ insns)) made
              (refl, l, found, offset, fix_up-IsFixed ls records insns same f)
      ]
    ]

contains-computed :
    (ls : List Listed) (k : ℕ) → contains (computed ls) k ≡ contains (listed_offsets ls) k
contains-computed [] k = refl
contains-computed (l ∷ ls) k =
    ground (arith, contains-insert l.offset (computed ls) k, contains-computed ls k)

contains-listed :
    (ls : List Listed) (index : ℕ) {l : Listed}
    → get_elem? ls index ≡ some l
    → contains (listed_offsets ls) l.offset ≡ true
contains-listed [] index e = cc
contains-listed (l' ∷ ls) zero {l} e =
    let same : l'.offset ≡ l.offset = ground (arith, e) in ground (arith, same)
contains-listed (l' ∷ ls) (suc index) {l} e = ground (arith, contains-listed ls index e)

abbrev IsIn : List ℕ → ℕ → Type 0
IsIn l k = contains l k ≡ true

All-insert :
    (l : List ℕ) (n : ℕ) (refs : List ℕ)
    → IsIn l n
    → All (IsIn l) refs
    → All (IsIn l) (insert n refs)
unfolding insert
All-insert l n [] h all = (h, tt)
All-insert l n (x ∷ refs) h all = elim (Bool-cases (ltb n x)) [
  | inl e ↦ rw e (h, all)
  | inr e ↦ elim (Bool-cases (n == x)) [
    | inl f ↦ rw (e, f) all
    | inr f ↦ rw (e, f) (all.0, All-insert l n refs h all.1)
  ]
]

mismatches-zero : (l refs : List ℕ) → All (IsIn l) refs → mismatches refs l ≡ 0
mismatches-zero l [] all = refl
mismatches-zero l (x ∷ refs) all = ground (arith, all.0, mismatches-zero l refs all.1)

referenced-listed :
    (ls : List Listed) (insns : List (ℕ × Option ℕ)) (metas : List (ℕ × ℕ))
    → IsFixed ls insns metas
    → All (IsIn (computed ls)) (referenced metas)
referenced-listed ls [] [] h = tt
referenced-listed ls [] (m ∷ metas) h = absurd h
referenced-listed ls (i ∷ insns) [] h = absurd h
referenced-listed ls ((rva, none) ∷ insns) (m ∷ metas) (same, mark, h) =
    let test : (m.1 == no_handler) ≡ true = ground (arith, mark) in
    rw test (referenced-listed ls insns metas h)
referenced-listed ls ((rva, some index) ∷ insns) (m ∷ metas) (same, l, found, place, h) =
    elim (Bool-cases (m.1 == no_handler)) [
      | inl e ↦ rw e (referenced-listed ls insns metas h)
      | inr e ↦ rw e (
          All-insert (computed ls) m.1 (referenced metas)
            (rw place (contains-computed ls l.offset ∙ contains-listed ls index found))
            (referenced-listed ls insns metas h))
    ]

-- The check of the dump finds no mismatch.
pub mismatches-fixed :
    (ls : List Listed) (insns : List (ℕ × Option ℕ)) (metas : List (ℕ × ℕ))
    → IsFixed ls insns metas
    → mismatches (referenced metas) (computed ls) ≡ 0
mismatches-fixed ls insns metas h =
    mismatches-zero (computed ls) (referenced metas) (referenced-listed ls insns metas h)

-- An instruction's metadata within its two `uint32_t`
abbrev pub Fits : ℕ × ℕ → Type 0
Fits m = (m.0 < 2 ^ 32) × (m.1 < 2 ^ 32)

abbrev pub HasRva : ℕ × Option ℕ → Type 0
HasRva i = i.0 < 2 ^ 32

offset-fits :
    (records : List (ℕ × List ℕ)) (index : ℕ) {r : ℕ × List ℕ}
    → All (λ o. o < 2 ^ 32) (offsets records)
    → get_elem? records index ≡ some r
    → r.0 < 2 ^ 32
offset-fits [] index all e = cc
offset-fits (r' ∷ records) zero {r} all e =
    let same : r'.0 ≡ r.0 = ground (arith, e) in omega (arith, all.0)
offset-fits (r' ∷ records) (suc index) all e = offset-fits records index all.1 e

pub fix_up-Fits :
    (records : List (ℕ × List ℕ)) (insns : List (ℕ × Option ℕ)) {metas : List (ℕ × ℕ)}
    → All (λ o. o < 2 ^ 32) (offsets records)
    → All HasRva insns
    → fix_up records insns ≡ some metas
    → All Fits metas
unfolding fix_up
fix_up-Fits records [] {metas} places rvas e =
    let empty : [] ≡ metas = ground (arith, e) in subst (All Fits) empty tt
fix_up-Fits records ((rva, none) ∷ insns) {metas} places rvas e =
    elim (Option-cases (fix_up records insns)) [
      | inl f ↦ absurd (ground (arith, e, f))
      | inr (rest, f) ↦
          let made : (rva, no_handler) ∷ rest ≡ metas = ground (arith, e, f) in
          subst (All Fits) made ((rvas.0, omega arith), fix_up-Fits records insns places rvas.1 f)
    ]
fix_up-Fits records ((rva, some index) ∷ insns) {metas} places rvas e =
    elim (Option-cases (get_elem? records index)) [
      | inl g ↦ absurd (ground (arith, e, g))
      | inr (r, g) ↦ elim (Option-cases (fix_up records insns)) [
        | inl f ↦ absurd (ground (arith, e, f, g))
        | inr (rest, f) ↦
            let made : (rva, r.0) ∷ rest ≡ metas = ground (arith, e, f, g) in
            subst (All Fits) made (
              (rvas.0, offset-fits records index places g),
              fix_up-Fits records insns places rvas.1 f,
            )
      ]
    ]

pub dump_insns-bytes :
    (metas : List (ℕ × ℕ)) (rest : List ℕ)
    → All Fits metas
    → dump_insns (length metas) (insn_bytes metas ++ rest) ≡ metas
dump_insns-bytes [] rest fits = refl
dump_insns-bytes ((rva, handler) ∷ metas) rest fits = cc (
  read_le-le_bytes 4 rva fits.0.0,
  read_le-le_bytes 4 handler fits.0.1,
  dump_insns-bytes metas rest fits.1,
)

pub length-insn_bytes : (metas : List (ℕ × ℕ)) → length (insn_bytes metas) ≡ length metas * 8
length-insn_bytes [] = omega arith
length-insn_bytes ((rva, handler) ∷ metas) = omega (arith, length-insn_bytes metas)
