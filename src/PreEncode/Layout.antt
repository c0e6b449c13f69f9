-- ===== src/PreEncode/Layout.antt =====
-- `serializeHandler`: the order and the places of the records of the handlers.
use aether_vm.Prelude.{
  ℕ, ◌+◌, ◌-◌, ◌*◌, ◌/◌, ◌%◌, ◌^◌, ◌≤◌, ◌<◌, Bool, true, ◌||◌, some, List, [], ◌∷◌, length, All,
  ltb, ◌≡◌, refl, subst, arith, Bool-cases, Option-cases, inl, inr,
}
use aether_vm.Word.{sub64}
use aether_vm.Word.Align.{align_down-power}
use aether_vm.Search.{align_down}
use aether_vm.PreEncode.{
  oht_remill, oht_mcinst, oht_dynamic, oht_prebuilt, oht_prebuilt_mapped, impl_index, Source,
  operand_bytes, code_size, round4, aotimpl_offset, record_size, convert_handler,
  serialize_handlers,
}

-- Each record begins where the one before it ends, and ends within the 32-bit offsets.
abbrev pub IsTiled : ℕ → List (ℕ × ℕ) → Type 0
IsTiled offset [] = Unit
IsTiled offset (r ∷ records) =
    (r.0 ≡ offset) × (r.0 + r.1 < 2 ^ 32) × IsTiled (offset + r.1) records

-- The parts of a serialization that succeeds
serialize-parts :
    (aotimpl : Bool) (offset dynamic : ℕ) (h : Source) (rest : List Source) {records : List (ℕ × ℕ)}
    → serialize_handlers aotimpl offset dynamic (h ∷ rest) ≡ some records
    → (r : ℕ × ℕ) × (later : List (ℕ × ℕ)) × (convert_handler aotimpl dynamic h ≡ some r)
      × (offset + r.0 < 2 ^ 32)
      × (serialize_handlers aotimpl (offset + r.0) r.1 rest ≡ some later)
      × ((offset, r.0) ∷ later ≡ records)
unfolding serialize_handlers
serialize-parts aotimpl offset dynamic h rest {records} e =
    elim (Option-cases (convert_handler aotimpl dynamic h)) [
      | inl f ↦ absurd (ground (arith, e, f))
      | inr (r, f) ↦ elim (Bool-cases (ltb (2 ^ 32 - 1) offset || ltb (2 ^ 32 - 1 - offset) r.0)) [
        | inl g ↦ absurd (ground (arith, e, f, g))
        | inr g ↦ elim (Option-cases (serialize_handlers aotimpl (offset + r.0) r.1 rest)) [
          | inl k ↦ absurd (ground (arith, e, f, g, k))
          | inr (later, k) ↦ (r, later, f, ground (arith, g), k, ground (arith, e, f, g, k))
        ]
      ]
    ]

-- The records of a serialization that succeeds follow each other without a gap from the offset on, and
-- no offset leaves 32 bits.
pub serialize_handlers-IsTiled :
    (aotimpl : Bool) (offset dynamic : ℕ) (handlers : List Source) {records : List (ℕ × ℕ)}
    → serialize_handlers aotimpl offset dynamic handlers ≡ some records
    → IsTiled offset records
unfolding serialize_handlers
serialize_handlers-IsTiled aotimpl offset dynamic [] {records} e =
    let none_left : [] ≡ records = ground (arith, e) in subst (IsTiled offset) none_left tt
serialize_handlers-IsTiled aotimpl offset dynamic (h ∷ rest) e =
    let (r, later, f, bound, k, same) = serialize-parts aotimpl offset dynamic h rest e in
    subst (IsTiled offset) same
      (refl, bound, serialize_handlers-IsTiled aotimpl (offset + r.0) r.1 rest k)

pub round4-eq : (n : ℕ) → n + 3 < 2 ^ 64 → round4 n ≡ (n + 3) / 4 * 4
unfolding round4 align_down sub64
round4-eq n h = align_down-power (n + 3) 2 (omega arith) h

-- The sizes that a handler in memory has
abbrev pub IsSmall : Source → Type 0
IsSmall h = h.implsize < 65536

convert_handler-size :
    (aotimpl : Bool) (dynamic : ℕ) (h : Source) {r : ℕ × ℕ}
    → convert_handler aotimpl dynamic h ≡ some r
    → (r.0 ≡ record_size aotimpl h) × (h.oplen ≤ 15) × (length h.args ≤ 255)
unfolding convert_handler
convert_handler-size aotimpl dynamic h {r} e =
    elim (Bool-cases (ltb 15 h.oplen || ltb h.width h.oplen || ltb 255 (length h.args))) [
      | inl f ↦ absurd (ground (arith, e, f))
      | inr f ↦ elim (Option-cases (impl_index aotimpl dynamic h)) [
        | inl g ↦ absurd (ground (arith, e, f, g))
        | inr (p, g) ↦ (ground (arith, e, f, g), ground (arith, f), ground (arith, f))
      ]
    ]

pub operand_bytes-le : (h : Source) → operand_bytes h ≤ length h.args * 2
operand_bytes-le h =
    elim h.kind
      as (λ kind. elim kind [ oht_remill ↦ length h.args * 2 | _ ↦ 0 ] ≤ length h.args * 2) [
        | oht_remill ↦ omega arith
        | oht_mcinst ↦ omega arith
        | oht_dynamic ↦ omega arith
        | oht_prebuilt ↦ omega arith
        | oht_prebuilt_mapped ↦ omega arith
      ]

pub code_size-le : (h : Source) → code_size true h ≤ h.implsize
code_size-le h =
    elim h.kind as (λ kind. elim kind [ oht_dynamic ↦ h.implsize | _ ↦ 0 ] ≤ h.implsize) [
      | oht_remill ↦ omega arith
      | oht_mcinst ↦ omega arith
      | oht_dynamic ↦ omega arith
      | oht_prebuilt ↦ omega arith
      | oht_prebuilt_mapped ↦ omega arith
    ]

-- With code in the records, the code lies at a multiple of four in its record, behind the operands, and
-- the record ends at a multiple of four behind the code.
pub record-aligned :
    (h : Source)
    → IsSmall h
    → h.oplen ≤ 15
    → length h.args ≤ 255
    → (aotimpl_offset true h % 4 ≡ 0)
      × (record_size true h % 4 ≡ 0)
      × (4 + h.oplen + operand_bytes h ≤ aotimpl_offset true h)
      × (aotimpl_offset true h + code_size true h ≤ record_size true h)
unfolding aotimpl_offset record_size
record-aligned h small len args =
    let begin =
      round4-eq (4 + h.oplen + operand_bytes h) (omega (arith, len, args, operand_bytes-le h)) in
    let ends =
      round4-eq (aotimpl_offset true h + code_size true h)
        (omega (arith, begin, len, args, small, operand_bytes-le h, code_size-le h)) in
    (omega (arith, begin), omega (arith, ends), omega (arith, begin), omega (arith, ends))

-- What a record of code is for the processor: it begins and ends at a multiple of four.
abbrev pub IsAligned : ℕ × ℕ → Type 0
IsAligned r = (r.0 % 4 ≡ 0) × (r.1 % 4 ≡ 0)

-- With code in the records, all records of handlers whose code is below 64 KB begin at a multiple of four
-- and have a size that is one.
pub serialize_handlers-IsAligned :
    (offset dynamic : ℕ) (handlers : List Source) {records : List (ℕ × ℕ)}
    → All IsSmall handlers
    → offset % 4 ≡ 0
    → serialize_handlers true offset dynamic handlers ≡ some records
    → All IsAligned records
unfolding serialize_handlers
serialize_handlers-IsAligned offset dynamic [] {records} small start e =
    let none_left : [] ≡ records = ground (arith, e) in subst (All IsAligned) none_left tt
serialize_handlers-IsAligned offset dynamic (h ∷ rest) small start e =
    let (r, later, f, bound, k, same) = serialize-parts true offset dynamic h rest e in
    let (size, len, args) = convert_handler-size true dynamic h f in
    let (begin, ends, operands, code) = record-aligned h small.0 len args in
    let whole : r.0 % 4 ≡ 0 = omega (arith, size, ends) in
    subst (All IsAligned) same (
      (start, whole),
      serialize_handlers-IsAligned (offset + r.0) r.1 rest small.1 (omega (arith, start, whole)) k,
    )
