-- ===== src/MetaFile/Listing.antt =====
-- All the records of `serializeHandler`, as `dump` of src/PreEncoder.cpp lists them.
use aether_vm.Prelude.{
  ℕ, ◌+◌, ◌-◌, ◌^◌, ◌<◌, Bool, true, ◌||◌, some, List, [], ◌∷◌, length, ltb, ◌≡◌, refl, ap, ◌∙◌,
  subst, arith, All, Bool-cases, Option-cases, inl, inr,
}
use aether_vm.PreEncode.{oht_remill, oht_dynamic, Source, record_size, impl_index, all_below}
use aether_vm.MetaFile.{HandlerData, record_bytes, convert_record, serialize_records, handler_bytes}
use aether_vm.MetaFile.Records.{IsWritable, length-record_bytes}
use aether_vm.MetaFile.Fields.{listed}
use aether_vm.MetaFile.Walk.{round}
use aether_vm.MetaFile.Dump.{Listed, done, dump_handlers}

-- The size of the code is a `uint16_t`, and the code has it.
pub record IsTyped (h : HandlerData) : Type 0 where
  pub impl_small : h.source.implsize < 65536
  pub code_whole : length h.code ≡ h.source.implsize

-- What an implementation index is
pub record IsIndex (aotimpl : Bool) (s : Source) (impl : ℕ) : Type 0 where
  pub below : impl < 65536
  pub size : aotimpl ≡ true → s.kind ≡ oht_dynamic → impl ≡ s.implsize
  pub operands : s.kind ≡ oht_remill → all_below 32768 s.args ≡ true

impl_index-IsIndex :
    (aotimpl : Bool) (dynamic : ℕ) (s : Source) {r : ℕ × ℕ}
    → s.implsize < 65536
    → impl_index aotimpl dynamic s ≡ some r
    → IsIndex aotimpl s r.0
unfolding impl_index
impl_index-IsIndex aotimpl dynamic s {r} small e = record {
  below = ground (arith, e, small);
  size = λ a k. ground (arith, e, a, k);
  operands = λ k. ground (arith, e, k);
}

-- The parts of a conversion that succeeds
convert_record-parts :
    (aotimpl : Bool) (dynamic : ℕ) (h : HandlerData) {r : List ℕ × ℕ}
    → IsTyped h
    → convert_record aotimpl dynamic h ≡ some r
    → (p : ℕ × ℕ) × (impl_index aotimpl dynamic h.source ≡ some p)
      × (r ≡ (record_bytes aotimpl p.0 h, p.1))
      × IsWritable h
      × IsIndex aotimpl h.source p.0
unfolding convert_record
convert_record-parts aotimpl dynamic h {r} t e =
    elim (Bool-cases (
      ltb 15 h.source.oplen
      || ltb h.source.width h.source.oplen
      || ltb 255 (length h.source.args))) [
        | inl f ↦ absurd (ground (arith, e, f))
        | inr f ↦ elim (Option-cases (impl_index aotimpl dynamic h.source)) [
          | inl g ↦ absurd (ground (arith, e, f, g))
          | inr (p, g) ↦
              let index = impl_index-IsIndex aotimpl dynamic h.source t.impl_small g in
              (
                p,
                g,
                ground (arith, e, f, g),
                record {
                  oplen_small = ground (arith, f);
                  args_few = ground (arith, f);
                  args_small = index.operands;
                  impl_small = t.impl_small;
                  code_whole = t.code_whole;
                },
                index,
              )
        ]
      ]

-- The parts of a serialization that succeeds
serialize-parts :
    (aotimpl : Bool) (offset dynamic : ℕ) (h : HandlerData) (rest : List HandlerData)
    {records : List (ℕ × List ℕ)}
    → serialize_records aotimpl offset dynamic (h ∷ rest) ≡ some records
    → (r : List ℕ × ℕ) × (later : List (ℕ × List ℕ)) × (convert_record aotimpl dynamic h ≡ some r)
      × (offset + length r.0 < 2 ^ 32)
      × (serialize_records aotimpl (offset + length r.0) r.1 rest ≡ some later)
      × ((offset, r.0) ∷ later ≡ records)
unfolding serialize_records
serialize-parts aotimpl offset dynamic h rest {records} e =
    elim (Option-cases (convert_record aotimpl dynamic h)) [
      | inl f ↦ absurd (ground (arith, e, f))
      | inr (r, f) ↦
          elim (Bool-cases (ltb (2 ^ 32 - 1) offset || ltb (2 ^ 32 - 1 - offset) (length r.0))) [
            | inl g ↦ absurd (ground (arith, e, f, g))
            | inr g ↦
                elim (Option-cases (serialize_records aotimpl (offset + length r.0) r.1 rest)) [
                  | inl k ↦ absurd (ground (arith, e, f, g, k))
                  | inr (later, k) ↦ (r, later, f, ground (arith, g), k, ground (arith, e, f, g, k))
                ]
          ]
    ]

-- What a dump lists of handlers that were serialized: each with its implementation index, at the offset
-- behind the records before it, with the fields that were written.
abbrev pub IsListing : Bool → ℕ → ℕ → List HandlerData → List Listed → Type 0
IsListing aotimpl offset dynamic [] [] = Unit
IsListing aotimpl offset dynamic [] (l ∷ ls) = ⊥
IsListing aotimpl offset dynamic (h ∷ handlers) [] = ⊥
IsListing aotimpl offset dynamic (h ∷ handlers) (l ∷ ls) =
    (next : ℕ) × (impl_index aotimpl dynamic h.source ≡ some (l.impl, next))
    × (l ≡ listed aotimpl offset l.impl h)
    × IsListing aotimpl (offset + record_size aotimpl h.source) next handlers ls

abbrev pub offsets : List (ℕ × List ℕ) → List ℕ
offsets [] = []
offsets (r ∷ records) = r.0 ∷ offsets records

abbrev pub listed_offsets : List Listed → List ℕ
listed_offsets [] = []
listed_offsets (l ∷ ls) = l.offset ∷ listed_offsets ls

abbrev pub IsDumped : Bool → ℕ → ℕ → ℕ → List HandlerData → List (ℕ × List ℕ) → Type 0
IsDumped aotimpl index offset dynamic handlers records =
    (ls : List Listed) × (dump_handlers aotimpl (length records) index offset
        (handler_bytes records)
      ≡ done ls)
    × IsListing aotimpl offset dynamic handlers ls
    × (listed_offsets ls ≡ offsets records)

serialize-nil :
    (aotimpl : Bool) (offset dynamic : ℕ) {records : List (ℕ × List ℕ)}
    → serialize_records aotimpl offset dynamic [] ≡ some records
    → [] ≡ records
unfolding serialize_records
serialize-nil aotimpl offset dynamic e = ground (arith, e)

dump-nil : (aotimpl : Bool) (index offset dynamic : ℕ) → IsDumped aotimpl index offset dynamic [] []
unfolding dump_handlers
dump-nil aotimpl index offset dynamic = ([], refl, tt, refl)

-- The dump of the handler section lists exactly the handlers that were serialized.
pub dump_handlers-serialize :
    (aotimpl : Bool) (index offset dynamic : ℕ) (handlers : List HandlerData)
    {records : List (ℕ × List ℕ)}
    → All IsTyped handlers
    → serialize_records aotimpl offset dynamic handlers ≡ some records
    → IsDumped aotimpl index offset dynamic handlers records
dump_handlers-serialize aotimpl index offset dynamic [] t e =
    subst (IsDumped aotimpl index offset dynamic []) (serialize-nil aotimpl offset dynamic e)
      (dump-nil aotimpl index offset dynamic)
dump_handlers-serialize aotimpl index offset dynamic (h ∷ handlers) {records} t e =
    let (r, later, f, bound, k, same) = serialize-parts aotimpl offset dynamic h handlers e in
    let (p, g, made, w, i) = convert_record-parts aotimpl dynamic h t.0 f in
    let k1 =
      subst (λ x. serialize_records aotimpl (offset + length x.0) x.1 handlers ≡ some later) made
        k in
    let k2 =
      subst (λ n. serialize_records aotimpl (offset + n) p.1 handlers ≡ some later)
        (length-record_bytes aotimpl p.0 h w) k1 in
    let (ls, dumped, listing, places) =
      dump_handlers-serialize aotimpl (index + 1) (offset + record_size aotimpl h.source) p.1
        handlers t.1 k2 in
    subst (IsDumped aotimpl index offset dynamic (h ∷ handlers))
      (subst (λ x. ◌≡◌ {A = List (ℕ × List ℕ)} ((offset, x.0) ∷ later) records) made same)
      (
        listed aotimpl offset p.0 h ∷ ls,
        round p.0 h (handler_bytes later) w i.below aotimpl (length later) index offset i.size
            ∙ rw dumped refl,
        (p.1, g, refl, listing),
        ap (λ l. offset ∷ l) places,
      )

-- Every offset of a serialization that succeeds fits 32 bits.
pub serialize_records-fit :
    (aotimpl : Bool) (offset dynamic : ℕ) (handlers : List HandlerData)
    {records : List (ℕ × List ℕ)}
    → serialize_records aotimpl offset dynamic handlers ≡ some records
    → All (λ o. o < 2 ^ 32) (offsets records)
serialize_records-fit aotimpl offset dynamic [] e =
    subst (λ r. All (λ o. o < 2 ^ 32) (offsets r)) (serialize-nil aotimpl offset dynamic e) tt
serialize_records-fit aotimpl offset dynamic (h ∷ handlers) e =
    let (r, later, f, bound, k, same) = serialize-parts aotimpl offset dynamic h handlers e in
    subst (λ r. All (λ o. o < 2 ^ 32) (offsets r)) same
      (omega (arith, bound), serialize_records-fit aotimpl (offset + length r.0) r.1 handlers k)
