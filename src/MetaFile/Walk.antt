-- ===== src/MetaFile/Walk.antt =====
-- The loop of `dump` in src/PreEncoder.cpp over the records of `serializeHandler`.
use mathlib.Core.List.{append_assoc}
use aether_vm.Prelude.{
  ℕ, suc, ◌+◌, ◌-◌, ◌%◌, ◌≤◌, ◌<◌, Bool, true, false, ◌||◌, some, List, [], ◌∷◌, ◌++◌, length,
  length-append, take, drop, take-append, le→ltb, drop-append, ltb, ◌==◌, if◌then◌else◌, ◌≡◌, refl,
  ap, sym, ◌∙◌, arith,
}
use aether_vm.Word.Bytes.{le_bytes, length-le_bytes}
use aether_vm.PreEncode.{
  HandlerType, oht_remill, oht_mcinst, oht_dynamic, oht_prebuilt, oht_prebuilt_mapped,
  operand_bytes, code_size, aotimpl_offset, record_size, round4,
}
use aether_vm.PreEncode.Layout.{record-aligned, round4-eq, operand_bytes-le}
use aether_vm.MetaFile.{
  HandlerData, type_code, zeros, operands_of, plain_bytes, code_of, record_bytes,
}
use aether_vm.MetaFile.Records.{
  IsWritable, sizes, length-operands_of, length-code_of, length-zeros, length-record_bytes,
  type_code-le, record_bytes-shape, shape,
}
use aether_vm.MetaFile.Dump.{
  done, ◌>>=◌, field_at, kind_at, plain_size, full_size, list_handler, dump_handlers,
}
use aether_vm.MetaFile.Fields.{
  whole, kind_read, impl_read, opcode_read, plain_read, operands_read, listed,
}

-- The code lies behind the fixed fields, the opcode and the operands, rounded up.
front-split :
    (aotimpl : Bool) (impl : ℕ) (h : HandlerData) (rest : List ℕ)
    → shape aotimpl impl h rest
      ≡ (plain_bytes impl h
          ++ zeros
              (aotimpl_offset aotimpl h.source - (4 + h.source.oplen + operand_bytes h.source)))
        ++ (code_of aotimpl h
            ++ (zeros (
                  record_size aotimpl h.source
                  - (aotimpl_offset aotimpl h.source + code_size aotimpl h.source))
                ++ rest))
front-split aotimpl impl h rest = simp append_assoc

code_read :
    (impl : ℕ) (h : HandlerData) (rest : List ℕ)
    → IsWritable h
    → take (length (code_of true h)) (drop (aotimpl_offset true h.source) (shape true impl h rest))
      ≡ code_of true h
code_read impl h rest w =
    let gap = aotimpl_offset true h.source - (4 + h.source.oplen + operand_bytes h.source) in
    let front : length (plain_bytes impl h ++ zeros gap) ≡ aotimpl_offset true h.source = omega (
      arith,
      (sizes true h w).0,
      length-append (plain_bytes impl h) (zeros gap),
      length-append (le_bytes h.source.oplen h.opcode) (operands_of h),
      length-le_bytes h.source.oplen h.opcode,
      length-operands_of h,
      length-zeros gap,
    ) in
    ap (λ l. take (length (code_of true h)) (drop (aotimpl_offset true h.source) l))
      (front-split true impl h rest)
    ∙ ap (take (length (code_of true h))) (drop-append _ (plain_bytes impl h ++ zeros gap) _ front)
    ∙ take-append _ (code_of true h) _ refl

-- What `full_size` and the code are for the two kinds of record
data Kind (kind : HandlerType) : Type 0 where
  with_code : kind ≡ oht_dynamic → (type_code kind == 2) ≡ true → Kind kind
  without : (type_code kind == 2) ≡ false → Kind kind

kind_cases : (kind : HandlerType) → Kind kind
kind_cases oht_remill = without refl
kind_cases oht_mcinst = without refl
kind_cases oht_dynamic = with_code refl refl
kind_cases oht_prebuilt = without refl
kind_cases oht_prebuilt_mapped = without refl

other-code :
    (h : HandlerData)
    → (type_code h.source.kind == 2) ≡ false
    → (code_size true h.source ≡ 0) × (code_of true h ≡ [])
other-code h =
    elim h.source.kind
      as (λ kind.
        (type_code kind == 2) ≡ false
        → (◌≡◌ {A = ℕ} (elim kind [ oht_dynamic ↦ h.source.implsize | _ ↦ 0 ]) 0)
          × (◌≡◌ {A = List ℕ} (elim kind [ oht_dynamic ↦ h.code | _ ↦ [] ]) [])) [
            | oht_remill ↦ λ e. (refl, refl)
            | oht_mcinst ↦ λ e. (refl, refl)
            | oht_dynamic ↦ λ e. cc
            | oht_prebuilt ↦ λ e. (refl, refl)
            | oht_prebuilt_mapped ↦ λ e. (refl, refl)
          ]

dynamic-code :
    (h : HandlerData)
    → h.source.kind ≡ oht_dynamic
    → (code_size true h.source ≡ h.source.implsize) × (code_of true h ≡ h.code)
dynamic-code h e = (ground (arith, e), ground (arith, e))

-- The branches of the dump for a record with code, and without
full_size-code :
    (l : List ℕ)
    → (kind_at l == 2) ≡ true
    → round4 (plain_size l) + field_at 0 2 l ≤ length l
    → full_size true l ≡ some (round4 (plain_size l) + field_at 0 2 l)
unfolding full_size
full_size-code l e fits = rw e (rw (le→ltb _ _ fits) refl)

full_size-plain : (l : List ℕ) → (kind_at l == 2) ≡ false → full_size true l ≡ some (plain_size l)
unfolding full_size
full_size-plain l e = rw e refl

code-with :
    (l : List ℕ) (offset : ℕ)
    → (kind_at l == 2) ≡ true
    → (list_handler true offset l).code ≡ take (field_at 0 2 l) (drop (round4 (plain_size l)) l)
unfolding list_handler
code-with l offset e = rw e refl

code-without :
    (l : List ℕ) (offset : ℕ) → (kind_at l == 2) ≡ false → (list_handler true offset l).code ≡ []
unfolding list_handler
code-without l offset e = rw e refl

round-of :
    (aotimpl : Bool) (count index offset : ℕ) (l : List ℕ) {size : ℕ}
    → ltb (length l) 4 ≡ false
    → (ltb 4 (kind_at l) || ltb (length l) (plain_size l)) ≡ false
    → full_size aotimpl l ≡ some size
    → dump_handlers aotimpl (suc count) index offset l ≡ (
        dump_handlers aotimpl count
          (index + 1)
          (offset + (if aotimpl then round4 size else size))
          (drop (if aotimpl then round4 size else size) l)
        >>= λ later. done (list_handler aotimpl offset l ∷ later))
unfolding dump_handlers
round-of aotimpl count index offset l a b c = rw (a, b, c) refl

module _ (impl : ℕ) (h : HandlerData) (rest : List ℕ) (w : IsWritable h) where
  abbrev bytes : Bool → List ℕ
  bytes aotimpl = whole aotimpl impl h rest

  length-whole :
      (aotimpl : Bool) → length (bytes aotimpl) ≡ record_size aotimpl h.source + length rest
  length-whole aotimpl =
      ap length (sym (record_bytes-shape aotimpl impl h rest))
      ∙ length-append (record_bytes aotimpl impl h) rest
      ∙ ap (λ n. n + length rest) (length-record_bytes aotimpl impl h w)

  offset_read : round4 (plain_size (bytes true)) ≡ aotimpl_offset true h.source
  unfolding aotimpl_offset
  offset_read = rw (plain_read true impl h rest) refl

  offset_small : aotimpl_offset true h.source < 1000
  unfolding aotimpl_offset
  offset_small =
      let plain = 4 + h.source.oplen + operand_bytes h.source in
      let few : plain < 900 = omega (arith, w.oplen_small, w.args_few, operand_bytes-le h.source) in
      omega (arith, few, round4-eq plain (omega (arith, few)))

  aligned : aotimpl_offset true h.source % 4 ≡ 0
  aligned = (record-aligned h.source w.impl_small w.oplen_small w.args_few).0

  kind_test : (aotimpl : Bool) → (kind_at (bytes aotimpl) == 2) ≡ (type_code h.source.kind == 2)
  kind_test aotimpl = ap (λ n. n == 2) (kind_read aotimpl impl h rest)

  -- The code of a record that is written with it has the size that the record says.
  abbrev pub HasSize : Bool → Type 0
  HasSize aotimpl = aotimpl ≡ true → h.source.kind ≡ oht_dynamic → impl ≡ h.source.implsize

  module _ (small : impl < 65536) where
    -- The sizes of a record, as the dump finds them
    sizes_read :
        (aotimpl : Bool)
        → HasSize aotimpl
        → (size : ℕ) × (full_size aotimpl (bytes aotimpl) ≡ some size)
          × ((if aotimpl then round4 size else size) ≡ record_size aotimpl h.source)
    unfolding record_size full_size
    sizes_read false fits = (plain_size (bytes false), refl, plain_read false impl h rest)
    sizes_read true fits = elim (kind_cases h.source.kind) [
      | with_code dynamic e ↦
          let same : round4 (plain_size (bytes true)) + field_at 0 2 (bytes true)
              ≡ aotimpl_offset true h.source + code_size true h.source =
            omega (
              arith,
              offset_read,
              impl_read true impl h rest small,
              fits refl dynamic,
              (dynamic-code h dynamic).0,
            ) in
          (
            round4 (plain_size (bytes true)) + field_at 0 2 (bytes true),
            full_size-code (bytes true) (kind_test true ∙ e)
                (omega (arith, same, length-whole true, (sizes true h w).1)),
            ap round4 same,
          )
      | without e ↦ (
        plain_size (bytes true),
        full_size-plain (bytes true) (kind_test true ∙ e),
        offset_read ∙ whole_offset e,
      )
    ]
      where
        whole_offset :
            (type_code h.source.kind == 2) ≡ false
            → aotimpl_offset true h.source
              ≡ round4 (aotimpl_offset true h.source + code_size true h.source)
        whole_offset e = omega (
          arith,
          aligned,
          offset_small,
          (other-code h e).0,
          round4-eq (aotimpl_offset true h.source + code_size true h.source)
              (omega (arith, offset_small, (other-code h e).0)),
        )

    code_listed :
        (aotimpl : Bool) (offset : ℕ)
        → HasSize aotimpl
        → (list_handler aotimpl offset (bytes aotimpl)).code ≡ code_of aotimpl h
    unfolding list_handler
    code_listed false offset fits = refl
    code_listed true offset fits = elim (kind_cases h.source.kind) [
      | with_code dynamic e ↦
          let count : field_at 0 2 (bytes true) ≡ length (code_of true h) = omega (
            arith,
            impl_read true impl h rest small,
            fits refl dynamic,
            length-code_of true h w,
            (dynamic-code h dynamic).0,
          ) in
          code-with (bytes true) offset (kind_test true ∙ e)
          ∙ rw (count, offset_read) (code_read impl h rest w)
      | without e ↦ code-without (bytes true) offset (kind_test true ∙ e) ∙ sym (other-code h e).1
    ]

    read_back :
        (aotimpl : Bool) (offset : ℕ)
        → HasSize aotimpl
        → list_handler aotimpl offset (bytes aotimpl) ≡ listed aotimpl offset impl h
    unfolding list_handler
    read_back aotimpl offset fits = cc (
      impl_read aotimpl impl h rest small,
      kind_read aotimpl impl h rest,
      opcode_read aotimpl impl h rest,
      operands_read aotimpl impl h rest w,
      code_listed aotimpl offset fits,
    )

    -- One round of the loop reads the record that was written, and goes on behind it.
    pub round :
        (aotimpl : Bool) (count index offset : ℕ)
        → HasSize aotimpl
        → dump_handlers aotimpl (suc count) index offset (record_bytes aotimpl impl h ++ rest) ≡ (
            dump_handlers aotimpl count (index + 1) (offset + record_size aotimpl h.source) rest
            >>= λ later. done (listed aotimpl offset impl h ∷ later))
    round aotimpl count index offset fits =
        let (size, found, same) = sizes_read aotimpl fits in
        let long : 4 + h.source.oplen + operand_bytes h.source ≤ length (bytes aotimpl) =
          omega (arith, length-whole aotimpl, (sizes aotimpl h w).0, (sizes aotimpl h w).1) in
        let valid : (ltb 4 (kind_at (bytes aotimpl))
              || ltb (length (bytes aotimpl)) (plain_size (bytes aotimpl)))
            ≡ false =
          ground (
            arith,
            kind_read aotimpl impl h rest,
            type_code-le h.source.kind,
            plain_read aotimpl impl h rest,
            long,
          ) in
        ap (dump_handlers aotimpl (suc count) index offset) (record_bytes-shape aotimpl impl h rest)
        ∙ round-of aotimpl count index offset (bytes aotimpl) (le→ltb _ _ (omega (arith, long)))
            valid found
        ∙ rw (same, read_back aotimpl offset fits, behind aotimpl) refl
      where
        behind : (aotimpl : Bool) → drop (record_size aotimpl h.source) (bytes aotimpl) ≡ rest
        behind aotimpl =
            ap (drop (record_size aotimpl h.source)) (sym (record_bytes-shape aotimpl impl h rest))
            ∙ drop-append _ (record_bytes aotimpl impl h) rest
                (length-record_bytes aotimpl impl h w)
