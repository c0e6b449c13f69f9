-- ===== src/MetaFile/Sections.antt =====
-- The whole metadata file: what `serialize` of src/PreEncoder.cpp writes, as `dump` reads it.
use mathlib.Core.List.{append_assoc}
use aether_vm.Prelude.{
  ℕ, ◌+◌, ◌-◌, ◌*◌, ◌^◌, ◌<◌, bit_and, Bool, true, false, not, ◌&&◌, none, some, List, ◌++◌, length,
  length-append, drop, drop-append, leb, ◌==◌, ◌≡◌, refl, ap, ◌∙◌, subst, arith, All, Bool-cases,
  Option-cases, inl, inr,
}
use aether_vm.Word.Bytes.{read_le-le_bytes}
use aether_vm.MetaFile.{
  Input, k_magic, flags_of, header_bytes, header_fields, insn_bytes, handler_bytes, counts_fit,
  out_size, serialize_records, fix_up, serialize,
}
use aether_vm.MetaFile.Dump.{
  Listed, done, Dumped, header_field, sections_valid, check_header, dump_insns, dump_handlers,
  referenced, computed, mismatches, dump,
}
use aether_vm.MetaFile.Insns.{
  IsFixed, HasRva, Fits, fix_up-IsFixed, fix_up-Fits, mismatches-fixed, dump_insns-bytes,
  length-insn_bytes,
}
use aether_vm.MetaFile.Listing.{IsTyped, IsListing, dump_handlers-serialize, serialize_records-fit}

-- The input of a serialization: the arrays have the sizes of their structures, the numbers are within
-- their types.
pub record IsInput (input : Input) : Type 0 where
  pub operands_whole : length input.operands ≡ input.num_operands * 48
  pub expressions_whole : length input.expressions ≡ input.num_expressions * 12
  pub handlers_typed : All IsTyped input.handlers
  pub rvas : All HasRva input.insns

abbrev pub aot : Input → Bool
aot input = input.haswx && input.arm64

abbrev header : Input → List (ℕ × ℕ) → List (ℕ × List ℕ) → List ℕ
header input insns records =
    header_bytes (header_fields input (out_size input insns records) insns (length records))

abbrev body : Input → List (ℕ × ℕ) → List (ℕ × List ℕ) → List ℕ
body input insns records =
    insn_bytes insns ++ (input.operands ++ (input.expressions ++ handler_bytes records))

abbrev file : Input → List (ℕ × ℕ) → List (ℕ × List ℕ) → List ℕ
file input insns records = header input insns records ++ body input insns records

-- The parts of a serialization that succeeds
serialize-parts :
    (input : Input) {bytes : List ℕ}
    → serialize input ≡ some bytes
    → (records : List (ℕ × List ℕ)) × (insns : List (ℕ × ℕ)) × (serialize_records
          (aot input)
          0
          0
          input.handlers
        ≡ some records)
      × (fix_up records input.insns ≡ some insns)
      × (counts_fit input insns (length records) ≡ true)
      × (out_size input insns records < 2 ^ 32)
      × (file input insns records ≡ bytes)
unfolding serialize
serialize-parts input {bytes} e =
    elim (Option-cases (serialize_records (aot input) 0 0 input.handlers)) [
      | inl f ↦ absurd (ground (arith, e, f))
      | inr (records, f) ↦ elim (Option-cases (fix_up records input.insns)) [
        | inl g ↦ absurd (ground (arith, e, f, g))
        | inr (insns, g) ↦
            elim (Bool-cases (
              counts_fit input insns (length records)
              && leb (out_size input insns records) (2 ^ 32 - 1))) [
                | inl k ↦ (
                  records,
                  insns,
                  f,
                  g,
                  ground (arith, k),
                  ground (arith, k),
                  ground (arith, e, f, g, k),
                )
                | inr k ↦ absurd (ground (arith, e, f, g, k))
              ]
      ]
    ]

dump-of :
    (l : List ℕ) {insns : List (ℕ × ℕ)} {ls : List Listed}
    → check_header l ≡ none
    → dump_insns (header_field 5 l) (drop (header_field 4 l) l) ≡ insns
    → dump_handlers
        (not (bit_and (header_field 3 l) 1 == 0))
        (header_field 11 l)
        0
        0
        (drop (header_field 10 l) l)
      ≡ done ls
    → dump l
      ≡ done (record {
        insns = insns;
        handlers = ls;
        mismatched = mismatches (referenced insns) (computed ls);
      })
unfolding dump
dump-of l checked listed walked = rw (dump, checked, walked, listed) refl

module _ (input : Input) (i : IsInput input) (insns : List (ℕ × ℕ)) (records : List (ℕ × List ℕ))
    (counts : counts_fit input insns (length records) ≡ true)
    (small : out_size input insns records < 2 ^ 32) where
  abbrev bytes : List ℕ
  bytes = file input insns records

  length-file : length bytes ≡ out_size input insns records
  length-file = omega (
    arith,
    length-append (insn_bytes insns)
        (input.operands ++ (input.expressions ++ handler_bytes records)),
    length-append input.operands (input.expressions ++ handler_bytes records),
    length-append input.expressions (handler_bytes records),
    length-insn_bytes insns,
    i.operands_whole,
    i.expressions_whole,
  )

  field0 : header_field 0 bytes ≡ k_magic
  field0 = read_le-le_bytes 4 k_magic (omega arith)

  field1 : header_field 1 bytes ≡ 1
  field1 = read_le-le_bytes 4 1 (omega arith)

  field2 : header_field 2 bytes ≡ out_size input insns records
  field2 = read_le-le_bytes 4 _ small

  field3 : header_field 3 bytes ≡ flags_of input.haswx input.arm64
  field3 = read_le-le_bytes 4 _ (flags-lt input.haswx input.arm64)
    where
      flags-lt : (haswx arm64 : Bool) → flags_of haswx arm64 < 2 ^ 32
      flags-lt true true = omega arith
      flags-lt true false = omega arith
      flags-lt false true = omega arith
      flags-lt false false = omega arith

  field4 : header_field 4 bytes ≡ 48
  field4 = read_le-le_bytes 4 48 (omega arith)

  field5 : header_field 5 bytes ≡ length insns
  field5 = read_le-le_bytes 4 _ (omega (arith, small))

  field6 : header_field 6 bytes ≡ 48 + length insns * 8
  field6 = read_le-le_bytes 4 _ (omega (arith, small))

  field7 : header_field 7 bytes ≡ input.num_operands
  field7 = read_le-le_bytes 4 _ (omega (arith, small))

  field8 : header_field 8 bytes ≡ 48 + length insns * 8 + input.num_operands * 48
  field8 = read_le-le_bytes 4 _ (omega (arith, small))

  field9 : header_field 9 bytes ≡ input.num_expressions
  field9 = read_le-le_bytes 4 _ (omega (arith, small))

  field10 :
      header_field 10 bytes
      ≡ 48 + length insns * 8 + input.num_operands * 48 + input.num_expressions * 12
  field10 = read_le-le_bytes 4 _ (omega (arith, small))

  field11 : header_field 11 bytes ≡ length records
  field11 = read_le-le_bytes 4 _ (ground (arith, counts))

  checked : check_header bytes ≡ none
  unfolding check_header sections_valid
  checked = ground (
    arith, length-file, field0, field1, field2, field4, field5, field6, field7, field8, field9,
    field10, small,
  )

  insn_section : drop (header_field 4 bytes) bytes ≡ body input insns records
  insn_section = refl

  handler_section : drop (header_field 10 bytes) bytes ≡ handler_bytes records
  handler_section = rw field10 (
      ap (drop (48 + length insns * 8 + input.num_operands * 48 + input.num_expressions * 12)) split
      ∙ drop-append (48 + length insns * 8 + input.num_operands * 48 + input.num_expressions * 12)
          (header input insns records
            ++ (insn_bytes insns ++ (input.operands ++ input.expressions)))
          (handler_bytes records) size)
    where
      split :
          bytes
          ≡ (header input insns records
              ++ (insn_bytes insns ++ (input.operands ++ input.expressions)))
            ++ handler_bytes records
      split = simp append_assoc

      size :
          length (
            header input insns records
            ++ (insn_bytes insns ++ (input.operands ++ input.expressions)))
          ≡ 48 + length insns * 8 + input.num_operands * 48 + input.num_expressions * 12
      size = omega (
        arith,
        length-append (insn_bytes insns) (input.operands ++ input.expressions),
        length-append input.operands input.expressions,
        length-insn_bytes insns,
        i.operands_whole,
        i.expressions_whole,
      )

  -- The dump decides as the serialization did whether records hold code.
  same_code :
      (input.haswx ≡ true → input.arm64 ≡ true)
      → not (bit_and (header_field 3 bytes) 1 == 0) ≡ aot input
  same_code fits = rw field3 (by_flags input.haswx input.arm64 fits)
    where
      by_flags :
          (haswx arm64 : Bool)
          → (haswx ≡ true → arm64 ≡ true)
          → not (bit_and (flags_of haswx arm64) 1 == 0) ≡ (haswx && arm64)
      by_flags true true h = refl
      by_flags true false h = let e : false ≡ true = h refl in cc
      by_flags false true h = refl
      by_flags false false h = refl

  -- A dump of the file, from the dumps of its two lists
  dumped :
      (ls : List Listed)
      → (input.haswx ≡ true → input.arm64 ≡ true)
      → All Fits insns
      → dump_handlers (aot input) (length records) 0 0 (handler_bytes records) ≡ done ls
      → dump bytes
        ≡ done (record {
          insns = insns;
          handlers = ls;
          mismatched = mismatches (referenced insns) (computed ls);
        })
  dumped ls fits all e =
      dump-of bytes checked
        (rw insn_section
          (ap (λ n. dump_insns n (body input insns records)) field5 ∙ dump_insns-bytes insns _ all))
        walked
    where
      walked :
          dump_handlers
            (not (bit_and (header_field 3 bytes) 1 == 0))
            (header_field 11 bytes)
            0
            0
            (drop (header_field 10 bytes) bytes)
          ≡ done ls
      walked =
          ap (λ b. dump_handlers b (header_field 11 bytes) 0 0 (drop (header_field 10 bytes) bytes))
            (same_code fits)
          ∙ ap (λ n. dump_handlers (aot input) n 0 0 (drop (header_field 10 bytes) bytes)) field11
          ∙ ap (dump_handlers (aot input) (length records) 0 0) handler_section
          ∙ e

-- What a dump shows of the file of an input
pub record IsDump (input : Input) (d : Dumped) : Type 0 where
  pub handlers : IsListing (aot input) 0 0 input.handlers d.handlers
  pub insns : IsFixed d.handlers input.insns d.insns
  pub matched : d.mismatched ≡ 0

-- A metadata file that was serialized, with code only for ARM64, passes all checks of the dump, which lists
-- what was written: every handler in its order, with its fields, its operands and its code, at the offset
-- behind the handlers before it; every instruction with its rva and the offset of the handler that it was
-- indexed to; and no mismatch.
pub dump-serialize :
    (input : Input) {bytes : List ℕ}
    → IsInput input
    → (input.haswx ≡ true → input.arm64 ≡ true)
    → serialize input ≡ some bytes
    → (d : Dumped) × (dump bytes ≡ done d) × IsDump input d
dump-serialize input {bytes} i fits e =
    let (records, insns, f, g, counts, small, same) = serialize-parts input e in
    let (ls, walked, listing, places) =
      dump_handlers-serialize (aot input) 0 0 0 input.handlers i.handlers_typed f in
    let fixed = fix_up-IsFixed ls records input.insns places g in
    let all =
      fix_up-Fits records input.insns (serialize_records-fit (aot input) 0 0 input.handlers f)
        i.rvas g in
    let d : Dumped = record {
      insns = insns;
      handlers = ls;
      mismatched = mismatches (referenced insns) (computed ls);
    } in
    (
      d,
      subst (λ l. dump l ≡ done d) same
          (dumped input i insns records counts small ls fits all walked),
      record {
        handlers = listing;
        insns = fixed;
        matched = mismatches-fixed ls input.insns insns fixed;
      },
    )
