-- ===== src/MetaFile/Fields.antt =====
-- The fields of a handler's record, as the loop of `dump` in src/PreEncoder.cpp reads them.
use aether_vm.Prelude.{
  ℕ, ◌+◌, ◌*◌, ◌<◌, Bool, false, List, [], ◌++◌, length, take, drop, take-append, drop-append,
  drop_add, ◌==◌, ◌≡◌, refl, ◌∙◌, arith, Bool-cases, inl, inr,
}
use aether_vm.Word.Bytes.{le_bytes, length-le_bytes}
use aether_vm.PreEncode.{
  HandlerType, oht_remill, oht_mcinst, oht_dynamic, oht_prebuilt, oht_prebuilt_mapped,
  operand_bytes,
}
use aether_vm.MetaFile.{HandlerData, type_code, operand_words, operands_of, oprnum_of, code_of}
use aether_vm.MetaFile.Dump.{
  Listed, field_at, list_operands, kind_at, oplen_at, oprnum_at, plain_size,
}
use aether_vm.MetaFile.Records.{
  operand_list, list_operands-words, IsWritable, type_code-le, tail, shape,
}

other_oprnum : (h : HandlerData) → (type_code h.source.kind == 0) ≡ false → oprnum_of h ≡ 0
other_oprnum h =
    elim h.source.kind
      as (λ kind.
        (type_code kind == 0) ≡ false
        → ◌≡◌ {A = ℕ} (elim kind [ oht_remill ↦ length h.source.args | _ ↦ 0 ]) 0) [
          | oht_remill ↦ λ e. cc
          | oht_mcinst ↦ λ e. refl
          | oht_dynamic ↦ λ e. refl
          | oht_prebuilt ↦ λ e. refl
          | oht_prebuilt_mapped ↦ λ e. refl
        ]

oprnum-bytes : (h : HandlerData) → oprnum_of h * 2 ≡ operand_bytes h.source
oprnum-bytes h =
    elim h.source.kind
      as (λ kind.
        elim kind [ oht_remill ↦ length h.source.args | _ ↦ 0 ] * 2
        ≡ elim kind [ oht_remill ↦ length h.source.args * 2 | _ ↦ 0 ]) [
          | oht_remill ↦ refl
          | oht_mcinst ↦ refl
          | oht_dynamic ↦ refl
          | oht_prebuilt ↦ refl
          | oht_prebuilt_mapped ↦ refl
        ]

-- The operands, the code and the rest of what a dump lists of a handler
abbrev pub listed_operands : HandlerData → List (ℕ × Bool)
listed_operands h = elim h.source.kind [
  | oht_remill ↦ operand_list h.source.args h.pointers
  | _ ↦ []
]

abbrev pub listed : Bool → ℕ → ℕ → HandlerData → Listed
listed aotimpl offset impl h = record {
  offset = offset;
  impl = impl;
  kind = type_code h.source.kind;
  opcode = le_bytes h.source.oplen h.opcode;
  operands = listed_operands h;
  code = code_of aotimpl h;
}

operands_listed :
    (h : HandlerData) (rest : List ℕ)
    → IsWritable h
    → list_operands (oprnum_of h) (operands_of h ++ rest) ≡ listed_operands h
operands_listed h rest w = go h.source.kind refl
  where
    go :
        (kind : HandlerType)
        → h.source.kind ≡ kind
        → list_operands
            (elim kind [ oht_remill ↦ length h.source.args | _ ↦ 0 ])
            (elim kind [ oht_remill ↦ operand_words h.source.args h.pointers | _ ↦ [] ] ++ rest)
          ≡ elim kind [ oht_remill ↦ operand_list h.source.args h.pointers | _ ↦ [] ]
    go oht_remill e = list_operands-words h.source.args h.pointers rest (w.args_small e)
    go oht_mcinst e = refl
    go oht_dynamic e = refl
    go oht_prebuilt e = refl
    go oht_prebuilt_mapped e = refl

module _ (aotimpl : Bool) (impl : ℕ) (h : HandlerData) (rest : List ℕ) where
  abbrev pub whole : List ℕ
  whole = shape aotimpl impl h rest

  pub kind_read : kind_at whole ≡ type_code h.source.kind
  kind_read = omega (arith, type_code-le h.source.kind)

  pub oplen_read : oplen_at whole ≡ h.source.oplen
  oplen_read = omega (arith, type_code-le h.source.kind)

  pub impl_read : impl < 65536 → field_at 0 2 whole ≡ impl
  impl_read small = omega arith

  pub oprnum_read : oprnum_at whole ≡ oprnum_of h
  oprnum_read = elim (Bool-cases (type_code h.source.kind == 0)) [
    | inl e ↦ ground (arith, kind_read, e)
    | inr e ↦ ground (arith, kind_read, e, other_oprnum h e)
  ]

  pub opcode_read : take (oplen_at whole) (drop 4 whole) ≡ le_bytes h.source.oplen h.opcode
  opcode_read = rw oplen_read (
      take-append h.source.oplen (le_bytes h.source.oplen h.opcode) (tail aotimpl h rest)
        (length-le_bytes h.source.oplen h.opcode))

  behind_opcode : drop (4 + oplen_at whole) whole ≡ tail aotimpl h rest
  behind_opcode =
      drop_add 4 (oplen_at whole) whole
      ∙ rw oplen_read (
          drop-append h.source.oplen (le_bytes h.source.oplen h.opcode) (tail aotimpl h rest)
            (length-le_bytes h.source.oplen h.opcode))

  pub plain_read : plain_size whole ≡ 4 + h.source.oplen + operand_bytes h.source
  plain_read = omega (arith, oplen_read, oprnum_read, oprnum-bytes h)

  pub operands_read :
      IsWritable h
      → list_operands (oprnum_at whole) (drop (4 + oplen_at whole) whole) ≡ listed_operands h
  operands_read w = rw (oprnum_read, behind_opcode) (operands_listed h _ w)
