-- ===== src/MetaFile.antt =====
-- src/PreEncoder.cpp and src/IMetaData.h: the bytes of the metadata file, written by `serializeHandler` and
-- `serialize`, and read back by `dump` (MetaFile/Dump).
-- A byte is a number below 256. The operand and the expression structures are copied to the file as they
-- lie in memory: the two arrays are given by their bytes, of 48 and 12 each.
pub mod Dump
pub mod Fields
pub mod Insns
pub mod Listing
pub mod Records
pub mod Sections
pub mod Walk
use aether_vm.Prelude.{
  ℕ, zero, suc, ◌+◌, ◌-◌, ◌*◌, ◌^◌, bit_or, Bool, true, false, ◌&&◌, ◌||◌, Option, none, some, List,
  [], ◌∷◌, ◌++◌, map, length, get_elem?, ltb, leb, ◌==◌, if◌then◌else◌,
}
use aether_vm.Word.Bytes.{le_bytes}
use aether_vm.Search.{◌>>=◌}
use aether_vm.PreEncode.{
  HandlerType, oht_remill, oht_mcinst, oht_dynamic, oht_prebuilt, oht_prebuilt_mapped, Source,
  impl_index, operand_bytes, code_size, aotimpl_offset, record_size,
}

-- A handler with what `convert` copies of it: the opcode, the pointer flag of each operand, and the code
pub record HandlerData : Type 0 where
  pub source : Source
  pub opcode : ℕ
  pub pointers : List Bool
  pub code : List ℕ

abbrev pub type_code : HandlerType → ℕ
type_code oht_remill = 0
type_code oht_mcinst = 1
type_code oht_dynamic = 2
type_code oht_prebuilt = 3
type_code oht_prebuilt_mapped = 4

abbrev pub zeros : ℕ → List ℕ
zeros zero = []
zeros (suc n) = 0 ∷ zeros n

-- `arg.index | (arg.pointer ? operand_pointer_flag : 0)`
abbrev pub operand_word : ℕ → Bool → ℕ
operand_word index pointer = bit_or (if pointer then 32768 else 0) index

-- The operand indices of a record
abbrev pub operand_words : List ℕ → List Bool → List ℕ
operand_words [] pointers = []
operand_words (index ∷ args) [] = le_bytes 2 (operand_word index false) ++ operand_words args []
operand_words (index ∷ args) (pointer ∷ pointers) =
    le_bytes 2 (operand_word index pointer) ++ operand_words args pointers

abbrev pub operands_of : HandlerData → List ℕ
operands_of h = elim h.source.kind [ oht_remill ↦ operand_words h.source.args h.pointers | _ ↦ [] ]

abbrev pub oprnum_of : HandlerData → ℕ
oprnum_of h = elim h.source.kind [ oht_remill ↦ length h.source.args | _ ↦ 0 ]

-- The fixed fields, the opcode and the operands
abbrev pub plain_bytes : ℕ → HandlerData → List ℕ
plain_bytes impl h =
    le_bytes 2 impl
    ++ ((type_code h.source.kind + 16 * h.source.oplen)
        ∷ oprnum_of h
        ∷ (le_bytes h.source.oplen h.opcode ++ operands_of h))

-- The bytes that `convert` copies to the place of the code
abbrev pub code_of : Bool → HandlerData → List ℕ
code_of aotimpl h = if aotimpl then elim h.source.kind [ oht_dynamic ↦ h.code | _ ↦ [] ] else []

-- The record of a handler: the vector is zero where nothing is copied to.
unfoldable pub record_bytes : Bool → ℕ → HandlerData → List ℕ
record_bytes aotimpl impl h =
    let offset = aotimpl_offset aotimpl h.source in
    plain_bytes impl h
    ++ (zeros (offset - (4 + h.source.oplen + operand_bytes h.source))
        ++ (code_of aotimpl h
            ++ zeros (record_size aotimpl h.source - (offset + code_size aotimpl h.source))))

-- `convert` of serializeHandler: the record, and the next index of a dynamic handler
unfoldable pub convert_record : Bool → ℕ → HandlerData → Option (List ℕ × ℕ)
convert_record aotimpl dynamic h =
    if ltb 15 h.source.oplen || ltb h.source.width h.source.oplen || ltb 255 (length h.source.args)
    then none
    else (impl_index aotimpl dynamic h.source >>= λ r. some (record_bytes aotimpl r.0 h, r.1))

-- serializeHandler: the offset and the bytes of each record
unfoldable pub serialize_records : Bool → ℕ → ℕ → List HandlerData → Option (List (ℕ × List ℕ))
serialize_records aotimpl offset dynamic [] = some []
serialize_records aotimpl offset dynamic (h ∷ rest) = convert_record aotimpl dynamic h >>= λ r.
    if ltb (2 ^ 32 - 1) offset || ltb (2 ^ 32 - 1 - offset) (length r.0)
    then none
    else (serialize_records aotimpl (offset + length r.0) r.1 rest >>= λ records.
        some ((offset, r.0) ∷ records))

-- An instruction's metadata: its rva and the index of its handler, `none` for UINT32_MAX
abbrev pub no_handler : ℕ
no_handler = 2 ^ 32 - 1

-- The loop of serialize that puts the offsets of the handlers into the instructions: `none` is the return
-- of false.
unfoldable pub fix_up : List (ℕ × List ℕ) → List (ℕ × Option ℕ) → Option (List (ℕ × ℕ))
fix_up records [] = some []
fix_up records ((rva, none) ∷ insns) =
    fix_up records insns >>= λ rest. some ((rva, no_handler) ∷ rest)
fix_up records ((rva, some index) ∷ insns) =
    get_elem? records index >>= λ r. fix_up records insns >>= λ rest. some ((rva, r.0) ∷ rest)

abbrev pub insn_bytes : List (ℕ × ℕ) → List ℕ
insn_bytes [] = []
insn_bytes ((rva, handler) ∷ insns) = le_bytes 4 rva ++ (le_bytes 4 handler ++ insn_bytes insns)

abbrev pub handler_bytes : List (ℕ × List ℕ) → List ℕ
handler_bytes [] = []
handler_bytes (r ∷ records) = r.1 ++ handler_bytes records

-- IMetaData: the fields of the header in their order
abbrev pub header_bytes : List ℕ → List ℕ
header_bytes [] = []
header_bytes (field ∷ fields) = le_bytes 4 field ++ header_bytes fields

-- kMagic, kVersion and the flags
abbrev pub k_magic : ℕ
k_magic = 1297499457

abbrev pub flags_of : Bool → Bool → ℕ
flags_of haswx arm64 = bit_or (if haswx then 1 else 0) (if arm64 then 2 else 4)

-- What serialize puts together: the arrays as counts and bytes
pub record Input : Type 0 where
  pub haswx : Bool
  pub arm64 : Bool
  pub num_operands : ℕ
  pub operands : List ℕ
  pub num_expressions : ℕ
  pub expressions : List ℕ
  pub handlers : List HandlerData
  pub insns : List (ℕ × Option ℕ)

abbrev pub header_fields : Input → ℕ → List (ℕ × ℕ) → ℕ → List ℕ
header_fields input size insns num_handlers =
    let off_operands = 48 + length insns * 8 in
    let off_expressions = off_operands + input.num_operands * 48 in
    let off_handlers = off_expressions + input.num_expressions * 12 in
    k_magic
    ∷ 1
    ∷ size
    ∷ flags_of input.haswx input.arm64
    ∷ 48
    ∷ length insns
    ∷ off_operands
    ∷ input.num_operands
    ∷ off_expressions
    ∷ input.num_expressions
    ∷ off_handlers
    ∷ num_handlers
    ∷ []

-- The test of the counts, and the size of the file
abbrev pub counts_fit : Input → List (ℕ × ℕ) → ℕ → Bool
counts_fit input insns num_handlers =
    leb (length insns) (2 ^ 32 - 1)
    && leb input.num_operands (2 ^ 32 - 1)
    && leb input.num_expressions (2 ^ 32 - 1)
    && leb num_handlers (2 ^ 32 - 1)

abbrev pub out_size : Input → List (ℕ × ℕ) → List (ℕ × List ℕ) → ℕ
out_size input insns records =
    48
    + length insns * 8
    + input.num_operands * 48
    + input.num_expressions * 12
    + length (handler_bytes records)

-- PreEncoder::serialize, past the conversion of the operands: the bytes of the file
unfoldable pub serialize : Input → Option (List ℕ)
serialize input = do
  records ← serialize_records (input.haswx && input.arm64) 0 0 input.handlers
  insns ← fix_up records input.insns
  let size = out_size input insns records
  if counts_fit input insns (length records) && leb size (2 ^ 32 - 1)
      then some (
          header_bytes (header_fields input size insns (length records))
          ++ (insn_bytes insns ++ (input.operands ++ (input.expressions ++ handler_bytes records))))
      else none
