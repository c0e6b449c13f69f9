-- ===== src/MetaFile/Dump.antt =====
-- `PreEncoder::dump` of src/PreEncoder.cpp: the checks and the walk over the sections of a metadata file.
-- What it prints is the list of what it reads: the disassembly and the fields of operands and expressions
-- are left out. A handler is read from the rest of the file that begins at its offset.
use aether_vm.Prelude.{
  contains, insert, ℕ, zero, suc, ◌+◌, ◌-◌, ◌*◌, ◌/◌, ◌%◌, ◌^◌, bit_and, Bool, not, ◌&&◌, ◌||◌,
  Option, none, some, List, [], ◌∷◌, length, take, drop, ltb, leb, ◌==◌, if◌then◌else◌,
}
use aether_vm.Word.Bytes.{read_le}
use aether_vm.PreEncode.{round4}
use aether_vm.MetaFile.{k_magic, no_handler}

-- The messages that end the dump
pub data Stop : Type 0 where
  file_too_small file_too_large bad_magic bad_version bad_size bad_sections : Stop
  truncated_handler invalid_handler truncated_code : ℕ → Stop

-- What is printed of a handler: its offset in the section, the fixed fields, and what follows them
pub record Listed : Type 0 where
  pub offset : ℕ
  pub impl : ℕ
  pub kind : ℕ
  pub opcode : List ℕ
  pub operands : List (ℕ × Bool)
  pub code : List ℕ

pub data Parse {ℓ} (A : Type ℓ) : Type ℓ where
  done : A → Parse A
  stopped : Stop → Parse A

infixl 5 ◌>>=◌
abbrev pub ◌>>=◌ {ℓ κ} : {A : Type ℓ} {B : Type κ} → Parse A → (A → Parse B) → Parse B
done a >>= f = f a
stopped s >>= f = stopped s

-- readAt, of n bytes at an offset
abbrev pub field_at : ℕ → ℕ → List ℕ → ℕ
field_at offset n bytes = read_le (take n (drop offset bytes))

-- The operands of a record: `value & 0x7fff` and `value & 0x8000`
abbrev pub list_operands : ℕ → List ℕ → List (ℕ × Bool)
list_operands zero bytes = []
list_operands (suc n) bytes =
    (bit_and (read_le (take 2 bytes)) 32767, not (bit_and (read_le (take 2 bytes)) 32768 == 0))
    ∷ list_operands n (drop 2 bytes)

-- The fields of a record
abbrev pub kind_at : List ℕ → ℕ
kind_at bytes = field_at 2 1 bytes % 16

abbrev pub oplen_at : List ℕ → ℕ
oplen_at bytes = field_at 2 1 bytes / 16

abbrev pub oprnum_at : List ℕ → ℕ
oprnum_at bytes = if kind_at bytes == 0 then field_at 3 1 bytes else 0

-- recordSize
abbrev pub plain_size : List ℕ → ℕ
plain_size bytes = 4 + oplen_at bytes + oprnum_at bytes * 2

-- The size of the record with the code, before the last round-up; `none` is a truncated code.
unfoldable pub full_size : Bool → List ℕ → Option ℕ
full_size aotimpl bytes =
    if aotimpl && kind_at bytes == 2
    then (if ltb (length bytes) (round4 (plain_size bytes) + field_at 0 2 bytes)
        then none
        else some (round4 (plain_size bytes) + field_at 0 2 bytes))
    else some (plain_size bytes)

unfoldable pub list_handler : Bool → ℕ → List ℕ → Listed
list_handler aotimpl offset bytes = record {
  offset = offset;
  impl = field_at 0 2 bytes;
  kind = kind_at bytes;
  opcode = take (oplen_at bytes) (drop 4 bytes);
  operands = list_operands (oprnum_at bytes) (drop (4 + oplen_at bytes) bytes);
  code =
      if aotimpl && kind_at bytes == 2
      then take (field_at 0 2 bytes) (drop (round4 (plain_size bytes)) bytes)
      else [];
}

-- The loop over the handlers: the offset in the section, and the file from there on
unfoldable pub dump_handlers : Bool → ℕ → ℕ → ℕ → List ℕ → Parse (List Listed)
dump_handlers aotimpl zero index offset bytes = done []
dump_handlers aotimpl (suc count) index offset bytes =
    if ltb (length bytes) 4
    then stopped (truncated_handler index)
    else if ltb 4 (kind_at bytes) || ltb (length bytes) (plain_size bytes)
    then stopped (invalid_handler index)
    else elim (full_size aotimpl bytes) [
      | none ↦ stopped (truncated_code index)
      | some size ↦
          let whole = if aotimpl then round4 size else size in
          dump_handlers aotimpl count (index + 1) (offset + whole) (drop whole bytes) >>= λ rest.
          done (list_handler aotimpl offset bytes ∷ rest)
    ]

-- The loop over the instructions
abbrev pub dump_insns : ℕ → List ℕ → List (ℕ × ℕ)
dump_insns zero bytes = []
dump_insns (suc count) bytes =
    (field_at 0 4 bytes, field_at 4 4 bytes) ∷ dump_insns count (drop 8 bytes)

-- `referenced_offsets` and `computed_offsets`
abbrev pub referenced : List (ℕ × ℕ) → List ℕ
referenced [] = []
referenced ((rva, handler) ∷ insns) =
    if handler == no_handler then referenced insns else insert handler (referenced insns)

abbrev pub computed : List Listed → List ℕ
computed [] = []
computed (h ∷ handlers) = insert h.offset (computed handlers)

-- The count of the mismatches
abbrev pub mismatches : List ℕ → List ℕ → ℕ
mismatches [] offsets = 0
mismatches (offset ∷ referenced) offsets =
    if contains offsets offset
    then mismatches referenced offsets
    else suc (mismatches referenced offsets)

-- What the dump lists, with the count of the mismatches
pub record Dumped : Type 0 where
  pub insns : List (ℕ × ℕ)
  pub handlers : List Listed
  pub mismatched : ℕ

-- A field of the header, by its place
abbrev pub header_field : ℕ → List ℕ → ℕ
header_field i bytes = field_at (4 * i) 4 bytes

unfoldable pub sections_valid : List ℕ → Bool
sections_valid bytes =
    header_field 4 bytes == 48
    && header_field 4 bytes + header_field 5 bytes * 8 == header_field 6 bytes
    && header_field 6 bytes + header_field 7 bytes * 48 == header_field 8 bytes
    && header_field 8 bytes + header_field 9 bytes * 12 == header_field 10 bytes
    && leb (header_field 10 bytes) (length bytes)

-- The checks of the header, in their order
unfoldable pub check_header : List ℕ → Option Stop
check_header bytes =
    if ltb (length bytes) 48
    then some file_too_small
    else if ltb (2 ^ 32 - 1) (length bytes)
    then some file_too_large
    else if not (header_field 0 bytes == k_magic)
    then some bad_magic
    else if not (header_field 1 bytes == 1)
    then some bad_version
    else if not (header_field 2 bytes == length bytes)
    then some bad_size
    else if not (sections_valid bytes)
    then some bad_sections
    else none

-- PreEncoder::dump, of a file that can be opened and read
unfoldable pub dump : List ℕ → Parse Dumped
dump bytes = elim (check_header bytes) [
  | some stop ↦ stopped stop
  | none ↦
      let insns = dump_insns (header_field 5 bytes) (drop (header_field 4 bytes) bytes) in
      let haswx = not (bit_and (header_field 3 bytes) 1 == 0) in
      dump_handlers haswx (header_field 11 bytes) 0 0 (drop (header_field 10 bytes) bytes)
      >>= λ handlers. done (record {
        insns = insns;
        handlers = handlers;
        mismatched = mismatches (referenced insns) (computed handlers);
      })
]
