-- ===== src/MetaFile/Records.antt =====
-- The record of one handler: what `convert` of serializeHandler writes, as the loop of `dump` reads it.
use mathlib.Core.List.{append_assoc}
use aether_vm.Prelude.{
  ℕ, zero, suc, ◌+◌, ◌-◌, ◌*◌, ◌/◌, ◌%◌, ◌≤◌, ◌<◌, bit_and, Bool, true, false, not, List, [], ◌∷◌,
  ◌++◌, length, length-append, ◌==◌, if◌then◌else◌, ◌≡◌, refl, ap, arith,
}
use aether_vm.Word.Align.{and_ones_above}
use aether_vm.Word.Digits.{bit_and-low_ones, bit_or-above}
use aether_vm.Word.Bytes.{le_bytes, length-le_bytes}
use aether_vm.PreEncode.{
  HandlerType, oht_remill, oht_mcinst, oht_dynamic, oht_prebuilt, oht_prebuilt_mapped,
  operand_bytes, code_size, aotimpl_offset, record_size, all_below,
}
use aether_vm.PreEncode.Layout.{record-aligned}
use aether_vm.MetaFile.{
  HandlerData, type_code, zeros, operand_word, operand_words, operands_of, oprnum_of, plain_bytes,
  code_of, record_bytes,
}
use aether_vm.MetaFile.Dump.{list_operands}

pub length-zeros : (n : ℕ) → length (zeros n) ≡ n
length-zeros zero = refl
length-zeros (suc n) = ap suc (length-zeros n)

word-eq :
    (index : ℕ) (pointer : Bool)
    → index < 32768
    → operand_word index pointer ≡ (if pointer then 32768 else 0) + index
word-eq index true h = bit_or-above 15 1 index h
word-eq index false h = bit_or-above 15 0 index h

-- The operands that a record is read to
abbrev pub operand_list : List ℕ → List Bool → List (ℕ × Bool)
operand_list [] pointers = []
operand_list (index ∷ args) [] = (index, false) ∷ operand_list args []
operand_list (index ∷ args) (pointer ∷ pointers) = (index, pointer) ∷ operand_list args pointers

-- The two bytes of a word, put together again
abbrev two_bytes : ℕ → ℕ
two_bytes w = w % 256 + 256 * (w / 256 % 256 + 0)

two_bytes-eq : (w : ℕ) → w < 65536 → two_bytes w ≡ w
two_bytes-eq w h = omega arith

word-read :
    (w index : ℕ) (pointer : Bool)
    → index < 32768
    → w ≡ (if pointer then 32768 else 0) + index
    → (bit_and (two_bytes w) 32767 ≡ index) × (not (bit_and (two_bytes w) 32768 == 0) ≡ pointer)
word-read w index true h e =
    rw (two_bytes-eq w (omega arith))
      (omega (arith, bit_and-low_ones 15 w), ground (arith, and_ones_above 15 1 w (omega arith)))
word-read w index false h e =
    rw (two_bytes-eq w (omega arith))
      (omega (arith, bit_and-low_ones 15 w), ground (arith, and_ones_above 15 1 w (omega arith)))

pub list_operands-words :
    (args : List ℕ) (pointers : List Bool) (rest : List ℕ)
    → all_below 32768 args ≡ true
    → list_operands (length args) (operand_words args pointers ++ rest) ≡ operand_list args pointers
list_operands-words [] pointers rest h = refl
list_operands-words (index ∷ args) [] rest h =
    let small : index < 32768 = ground (arith, h) in
    let (low, high) =
      word-read (operand_word index false) index false small (word-eq index false small) in
    let later = list_operands-words args [] rest (ground (arith, h)) in cc (low, high, later)
list_operands-words (index ∷ args) (pointer ∷ pointers) rest h =
    let small : index < 32768 = ground (arith, h) in
    let (low, high) =
      word-read (operand_word index pointer) index pointer small (word-eq index pointer small) in
    let later = list_operands-words args pointers rest (ground (arith, h)) in cc (low, high, later)

pub length-operand_words :
    (args : List ℕ) (pointers : List Bool) → length (operand_words args pointers) ≡ length args * 2
length-operand_words [] pointers = omega arith
length-operand_words (index ∷ args) [] = omega (arith, length-operand_words args [])
length-operand_words (index ∷ args) (pointer ∷ pointers) =
    omega (arith, length-operand_words args pointers)

-- A handler whose fields are within their types, and whose operands fit where they are written
pub record IsWritable (h : HandlerData) : Type 0 where
  pub oplen_small : h.source.oplen ≤ 15
  pub args_few : length h.source.args ≤ 255
  pub args_small : h.source.kind ≡ oht_remill → all_below 32768 h.source.args ≡ true
  pub impl_small : h.source.implsize < 65536
  pub code_whole : length h.code ≡ h.source.implsize

pub length-operands_of : (h : HandlerData) → length (operands_of h) ≡ operand_bytes h.source
length-operands_of h =
    elim h.source.kind
      as (λ kind.
        length {A = ℕ} (elim kind [ oht_remill ↦ operand_words h.source.args h.pointers | _ ↦ [] ])
        ≡ elim kind [ oht_remill ↦ length h.source.args * 2 | _ ↦ 0 ]) [
          | oht_remill ↦ length-operand_words h.source.args h.pointers
          | oht_mcinst ↦ refl
          | oht_dynamic ↦ refl
          | oht_prebuilt ↦ refl
          | oht_prebuilt_mapped ↦ refl
        ]

pub length-code_of :
    (aotimpl : Bool) (h : HandlerData)
    → IsWritable h
    → length (code_of aotimpl h) ≡ code_size aotimpl h.source
length-code_of false h w = refl
length-code_of true h w =
    elim h.source.kind
      as (λ kind.
        length {A = ℕ} (elim kind [ oht_dynamic ↦ h.code | _ ↦ [] ])
        ≡ elim kind [ oht_dynamic ↦ h.source.implsize | _ ↦ 0 ]) [
          | oht_remill ↦ refl
          | oht_mcinst ↦ refl
          | oht_dynamic ↦ w.code_whole
          | oht_prebuilt ↦ refl
          | oht_prebuilt_mapped ↦ refl
        ]

-- Where the parts of a record lie
pub sizes :
    (aotimpl : Bool) (h : HandlerData)
    → IsWritable h
    → (4 + h.source.oplen + operand_bytes h.source ≤ aotimpl_offset aotimpl h.source)
      × (aotimpl_offset aotimpl h.source + code_size aotimpl h.source
          ≤ record_size aotimpl h.source)
unfolding aotimpl_offset record_size
sizes false h w = (omega arith, omega arith)
sizes true h w =
    let (begin, ends, operands, code) =
      record-aligned h.source w.impl_small w.oplen_small w.args_few in
    (operands, code)

pub length-record_bytes :
    (aotimpl : Bool) (impl : ℕ) (h : HandlerData)
    → IsWritable h
    → length (record_bytes aotimpl impl h) ≡ record_size aotimpl h.source
unfolding record_bytes
length-record_bytes aotimpl impl h w =
    let (operands, code) = sizes aotimpl h w in
    let offset = aotimpl_offset aotimpl h.source in
    let gap = offset - (4 + h.source.oplen + operand_bytes h.source) in
    let rest = record_size aotimpl h.source - (offset + code_size aotimpl h.source) in
    omega (
      arith,
      operands,
      code,
      length-append (plain_bytes impl h) (zeros gap ++ (code_of aotimpl h ++ zeros rest)),
      length-append (zeros gap) (code_of aotimpl h ++ zeros rest),
      length-append (code_of aotimpl h) (zeros rest),
      length-append (le_bytes h.source.oplen h.opcode) (operands_of h),
      length-le_bytes h.source.oplen h.opcode,
      length-operands_of h,
      length-code_of aotimpl h w,
      length-zeros gap,
      length-zeros rest,
    )

pub type_code-le : (kind : HandlerType) → type_code kind ≤ 4
type_code-le oht_remill = omega arith
type_code-le oht_mcinst = omega arith
type_code-le oht_dynamic = omega arith
type_code-le oht_prebuilt = omega arith
type_code-le oht_prebuilt_mapped = omega arith

-- What follows the fixed fields and the opcode in a file
abbrev pub tail : Bool → HandlerData → List ℕ → List ℕ
tail aotimpl h rest =
    let offset = aotimpl_offset aotimpl h.source in
    operands_of h
    ++ (zeros (offset - (4 + h.source.oplen + operand_bytes h.source))
        ++ (code_of aotimpl h
            ++ (zeros (record_size aotimpl h.source - (offset + code_size aotimpl h.source))
                ++ rest)))

abbrev pub shape : Bool → ℕ → HandlerData → List ℕ → List ℕ
shape aotimpl impl h rest =
    (impl % 256)
    ∷ (impl / 256 % 256)
    ∷ (type_code h.source.kind + 16 * h.source.oplen)
    ∷ oprnum_of h
    ∷ (le_bytes h.source.oplen h.opcode ++ tail aotimpl h rest)

pub record_bytes-shape :
    (aotimpl : Bool) (impl : ℕ) (h : HandlerData) (rest : List ℕ)
    → record_bytes aotimpl impl h ++ rest ≡ shape aotimpl impl h rest
unfolding record_bytes
record_bytes-shape aotimpl impl h rest = simp append_assoc
