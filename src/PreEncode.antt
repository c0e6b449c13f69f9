-- ===== src/PreEncode.antt =====
-- src/PreEncoder.h and src/PreEncoder.cpp: the index of an opcode's handler, and the layout of the
-- serialized handlers.
-- The handlers of each size are a `std::set` ordered by opcode; here they are the list of its opcodes.
pub mod Index
pub mod Layout
use aether_vm.Prelude.{
  ℕ, zero, suc, ◌+◌, ◌-◌, ◌*◌, ◌%◌, ◌^◌, bit_and, Bool, true, false, ◌&&◌, ◌||◌, not, Option, none,
  some, List, [], ◌∷◌, ◌++◌, map, length, get_elem?, ltb, leb, ◌==◌, if◌then◌else◌,
}
use aether_vm.Word.{not64}
use aether_vm.Search.{◌>>=◌}
use aether_vm.Emulate.{Width, bytes1, bytes2, bytes4, bytes8, bytes16, read_opcode}

-- The opcodes of the five sets, each in ascending order
pub record Sets : Type 0 where
  pub set1 : List ℕ
  pub set2 : List ℕ
  pub set4 : List ℕ
  pub set8 : List ℕ
  pub set16 : List ℕ

abbrev pub set_of : Sets → Width → List ℕ
set_of s bytes1 = s.set1
set_of s bytes2 = s.set2
set_of s bytes4 = s.set4
set_of s bytes8 = s.set8
set_of s bytes16 = s.set16

-- PreEncoder::prefetch, its second half: `m_handlers`, with the size of each
abbrev pub sized : Width → List ℕ → List (Width × ℕ)
sized w l = map (λ opcode. (w, opcode)) l

unfoldable pub m_handlers : Sets → List (Width × ℕ)
m_handlers s =
    sized bytes1 s.set1
    ++ (sized bytes2 s.set2
        ++ (sized bytes4 s.set4 ++ (sized bytes8 s.set8 ++ sized bytes16 s.set16)))

-- The start of each size in `m_ranges`
unfoldable pub range_start : Sets → Width → ℕ
range_start s bytes1 = 0
range_start s bytes2 = length s.set1
range_start s bytes4 = length s.set1 + length s.set2
range_start s bytes8 = length s.set1 + (length s.set2 + length s.set4)
range_start s bytes16 = length s.set1 + (length s.set2 + (length s.set4 + length s.set8))

-- std::lower_bound on an ascending range: the place of the first element that is not below the key
abbrev pub lower_bound : List ℕ → ℕ → ℕ
lower_bound [] key = 0
lower_bound (x ∷ l) key = if ltb x key then suc (lower_bound l key) else 0

-- `search` of handlerIndex, in the range of one size
unfoldable pub search_range : Sets → Width → ℕ → Option ℕ
search_range s w key = get_elem? (set_of s w) (lower_bound (set_of s w) key) >>= λ x.
    if x == key then some (range_start s w + lower_bound (set_of s w) key) else none

-- The size that handlerIndex takes for a number of bytes
unfoldable pub index_width : ℕ → Width
index_width size =
    if size == 1
    then bytes1
    else if size == 2
    then bytes2
    else if leb size 4
    then bytes4
    else if leb size 8
    then bytes8
    else bytes16

-- PreEncoder::handlerIndex: `none` is UINT32_MAX.
unfoldable pub handler_index : Sets → List ℕ → Option ℕ
handler_index s opcode =
    if length opcode == 0 || ltb 16 (length opcode)
    then none
    else read_opcode (length opcode) opcode >>= λ key.
        search_range s (index_width (length opcode)) key

-- OpcodeHandler<T>::Type
pub data HandlerType : Type 0 where
  oht_remill oht_mcinst oht_dynamic oht_prebuilt oht_prebuilt_mapped : HandlerType

-- What serializeHandler reads of a handler: `width` is the size of its opcode's type, `args` the indices of
-- its operands, and `found` its index in the table of implementations.
pub record Source : Type 0 where
  pub kind : HandlerType
  pub width : ℕ
  pub oplen : ℕ
  pub args : List ℕ
  pub implsize : ℕ
  pub has_impl : Bool
  pub found : Option ℕ

abbrev pub all_below : ℕ → List ℕ → Bool
all_below bound [] = true
all_below bound (x ∷ l) = ltb x bound && all_below bound l

-- The implementation index, and the next index of a dynamic handler; `none` is std::nullopt.
unfoldable pub impl_index : Bool → ℕ → Source → Option (ℕ × ℕ)
impl_index aotimpl dynamic h = elim h.kind [
  | oht_remill ↦ h.found >>= λ index.
      if ltb index 65535 && all_below 32768 h.args then some (index, dynamic) else none
  | oht_mcinst ↦ get_elem? h.args 0 >>= λ index.
      if length h.args == 1 && ltb index 65535 then some (index, dynamic) else none
  | oht_dynamic ↦
      if aotimpl
      then (if not (h.implsize == 0) && not h.has_impl then none else some (h.implsize, dynamic))
      else (if leb 65535 dynamic then none else some (dynamic, dynamic + 1))
  | oht_prebuilt ↦ none
  | oht_prebuilt_mapped ↦ none
]

abbrev pub operand_bytes : Source → ℕ
operand_bytes h = elim h.kind [ oht_remill ↦ length h.args * 2 | _ ↦ 0 ]

abbrev pub code_size : Bool → Source → ℕ
code_size aotimpl h = if aotimpl then elim h.kind [ oht_dynamic ↦ h.implsize | _ ↦ 0 ] else 0

-- `(n + 3u) & ~size_t{3}`
unfoldable pub round4 : ℕ → ℕ
round4 n = bit_and (n + 3) (not64 3)

-- The offset of the code in the record, and the size of the record; the fixed fields take four bytes.
unfoldable pub aotimpl_offset : Bool → Source → ℕ
aotimpl_offset aotimpl h =
    let plain = 4 + h.oplen + operand_bytes h in if aotimpl then round4 plain else plain

unfoldable pub record_size : Bool → Source → ℕ
record_size aotimpl h =
    if aotimpl
    then round4 (aotimpl_offset aotimpl h + code_size aotimpl h)
    else 4 + h.oplen + operand_bytes h

-- `convert`, as far as the layout: the size of the record and the next dynamic index
unfoldable pub convert_handler : Bool → ℕ → Source → Option (ℕ × ℕ)
convert_handler aotimpl dynamic h =
    if ltb 15 h.oplen || ltb h.width h.oplen || ltb 255 (length h.args)
    then none
    else (impl_index aotimpl dynamic h >>= λ r. some (record_size aotimpl h, r.1))

-- The loop of serializeHandler: the offset and the size of each record; `none` is `fail`.
unfoldable pub serialize_handlers : Bool → ℕ → ℕ → List Source → Option (List (ℕ × ℕ))
serialize_handlers aotimpl offset dynamic [] = some []
serialize_handlers aotimpl offset dynamic (h ∷ rest) = convert_handler aotimpl dynamic h >>= λ r.
    if ltb (2 ^ 32 - 1) offset || ltb (2 ^ 32 - 1 - offset) r.0
    then none
    else (serialize_handlers aotimpl (offset + r.0) r.1 rest >>= λ records.
        some ((offset, r.0) ∷ records))
