-- ===== src/Emulate.antt =====
-- src/OpcodeEngine.h and the dispatch of src/OpcodeEngine.cpp: the sets of opcode handlers with their 256
-- cache entries, `OpcodeEngine::emulate` and `OpcodeEngine::prefetch`; `fib_hash8` of include/Utils.h.
-- An opcode is the number that its bytes are in memory. The decoder is another library's: `decodes` says
-- whether it accepts an opcode, `body` is what the initialisation of a handler makes of it, and `decode_size`
-- and `disassemble` are the lengths it finds.
pub mod Cached
pub mod Bytes
use aether_vm.Prelude.{
  ℕ, zero, suc, ◌+◌, ◌-◌, ◌*◌, ◌/◌, ◌%◌, ◌^◌, bit_xor, Bool, true, false, Option, none, some, List,
  [], ◌∷◌, length, drop, ltb, leb, ◌==◌, if◌then◌else◌,
}

-- The five sizes of opcode
pub data Width : Type 0 where
  bytes1 bytes2 bytes4 bytes8 bytes16 : Width

-- fib_hash8, for each size
unfoldable pub fib_hash8 : Width → ℕ → ℕ
fib_hash8 bytes1 x = x % 256
fib_hash8 bytes2 x = x * 40503 / 2 ^ 8 % 256
fib_hash8 bytes4 x = x * 2654435769 % 2 ^ 32 / 2 ^ 24 % 256
fib_hash8 bytes8 x = x * 11400714819323198485 % 2 ^ 64 / 2 ^ 56 % 256
fib_hash8 bytes16 x =
    bit_xor (x % 2 ^ 64) (x / 2 ^ 64) * 11400714819323198485 % 2 ^ 64 / 2 ^ 56 % 256

-- OpcodeHandler: `none` is a handler that was not initialised.
pub record OpcodeHandler : Type 0 where
  pub opcode : ℕ
  pub impl : Option ℕ

-- OpcodeHandlers: a cache entry is the opcode of the handler that it points to.
pub record OpcodeHandlers : Type 0 where
  pub handlers : List OpcodeHandler
  pub caches : ℕ → Option ℕ

abbrev pub no_handlers : OpcodeHandlers
no_handlers = record { handlers = []; caches = λ id. none }

-- `handlers.find`
abbrev pub lookup : List OpcodeHandler → ℕ → Option (Option ℕ)
lookup [] opcode = none
lookup (h ∷ handlers) opcode =
    let rest = lookup handlers opcode in if h.opcode == opcode then some h.impl else rest

-- `caches[id] = &*found`
abbrev pub cache : (ℕ → Option ℕ) → ℕ → ℕ → ℕ → Option ℕ
cache caches id opcode = λ i. if i == id then some opcode else caches i

-- What an emulation does: nothing, the interpretation of an initialised handler, or that of a handler
-- whose fields were never set
pub data Ran : Type 0 where
  rejected : Ran
  interpreted : ℕ → Ran
  uninitialised : Ran

abbrev pub interpret : Option ℕ → Ran
interpret none = uninitialised
interpret (some body) = interpreted body

-- OpcodeHandlers::prefetch
unfoldable pub prefetch : Width → (ℕ → ℕ) → OpcodeHandlers → ℕ → OpcodeHandlers
prefetch w body hs opcode = elim (lookup hs.handlers opcode) [
  | some h ↦ hs
  | none ↦ record {
    handlers = record { opcode = opcode; impl = some (body opcode) } ∷ hs.handlers;
    caches = cache hs.caches (fib_hash8 w opcode) opcode;
  }
]

-- A new handler of `emulate`, and `init`
abbrev pub create : (ℕ → Bool) → (ℕ → ℕ) → ℕ → OpcodeHandler
create decodes body opcode = record {
  opcode = opcode;
  impl = if decodes opcode then some (body opcode) else none;
}

-- `emulate` past the cache
unfoldable pub emulate_found :
    Width → (ℕ → Bool) → (ℕ → ℕ) → Bool → OpcodeHandlers → ℕ → OpcodeHandlers × Ran
emulate_found w decodes body readonly hs opcode = elim (lookup hs.handlers opcode) [
  | some impl ↦ (record hs { caches = cache hs.caches (fib_hash8 w opcode) opcode }, interpret impl)
  | none ↦
      if readonly
      then (hs, rejected)
      else if decodes opcode
      then (
        record {
          handlers = create decodes body opcode ∷ hs.handlers;
          caches = cache hs.caches (fib_hash8 w opcode) opcode;
        },
        interpreted (body opcode),
      )
      else (record hs { handlers = create decodes body opcode ∷ hs.handlers }, rejected)
]

-- The handler that the cache holds for an opcode
abbrev pub cached : OpcodeHandlers → Option ℕ → ℕ → Option (Option ℕ)
cached hs none opcode = none
cached hs (some entry) opcode = if entry == opcode then lookup hs.handlers entry else none

-- OpcodeHandlers::emulate
unfoldable pub emulate :
    Width → (ℕ → Bool) → (ℕ → ℕ) → Bool → OpcodeHandlers → ℕ → OpcodeHandlers × Ran
emulate w decodes body readonly hs opcode =
    elim (cached hs (hs.caches (fib_hash8 w opcode)) opcode) [
      | some impl ↦ (hs, interpret impl)
      | none ↦ emulate_found w decodes body readonly hs opcode
    ]

-- OpcodeEngine
pub record OpcodeEngine : Type 0 where
  pub opc1 : OpcodeHandlers
  pub opc2 : OpcodeHandlers
  pub opc4 : OpcodeHandlers
  pub opc8 : OpcodeHandlers
  pub opc16 : OpcodeHandlers
  pub readonly : Bool

-- The switch on the number of bytes
unfoldable pub width_of : ℕ → Width
width_of size =
    if size == 1
    then bytes1
    else if size == 2
    then bytes2
    else if size == 3
    then bytes4
    else if size == 4
    then bytes4
    else wide
  where
    wide : Width
    wide =
        if size == 5
        then bytes8
        else if size == 6
        then bytes8
        else if size == 7
        then bytes8
        else if size == 8
        then bytes8
        else bytes16

abbrev pub get : OpcodeEngine → Width → OpcodeHandlers
get e bytes1 = e.opc1
get e bytes2 = e.opc2
get e bytes4 = e.opc4
get e bytes8 = e.opc8
get e bytes16 = e.opc16

abbrev pub put : OpcodeEngine → Width → OpcodeHandlers → OpcodeEngine
put e bytes1 hs = record e { opc1 = hs }
put e bytes2 hs = record e { opc2 = hs }
put e bytes4 hs = record e { opc4 = hs }
put e bytes8 hs = record e { opc8 = hs }
put e bytes16 hs = record e { opc16 = hs }

-- memcpy of n bytes into a zeroed little-endian number: `none` is a read past the end.
abbrev pub read_opcode : ℕ → List ℕ → Option ℕ
read_opcode zero bytes = some 0
read_opcode (suc n) [] = none
read_opcode (suc n) (b ∷ bytes) = elim (read_opcode n bytes) [
  | none ↦ none
  | some x ↦ some (b + 256 * x)
]

-- The number of bytes that OpcodeEngine::emulate takes: `none` is its early `return false`.
abbrev pub opcode_size : Bool → (List ℕ → ℕ) → List ℕ → Option ℕ
opcode_size true disassemble bytes = if ltb (length bytes) 4 then none else some 4
opcode_size false disassemble bytes =
    if leb 16 (length bytes)
    then (if disassemble bytes == 0 then none else some (disassemble bytes))
    else some (length bytes)

-- OpcodeEngine::emulate on bytes
unfoldable pub emulate_bytes :
    Bool → (List ℕ → ℕ) → (ℕ → Bool) → (ℕ → ℕ) → OpcodeEngine → List ℕ → Option (OpcodeEngine × Ran)
emulate_bytes arm64 disassemble decodes body e bytes = elim (opcode_size arm64 disassemble bytes) [
  | none ↦ some (e, rejected)
  | some size ↦ elim (read_opcode size bytes) [
    | none ↦ none
    | some opcode ↦
        let w = width_of size in
        let (hs, ran) = emulate w decodes body e.readonly (get e w) opcode in some (put e w hs, ran)
  ]
]

-- One round of OpcodeEngine::prefetch
unfoldable pub prefetch_insn : (ℕ → ℕ) → OpcodeEngine → ℕ → List ℕ → Option OpcodeEngine
prefetch_insn body e size bytes = elim (read_opcode (if leb 16 size then 16 else size) bytes) [
  | none ↦ none
  | some opcode ↦ let w = width_of size in some (put e w (prefetch w body (get e w) opcode))
]

-- The length of the instruction at the front: the decoder's, or a default when it rejects the bytes
abbrev pub insn_size : Bool → (List ℕ → ℕ) → List ℕ → ℕ
insn_size arm64 decode_size bytes =
    if decode_size bytes == 0 then (if arm64 then 4 else 1) else decode_size bytes

-- OpcodeEngine::prefetch: the engine and the count. The rounds of fuel bound the loop.
unfoldable pub prefetch_loop :
    ℕ → Bool → (List ℕ → ℕ) → (ℕ → ℕ) → OpcodeEngine → List ℕ → ℕ → Option (OpcodeEngine × ℕ)
prefetch_loop fuel arm64 decode_size body e [] count = some (e, count)
prefetch_loop zero arm64 decode_size body e (b ∷ bytes) count = none
prefetch_loop (suc fuel) arm64 decode_size body e (b ∷ bytes) count =
    let size = insn_size arm64 decode_size (b ∷ bytes) in
    elim (prefetch_insn body e size (b ∷ bytes)) [
      | none ↦ none
      | some e' ↦ prefetch_loop fuel arm64 decode_size body e' (drop size (b ∷ bytes)) (count + 1)
    ]

unfoldable pub prefetch_bytes :
    Bool → (List ℕ → ℕ) → (ℕ → ℕ) → OpcodeEngine → List ℕ → Option (OpcodeEngine × ℕ)
prefetch_bytes arm64 decode_size body e bytes =
    prefetch_loop (length bytes) arm64 decode_size body e bytes 0
