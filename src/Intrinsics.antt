-- ===== src/Intrinsics.antt =====
-- src/Intrinsic.cpp: the memory functions that lifted code calls for unsigned integers, with the events and
-- the debugger's notice of every access, and its atomic functions, which give neither. The host's memory is a function from addresses to bytes. A write
-- whose event is processed stores to a `const` parameter, which is undefined: it is `none`.
pub mod Access
pub mod Atomic
use aether_vm.Prelude.{
  ℕ, ◌+◌, ◌-◌, bit_and, bit_or, bit_xor, ◌==◌, ◌*◌, ◌%◌, ◌^◌, Bool, true, false, Option, none, some,
  List, [], ◌∷◌, ◌++◌, if◌then◌else◌,
}
use aether_vm.Word.Bytes.{le_bytes, read_le}
use aether_vm.Memory.{load, store}
use aether_vm.Events.{EventResult, continue, processed, terminate, is_continue}

-- EventMemory, with the types MemRead and MemWrite
pub record EventMemory : Type 0 where
  pub writes : Bool
  pub addr : ℕ
  pub mem : ℕ
  pub size : ℕ
  pub value : ℕ

-- What the accesses read and write: the host's memory, `rvalue` of the state, and what the debugger was told
pub record MemoryState : Type 0 where
  pub bytes : ℕ → ℕ
  pub rvalue : ℕ
  pub noticed : List (ℕ × ℕ × Bool)

abbrev pub is_processed : EventResult → Bool
is_processed continue = false
is_processed processed = true
is_processed terminate = false

-- A callback gives its result and the event as it leaves it.
abbrev pub MemoryCallback : Type 0
MemoryCallback = EventMemory → EventResult × EventMemory

-- handleEvent on an event of memory
abbrev pub handle_memory : List MemoryCallback → EventMemory → EventResult × EventMemory
handle_memory [] event = (continue, event)
handle_memory (callback ∷ callbacks) event =
    let rest = handle_memory callbacks (callback event).1 in
    if is_continue (callback event).0 then rest else callback event

abbrev pub has_callback : List MemoryCallback → Bool
has_callback [] = false
has_callback (callback ∷ callbacks) = true

-- The notice of an access under `eventConf.debug`
abbrev pub notice : Bool → ℕ → ℕ → Bool → MemoryState → MemoryState
notice debug addr size writes s =
    if debug then record s { noticed = s.noticed ++ (addr, size, writes) ∷ [] } else s

abbrev pub plain_read : Bool → ℕ → ℕ → MemoryState → ℕ × MemoryState
plain_read debug size addr s = (read_le (load s.bytes addr size), notice debug addr size false s)

abbrev pub read_event : ℕ → ℕ → ℕ → MemoryState → EventMemory
read_event pc size addr s = record {
  writes = false;
  addr = pc;
  mem = addr;
  size = size;
  value = read_le (load s.bytes addr size);
}

-- __remill_read_memory_8 to __remill_read_memory_64, for a size in bytes
unfoldable pub read_value : List MemoryCallback → Bool → ℕ → ℕ → ℕ → MemoryState → ℕ × MemoryState
read_value callbacks debug pc size addr s =
    let result = handle_memory callbacks (read_event pc size addr s) in
    if has_callback callbacks
    then if is_processed result.0
      then (result.1.value % 2 ^ (8 * size), record s { rvalue = result.1.value })
      else plain_read debug size addr s
    else plain_read debug size addr s

abbrev pub write_event : ℕ → ℕ → ℕ → ℕ → EventMemory
write_event pc size addr value = record {
  writes = true;
  addr = pc;
  mem = addr;
  size = size;
  value = value;
}

abbrev pub plain_write : Bool → ℕ → ℕ → ℕ → MemoryState → MemoryState
plain_write debug size addr value s = record (notice debug addr size true s) {
  bytes = store s.bytes addr (le_bytes size value);
}

-- __remill_write_memory_8 to __remill_write_memory_64
unfoldable pub write_value :
    List MemoryCallback → Bool → ℕ → ℕ → ℕ → ℕ → MemoryState → Option MemoryState
write_value callbacks debug pc size addr value s =
    let result = handle_memory callbacks (write_event pc size addr value) in
    if has_callback callbacks
    then if is_processed result.0 then none else some (plain_write debug size addr value s)
    else some (plain_write debug size addr value s)

-- The operations of the atomic functions
pub data AtomicOp : Type 0 where
  fetch_and_add fetch_and_sub fetch_and_or fetch_and_and fetch_and_xor : AtomicOp

-- On numbers of `size` bytes
unfoldable pub apply_op : AtomicOp → ℕ → ℕ → ℕ → ℕ
apply_op fetch_and_add size old value = (old + value) % 256 ^ size
apply_op fetch_and_sub size old value = (old + 256 ^ size - value) % 256 ^ size
apply_op fetch_and_or size old value = bit_or old value
apply_op fetch_and_and size old value = bit_and old value
apply_op fetch_and_xor size old value = bit_xor old value

-- __remill_fetch_and_add_8 to __remill_fetch_and_xor_64: `value` afterwards, and the memory
unfoldable pub fetch_and : AtomicOp → ℕ → ℕ → ℕ → (ℕ → ℕ) → ℕ × (ℕ → ℕ)
fetch_and op size addr value bytes =
    let old = read_le (load bytes addr size) in
    (old, store bytes addr (le_bytes size (apply_op op size old value)))

-- __remill_compare_exchange_memory_8 to __remill_compare_exchange_memory_64: `expected` afterwards, and the
-- memory
unfoldable pub compare_exchange : ℕ → ℕ → ℕ → ℕ → (ℕ → ℕ) → ℕ × (ℕ → ℕ)
compare_exchange size addr expected desired bytes =
    let old = read_le (load bytes addr size) in
    (old, if old == expected then store bytes addr (le_bytes size desired) else bytes)
