-- ===== src/Intrinsics/Access.antt =====
-- A read behind a write of lifted code: src/Intrinsic.cpp.
use aether_vm.Prelude.{
  ℕ, ◌<◌, ◌^◌, Bool, true, false, some, List, [], ◌∷◌, ◌++◌, if◌then◌else◌, ◌≡◌, refl, ap, sym, ◌∙◌,
  Bool-cases, inl, inr,
}
use aether_vm.Word.Bytes.{le_bytes, read_le, length-le_bytes, read_le-le_bytes}
use aether_vm.Memory.{load, store}
use aether_vm.Memory.Access.{load-store}
use aether_vm.Intrinsics.{
  EventMemory, MemoryState, MemoryCallback, is_processed, handle_memory, has_callback, notice,
  plain_read, plain_write, read_event, write_event, read_value, write_value,
}

-- No event is answered by `Processed`.
abbrev pub IsObserving : List MemoryCallback → Type 0
IsObserving callbacks =
    (event : EventMemory) → is_processed (handle_memory callbacks event).0 ≡ false

read_value-plain :
    (callbacks : List MemoryCallback) (debug : Bool) (pc size addr : ℕ) (s : MemoryState)
    → IsObserving callbacks
    → read_value callbacks debug pc size addr s ≡ plain_read debug size addr s
unfolding read_value
read_value-plain callbacks debug pc size addr s h = elim (Bool-cases (has_callback callbacks)) [
  | inl e ↦ rw (read_value, e, h (read_event pc size addr s)) refl
  | inr e ↦ rw (read_value, e) refl
]

write_value-plain :
    (callbacks : List MemoryCallback) (debug : Bool) (pc size addr value : ℕ) (s : MemoryState)
    → IsObserving callbacks
    → write_value callbacks debug pc size addr value s ≡ some (plain_write debug size addr value s)
unfolding write_value
write_value-plain callbacks debug pc size addr value s h =
    elim (Bool-cases (has_callback callbacks)) [
      | inl e ↦ rw (write_value, e, h (write_event pc size addr value)) refl
      | inr e ↦ rw (write_value, e) refl
    ]

pub read_back :
    (bytes : ℕ → ℕ) (size addr value : ℕ)
    → value < 256 ^ size
    → read_le (load (store bytes addr (le_bytes size value)) addr size) ≡ value
read_back bytes size addr value h =
    ap (λ n. read_le (load (store bytes addr (le_bytes size value)) addr n))
      (sym (length-le_bytes size value))
    ∙ ap read_le (load-store bytes addr (le_bytes size value))
    ∙ read_le-le_bytes size value h

noticed_both :
    (debug : Bool) (size addr value : ℕ) (s : MemoryState)
    → (notice debug addr size false (plain_write debug size addr value s)).noticed ≡ (
        if debug
        then (s.noticed ++ (addr, size, true) ∷ []) ++ (addr, size, false) ∷ []
        else s.noticed)
noticed_both true size addr value s = refl
noticed_both false size addr value s = refl

-- Where no callback answers `Processed`, a read of the size and address of a write gives the value that
-- was written, whatever the callbacks do to their events, and under the debugger's configuration the
-- debugger is told of the write and then of the read.
pub read_value-write_value :
    (callbacks : List MemoryCallback) (debug : Bool) (pc pc' size addr value : ℕ) (s : MemoryState)
    → ((event : EventMemory) → is_processed (handle_memory callbacks event).0 ≡ false)
    → value < 256 ^ size
    → (s' : MemoryState) × (write_value callbacks debug pc size addr value s ≡ some s')
      × ((read_value callbacks debug pc' size addr s').0 ≡ value)
      × ((read_value callbacks debug pc' size addr s').1.noticed ≡ (
          if debug
          then (s.noticed ++ (addr, size, true) ∷ []) ++ (addr, size, false) ∷ []
          else s.noticed))
read_value-write_value callbacks debug pc pc' size addr value s h small = (
  plain_write debug size addr value s,
  write_value-plain callbacks debug pc size addr value s h,
  ap (λ r. r.0)
        (read_value-plain callbacks debug pc' size addr (plain_write debug size addr value s) h)
      ∙ read_back s.bytes size addr value small,
  ap (λ r. r.1.noticed)
        (read_value-plain callbacks debug pc' size addr (plain_write debug size addr value s) h)
      ∙ noticed_both debug size addr value s,
)
