-- ===== src/Emulate/Bytes.antt =====
-- Opcodes as bytes: `OpcodeEngine::prefetch` and `OpcodeEngine::emulate`.
use aether_vm.Prelude.{
  ℕ, zero, suc, ◌+◌, ◌*◌, ◌≤◌, ◌<◌, Bool, true, false, none, some, List, [], ◌∷◌, length, drop, leb,
  if◌then◌else◌, ◌≡◌, refl, sym, ap, ◌∙◌, ◌⊎◌, arith, inl, inr,
}
use aether_vm.Emulate.{
  Width, bytes1, bytes2, bytes4, bytes8, bytes16, OpcodeHandlers, OpcodeEngine, lookup, Ran,
  interpreted, prefetch, emulate, width_of, get, put, read_opcode, emulate_bytes, prefetch_insn,
  insn_size, prefetch_loop, prefetch_bytes,
}
use aether_vm.Emulate.Cached.{emulate-prefetch}

get-put : (e : OpcodeEngine) (w : Width) (hs : OpcodeHandlers) → get (put e w hs) w ≡ hs
get-put e bytes1 hs = refl
get-put e bytes2 hs = refl
get-put e bytes4 hs = refl
get-put e bytes8 hs = refl
get-put e bytes16 hs = refl

put-readonly :
    (e : OpcodeEngine) (w : Width) (hs : OpcodeHandlers) → (put e w hs).readonly ≡ e.readonly
put-readonly e bytes1 hs = refl
put-readonly e bytes2 hs = refl
put-readonly e bytes4 hs = refl
put-readonly e bytes8 hs = refl
put-readonly e bytes16 hs = refl

prefetch_insn-put :
    (body : ℕ → ℕ) (e : OpcodeEngine) (bytes : List ℕ) (size : ℕ) {opcode : ℕ}
    → size ≤ 16
    → read_opcode size bytes ≡ some opcode
    → prefetch_insn body e size bytes
      ≡ some (put e (width_of size) (prefetch (width_of size) body (get e (width_of size)) opcode))
unfolding prefetch_insn
prefetch_insn-put body e bytes size short r = rw (prefetch_insn, in_size, r) refl
  where
    in_size : (if leb 16 size then 16 else size) ≡ size
    in_size = ground (arith, short)

emulate_bytes-short :
    (disassemble : List ℕ → ℕ) (decodes : ℕ → Bool) (body : ℕ → ℕ) (e : OpcodeEngine)
    (bytes : List ℕ) {opcode : ℕ}
    → length bytes < 16
    → read_opcode (length bytes) bytes ≡ some opcode
    → (ran : OpcodeHandlers × Ran)
    → emulate
        (width_of (length bytes))
        decodes
        body
        e.readonly
        (get e (width_of (length bytes)))
        opcode
      ≡ ran
    → emulate_bytes false disassemble decodes body e bytes
      ≡ some (put e (width_of (length bytes)) ran.0, ran.1)
unfolding emulate_bytes
emulate_bytes-short disassemble decodes body e bytes short r ran h =
    rw (emulate_bytes, in_size, r, h) refl
  where
    in_size : leb 16 (length bytes) ≡ false
    in_size = ground (arith, short)

-- The opcode of an x64 instruction that is prefetched into a readonly engine, which has no handler for it
-- yet, is emulated by the handler made for it: both sides take the same bytes and the same set of handlers.
pub emulate_bytes-prefetch_insn :
    (disassemble : List ℕ → ℕ) (decodes : ℕ → Bool) (body : ℕ → ℕ) (e e' : OpcodeEngine)
    (bytes : List ℕ) {opcode : ℕ}
    → length bytes < 16
    → e.readonly ≡ true
    → read_opcode (length bytes) bytes ≡ some opcode
    → lookup (get e (width_of (length bytes))).handlers opcode ≡ none
    → prefetch_insn body e (length bytes) bytes ≡ some e'
    → (e'' : OpcodeEngine) × (emulate_bytes false disassemble decodes body e' bytes
        ≡ some (e'', interpreted (body opcode)))
emulate_bytes-prefetch_insn disassemble decodes body e e' bytes {opcode} short ro r fresh p = (
  put e' w (emulate w decodes body e'.readonly (get e' w) opcode).0,
  emulate_bytes-short disassemble decodes body e' bytes short r
        (emulate w decodes body e'.readonly (get e' w) opcode) refl
      ∙ ap (λ x. some (put e' w (emulate w decodes body e'.readonly (get e' w) opcode).0, x)) does,
)
  where
    w : Width
    w = width_of (length bytes)

    after : OpcodeHandlers
    after = prefetch w body (get e w) opcode

    inside : some (put e w after) ≡ some e' → put e w after ≡ e'
    inside h = ground (arith, h)

    made : put e w after ≡ e'
    made = inside (sym (prefetch_insn-put body e bytes (length bytes) (omega (arith, short)) r) ∙ p)

    does : (emulate w decodes body e'.readonly (get e' w) opcode).1 ≡ interpreted (body opcode)
    does =
        ap (λ b. (emulate w decodes body b (get e' w) opcode).1)
          (ap (λ x. x.readonly) (sym made) ∙ put-readonly e w after ∙ ro)
        ∙ ap (λ hs. (emulate w decodes body true hs opcode).1)
            (ap (λ x. get x w) (sym made) ∙ get-put e w after)
        ∙ (emulate-prefetch w decodes body (get e w) opcode fresh).0

module _ (decode_size : List ℕ → ℕ) (body : ℕ → ℕ) where
  arm64_size :
      ((bytes : List ℕ) → (decode_size bytes ≡ 0) ⊎ (decode_size bytes ≡ 4))
      → (bytes : List ℕ) → insn_size true decode_size bytes ≡ 4
  arm64_size h bytes = elim (h bytes) [ inl e ↦ ground (arith, e) | inr e ↦ ground (arith, e) ]

  one_round :
      (fuel : ℕ) (e next : OpcodeEngine) (b : ℕ) (bytes : List ℕ) (count size : ℕ)
      → insn_size true decode_size (b ∷ bytes) ≡ size
      → prefetch_insn body e size (b ∷ bytes) ≡ some next
      → prefetch_loop (suc fuel) true decode_size body e (b ∷ bytes) count
        ≡ prefetch_loop fuel true decode_size body next (drop size (b ∷ bytes)) (count + 1)
  unfolding prefetch_loop
  one_round fuel e next b bytes count size s p =
      rw (prefetch_loop, s, p)
        (ap (λ n. prefetch_loop fuel true decode_size body next (drop n (b ∷ bytes)) (count + 1)) s)

  prefetch_loop-count :
      ((bytes : List ℕ) → (decode_size bytes ≡ 0) ⊎ (decode_size bytes ≡ 4))
      → (fuel n : ℕ) (e : OpcodeEngine) (bytes : List ℕ) (count : ℕ) → length bytes ≡ n * 4
      → n ≤ fuel
      → (e' : OpcodeEngine) × (prefetch_loop fuel true decode_size body e bytes count
          ≡ some (e', count + n))
  unfolding prefetch_loop
  prefetch_loop-count h fuel zero e [] count l f = (e, ap (λ c. some (e, c)) (omega arith))
  prefetch_loop-count h fuel (suc n) e [] count l f = absurd (omega (arith, l))
  prefetch_loop-count h fuel zero e (a ∷ bytes) count l f = absurd (omega (arith, l))
  prefetch_loop-count h zero (suc n) e (a ∷ bytes) count l f = absurd (omega (arith, f))
  prefetch_loop-count h (suc fuel) (suc n) e (a ∷ []) count l f = absurd (omega (arith, l))
  prefetch_loop-count h (suc fuel) (suc n) e (a ∷ b ∷ []) count l f = absurd (omega (arith, l))
  prefetch_loop-count h (suc fuel) (suc n) e (a ∷ b ∷ c ∷ []) count l f = absurd (omega (arith, l))
  prefetch_loop-count h (suc fuel) (suc n) e (a ∷ b ∷ c ∷ d ∷ bytes) count l f =
      let opcode = a + 256 * (b + 256 * (c + 256 * (d + 256 * 0))) in
      let next = put e (width_of 4) (prefetch (width_of 4) body (get e (width_of 4)) opcode) in
      let (e', rest) =
        prefetch_loop-count h fuel n next bytes (count + 1) (omega (arith, l)) (omega (arith, f)) in
      (
        e',
        one_round fuel e next a (b ∷ c ∷ d ∷ bytes) count 4 (arm64_size h (a ∷ b ∷ c ∷ d ∷ bytes)) (
              prefetch_insn-put body e (a ∷ b ∷ c ∷ d ∷ bytes) 4 {opcode = opcode} (omega arith)
                refl)
            ∙ rest
            ∙ ap (λ k. some (e', k)) (omega arith),
      )

  -- ARM64 code of n instructions, where the decoder finds four bytes or rejects them: the prefetch ends,
  -- reads only the code, and counts n.
  pub prefetch_bytes-count :
      ((bytes : List ℕ) → (decode_size bytes ≡ 0) ⊎ (decode_size bytes ≡ 4))
      → (n : ℕ) (e : OpcodeEngine) (bytes : List ℕ) → length bytes ≡ n * 4
      → (e' : OpcodeEngine) × (prefetch_bytes true decode_size body e bytes ≡ some (e', n))
  unfolding prefetch_bytes
  prefetch_bytes-count h n e bytes l =
      let (e', r) = prefetch_loop-count h (length bytes) n e bytes 0 l (omega (arith, l)) in
      (e', r ∙ ap (λ k. some (e', k)) (omega arith))
