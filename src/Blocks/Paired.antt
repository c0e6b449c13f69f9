-- ===== src/Blocks/Paired.antt =====
-- The lengths of the two vectors that the loops of Orchestrator::encode in src/Orchestrator.cpp fill.
use aether_vm.Prelude.{
  ℕ, suc, ◌+◌, Bool, not, ◌||◌, Option, List, [], ◌∷◌, length, ◌==◌, ◌≡◌, refl, sym, ap, ◌∙◌,
  length-append, Bool-cases, inl, inr,
}
use aether_vm.Word.{add64}
use aether_vm.Blocks.{
  Instruction, EventConfig, setup_event, convert_blocks, block_after, block_before, func_before,
  event_block_after, event_block_before, event_func_before, event_instruction, finish_emulation,
}
use aether_vm.Blocks.Encode.{
  ArchType, Insn, Func, ends_block, insn_handlers, Building, push_last, push, open_block,
  start_block, encode_rest, encode_insns, encode_func, encode_funcs, finish_snippet,
}

-- Every block has one address.
abbrev pub IsPaired : Building → Type 0
IsPaired b = length b.handlers ≡ length b.vmaddrs

length-push_last :
    (l : List (List Instruction)) (new : List Instruction) → length (push_last l new) ≡ length l
length-push_last [] new = refl
length-push_last (x ∷ []) new = refl
length-push_last (x ∷ y ∷ l) new = ap suc (length-push_last (y ∷ l) new)

push-IsPaired : (b : Building) (new : List Instruction) → IsPaired b → IsPaired (push b new)
push-IsPaired b new h = length-push_last b.handlers new ∙ h

open_block-IsPaired : (b : Building) (vmaddr : ℕ) → IsPaired b → IsPaired (open_block b vmaddr)
open_block-IsPaired b vmaddr h =
    length-append b.handlers ([] ∷ [])
    ∙ ap (λ n. n + 1) h
    ∙ sym (length-append b.vmaddrs (vmaddr ∷ []))

start_block-IsPaired :
    (cfg : EventConfig) (vmaddr : ℕ) (b : Building)
    → IsPaired b
    → IsPaired (start_block cfg vmaddr b)
start_block-IsPaired cfg vmaddr b h =
    push-IsPaired (open_block (push b ended) vmaddr)
      (setup_event cfg block_before event_block_before)
      (open_block-IsPaired (push b ended) vmaddr (push-IsPaired b ended h))
  where
    ended : List Instruction
    ended = setup_event cfg block_after event_block_after

module _ (cfg : EventConfig) (arch : ArchType) (lookup : ℕ → Option ℕ) where
  encode_rest-IsPaired :
      (base : ℕ) (after : Bool) (insns : List Insn) (b : Building)
      → IsPaired b
      → IsPaired (encode_rest cfg arch lookup base after insns b)
  unfolding encode_rest
  encode_rest-IsPaired base after [] b h = h
  encode_rest-IsPaired base after (i ∷ insns) b h =
      elim (Bool-cases (not (i.comins == 0) || after)) [
        | inl e ↦
            rw (e, encode_rest)
              (encode_rest-IsPaired base (ends_block i.kind) insns
                (push (start_block cfg (add64 base i.fnoff) b) (insn_handlers cfg arch lookup i))
                (push-IsPaired (start_block cfg (add64 base i.fnoff) b)
                  (insn_handlers cfg arch lookup i)
                  (start_block-IsPaired cfg (add64 base i.fnoff) b h)))
        | inr e ↦
            rw (e, encode_rest)
              (encode_rest-IsPaired base (after || ends_block i.kind) insns
                (push b (insn_handlers cfg arch lookup i))
                (push-IsPaired b (insn_handlers cfg arch lookup i) h))
      ]

  encode_insns-IsPaired :
      (base : ℕ) (insns : List Insn) (b : Building)
      → IsPaired b
      → IsPaired (encode_insns cfg arch lookup base insns b)
  unfolding encode_insns
  encode_insns-IsPaired base [] b h = h
  encode_insns-IsPaired base (i ∷ insns) b h =
      encode_rest-IsPaired base (ends_block i.kind) insns (push b (insn_handlers cfg arch lookup i))
        (push-IsPaired b (insn_handlers cfg arch lookup i) h)

  pub encode_funcs-IsPaired :
      (addend : ℕ) (funcs : List Func) (b : Building)
      → IsPaired b
      → IsPaired (encode_funcs cfg arch lookup addend funcs b)
  unfolding encode_funcs encode_func
  encode_funcs-IsPaired addend [] b h = h
  encode_funcs-IsPaired addend (func ∷ funcs) b h =
      encode_funcs-IsPaired addend funcs (encode_func cfg arch lookup addend func b) (
        encode_insns-IsPaired (add64 func.start addend) func.insns
          (push (push opened entered) begun)
          (push-IsPaired (push opened entered) begun
            (push-IsPaired opened entered (open_block-IsPaired b (add64 func.start addend) h))))
    where
      opened : Building
      opened = open_block b (add64 func.start addend)

      entered : List Instruction
      entered = setup_event cfg func_before event_func_before

      begun : List Instruction
      begun = setup_event cfg block_before event_block_before

pub finish_snippet-IsPaired :
    (funcs : List Func) (b : Building) → IsPaired b → IsPaired (finish_snippet funcs b)
finish_snippet-IsPaired [] b h = h
finish_snippet-IsPaired (f ∷ []) b h = push-IsPaired b (event_instruction finish_emulation ∷ []) h
finish_snippet-IsPaired (f ∷ g ∷ l) b h = h

pub length-convert_blocks :
    (rt : ℕ) (l : List (List Instruction)) → length (convert_blocks rt l) ≡ length l
length-convert_blocks rt [] = refl
length-convert_blocks rt (x ∷ l) = ap suc (length-convert_blocks (rt + length x) l)
