-- ===== src/Blocks/Build.antt =====
-- What `encode` and `convert` build.
use mathlib.Core.List.{append-nil, append_assoc}
use aether_vm.Prelude.{
  ℕ, Bool, true, false, not, ◌||◌, Option, some, List, [], ◌∷◌, ◌++◌, length, ◌==◌, if◌then◌else◌,
  ◌≡◌, refl, sym, ap, ◌∙◌, arith, Bool-cases, inl, inr, Option-cases,
}
use aether_vm.Word.{add64}
use aether_vm.Blocks.{
  EventConfig, setup_event, BasicBlocks, convert, convert_blocks, block_before, func_before,
  event_block_before, event_func_before,
}
use aether_vm.Blocks.Encode.{
  ArchType, Insn, Func, ends_block, insn_handlers, Building, push, open_block, start_block,
  encode_rest, encode_insns, encode_func, encode_funcs, finish_snippet, last_end, encode,
}
use aether_vm.Blocks.Contents.{all_blocks, encoded-handlers}
use aether_vm.Blocks.Paired.{encode_funcs-IsPaired, finish_snippet-IsPaired, length-convert_blocks}

-- The specification: an instruction after the first of its function begins a block when another block
-- refers to it or the instruction before it is a jump, a call or a return.
abbrev pub later_starts : ℕ → Bool → List Insn → List ℕ
later_starts base after [] = []
later_starts base after (i ∷ insns) =
    if not (i.comins == 0) || after
    then add64 base i.fnoff ∷ later_starts base (ends_block i.kind) insns
    else later_starts base (ends_block i.kind) insns

abbrev pub insn_starts : ℕ → List Insn → List ℕ
insn_starts base [] = []
insn_starts base (i ∷ insns) = later_starts base (ends_block i.kind) insns

abbrev pub func_starts : ℕ → Func → List ℕ
func_starts addend func = add64 func.start addend ∷ insn_starts (add64 func.start addend) func.insns

abbrev pub all_starts : ℕ → List Func → List ℕ
all_starts addend [] = []
all_starts addend (func ∷ funcs) = func_starts addend func ++ all_starts addend funcs

module _ (cfg : EventConfig) (arch : ArchType) (lookup : ℕ → Option ℕ) where
  encode_rest-vmaddrs :
      (base : ℕ) (after : Bool) (insns : List Insn) (b : Building)
      → (encode_rest cfg arch lookup base after insns b).vmaddrs
        ≡ b.vmaddrs ++ later_starts base after insns
  unfolding encode_rest
  encode_rest-vmaddrs base after [] b = sym (append-nil b.vmaddrs)
  encode_rest-vmaddrs base after (i ∷ insns) b = elim (Bool-cases (not (i.comins == 0) || after)) [
    | inl e ↦
        rw (e, encode_rest)
          (encode_rest-vmaddrs base (ends_block i.kind) insns
              (push (start_block cfg (add64 base i.fnoff) b) (insn_handlers cfg arch lookup i))
            ∙ append_assoc b.vmaddrs (add64 base i.fnoff ∷ [])
                (later_starts base (ends_block i.kind) insns))
    | inr e ↦
        rw (e, encode_rest, kept (i.comins == 0) after e)
          (encode_rest-vmaddrs base (ends_block i.kind) insns
            (push b (insn_handlers cfg arch lookup i)))
  ]
    where
      kept : (c a : Bool) → not c || a ≡ false → a ≡ false
      kept true false e = refl
      kept true true e = e
      kept false a e = absurd (ground (arith, e))

  encode_insns-vmaddrs :
      (base : ℕ) (insns : List Insn) (b : Building)
      → (encode_insns cfg arch lookup base insns b).vmaddrs ≡ b.vmaddrs ++ insn_starts base insns
  unfolding encode_insns
  encode_insns-vmaddrs base [] b = sym (append-nil b.vmaddrs)
  encode_insns-vmaddrs base (i ∷ insns) b =
      encode_rest-vmaddrs base (ends_block i.kind) insns (push b (insn_handlers cfg arch lookup i))

  encode_func-vmaddrs :
      (addend : ℕ) (func : Func) (b : Building)
      → (encode_func cfg arch lookup addend func b).vmaddrs ≡ b.vmaddrs ++ func_starts addend func
  unfolding encode_func
  encode_func-vmaddrs addend func b =
      encode_insns-vmaddrs (add64 func.start addend) func.insns (
        push
          (push (open_block b (add64 func.start addend))
            (setup_event cfg func_before event_func_before))
          (setup_event cfg block_before event_block_before))
      ∙ append_assoc b.vmaddrs (add64 func.start addend ∷ [])
          (insn_starts (add64 func.start addend) func.insns)

  encode_funcs-vmaddrs :
      (addend : ℕ) (funcs : List Func) (b : Building)
      → (encode_funcs cfg arch lookup addend funcs b).vmaddrs ≡ b.vmaddrs ++ all_starts addend funcs
  unfolding encode_funcs
  encode_funcs-vmaddrs addend [] b = sym (append-nil b.vmaddrs)
  encode_funcs-vmaddrs addend (func ∷ funcs) b =
      encode_funcs-vmaddrs addend funcs (encode_func cfg arch lookup addend func b)
      ∙ ap (λ l. l ++ all_starts addend funcs) (encode_func-vmaddrs addend func b)
      ∙ append_assoc b.vmaddrs (func_starts addend func) (all_starts addend funcs)

finish_snippet-vmaddrs :
    (funcs : List Func) (b : Building) → (finish_snippet funcs b).vmaddrs ≡ b.vmaddrs
finish_snippet-vmaddrs [] b = refl
finish_snippet-vmaddrs (f ∷ []) b = refl
finish_snippet-vmaddrs (f ∷ g ∷ l) b = refl

-- The blocks of a binary, up to the end of its last function: their addresses are the ones that the
-- specification lists, in order, every one of them has a list of handlers, and these lists are what
-- `convert` makes of the specification's blocks: in each the events that begin it, the handlers of its
-- instructions in order, and the events that end it.
pub encode-starts :
    (cfg : EventConfig) (arch : ArchType) (lookup : ℕ → Option ℕ) (addend : ℕ) (funcs : List Func)
    {blocks : BasicBlocks}
    → encode cfg arch lookup addend funcs ≡ some blocks
    → (blocks.vmaddrs ≡ all_starts addend funcs)
      × (length blocks.bbhandlers ≡ length blocks.vmaddrs)
      × ((end_addr : ℕ) × (last_end funcs ≡ some end_addr)
          × (blocks
              ≡ convert
                  (all_starts addend funcs)
                  (add64 end_addr addend)
                  (all_blocks cfg arch lookup funcs)))
unfolding encode convert
encode-starts cfg arch lookup addend funcs {blocks} h = elim (Option-cases (last_end funcs)) [
  | inl e ↦ absurd (ground (arith, e, h))
  | inr (end_addr, e) ↦
      let whole : convert done.vmaddrs (add64 end_addr addend) done.handlers ≡ blocks =
        ground (arith, e, h) in
      (
        ap (λ x. x.vmaddrs) (sym whole) ∙ starts,
        ap (λ x. length x.bbhandlers) (sym whole) ∙ paired ∙ ap (λ x. length x.vmaddrs) whole,
        (
          end_addr,
          e,
          sym whole
              ∙ ap (λ v. convert v (add64 end_addr addend) done.handlers) starts
              ∙ ap (convert (all_starts addend funcs) (add64 end_addr addend))
                  (encoded-handlers cfg arch lookup addend funcs),
        ),
      )
]
  where
    empty : Building
    empty = record { vmaddrs = []; handlers = [] }

    encoded : Building
    encoded = encode_funcs cfg arch lookup addend funcs empty

    done : Building
    done = finish_snippet funcs encoded

    starts : done.vmaddrs ≡ all_starts addend funcs
    starts =
        finish_snippet-vmaddrs funcs encoded
        ∙ encode_funcs-vmaddrs cfg arch lookup addend funcs empty

    paired : length (convert_blocks 0 done.handlers) ≡ length done.vmaddrs
    paired =
        length-convert_blocks 0 done.handlers
        ∙ finish_snippet-IsPaired funcs encoded
            (encode_funcs-IsPaired cfg arch lookup addend funcs empty refl)
