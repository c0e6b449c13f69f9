-- ===== src/Blocks/Contents.antt =====
-- The handlers of the blocks that Orchestrator::encode of src/Orchestrator.cpp fills, against a description of
-- each block from its end.
use mathlib.Core.List.{append-nil, append_assoc}
use aether_vm.Prelude.{
  ℕ, Bool, true, false, not, ◌||◌, Option, List, [], ◌∷◌, ◌++◌, ◌==◌, if◌then◌else◌, ◌≡◌, refl, sym,
  ap, ◌∙◌, arith, Bool-cases, inl, inr,
}
use aether_vm.Word.{add64}
use aether_vm.Blocks.{
  Instruction, EventConfig, setup_event, block_after, block_before, func_before, event_block_after,
  event_block_before, event_func_before, event_instruction, finish_emulation,
}
use aether_vm.Blocks.Encode.{
  ArchType, Insn, Func, ends_block, insn_handlers, Building, push_last, push, open_block,
  start_block, encode_rest, encode_insns, encode_func, encode_funcs, finish_snippet,
}

push_last-open :
    (bs : List (List Instruction)) (cur new : List Instruction)
    → push_last (bs ++ cur ∷ []) new ≡ bs ++ (cur ++ new) ∷ []
push_last-open [] cur new = refl
push_last-open (b ∷ []) cur new = refl
push_last-open (b ∷ d ∷ bs) cur new = ap (λ l. b ∷ l) (push_last-open (d ∷ bs) cur new)

push-open :
    (b : Building) (bs : List (List Instruction)) (cur new : List Instruction)
    → b.handlers ≡ bs ++ cur ∷ []
    → (push b new).handlers ≡ bs ++ (cur ++ new) ∷ []
push-open b bs cur new h = ap (λ l. push_last l new) h ∙ push_last-open bs cur new

-- An instruction begins a block.
abbrev pub begins : Bool → Insn → Bool
begins after i = not (i.comins == 0) || after

module _ (cfg : EventConfig) (arch : ArchType) (lookup : ℕ → Option ℕ) where
  -- What instructions that follow others add to the block that is open, and the blocks that they begin
  abbrev pub rest_blocks : Bool → List Insn → List Instruction × List (List Instruction)
  rest_blocks after [] = ([], [])
  rest_blocks after (i ∷ insns) =
      let rest = rest_blocks (ends_block i.kind) insns in
      if begins after i
      then (
        setup_event cfg block_after event_block_after,
        (setup_event cfg block_before event_block_before
              ++ (insn_handlers cfg arch lookup i ++ rest.0))
            ∷ rest.1,
      )
      else (insn_handlers cfg arch lookup i ++ rest.0, rest.1)

  abbrev pub entry_events : List Instruction
  entry_events =
      setup_event cfg func_before event_func_before
      ++ setup_event cfg block_before event_block_before

  -- The blocks of a function: the first one begins with the function's own events.
  abbrev pub func_blocks : List Insn → List (List Instruction)
  func_blocks [] = entry_events ∷ []
  func_blocks (i ∷ insns) =
      let rest = rest_blocks (ends_block i.kind) insns in
      (entry_events ++ (insn_handlers cfg arch lookup i ++ rest.0)) ∷ rest.1

  abbrev pub funcs_blocks : List Func → List (List Instruction)
  funcs_blocks [] = []
  funcs_blocks (func ∷ funcs) = func_blocks func.insns ++ funcs_blocks funcs

  -- The blocks of a binary: where it has one function, its last block ends the emulation.
  abbrev pub all_blocks : List Func → List (List Instruction)
  all_blocks [] = []
  all_blocks (func ∷ []) =
      push_last (funcs_blocks (func ∷ [])) (event_instruction finish_emulation ∷ [])
  all_blocks (func ∷ next ∷ funcs) = funcs_blocks (func ∷ next ∷ funcs)

  start_block-open :
      (vmaddr : ℕ) (b : Building) (bs : List (List Instruction)) (cur : List Instruction)
      → b.handlers ≡ bs ++ cur ∷ []
      → (start_block cfg vmaddr b).handlers
        ≡ (bs ++ (cur ++ setup_event cfg block_after event_block_after) ∷ [])
          ++ setup_event cfg block_before event_block_before ∷ []
  start_block-open vmaddr b bs cur h =
      let ended = setup_event cfg block_after event_block_after in
      push-open (open_block (push b ended) vmaddr) (bs ++ (cur ++ ended) ∷ []) []
        (setup_event cfg block_before event_block_before)
        (ap (λ l. l ++ [] ∷ []) (push-open b bs cur ended h))

  encode_rest-handlers :
      (base : ℕ) (after : Bool) (insns : List Insn) (b : Building) (bs : List (List Instruction))
      (cur : List Instruction)
      → b.handlers ≡ bs ++ cur ∷ []
      → (encode_rest cfg arch lookup base after insns b).handlers
        ≡ bs ++ (cur ++ (rest_blocks after insns).0) ∷ (rest_blocks after insns).1
  unfolding encode_rest
  encode_rest-handlers base after [] b bs cur h = h ∙ ap (λ l. bs ++ l ∷ []) (sym (append-nil cur))
  encode_rest-handlers base after (i ∷ insns) b bs cur h =
      let own = insn_handlers cfg arch lookup i in
      let rest = rest_blocks (ends_block i.kind) insns in
      elim (Bool-cases (not (i.comins == 0) || after)) [
        | inl e ↦
            let ended = setup_event cfg block_after event_block_after in
            let begun = setup_event cfg block_before event_block_before in
            let b' = start_block cfg (add64 base i.fnoff) b in
            let before = bs ++ (cur ++ ended) ∷ [] in
            rw (e, encode_rest)
              (encode_rest-handlers base (ends_block i.kind) insns (push b' own) before
                  (begun ++ own)
                  (push-open b' before begun own (start_block-open (add64 base i.fnoff) b bs cur h))
                ∙ append_assoc bs ((cur ++ ended) ∷ []) (((begun ++ own) ++ rest.0) ∷ rest.1)
                ∙ ap (λ l. bs ++ (cur ++ ended) ∷ l ∷ rest.1) (append_assoc begun own rest.0))
        | inr e ↦
            rw (e, encode_rest, kept (i.comins == 0) after e)
              (encode_rest-handlers base (ends_block i.kind) insns (push b own) bs (cur ++ own)
                  (push-open b bs cur own h)
                ∙ ap (λ l. bs ++ l ∷ rest.1) (append_assoc cur own rest.0))
      ]
    where
      kept : (c a : Bool) → not c || a ≡ false → a ≡ false
      kept true false e = refl
      kept true true e = e
      kept false a e = absurd (ground (arith, e))

  encode_func-handlers :
      (addend : ℕ) (func : Func) (b : Building)
      → (encode_func cfg arch lookup addend func b).handlers ≡ b.handlers ++ func_blocks func.insns
  unfolding encode_func encode_insns
  encode_func-handlers addend func b = body func.insns
    where
      entered : Building
      entered =
          push
            (push (open_block b (add64 func.start addend))
              (setup_event cfg func_before event_func_before))
            (setup_event cfg block_before event_block_before)

      entered-open : entered.handlers ≡ b.handlers ++ entry_events ∷ []
      entered-open =
          push-open
            (push (open_block b (add64 func.start addend))
              (setup_event cfg func_before event_func_before))
            b.handlers (setup_event cfg func_before event_func_before)
            (setup_event cfg block_before event_block_before)
            (push-open (open_block b (add64 func.start addend)) b.handlers []
              (setup_event cfg func_before event_func_before) refl)

      body :
          (insns : List Insn)
          → (encode_insns cfg arch lookup (add64 func.start addend) insns entered).handlers
            ≡ b.handlers ++ func_blocks insns
      body [] = entered-open
      body (i ∷ insns) =
          let own = insn_handlers cfg arch lookup i in
          let rest = rest_blocks (ends_block i.kind) insns in
          encode_rest-handlers (add64 func.start addend) (ends_block i.kind) insns
            (push entered own) b.handlers (entry_events ++ own)
            (push-open entered b.handlers entry_events own entered-open)
          ∙ ap (λ l. b.handlers ++ l ∷ rest.1) (append_assoc entry_events own rest.0)

  encode_funcs-handlers :
      (addend : ℕ) (funcs : List Func) (b : Building)
      → (encode_funcs cfg arch lookup addend funcs b).handlers ≡ b.handlers ++ funcs_blocks funcs
  unfolding encode_funcs
  encode_funcs-handlers addend [] b = sym (append-nil b.handlers)
  encode_funcs-handlers addend (func ∷ funcs) b =
      encode_funcs-handlers addend funcs (encode_func cfg arch lookup addend func b)
      ∙ ap (λ l. l ++ funcs_blocks funcs) (encode_func-handlers addend func b)
      ∙ append_assoc b.handlers (func_blocks func.insns) (funcs_blocks funcs)

  -- The blocks that `encode` hands to `convert`
  pub encoded-handlers :
      (addend : ℕ) (funcs : List Func)
      → (finish_snippet funcs (
          encode_funcs cfg arch lookup addend funcs
            (record { vmaddrs = []; handlers = [] }))).handlers
        ≡ all_blocks funcs
  encoded-handlers addend [] =
      encode_funcs-handlers addend [] (record { vmaddrs = []; handlers = [] })
  encoded-handlers addend (func ∷ []) =
      ap (λ l. push_last l (event_instruction finish_emulation ∷ []))
        (encode_funcs-handlers addend (func ∷ []) (record { vmaddrs = []; handlers = [] }))
  encoded-handlers addend (func ∷ next ∷ funcs) =
      encode_funcs-handlers addend (func ∷ next ∷ funcs) (record { vmaddrs = []; handlers = [] })
