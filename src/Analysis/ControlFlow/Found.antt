-- ===== src/Analysis/ControlFlow/Found.antt =====
-- The block that a successful analysis returns.
use burnout_3_recompiled.Common.{◌⊎◌, inl, inr, ℕ, Bool, ◌≡◌, refl, ◌≤◌, subst, arith, length}
use burnout_3_recompiled.Runtime.MemoryMap.{Ps2MemoryMap}
use burnout_3_recompiled.Runtime.MemoryMap.Spans.{IsMap}
use burnout_3_recompiled.Recompiler.Decoder.{R5900Instruction}
use burnout_3_recompiled.Analysis.ControlFlow.{
  R5900BasicBlock, R5900ControlFlowError, R5900BasicBlockResult, R5900ControlFlowOptions,
  R5900InstructionSite, analyze_r5900_basic_block,
}
use burnout_3_recompiled.Analysis.ControlFlow.Types.R5900BasicBlockResult.{succeed, fail}
use burnout_3_recompiled.Analysis.ControlFlow.Spec.{IsBlock, Outcome, exits}
use burnout_3_recompiled.Analysis.ControlFlow.Spec.Outcome.{
  found, no_limit, unaligned, no_instruction, no_delay_slot,
}
use burnout_3_recompiled.Analysis.ControlFlow.Spec.IsBlock.{limited, stopped, transferred}
use burnout_3_recompiled.Analysis.ControlFlow.Sound.{analyze_r5900_basic_block-Outcome}

exits-le-two :
    (site : R5900InstructionSite) (i : R5900Instruction)
    → site.decoded.instruction ≡ i
    → length (exits site).1 ≤ 2
unfolding exits
exits-le-two site R5900Instruction.jr e = ground arith
exits-le-two site _ e = ground arith

module _ (memory : Ps2MemoryMap) (require : Bool) (start limit : ℕ) where
  abbrev OfResult : R5900BasicBlockResult → Type 0
  OfResult (succeed block) = IsBlock memory require start limit block
  OfResult (fail e) = Unit

  Outcome-OfResult : {r : R5900BasicBlockResult} → Outcome memory require start limit r → OfResult r
  Outcome-OfResult (found is_block) = is_block
  Outcome-OfResult (no_limit _) = tt
  Outcome-OfResult (unaligned _) = tt
  Outcome-OfResult (no_instruction _ _) = tt
  Outcome-OfResult (no_delay_slot _ _ _ _) = tt

  pub IsBlock-start_pc :
      {block : R5900BasicBlock} → IsBlock memory require start limit block → block.start_pc ≡ start
  IsBlock-start_pc (limited walk size) = refl
  IsBlock-start_pc (stopped walk room fetches kind e u) = refl
  IsBlock-start_pc (transferred walk room fetches leaves slot) = refl

  pub IsBlock-edges :
      {block : R5900BasicBlock} → IsBlock memory require start limit block → length block.edges ≤ 2
  IsBlock-edges (limited walk size) = omega arith
  IsBlock-edges (stopped walk room fetches kind e u) = omega arith
  IsBlock-edges (transferred {site = site} walk room fetches leaves slot) =
      exits-le-two site site.decoded.instruction refl

pub analyze_r5900_basic_block-IsBlock :
    (memory : Ps2MemoryMap) (start : ℕ) (options : R5900ControlFlowOptions)
    {block : R5900BasicBlock}
    → IsMap memory
    → analyze_r5900_basic_block memory start options ≡ succeed block
    → IsBlock memory options.require_executable start options.max_instructions block
analyze_r5900_basic_block-IsBlock memory start options valid e =
    subst (OfResult memory options.require_executable start options.max_instructions) e (
      Outcome-OfResult memory options.require_executable start options.max_instructions
        (analyze_r5900_basic_block-Outcome memory start options valid))

pub Result-cases :
    (r : R5900BasicBlockResult)
    → ((block : R5900BasicBlock) × (r ≡ succeed block))
      ⊎ ((e : R5900ControlFlowError) × (r ≡ fail e))
Result-cases (succeed block) = inl (block, refl)
Result-cases (fail e) = inr (e, refl)
