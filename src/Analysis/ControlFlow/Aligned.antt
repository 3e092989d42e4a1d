-- ===== src/Analysis/ControlFlow/Aligned.antt =====
-- The addresses that a block leads to.
use burnout_3_recompiled.Common.{
  Bool, ℕ, Option, some, none, ◌≡◌, refl, List, [], ◌+◌, ◌<◌, ◌^◌, ◌%◌, u32, arith, All,
  Option-cases, inl, inr, subst,
}
use burnout_3_recompiled.Recompiler.Decoder.{R5900Instruction, decode_r5900}
use burnout_3_recompiled.Recompiler.Decoder.Fields.{decode_r5900-FieldsFit}
use burnout_3_recompiled.Recompiler.Decoder.Target.{target_of, target_of_aligned}
use burnout_3_recompiled.Runtime.MemoryMap.{Ps2MemoryMap}
use burnout_3_recompiled.Runtime.MemoryMap.Spans.{IsMap}
use burnout_3_recompiled.Analysis.ControlFlow.{
  R5900InstructionSite, R5900BasicBlock, R5900ControlFlowOptions, R5900ControlFlowEdge,
  R5900BasicBlockResult, analyze_r5900_basic_block,
}
use burnout_3_recompiled.Analysis.ControlFlow.Types.R5900BasicBlockResult.{succeed, fail}
use burnout_3_recompiled.Analysis.ControlFlow.Spec.{
  Fetches, exits, Walks, here, step, IsBlock, Outcome,
}
use burnout_3_recompiled.Analysis.ControlFlow.Spec.Outcome.{
  found, no_limit, unaligned, no_instruction, no_delay_slot,
}
use burnout_3_recompiled.Analysis.ControlFlow.Spec.IsBlock.{limited, stopped, transferred}
use burnout_3_recompiled.Analysis.ControlFlow.Sound.{analyze_r5900_basic_block-Outcome}
use burnout_3_recompiled.Analysis.ControlFlow.Fetch.{at_address, decoded_word}

abbrev pub IsAligned : ℕ → Type 0
IsAligned pc = (pc % 4 ≡ 0) × (pc < 2 ^ 32)

-- A target, where there is one, is an aligned 32-bit address.
abbrev pub TargetFits : Option ℕ → Type 0
TargetFits none = Unit
TargetFits (some target) = IsAligned target

abbrev pub EdgeFits : R5900ControlFlowEdge → Type 0
EdgeFits edge = TargetFits edge.target

abbrev edges_of : R5900BasicBlockResult → List R5900ControlFlowEdge
edges_of (succeed block) = block.edges
edges_of (fail e) = []

target_of-TargetFits : (word pc : ℕ) → pc % 4 ≡ 0 → TargetFits (target_of (decode_r5900 word) pc)
target_of-TargetFits word pc h = elim (Option-cases (target_of (decode_r5900 word) pc)) [
  | inl absent ↦ rw absent tt
  | inr (t, e) ↦
      rw e (target_of_aligned (decode_r5900 word) pc {t = t} (decode_r5900-FieldsFit word) h e)
]

exits-EdgeFits :
    (site : R5900InstructionSite) (i : R5900Instruction)
    → site.decoded.instruction ≡ i
    → TargetFits (target_of site.decoded site.pc)
    → IsAligned (u32 (site.pc + 8))
    → All EdgeFits (exits site).1
unfolding exits
exits-EdgeFits site R5900Instruction.jr e h g = ground arith
exits-EdgeFits site R5900Instruction.jalr e h g = ground arith
exits-EdgeFits site R5900Instruction.j e h g = ground arith
exits-EdgeFits site R5900Instruction.jal e h g = ground arith
exits-EdgeFits site _ e h g = ground arith

module _ (memory : Ps2MemoryMap) (require : Bool) where
  Walks-IsAligned :
      {start end : ℕ} {sites : List R5900InstructionSite}
      → Walks memory require start sites end
      → IsAligned start
      → IsAligned end
  Walks-IsAligned here h = h
  Walks-IsAligned (step f s w) h = Walks-IsAligned w (omega arith, omega arith)

  module _ (valid : IsMap memory) where
    transfer-EdgeFits :
        {start end : ℕ} {sites : List R5900InstructionSite} {site : R5900InstructionSite}
        → Walks memory require start sites end
        → Fetches memory require end site
        → IsAligned start
        → All EdgeFits (exits site).1
    transfer-EdgeFits {end = end} {site = site} walk fetches h =
        let at = at_address memory require fetches in
        let aligned = Walks-IsAligned walk h in
        let target : TargetFits (target_of site.decoded site.pc) =
          rw (decoded_word memory require fetches)
            (target_of-TargetFits fetches.word site.pc (rw at aligned.0)) in
        exits-EdgeFits site site.decoded.instruction refl target (omega (arith, at))

    IsBlock-EdgeFits :
        {start limit : ℕ} {block : R5900BasicBlock}
        → IsBlock memory require start limit block
        → IsAligned start
        → All EdgeFits block.edges
    IsBlock-EdgeFits (limited walk size) h = (Walks-IsAligned walk h, tt)
    IsBlock-EdgeFits (stopped walk room fetches kind e u) h = tt
    IsBlock-EdgeFits (transferred walk room fetches leaves slot) h =
        transfer-EdgeFits walk fetches h

    Outcome-EdgeFits :
        {start limit : ℕ} {r : R5900BasicBlockResult}
        → Outcome memory require start limit r
        → IsAligned start
        → All EdgeFits (edges_of r)
    Outcome-EdgeFits (found is_block) h = IsBlock-EdgeFits is_block h
    Outcome-EdgeFits (no_limit _) h = tt
    Outcome-EdgeFits (unaligned _) h = tt
    Outcome-EdgeFits (no_instruction _ _) h = tt
    Outcome-EdgeFits (no_delay_slot _ _ _ _) h = tt

-- In a map that satisfies its invariant, each target of the edges of a block that is found from an
-- aligned 32-bit address is again an aligned 32-bit address.
pub analyze_r5900_basic_block-EdgeFits :
    (memory : Ps2MemoryMap) (start : ℕ) (options : R5900ControlFlowOptions)
    {block : R5900BasicBlock}
    → IsMap memory
    → IsAligned start
    → analyze_r5900_basic_block memory start options ≡ succeed block
    → All EdgeFits block.edges
analyze_r5900_basic_block-EdgeFits memory start options valid h e =
    subst (λ r. All EdgeFits (edges_of r)) e
      (Outcome-EdgeFits memory options.require_executable valid
        (analyze_r5900_basic_block-Outcome memory start options valid) h)
