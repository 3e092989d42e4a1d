-- ===== src/Recompiler/Dispatcher/Reference.antt =====
-- The dispatcher without its cache and its backend: the prefix of each block is executed by the
-- reference executor.
use burnout_3_recompiled.Common.{
  ℕ, zero, suc, Option, some, none, List, [], ◌∷◌, ◌+◌, ◌*◌, ◌==◌, if◌then◌else◌, length, u32,
}
use burnout_3_recompiled.Runtime.MemoryMap.{Ps2MemoryMap}
use burnout_3_recompiled.Recompiler.Ir.{R5900IrInstruction}
use burnout_3_recompiled.Recompiler.Executor.{R5900IrExecutionState, execute_r5900_ir}
use burnout_3_recompiled.Analysis.ControlFlow.{
  R5900InstructionSite, R5900BasicBlockResult, analyze_r5900_basic_block,
}
use burnout_3_recompiled.Recompiler.Dispatcher.{
  Stage, R5900DispatchStopReason as Reason, R5900BlockDispatcherOptions, Boundary, Backend, Run,
  Round, lower_prefix, run, prefix_of,
}

-- What a run says and does, its counts of the cache left out.
pub record Outcome : Type 0 where
  pub reason : Reason
  pub next_pc : ℕ
  pub blocks : ℕ
  pub instructions : ℕ
  pub state : R5900IrExecutionState

pub data OutcomeRound : Type 0 where
  over goes_on : Outcome → OutcomeRound

abbrev pub stop_with : Outcome → Reason → ℕ → OutcomeRound
stop_with o reason pc = OutcomeRound.over (record o { reason = reason; next_pc = pc })

abbrev pub count_prefix : Outcome → ℕ → ℕ → Outcome
count_prefix o pc count = record o {
  blocks = o.blocks + 1;
  instructions = o.instructions + count;
  next_pc = u32 (pc + u32 (count * 4));
}

unfoldable pub reference_boundary : Outcome → Option Boundary → OutcomeRound
reference_boundary o none = OutcomeRound.goes_on o
reference_boundary o (some stop) = stop_with o stop.boundary_reason stop.boundary_pc

module _ (f32_add : ℕ → ℕ → ℕ) where
  abbrev pub executed : Outcome → List R5900IrInstruction → Outcome
  executed o irs = record o { state = (execute_r5900_ir f32_add irs o.state).state }

  unfoldable pub reference_lowered :
      Outcome → ℕ → ℕ → Option Boundary → Stage (List R5900IrInstruction) → OutcomeRound
  unfolding reference_boundary
  reference_lowered o pc count boundary (Stage.refused reason at) = stop_with o reason at
  reference_lowered o pc count boundary (Stage.passed irs) =
      reference_boundary (count_prefix (executed o irs) pc count) boundary

  unfoldable pub reference_prefix :
      Outcome → ℕ → List R5900InstructionSite → Option Boundary → OutcomeRound
  unfolding reference_lowered
  reference_prefix o pc [] none = stop_with o Reason.unsupported_instruction pc
  reference_prefix o pc [] (some stop) = stop_with o stop.boundary_reason stop.boundary_pc
  reference_prefix o pc (site ∷ rest) boundary =
      reference_lowered o pc (length (site ∷ rest)) boundary (lower_prefix (site ∷ rest))

  module _ (memory : Ps2MemoryMap) (options : R5900BlockDispatcherOptions) where
    unfoldable pub reference_analysed : Outcome → ℕ → R5900BasicBlockResult → OutcomeRound
    unfolding reference_prefix
    reference_analysed o pc (R5900BasicBlockResult.fail e) = stop_with o Reason.analysis_failure pc
    reference_analysed o pc (R5900BasicBlockResult.succeed block) =
        reference_prefix o pc (prefix_of block.instructions).0 (prefix_of block.instructions).1

    unfoldable pub reference_round : Outcome → ℕ → OutcomeRound
    unfolding reference_analysed
    reference_round o pc =
        reference_analysed o pc (analyze_r5900_basic_block memory pc options.block_options)

    unfoldable pub reference_loop : ℕ → Outcome → Outcome
    reference_loop zero o = record o { reason = Reason.block_budget_exhausted }
    reference_loop (suc left) o = elim (reference_round o o.next_pc) [
      | OutcomeRound.over after ↦ after
      | OutcomeRound.goes_on after ↦ reference_loop left after
    ]

    unfoldable pub reference_run : ℕ → R5900IrExecutionState → ℕ → Outcome
    reference_run start_pc state max_blocks =
        let start : Outcome = record {
          reason = Reason.analysis_failure;
          next_pc = start_pc;
          blocks = 0;
          instructions = 0;
          state = state;
        } in
        if max_blocks == 0
        then record start { reason = Reason.invalid_block_budget }
        else reference_loop max_blocks start

module _ (b : Backend) where
  abbrev pub outcome : Run b → Outcome
  outcome run = record {
    reason = run.result.reason;
    next_pc = run.result.next_pc;
    blocks = run.result.blocks_executed;
    instructions = run.result.instructions_executed;
    state = run.state;
  }

  abbrev pub round_outcome : Round b → OutcomeRound
  round_outcome (Round.halted run) = OutcomeRound.over (outcome run)
  round_outcome (Round.going run) = OutcomeRound.goes_on (outcome run)
