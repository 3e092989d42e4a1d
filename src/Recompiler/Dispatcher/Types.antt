-- ===== src/Recompiler/Dispatcher/Types.antt =====
-- src/recompiler/windows/r5900_block_dispatcher.h: the dispatcher's results, its cache, and what it
-- asks of the backend in src/recompiler/windows/r5900_x64_backend.h.
use burnout_3_recompiled.Common.{ℕ, Option, some, List, All, ◌≡◌}
use burnout_3_recompiled.Recompiler.Ir.{R5900IrInstruction}
use burnout_3_recompiled.Recompiler.Ir.Valid.{IsValid}
use burnout_3_recompiled.Recompiler.Executor.{
  R5900IrExecutionState, R5900IrExecutionError, execute_r5900_ir,
}
use burnout_3_recompiled.Analysis.ControlFlow.{R5900ControlFlowOptions}

pub data R5900DispatchStopReason : Type 0 where
  block_budget_exhausted control_flow unsupported_instruction trap : R5900DispatchStopReason
  invalid_block_budget analysis_failure lowering_failure compile_failure : R5900DispatchStopReason

pub record R5900DispatchResult : Type 0 where
  pub reason : R5900DispatchStopReason
  pub next_pc : ℕ
  pub blocks_executed : ℕ
  pub instructions_executed : ℕ
  pub cache_hits : ℕ
  pub cache_misses : ℕ
  pub recompilations : ℕ

pub record R5900BlockDispatcherOptions : Type 0 where
  pub block_options : R5900ControlFlowOptions

-- compile_r5900_ir_x64 and R5900X64CompiledBlock::execute. Whether a block can be compiled depends
-- on the host too, which may refuse memory.
pub record Backend : Type 1 where
  pub Block : Type 0
  pub Host : Type 0
  pub compile : List R5900IrInstruction → Host → Option Block × Host
  pub execute : Block → R5900IrExecutionState → R5900IrExecutionState

-- A compiled block acts as the reference executor, which accepts its instructions.
pub record IsBackend (f32_add : ℕ → ℕ → ℕ) (b : Backend) : Type 0 where
  pub compiled :
      (irs : List R5900IrInstruction) (host : b.Host) {block : b.Block}
      → (b.compile irs host).0 ≡ some block
      → (s : R5900IrExecutionState)
      → execute_r5900_ir f32_add irs s
        ≡ record { error = R5900IrExecutionError.none; state = b.execute block s }

-- The host grants the memory for every block.
pub record IsGranted (b : Backend) : Type 0 where
  pub granted :
      (irs : List R5900IrInstruction) (host : b.Host)
      → All IsValid irs
      → (block : b.Block) × ((b.compile irs host).0 ≡ some block)

pub record CachedBlock (b : Backend) : Type 0 where
  pub start_pc : ℕ
  pub end_pc_exclusive : ℕ
  pub fingerprint : ℕ
  pub guest_words : List ℕ
  pub guest_instruction_count : ℕ
  pub native_block : b.Block
