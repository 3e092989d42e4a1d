-- ===== src/Analysis/ControlFlow/Types.antt =====
-- src/analysis/r5900_control_flow.h: the errors, the blocks and their edges.
use burnout_3_recompiled.Common.{ℕ, Bool, Option, List}
use burnout_3_recompiled.Recompiler.Decoder.{R5900DecodedInstruction}

pub data R5900ControlFlowError : Type 0 where
  none invalid_instruction_limit unaligned_start unmapped_instruction : R5900ControlFlowError
  non_executable_instruction missing_delay_slot non_executable_delay_slot : R5900ControlFlowError

pub data R5900BlockEndKind : Type 0 where
  instruction_limit conditional_branch direct_jump direct_call indirect_jump : R5900BlockEndKind
  indirect_call trap unsupported_instruction : R5900BlockEndKind

pub data R5900EdgeKind : Type 0 where
  branch_taken branch_not_taken direct_jump direct_call call_continuation : R5900EdgeKind
  indirect_jump indirect_call fallthrough : R5900EdgeKind

pub data RangeStatus : Type 0 where
  unmapped non_executable executable : RangeStatus

pub record R5900InstructionSite : Type 0 where
  pub pc : ℕ
  pub decoded : R5900DecodedInstruction

pub record R5900ControlFlowEdge : Type 0 where
  pub kind : R5900EdgeKind
  pub target : Option ℕ

pub record R5900BasicBlock : Type 0 where
  pub start_pc : ℕ
  pub instructions : List R5900InstructionSite
  pub delay_slot : Option R5900InstructionSite
  pub end_kind : R5900BlockEndKind
  pub delay_slot_executes_on_fallthrough : Bool
  pub edges : List R5900ControlFlowEdge

pub record R5900ControlFlowOptions : Type 0 where
  pub max_instructions : ℕ
  pub require_executable : Bool

-- A block, or the error for which there is none.
pub data R5900BasicBlockResult : Type 0 where
  succeed : R5900BasicBlock → R5900BasicBlockResult
  fail : R5900ControlFlowError → R5900BasicBlockResult
