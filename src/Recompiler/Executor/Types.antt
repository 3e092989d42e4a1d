-- ===== src/Recompiler/Executor/Types.antt =====
-- src/recompiler/r5900_ir_executor.h: the guest processor's state and the executor's errors. The
-- arrays of 32 registers are lists.
use burnout_3_recompiled.Common.{ℕ, List}

pub record R5900IrGprValue : Type 0 where
  pub low64 : ℕ
  pub high64 : ℕ

pub record R5900IrExecutionState : Type 0 where
  pub gpr : List R5900IrGprValue
  pub hi : ℕ
  pub lo : ℕ
  pub hi1 : ℕ
  pub lo1 : ℕ
  pub sa : ℕ
  pub fpr : List ℕ
  pub fcr31 : ℕ
  pub fp_acc : ℕ

pub data R5900IrExecutionError : Type 0 where
  none malformed_instruction invalid_register unsupported_opcode : R5900IrExecutionError

-- `R5900IrExecutionResult` without its text, and the state that the call leaves behind.
pub record R5900IrExecutionResult : Type 0 where
  pub error : R5900IrExecutionError
  pub state : R5900IrExecutionState
