-- ===== src/Recompiler/Ir/Types.antt =====
-- src/recompiler/r5900_ir.h: the intermediate form.
-- `unlisted` stands for a value of the C++ enumeration's type that is none of its enumerators: the
-- validator has a default case for it.
use burnout_3_recompiled.Common.{ℕ, Option, List}

pub data R5900IrOpcode : Type 0 where
  nop add_word_sign_extend or64 and64 load_upper_immediate_sign_extend : R5900IrOpcode
  add_packed_u32_saturate128 move_gpr_low64 compute_mtsah move_bits32 : R5900IrOpcode
  add_f32_to_accumulator : R5900IrOpcode
  unlisted : ℕ → R5900IrOpcode

pub data R5900IrOperandKind : Type 0 where
  gpr fpr immediate : R5900IrOperandKind
  unlisted : ℕ → R5900IrOperandKind

pub data R5900IrGprWriteMode : Type 0 where
  none low64_preserve_upper64 full128 : R5900IrGprWriteMode

pub data R5900IrDestinationKind : Type 0 where
  gpr hi lo hi1 lo1 sa fpr fcr31 fp_accumulator : R5900IrDestinationKind

pub record R5900IrDestination : Type 0 where
  pub kind : R5900IrDestinationKind
  pub index : ℕ

pub record R5900IrOperand : Type 0 where
  pub kind : R5900IrOperandKind
  pub gpr_index : ℕ
  pub immediate : ℕ

pub record R5900IrInstruction : Type 0 where
  pub guest_pc : ℕ
  pub guest_raw : ℕ
  pub opcode : R5900IrOpcode
  pub destination : Option R5900IrDestination
  pub write_mode : R5900IrGprWriteMode
  pub inputs : List R5900IrOperand

pub data R5900IrLoweringError : Type 0 where
  none unsupported_instruction : R5900IrLoweringError

pub record R5900IrLoweringResult : Type 0 where
  pub error : R5900IrLoweringError
  pub instructions : List R5900IrInstruction
