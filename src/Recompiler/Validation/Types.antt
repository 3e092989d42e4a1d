-- ===== src/Recompiler/Validation/Types.antt =====
-- src/recompiler/r5900_ir_validation.h: the validator's errors.
pub data R5900IrValidationError : Type 0 where
  none malformed_instruction invalid_register unsupported_opcode : R5900IrValidationError
