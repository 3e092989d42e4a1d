-- ===== src/Recompiler/Ir/Valid.antt =====
-- Lowering and validation agree: what lowering produces is accepted.
use burnout_3_recompiled.Common.{ℕ, ◌≡◌, refl, arith, All}
use burnout_3_recompiled.Recompiler.Decoder.{
  R5900Instruction, R5900DecodedInstruction, decode_r5900,
}
use burnout_3_recompiled.Recompiler.Decoder.Fields.{FieldsFit, decode_r5900-FieldsFit}
use burnout_3_recompiled.Recompiler.Ir.{R5900IrInstruction, lower_as, lower_r5900_instruction}
use burnout_3_recompiled.Recompiler.Validation.{ok, validate_r5900_ir_instruction}

abbrev pub IsValid : R5900IrInstruction → Type 0
IsValid ir = validate_r5900_ir_instruction ir ≡ ok

module _ (d : R5900DecodedInstruction) (pc : ℕ) (f : FieldsFit d) where
  pub lower_as-IsValid : (i : R5900Instruction) → All IsValid (lower_as i d pc).instructions
  unfolding lower_as validate_r5900_ir_instruction
  lower_as-IsValid R5900Instruction.nop = (refl, tt)
  lower_as-IsValid R5900Instruction.sync = (refl, tt)
  lower_as-IsValid R5900Instruction.addu = ground arith
  lower_as-IsValid R5900Instruction.addiu = ground arith
  lower_as-IsValid R5900Instruction.ori = ground arith
  lower_as-IsValid R5900Instruction.andi = ground arith
  lower_as-IsValid R5900Instruction.lui = ground arith
  lower_as-IsValid R5900Instruction.mthi = ground arith
  lower_as-IsValid R5900Instruction.mtlo = ground arith
  lower_as-IsValid R5900Instruction.mthi1 = ground arith
  lower_as-IsValid R5900Instruction.mtlo1 = ground arith
  lower_as-IsValid R5900Instruction.mtsah = ground arith
  lower_as-IsValid R5900Instruction.padduw = ground arith
  lower_as-IsValid R5900Instruction.mtc1 = ground arith
  lower_as-IsValid R5900Instruction.ctc1 = ground arith
  lower_as-IsValid R5900Instruction.adda_s = ground arith
  lower_as-IsValid _ = tt

-- Whatever word is decoded and lowered, the validator accepts every instruction that comes out.
pub lower_r5900_instruction-IsValid :
    (word pc : ℕ) → All IsValid (lower_r5900_instruction (decode_r5900 word) pc).instructions
unfolding lower_r5900_instruction
lower_r5900_instruction-IsValid word pc =
    lower_as-IsValid (decode_r5900 word) pc (decode_r5900-FieldsFit word)
      (decode_r5900 word).instruction
