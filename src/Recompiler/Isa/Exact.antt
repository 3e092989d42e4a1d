-- ===== src/Recompiler/Isa/Exact.antt =====
-- Executing the lowered form of an instruction does to the registers what the architecture says.
use burnout_3_recompiled.Common.{
  ℕ, ◌≡◌, refl, ◌+◌, ◌%◌, arith, ◌∙◌, ap, bit_and_mask, bit_xor-lt, u32, u16, shl, i64_of_i32,
}
use burnout_3_recompiled.Recompiler.Decoder.{
  R5900Instruction, R5900DecodedInstruction, signed_immediate, decode_r5900,
}
use burnout_3_recompiled.Recompiler.Decoder.Fields.{FieldsFit, decode_r5900-FieldsFit}
use burnout_3_recompiled.Recompiler.Ir.{R5900IrLoweringError, lower_as, lower_r5900_instruction}
use burnout_3_recompiled.Recompiler.Ir.Valid.{lower_as-IsValid}
use burnout_3_recompiled.Recompiler.Executor.{
  R5900IrExecutionState, R5900IrExecutionError, execute_instruction, execute_r5900_ir, gpr_at,
  normalize_zero,
}
use burnout_3_recompiled.Recompiler.Executor.Words.{sign_extend_word-sext32, add_lanes_lem}
use burnout_3_recompiled.Recompiler.Executor.Normal.{run_all, execute-run_all}
use burnout_3_recompiled.Recompiler.Isa.{isa_step}

module _ (f32_add : ℕ → ℕ → ℕ) where
  module _ (d : R5900DecodedInstruction) (pc : ℕ) (fits : FieldsFit d)
      (s : R5900IrExecutionState) where
    abbrev low : ℕ → ℕ
    low index = (gpr_at s index).low64

    lower_as-isa_step :
        (i : R5900Instruction)
        → (lower_as i d pc).error ≡ R5900IrLoweringError.none
        → run_all f32_add (lower_as i d pc).instructions s ≡ isa_step f32_add d s i
    unfolding lower_as execute_instruction isa_step
    lower_as-isa_step R5900Instruction.nop e = refl
    lower_as-isa_step R5900Instruction.sync e = refl
    lower_as-isa_step R5900Instruction.addu e =
        ground
          (arith, sign_extend_word-sext32 (u32 (u32 (low d.rs) + u32 (low d.rt))) (omega arith))
    lower_as-isa_step R5900Instruction.addiu e = ground (
      arith,
      sign_extend_word-sext32 (u32 (u32 (low d.rs) + u32 (i64_of_i32 (signed_immediate d))))
          (omega arith),
    )
    lower_as-isa_step R5900Instruction.ori e = ground arith
    lower_as-isa_step R5900Instruction.andi e = ground arith
    lower_as-isa_step R5900Instruction.lui e =
        ground (arith, sign_extend_word-sext32 (u32 (shl (u16 d.immediate) 16)) (omega arith))
    lower_as-isa_step R5900Instruction.mthi e = refl
    lower_as-isa_step R5900Instruction.mtlo e = refl
    lower_as-isa_step R5900Instruction.mthi1 e = refl
    lower_as-isa_step R5900Instruction.mtlo1 e = refl
    lower_as-isa_step R5900Instruction.mtsah e = ground (
      arith,
      bit_and_mask 3 (u32 (low d.rs)),
      bit_and_mask 3 (u32 d.immediate),
      bit_xor-lt 3 (low d.rs % 8) (d.immediate % 8) (omega arith) (omega arith),
    )
    lower_as-isa_step R5900Instruction.padduw e =
        ground (arith, add_lanes_lem (gpr_at s d.rs) (gpr_at s d.rt))
    lower_as-isa_step R5900Instruction.mtc1 e = refl
    lower_as-isa_step R5900Instruction.ctc1 e = ground arith
    lower_as-isa_step R5900Instruction.adda_s e = refl
    lower_as-isa_step _ e = cc

  -- Where a decoded word can be lowered, executing its lowered form succeeds and changes the
  -- normalised state exactly as the architecture's description of the instruction does.
  pub execute-lower :
      (word pc : ℕ) (s : R5900IrExecutionState)
      → (lower_r5900_instruction (decode_r5900 word) pc).error ≡ R5900IrLoweringError.none
      → execute_r5900_ir f32_add (lower_r5900_instruction (decode_r5900 word) pc).instructions s
        ≡ record {
          error = R5900IrExecutionError.none;
          state =
              isa_step f32_add
                (decode_r5900 word)
                (normalize_zero s)
                (decode_r5900 word).instruction;
        }
  unfolding lower_r5900_instruction
  execute-lower word pc s e =
      let d = decode_r5900 word in
      let fits = decode_r5900-FieldsFit word in
      execute-run_all f32_add _ s (lower_as-IsValid d pc fits d.instruction)
      ∙ ap (λ t. record { error = R5900IrExecutionError.none; state = t })
          (lower_as-isa_step d pc fits (normalize_zero s) d.instruction e)
