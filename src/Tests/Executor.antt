-- ===== src/Tests/Executor.antt =====
-- Lowering and execution of single instructions, from a state with values in some registers.
use burnout_3_recompiled.Common.{
  switch, ℕ, none, ◌≡◌, refl, List, [], ◌∷◌, ◌++◌, ◌<◌, ◌^◌, ◌%◌, ◌+◌, arith, replicate,
}
use burnout_3_recompiled.Recompiler.Decoder.{decode_r5900}
use burnout_3_recompiled.Recompiler.Ir.{
  R5900IrInstruction, R5900IrOpcode, R5900IrGprWriteMode, R5900IrLoweringError,
  lower_r5900_instruction,
}
use burnout_3_recompiled.Recompiler.Ir.Valid.{lower_r5900_instruction-IsValid}
use burnout_3_recompiled.Recompiler.Validation.{
  R5900IrValidationError, validate_r5900_ir_instruction,
}
use burnout_3_recompiled.Recompiler.Executor.{
  R5900IrGprValue, R5900IrExecutionState, R5900IrExecutionError, zero_value, add_lanes,
  normalize_zero, execute_r5900_ir,
}
use burnout_3_recompiled.Recompiler.Executor.Bounds.{IsWellFormed, execute_r5900_ir-IsWellFormed}
use burnout_3_recompiled.Recompiler.Executor.Words.{add_halves, add_lanes_lem}
use burnout_3_recompiled.Recompiler.Executor.Normal.{IsReportOf, execute-append, execute_refused}
use burnout_3_recompiled.Recompiler.Isa.{isa_step}
use burnout_3_recompiled.Recompiler.Isa.Exact.{execute-lower}

-- A stand-in for the host's addition of floats, within 32 bits.
abbrev pub sum32 : ℕ → ℕ → ℕ
sum32 a b = (a + b) % 2 ^ 32

sum32_fits : (a b : ℕ) → sum32 a b < 2 ^ 32
sum32_fits a b = omega arith

-- Register 1 holds a negative word, register 2 lanes that overflow.
abbrev pub start : R5900IrExecutionState
start = record {
  gpr =
      zero_value
      ∷ record { low64 = 0xffff_ffff_8000_0000; high64 = 7 }
      ∷ record { low64 = 0xffff_fff0_0000_0002; high64 = 0xffff_ffff }
      ∷ replicate 29 zero_value;
  hi = 0;
  lo = 0;
  hi1 = 0;
  lo1 = 0;
  sa = 0;
  fpr = replicate 32 0;
  fcr31 = 0;
  fp_acc = 0;
}

start-IsWellFormed : IsWellFormed start
start-IsWellFormed = record {
  gpr_count = refl;
  gpr_wide = ground arith;
  hi_fits = omega arith;
  lo_fits = omega arith;
  hi1_fits = omega arith;
  lo1_fits = omega arith;
  sa_fits = omega arith;
  fpr_count = refl;
  fpr_fits = ground arith;
  fcr31_fits = omega arith;
  fp_acc_fits = omega arith;
}

-- addiu $3, $1, -1; padduw $2, $2, $2; sb, which is not lowered.
abbrev addiu_word : ℕ
addiu_word = 0x2423_ffff

abbrev padduw_word : ℕ
padduw_word = 0x7042_1428

abbrev addiu_code : List R5900IrInstruction
addiu_code = (lower_r5900_instruction (decode_r5900 addiu_word) 0x10_0000).instructions

abbrev padduw_code : List R5900IrInstruction
padduw_code = (lower_r5900_instruction (decode_r5900 padduw_word) 0x10_0004).instructions

-- An instruction with an opcode that no enumerator names.
abbrev unlisted : R5900IrInstruction
unlisted = record {
  guest_pc = 0;
  guest_raw = 0;
  opcode = R5900IrOpcode.unlisted 99;
  destination = none;
  write_mode = R5900IrGprWriteMode.none;
  inputs = [];
}

addiu_lowers :
    (lower_r5900_instruction (decode_r5900 addiu_word) 0x10_0000).error ≡ R5900IrLoweringError.none
unfolding switch lower_r5900_instruction decode_r5900
addiu_lowers = refl

unlisted_refused :
    validate_r5900_ir_instruction unlisted ≡ R5900IrValidationError.unsupported_opcode
unfolding validate_r5900_ir_instruction
unlisted_refused = refl

execute-lower_example : execute_r5900_ir sum32 addiu_code start ≡ record {
  error = R5900IrExecutionError.none;
  state =
      isa_step sum32
        (decode_r5900 addiu_word)
        (normalize_zero start)
        (decode_r5900 addiu_word).instruction;
}
execute-lower_example = execute-lower sum32 addiu_word 0x10_0000 start addiu_lowers

execute_r5900_ir-IsWellFormed_example :
    IsWellFormed (execute_r5900_ir sum32 (unlisted ∷ []) start).state
execute_r5900_ir-IsWellFormed_example =
    execute_r5900_ir-IsWellFormed sum32 sum32_fits (unlisted ∷ []) start (tt, tt) start-IsWellFormed

execute-append_example :
    execute_r5900_ir sum32 (addiu_code ++ padduw_code) start
    ≡ execute_r5900_ir sum32 padduw_code (execute_r5900_ir sum32 addiu_code start).state
execute-append_example =
    execute-append sum32 addiu_code padduw_code start
      (lower_r5900_instruction-IsValid addiu_word 0x10_0000)

execute_refused_example :
    IsReportOf
      (validate_r5900_ir_instruction unlisted)
      (execute_r5900_ir sum32 (addiu_code ++ unlisted ∷ padduw_code) start).error
    × ((execute_r5900_ir sum32 (addiu_code ++ unlisted ∷ padduw_code) start).state
        ≡ (execute_r5900_ir sum32 addiu_code start).state)
execute_refused_example =
    execute_refused sum32 addiu_code padduw_code unlisted start
      (lower_r5900_instruction-IsValid addiu_word 0x10_0000) (λ e. ground (arith, unlisted_refused))

abbrev lanes : R5900IrGprValue
lanes = record { low64 = 0xffff_fff0_0000_0002; high64 = 0xffff_ffff }

-- Two of the four lanes saturate.
lanes_saturate :
    add_lanes 4 0 lanes lanes zero_value
    ≡ record { low64 = 0xffff_ffff_0000_0004; high64 = 0xffff_ffff }
unfolding add_lanes
lanes_saturate = refl

add_lanes_lem_example : add_lanes 4 0 lanes lanes zero_value ≡ record {
  low64 = add_halves lanes.low64 lanes.low64;
  high64 = add_halves lanes.high64 lanes.high64;
}
add_lanes_lem_example = add_lanes_lem lanes lanes
