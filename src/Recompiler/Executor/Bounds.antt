-- ===== src/Recompiler/Executor/Bounds.antt =====
-- Every register keeps a value of its width, and the register files keep their 32 entries.
use burnout_3_recompiled.Common.{
  ℕ, ◌≡◌, ◌<◌, ◌^◌, ◌==◌, arith, All, All-get_or, All-set, List, [], ◌∷◌, if_both, length,
  length-set, ◌∙◌, set, bit_and-lt, bit_or-lt, u32,
}
use burnout_3_recompiled.Recompiler.Ir.{
  R5900IrInstruction, R5900IrOperand, R5900IrDestination, R5900IrDestinationKind, R5900IrOpcode,
}
use burnout_3_recompiled.Recompiler.Executor.{
  R5900IrGprValue, R5900IrExecutionState, R5900IrExecutionResult, zero_value, blank, gpr_at, input,
  execute_instruction, execute_loop, execute_r5900_ir, normalize_zero, read_operand_value,
  sign_extend_word, add_lanes, write_low64, write_full128, write_hilo, write_bits32,
  after_validation,
}
use burnout_3_recompiled.Recompiler.Executor.Words.{
  sext32, sign_extend_word-sext32, add_lanes_lem, add_halves,
}
use burnout_3_recompiled.Recompiler.Validation.{R5900IrValidationError}

abbrev pub IsWide : R5900IrGprValue → Type 0
IsWide v = (v.low64 < 2 ^ 64) × (v.high64 < 2 ^ 64)

-- The ranges that the C++ types of the fields give them.
pub record IsWellFormed (s : R5900IrExecutionState) : Type 0 where
  pub gpr_count : length s.gpr ≡ 32
  pub gpr_wide : All IsWide s.gpr
  pub hi_fits : s.hi < 2 ^ 64
  pub lo_fits : s.lo < 2 ^ 64
  pub hi1_fits : s.hi1 < 2 ^ 64
  pub lo1_fits : s.lo1 < 2 ^ 64
  pub sa_fits : s.sa < 2 ^ 32
  pub fpr_count : length s.fpr ≡ 32
  pub fpr_fits : All (λ v. v < 2 ^ 32) s.fpr
  pub fcr31_fits : s.fcr31 < 2 ^ 32
  pub fp_acc_fits : s.fp_acc < 2 ^ 32

-- Every immediate is a 64-bit pattern.
abbrev pub ImmediatesFit : R5900IrInstruction → Type 0
ImmediatesFit ir = All (λ (o : R5900IrOperand). o.immediate < 2 ^ 64) ir.inputs

u32-lt : (n : ℕ) → u32 n < 2 ^ 32
u32-lt n = omega arith

sext32-lt : (w : ℕ) → w < 2 ^ 32 → sext32 w < 2 ^ 64
sext32-lt w h = ground arith

sign_extend_word-lt : (w : ℕ) → w < 2 ^ 32 → sign_extend_word w < 2 ^ 64
sign_extend_word-lt w h = omega (arith, sign_extend_word-sext32 w h, sext32-lt w h)

add_halves-lt : (a b : ℕ) → add_halves a b < 2 ^ 64
unfolding add_halves
add_halves-lt a b = omega arith

add_lanes-IsWide : (a b : R5900IrGprValue) → IsWide (add_lanes 4 0 a b zero_value)
add_lanes-IsWide a b = rw add_lanes_lem (add_halves-lt _ _, add_halves-lt _ _)

module _ (s : R5900IrExecutionState) (w : IsWellFormed s) where
  gpr_at-IsWide : (i : ℕ) → IsWide (gpr_at s i)
  gpr_at-IsWide i = All-get_or IsWide s.gpr i zero_value w.gpr_wide (omega arith)

  read_operand_value-lt :
      (o : R5900IrOperand) → o.immediate < 2 ^ 64 → read_operand_value o s < 2 ^ 64
  unfolding read_operand_value
  read_operand_value-lt o h = ground (arith, gpr_at-IsWide o.gpr_index)

  set_gpr-IsWellFormed :
      (i : ℕ) (v : R5900IrGprValue) → IsWide v → IsWellFormed (record s { gpr = set s.gpr i v })
  set_gpr-IsWellFormed i v h =
      assumption (length-set s.gpr i v ∙ w.gpr_count, All-set IsWide s.gpr i v w.gpr_wide h)

  normalize_zero-IsWellFormed : IsWellFormed (normalize_zero s)
  unfolding normalize_zero
  normalize_zero-IsWellFormed = set_gpr-IsWellFormed 0 zero_value (omega arith)

  write_low64-IsWellFormed : (i v : ℕ) → v < 2 ^ 64 → IsWellFormed (write_low64 s i v)
  unfolding write_low64
  write_low64-IsWellFormed i v h =
      if_both IsWellFormed (i == 0) w (set_gpr-IsWellFormed i _ (h, (gpr_at-IsWide i).1))

  write_full128-IsWellFormed :
      (i : ℕ) (v : R5900IrGprValue) → IsWide v → IsWellFormed (write_full128 s i v)
  unfolding write_full128
  write_full128-IsWellFormed i v h = if_both IsWellFormed (i == 0) w (set_gpr-IsWellFormed i v h)

  write_hilo-IsWellFormed :
      (k : R5900IrDestinationKind) (v : ℕ) → v < 2 ^ 64 → IsWellFormed (write_hilo s k v)
  unfolding write_hilo
  write_hilo-IsWellFormed R5900IrDestinationKind.hi v h = assumption
  write_hilo-IsWellFormed R5900IrDestinationKind.lo v h = assumption
  write_hilo-IsWellFormed R5900IrDestinationKind.hi1 v h = assumption
  write_hilo-IsWellFormed R5900IrDestinationKind.lo1 v h = assumption
  write_hilo-IsWellFormed _ v h = w

  set_sa-IsWellFormed : (n : ℕ) → IsWellFormed (record s { sa = u32 n })
  set_sa-IsWellFormed n = assumption (u32-lt n)

  set_fp_acc-IsWellFormed : (n : ℕ) → n < 2 ^ 32 → IsWellFormed (record s { fp_acc = n })
  set_fp_acc-IsWellFormed n h = assumption

  write_bits32-IsWellFormed :
      (d : R5900IrDestination) (v : ℕ) → v < 2 ^ 32 → IsWellFormed (write_bits32 s d v)
  unfolding write_bits32
  write_bits32-IsWellFormed d v h =
      elim d.kind as (λ k. IsWellFormed (write_bits32 s (record d { kind = k }) v)) [
        | R5900IrDestinationKind.fpr ↦ assumption (
          length-set s.fpr d.index v ∙ w.fpr_count,
          All-set (λ v. v < 2 ^ 32) s.fpr d.index v w.fpr_fits h,
        )
        | _ ↦ assumption
      ]

module _ (f32_add : ℕ → ℕ → ℕ) (f32_add_fits : (a b : ℕ) → f32_add a b < 2 ^ 32) where
  execute_instruction-IsWellFormed :
      (ir : R5900IrInstruction) (s : R5900IrExecutionState)
      → ImmediatesFit ir
      → IsWellFormed s
      → IsWellFormed (execute_instruction f32_add ir s)
  unfolding execute_instruction
  execute_instruction-IsWellFormed ir s imm w =
      elim ir.opcode
        as (λ o. IsWellFormed (execute_instruction f32_add (record ir { opcode = o }) s)) [
          | R5900IrOpcode.nop ↦ w
          | R5900IrOpcode.add_word_sign_extend ↦
              write_low64-IsWellFormed s w _ _ (sign_extend_word-lt _ (u32-lt _))
          | R5900IrOpcode.or64 ↦
              write_low64-IsWellFormed s w _ _ (bit_or-lt 64 _ _ (value 0) (value 1))
          | R5900IrOpcode.and64 ↦
              write_low64-IsWellFormed s w _ _ (bit_and-lt 64 _ _ first.0 (fits 1))
          | R5900IrOpcode.load_upper_immediate_sign_extend ↦
              write_low64-IsWellFormed s w _ _ (sign_extend_word-lt _ (u32-lt _))
          | R5900IrOpcode.move_gpr_low64 ↦ write_hilo-IsWellFormed s w _ _ first.0
          | R5900IrOpcode.compute_mtsah ↦ set_sa-IsWellFormed s w _
          | R5900IrOpcode.add_packed_u32_saturate128 ↦
              write_full128-IsWellFormed s w _ _ (add_lanes-IsWide _ _)
          | R5900IrOpcode.move_bits32 ↦ write_bits32-IsWellFormed s w _ _ (u32-lt _)
          | R5900IrOpcode.add_f32_to_accumulator ↦ set_fp_acc-IsWellFormed s w _ (f32_add_fits _ _)
          | R5900IrOpcode.unlisted n ↦ w
        ]
    where
      fits : (i : ℕ) → (input ir i).immediate < 2 ^ 64
      fits i =
          All-get_or (λ (o : R5900IrOperand). o.immediate < 2 ^ 64) ir.inputs i blank imm
            (omega arith)

      value : (i : ℕ) → read_operand_value (input ir i) s < 2 ^ 64
      value i = read_operand_value-lt s w (input ir i) (fits i)

      first : IsWide (gpr_at s (input ir 0).gpr_index)
      first = gpr_at-IsWide s w _

  after_validation-IsWellFormed :
      (e : R5900IrValidationError) (s : R5900IrExecutionState) (next : R5900IrExecutionResult)
      → IsWellFormed s
      → IsWellFormed next.state
      → IsWellFormed (after_validation e s next).state
  unfolding after_validation
  after_validation-IsWellFormed R5900IrValidationError.none s next w n = n
  after_validation-IsWellFormed _ s next w n = normalize_zero-IsWellFormed s w

  execute_loop-IsWellFormed :
      (irs : List R5900IrInstruction) (s : R5900IrExecutionState)
      → All ImmediatesFit irs
      → IsWellFormed s
      → IsWellFormed (execute_loop f32_add irs s).state
  unfolding execute_loop
  execute_loop-IsWellFormed [] s imm w = normalize_zero-IsWellFormed s w
  execute_loop-IsWellFormed (ir ∷ rest) s imm w =
      after_validation-IsWellFormed _ s _ w
        (execute_loop-IsWellFormed rest _ imm.1 (execute_instruction-IsWellFormed ir s imm.0 w))

  -- Executing any list of instructions, accepted or refused, keeps the register files at 32 entries
  -- and every register within its width, if the immediates are 64-bit and the addition of two floats
  -- is a 32-bit pattern.
  pub execute_r5900_ir-IsWellFormed :
      (irs : List R5900IrInstruction) (s : R5900IrExecutionState)
      → All ImmediatesFit irs
      → IsWellFormed s
      → IsWellFormed (execute_r5900_ir f32_add irs s).state
  unfolding execute_r5900_ir
  execute_r5900_ir-IsWellFormed irs s imm w =
      execute_loop-IsWellFormed irs _ imm (normalize_zero-IsWellFormed s w)
