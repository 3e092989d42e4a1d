-- ===== src/Recompiler/Executor.antt =====
-- src/recompiler/r5900_ir_executor.cpp: the reference executor of the intermediate form. Its
-- addition of two `float` bit patterns is the parameter `f32_add`. What the source reads through an
-- index that validation has not let through (`zero_value`, `blank`) never shows in a result.
mod Types
pub mod Words
pub mod Bounds
pub mod Normal
pub use Types.{
  R5900IrGprValue, R5900IrExecutionState, R5900IrExecutionError, R5900IrExecutionResult,
}
use burnout_3_recompiled.Common.{
  ℕ, zero, suc, Bool, true, false, Option, some, none, List, [], ◌∷◌, ◌+◌, ◌-◌, ◌*◌, ◌^◌, ◌==◌, ltb,
  if◌then◌else◌, bit_and, bit_or, bit_xor, u16, u32, u64, shl, shr, get_or, set,
}
use burnout_3_recompiled.Recompiler.Ir.{
  R5900IrOpcode, R5900IrDestinationKind, R5900IrDestination, R5900IrOperand, R5900IrInstruction,
}
use burnout_3_recompiled.Recompiler.Ir.{
  R5900IrOpcode as Opcode, R5900IrOperandKind as Operand, R5900IrDestinationKind as Dest,
}
use burnout_3_recompiled.Recompiler.Validation.{
  R5900IrValidationError, validate_r5900_ir_instruction,
}
use Types.{R5900IrExecutionError as Error}

abbrev pub zero_value : R5900IrGprValue
zero_value = record { low64 = 0; high64 = 0 }

abbrev pub blank : R5900IrOperand
blank = record { kind = Operand.gpr; gpr_index = 0; immediate = 0 }

abbrev pub gpr_at : R5900IrExecutionState → ℕ → R5900IrGprValue
gpr_at state index = get_or state.gpr index zero_value

abbrev pub fpr_at : R5900IrExecutionState → ℕ → ℕ
fpr_at state index = get_or state.fpr index 0

-- `ir.inputs[i]`, and the destination's fields.
abbrev pub input : R5900IrInstruction → ℕ → R5900IrOperand
input ir i = get_or ir.inputs i blank

abbrev pub destination_of : R5900IrInstruction → R5900IrDestination
destination_of ir = elim ir.destination [
  | none ↦ record { kind = Dest.gpr; index = 0 }
  | some d ↦ d
]

unfoldable pub normalize_zero : R5900IrExecutionState → R5900IrExecutionState
normalize_zero state = record state { gpr = set state.gpr 0 zero_value }

unfoldable pub map_validation_failure : R5900IrValidationError → R5900IrExecutionError
map_validation_failure R5900IrValidationError.malformed_instruction = Error.malformed_instruction
map_validation_failure R5900IrValidationError.invalid_register = Error.invalid_register
map_validation_failure R5900IrValidationError.unsupported_opcode = Error.unsupported_opcode
map_validation_failure R5900IrValidationError.none = Error.none

unfoldable pub read_operand_value : R5900IrOperand → R5900IrExecutionState → ℕ
read_operand_value operand state = elim operand.kind [
  | Operand.immediate ↦ operand.immediate
  | _ ↦ (gpr_at state operand.gpr_index).low64
]

unfoldable pub sign_extend_word : ℕ → ℕ
sign_extend_word value =
    if bit_and value 0x8000_0000 == 0 then value else bit_or 0xffff_ffff_0000_0000 value

unfoldable pub packed_lane : R5900IrGprValue → ℕ → ℕ
packed_lane value lane =
    if ltb lane 2
    then u32 (shr value.low64 (lane * 32))
    else u32 (shr value.high64 ((lane - 2) * 32))

-- `(half & ~(0xffffffff << shift)) | (lane_value << shift)` on 64 bits.
unfoldable pub replace_word : ℕ → ℕ → ℕ → ℕ
replace_word half shift lane_value =
    let mask = 2 ^ 64 - 1 - u64 (shl 0xffff_ffff shift) in
    bit_or (bit_and half mask) (u64 (shl lane_value shift))

unfoldable pub set_packed_lane : R5900IrGprValue → ℕ → ℕ → R5900IrGprValue
unfolding replace_word
set_packed_lane value lane lane_value =
    if ltb lane 2
    then record value { low64 = replace_word value.low64 (lane * 32) lane_value }
    else record value { high64 = replace_word value.high64 ((lane - 2) * 32) lane_value }

unfoldable pub saturating_add_u32 : ℕ → ℕ → ℕ
saturating_add_u32 lhs rhs =
    let sum = lhs + rhs in if ltb 0xffff_ffff sum then 0xffff_ffff else u32 sum

-- The loop over the lanes, with the number of lanes left.
unfoldable pub add_lanes :
    ℕ → ℕ → R5900IrGprValue → R5900IrGprValue → R5900IrGprValue → R5900IrGprValue
unfolding set_packed_lane packed_lane saturating_add_u32
add_lanes zero lane lhs rhs result = result
add_lanes (suc left) lane lhs rhs result =
    add_lanes left (lane + 1) lhs rhs (
      set_packed_lane result lane
        (saturating_add_u32 (packed_lane lhs lane) (packed_lane rhs lane)))

-- `if (index != 0) state.gpr[index].low64 = value;`
unfoldable pub write_low64 : R5900IrExecutionState → ℕ → ℕ → R5900IrExecutionState
write_low64 state index value =
    if index == 0
    then state
    else record state { gpr = set state.gpr index (record (gpr_at state index) { low64 = value }) }

-- `if (index != 0) state.gpr[index] = value;`
unfoldable pub write_full128 : R5900IrExecutionState → ℕ → R5900IrGprValue → R5900IrExecutionState
write_full128 state index value =
    if index == 0 then state else record state { gpr = set state.gpr index value }

unfoldable pub write_hilo :
    R5900IrExecutionState → R5900IrDestinationKind → ℕ → R5900IrExecutionState
write_hilo state kind value = elim kind [
  | Dest.hi ↦ record state { hi = value }
  | Dest.lo ↦ record state { lo = value }
  | Dest.hi1 ↦ record state { hi1 = value }
  | Dest.lo1 ↦ record state { lo1 = value }
  | _ ↦ state
]

unfoldable pub write_bits32 : R5900IrExecutionState → R5900IrDestination → ℕ → R5900IrExecutionState
write_bits32 state destination raw = elim destination.kind [
  | Dest.fpr ↦ record state { fpr = set state.fpr destination.index raw }
  | _ ↦ record state { fcr31 = raw }
]

-- Go on, or leave the loop with the validator's error and a normalised state.
unfoldable pub after_validation :
    R5900IrValidationError → R5900IrExecutionState → R5900IrExecutionResult → R5900IrExecutionResult
unfolding normalize_zero map_validation_failure
after_validation validation state next = elim validation [
  | R5900IrValidationError.none ↦ next
  | failure ↦ record { error = map_validation_failure failure; state = normalize_zero state }
]

module _ (f32_add : ℕ → ℕ → ℕ) where
  -- The `switch` over the opcode, for an instruction that passed validation.
  unfoldable pub execute_instruction :
      R5900IrInstruction → R5900IrExecutionState → R5900IrExecutionState
  unfolding read_operand_value sign_extend_word add_lanes write_low64 write_full128 write_hilo
      write_bits32
  execute_instruction ir state =
      let destination = destination_of ir in
      let first = gpr_at state (input ir 0).gpr_index in
      elim ir.opcode [
        | Opcode.nop ↦ state
        | Opcode.add_word_sign_extend ↦
            let lhs = u32 (read_operand_value (input ir 0) state) in
            let rhs = u32 (read_operand_value (input ir 1) state) in
            write_low64 state destination.index (sign_extend_word (u32 (lhs + rhs)))
        | Opcode.or64 ↦
            write_low64 state destination.index (
              bit_or (read_operand_value (input ir 0) state)
                (read_operand_value (input ir 1) state))
        | Opcode.and64 ↦
            write_low64 state destination.index (bit_and first.low64 (input ir 1).immediate)
        | Opcode.load_upper_immediate_sign_extend ↦
            let word = u32 (shl (u16 (input ir 0).immediate) 16) in
            write_low64 state destination.index (sign_extend_word word)
        | Opcode.move_gpr_low64 ↦ write_hilo state destination.kind first.low64
        | Opcode.compute_mtsah ↦
            let source = bit_and (u32 first.low64) 7 in
            let immediate_value = bit_and (u32 (input ir 1).immediate) 7 in
            record state { sa = u32 (shl (bit_xor source immediate_value) 1) }
        | Opcode.add_packed_u32_saturate128 ↦
            let rhs = gpr_at state (input ir 1).gpr_index in
            write_full128 state destination.index (add_lanes 4 0 first rhs zero_value)
        | Opcode.move_bits32 ↦ write_bits32 state destination (u32 first.low64)
        | Opcode.add_f32_to_accumulator ↦ record state {
          fp_acc =
              f32_add (fpr_at state (input ir 0).gpr_index) (fpr_at state (input ir 1).gpr_index);
        }
        | Opcode.unlisted n ↦ state
      ]

  -- The loop over the instructions: validate, then execute, and stop at the first that is refused.
  unfoldable pub execute_loop :
      List R5900IrInstruction → R5900IrExecutionState → R5900IrExecutionResult
  unfolding after_validation
  execute_loop [] state = record { error = Error.none; state = normalize_zero state }
  execute_loop (ir ∷ rest) state =
      let next = execute_loop rest (execute_instruction ir state) in
      after_validation (validate_r5900_ir_instruction ir) state next

  unfoldable pub execute_r5900_ir :
      List R5900IrInstruction → R5900IrExecutionState → R5900IrExecutionResult
  unfolding execute_loop normalize_zero
  execute_r5900_ir instructions state = execute_loop instructions (normalize_zero state)
