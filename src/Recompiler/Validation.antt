-- ===== src/Recompiler/Validation.antt =====
-- src/recompiler/r5900_ir_validation.h and .cpp: which instructions of the intermediate form the
-- executors accept. A result is its error; the message texts are left out.
mod Types
pub use Types.{R5900IrValidationError}
use burnout_3_recompiled.Common.{
  ℕ, Bool, true, false, Option, some, none, List, [], ◌∷◌, ◌==◌, ◌&&◌, ◌||◌, not, leb,
  if◌then◌else◌,
}
use burnout_3_recompiled.Recompiler.Ir.{
  R5900IrOpcode, R5900IrOperandKind, R5900IrGprWriteMode, R5900IrDestinationKind,
  R5900IrDestination, R5900IrOperand, R5900IrInstruction,
}
use burnout_3_recompiled.Recompiler.Ir.{
  R5900IrOpcode as Opcode, R5900IrOperandKind as Operand, R5900IrGprWriteMode as Mode,
  R5900IrDestinationKind as Dest,
}

-- `if (!result.ok()) return result;` before what follows.
infixr 5 ◌and_then◌
abbrev pub ◌and_then◌ : R5900IrValidationError → R5900IrValidationError → R5900IrValidationError
R5900IrValidationError.none and_then next = next
R5900IrValidationError.malformed_instruction and_then next =
    R5900IrValidationError.malformed_instruction
R5900IrValidationError.invalid_register and_then next = R5900IrValidationError.invalid_register
R5900IrValidationError.unsupported_opcode and_then next = R5900IrValidationError.unsupported_opcode

-- `if (fault) return failure(error);` before what follows.
abbrev pub reject : Bool → R5900IrValidationError → R5900IrValidationError → R5900IrValidationError
reject fault error next = if fault then error else next

abbrev pub ok : R5900IrValidationError
ok = R5900IrValidationError.none

abbrev pub malformed : R5900IrValidationError
malformed = R5900IrValidationError.malformed_instruction

abbrev pub invalid : R5900IrValidationError
invalid = R5900IrValidationError.invalid_register

abbrev pub is_gpr_operand : R5900IrOperand → Bool
is_gpr_operand operand = elim operand.kind [ Operand.gpr ↦ true | _ ↦ false ]

abbrev pub is_fpr_operand : R5900IrOperand → Bool
is_fpr_operand operand = elim operand.kind [ Operand.fpr ↦ true | _ ↦ false ]

abbrev pub is_immediate_operand : R5900IrOperand → Bool
is_immediate_operand operand = elim operand.kind [ Operand.immediate ↦ true | _ ↦ false ]

unfoldable pub validate_operand : R5900IrOperand → R5900IrValidationError
validate_operand operand = elim operand.kind [
  | Operand.immediate ↦ ok
  | Operand.gpr ↦ reject (leb 32 operand.gpr_index) invalid ok
  | Operand.fpr ↦ reject (leb 32 operand.gpr_index) invalid ok
  | Operand.unlisted n ↦ malformed
]

abbrev pub same_mode : R5900IrGprWriteMode → R5900IrGprWriteMode → Bool
same_mode Mode.none Mode.none = true
same_mode Mode.low64_preserve_upper64 Mode.low64_preserve_upper64 = true
same_mode Mode.full128 Mode.full128 = true
same_mode _ _ = false

abbrev pub is_gpr_destination : R5900IrDestination → Bool
is_gpr_destination destination = elim destination.kind [ Dest.gpr ↦ true | _ ↦ false ]

-- `require_destination`, and then a check of the destination that is there.
abbrev pub with_destination :
    R5900IrInstruction → (R5900IrDestination → R5900IrValidationError) → R5900IrValidationError
with_destination ir check = elim ir.destination [ none ↦ malformed | some d ↦ check d ]

unfoldable pub validate_gpr_destination :
    R5900IrInstruction → R5900IrGprWriteMode → R5900IrValidationError
validate_gpr_destination ir expected = with_destination ir λ destination.
    reject (not (is_gpr_destination destination)) malformed (
      reject (leb 32 destination.index) invalid
        (reject (not (same_mode ir.write_mode expected)) malformed ok))

-- The range check of each input in turn, each followed by a test of its kind.
unfoldable pub validate_inputs :
    (R5900IrOperand → Bool) → List R5900IrOperand → R5900IrValidationError
unfolding validate_operand
validate_inputs wrong_kind [] = ok
validate_inputs wrong_kind (operand ∷ rest) =
    validate_operand operand
    and_then reject (wrong_kind operand) malformed (validate_inputs wrong_kind rest)

abbrev pub two_inputs :
    List R5900IrOperand
    → (R5900IrOperand → R5900IrOperand → R5900IrValidationError)
    → R5900IrValidationError
two_inputs [] check = malformed
two_inputs (a ∷ []) check = malformed
two_inputs (a ∷ b ∷ []) check = check a b
two_inputs (a ∷ b ∷ c ∷ rest) check = malformed

abbrev pub one_input :
    List R5900IrOperand → (R5900IrOperand → R5900IrValidationError) → R5900IrValidationError
one_input [] check = malformed
one_input (a ∷ []) check = check a
one_input (a ∷ b ∷ rest) check = malformed

unfoldable pub validate_existing_integer_write : R5900IrInstruction → R5900IrValidationError
unfolding validate_gpr_destination validate_inputs
validate_existing_integer_write ir =
    validate_gpr_destination ir Mode.low64_preserve_upper64
    and_then two_inputs ir.inputs λ a b. validate_inputs is_fpr_operand (a ∷ b ∷ [])

unfoldable pub validate_and64 : R5900IrInstruction → R5900IrValidationError
unfolding validate_gpr_destination validate_operand
validate_and64 ir =
    validate_gpr_destination ir Mode.low64_preserve_upper64
    and_then two_inputs ir.inputs λ a b.
      validate_operand a
      and_then validate_operand b
      and_then reject (not (is_gpr_operand a) || not (is_immediate_operand b)) malformed ok

unfoldable pub validate_lui : R5900IrInstruction → R5900IrValidationError
unfolding validate_gpr_destination
validate_lui ir =
    validate_gpr_destination ir Mode.low64_preserve_upper64
    and_then one_input ir.inputs λ a. reject (not (is_immediate_operand a)) malformed ok

unfoldable pub validate_packed_u32_add : R5900IrInstruction → R5900IrValidationError
unfolding validate_gpr_destination validate_inputs
validate_packed_u32_add ir =
    validate_gpr_destination ir Mode.full128
    and_then two_inputs ir.inputs λ a b. validate_inputs (λ o. not (is_gpr_operand o)) (a ∷ b ∷ [])

abbrev pub is_hilo_destination : R5900IrDestinationKind → Bool
is_hilo_destination kind = elim kind [
  | Dest.hi ↦ true
  | Dest.lo ↦ true
  | Dest.hi1 ↦ true
  | Dest.lo1 ↦ true
  | _ ↦ false
]

unfoldable pub validate_move_gpr_low64 : R5900IrInstruction → R5900IrValidationError
unfolding validate_operand
validate_move_gpr_low64 ir = with_destination ir λ destination.
    reject (not (is_hilo_destination destination.kind) || not (destination.index == 0)) malformed (
      reject (not (same_mode ir.write_mode Mode.none)) malformed (
        one_input ir.inputs
          λ a. validate_operand a and_then reject (not (is_gpr_operand a)) malformed ok))

unfoldable pub validate_mtsah : R5900IrInstruction → R5900IrValidationError
unfolding validate_operand
validate_mtsah ir = with_destination ir λ destination.
    reject
      (not (elim destination.kind [ Dest.sa ↦ true | _ ↦ false ]) || not (destination.index == 0))
      malformed
      (reject (not (same_mode ir.write_mode Mode.none)) malformed (
        two_inputs ir.inputs λ a b.
          validate_operand a
          and_then reject (not (is_gpr_operand a) || not (is_immediate_operand b)) malformed ok))

unfoldable pub validate_move_bits32 : R5900IrInstruction → R5900IrValidationError
unfolding validate_operand
validate_move_bits32 ir = with_destination ir λ destination.
    reject (not (same_mode ir.write_mode Mode.none)) malformed (
      one_input ir.inputs λ a.
        validate_operand a
        and_then reject (not (is_gpr_operand a)) malformed (elim destination.kind [
          | Dest.fpr ↦ reject (leb 32 destination.index) invalid ok
          | Dest.fcr31 ↦ reject (not (destination.index == 0)) malformed ok
          | _ ↦ malformed
        ]))

unfoldable pub validate_add_f32_accumulator : R5900IrInstruction → R5900IrValidationError
unfolding validate_inputs
validate_add_f32_accumulator ir = with_destination ir λ destination.
    reject
      (not (elim destination.kind [ Dest.fp_accumulator ↦ true | _ ↦ false ])
        || not (destination.index == 0))
      malformed
      (reject (not (same_mode ir.write_mode Mode.none)) malformed
        (two_inputs ir.inputs λ a b. validate_inputs (λ o. not (is_fpr_operand o)) (a ∷ b ∷ [])))

validate_nop : R5900IrInstruction → R5900IrValidationError
validate_nop ir =
    reject
      (elim ir.destination [ none ↦ false | some _ ↦ true ]
        || (elim ir.inputs [ [] ↦ false | _ ∷ _ ↦ true ]
            || not (same_mode ir.write_mode Mode.none)))
      malformed ok

unfoldable pub validate_r5900_ir_instruction : R5900IrInstruction → R5900IrValidationError
unfolding validate_nop validate_existing_integer_write validate_and64 validate_lui
    validate_packed_u32_add validate_move_gpr_low64 validate_mtsah validate_move_bits32
    validate_add_f32_accumulator
validate_r5900_ir_instruction ir = elim ir.opcode [
  | Opcode.nop ↦ validate_nop ir
  | Opcode.add_word_sign_extend ↦ validate_existing_integer_write ir
  | Opcode.or64 ↦ validate_existing_integer_write ir
  | Opcode.and64 ↦ validate_and64 ir
  | Opcode.load_upper_immediate_sign_extend ↦ validate_lui ir
  | Opcode.add_packed_u32_saturate128 ↦ validate_packed_u32_add ir
  | Opcode.move_gpr_low64 ↦ validate_move_gpr_low64 ir
  | Opcode.compute_mtsah ↦ validate_mtsah ir
  | Opcode.move_bits32 ↦ validate_move_bits32 ir
  | Opcode.add_f32_to_accumulator ↦ validate_add_f32_accumulator ir
  | Opcode.unlisted n ↦ R5900IrValidationError.unsupported_opcode
]
