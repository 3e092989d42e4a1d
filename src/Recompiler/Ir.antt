-- ===== src/Recompiler/Ir.antt =====
-- src/recompiler/r5900_ir.h and r5900_ir.cpp: the intermediate form, and the lowering of a decoded
-- instruction. Message texts are left out; a 64-bit immediate is its bit pattern.
mod Types
pub mod Valid
pub use Types.{
  R5900IrOpcode, R5900IrOperandKind, R5900IrGprWriteMode, R5900IrDestinationKind,
  R5900IrDestination, R5900IrOperand, R5900IrInstruction, R5900IrLoweringError,
  R5900IrLoweringResult,
}
use burnout_3_recompiled.Common.{
  ℕ, Option, some, none, List, [], ◌∷◌, ◌==◌, if◌then◌else◌, i64_of_i32,
}
use burnout_3_recompiled.Recompiler.Decoder.{
  R5900Instruction, R5900DecodedInstruction, signed_immediate,
}
use Types.{
  R5900IrOpcode as Opcode, R5900IrOperandKind as Operand, R5900IrGprWriteMode as Mode,
  R5900IrDestinationKind as Dest, R5900IrLoweringError as Error,
}

gpr : ℕ → R5900IrOperand
gpr index = record { kind = Operand.gpr; gpr_index = index; immediate = 0 }

fpr : ℕ → R5900IrOperand
fpr index = record { kind = Operand.fpr; gpr_index = index; immediate = 0 }

immediate : ℕ → R5900IrOperand
immediate value = record { kind = Operand.immediate; gpr_index = 0; immediate = value }

base_instruction : R5900DecodedInstruction → ℕ → R5900IrOpcode → R5900IrInstruction
base_instruction decoded guest_pc opcode = record {
  guest_pc = guest_pc;
  guest_raw = decoded.raw;
  opcode = opcode;
  destination = none;
  write_mode = Mode.none;
  inputs = [];
}

lowered : R5900IrInstruction → R5900IrLoweringResult
lowered ir = record { error = Error.none; instructions = ir ∷ [] }

discarded_gpr_zero_write : R5900DecodedInstruction → ℕ → R5900IrLoweringResult
unfolding base_instruction lowered
discarded_gpr_zero_write decoded guest_pc = lowered (base_instruction decoded guest_pc Opcode.nop)

unsupported_lowering : R5900IrLoweringResult
unsupported_lowering = record { error = Error.unsupported_instruction; instructions = [] }

set_destination :
    R5900IrInstruction → R5900IrDestinationKind → ℕ → R5900IrGprWriteMode → R5900IrInstruction
set_destination ir kind index mode = record ir {
  destination = some (record { kind = kind; index = index });
  write_mode = mode;
}

set_low64_destination : R5900IrInstruction → ℕ → R5900IrInstruction
unfolding set_destination
set_low64_destination ir index = set_destination ir Dest.gpr index Mode.low64_preserve_upper64

with_inputs : R5900IrInstruction → List R5900IrOperand → R5900IrInstruction
with_inputs ir inputs = record ir { inputs = inputs }

-- The four cases of `MTHI`, `MTLO`, `MTHI1` and `MTLO1`.
lower_move_hilo : R5900IrDestinationKind → R5900DecodedInstruction → ℕ → R5900IrLoweringResult
unfolding gpr base_instruction set_destination with_inputs lowered
lower_move_hilo kind decoded guest_pc =
    let ir = base_instruction decoded guest_pc Opcode.move_gpr_low64 in
    let ir' = set_destination ir kind 0 Mode.none in lowered (with_inputs ir' (gpr decoded.rs ∷ []))

-- A write to a general register with two inputs, or nothing where the register is zero.
lower_low64 :
    R5900DecodedInstruction → ℕ → R5900IrOpcode → ℕ → List R5900IrOperand → R5900IrLoweringResult
unfolding base_instruction set_low64_destination with_inputs lowered discarded_gpr_zero_write
lower_low64 decoded guest_pc opcode index inputs =
    if index == 0
    then discarded_gpr_zero_write decoded guest_pc
    else let ir = set_low64_destination (base_instruction decoded guest_pc opcode) index in
      lowered (with_inputs ir inputs)

unfoldable pub lower_as : R5900Instruction → R5900DecodedInstruction → ℕ → R5900IrLoweringResult
unfolding gpr fpr immediate base_instruction set_destination with_inputs lowered
    discarded_gpr_zero_write unsupported_lowering lower_move_hilo lower_low64 signed_immediate
lower_as R5900Instruction.nop d pc = lowered (base_instruction d pc Opcode.nop)
lower_as R5900Instruction.sync d pc = lowered (base_instruction d pc Opcode.nop)
lower_as R5900Instruction.addu d pc =
    lower_low64 d pc Opcode.add_word_sign_extend d.rd (gpr d.rs ∷ gpr d.rt ∷ [])
lower_as R5900Instruction.addiu d pc =
    lower_low64 d pc Opcode.add_word_sign_extend d.rt
      (gpr d.rs ∷ immediate (i64_of_i32 (signed_immediate d)) ∷ [])
lower_as R5900Instruction.ori d pc =
    lower_low64 d pc Opcode.or64 d.rt (gpr d.rs ∷ immediate d.immediate ∷ [])
lower_as R5900Instruction.andi d pc =
    lower_low64 d pc Opcode.and64 d.rt (gpr d.rs ∷ immediate d.immediate ∷ [])
lower_as R5900Instruction.lui d pc =
    lower_low64 d pc Opcode.load_upper_immediate_sign_extend d.rt (immediate d.immediate ∷ [])
lower_as R5900Instruction.mthi d pc = lower_move_hilo Dest.hi d pc
lower_as R5900Instruction.mtlo d pc = lower_move_hilo Dest.lo d pc
lower_as R5900Instruction.mthi1 d pc = lower_move_hilo Dest.hi1 d pc
lower_as R5900Instruction.mtlo1 d pc = lower_move_hilo Dest.lo1 d pc
lower_as R5900Instruction.mtsah d pc =
    let ir = set_destination (base_instruction d pc Opcode.compute_mtsah) Dest.sa 0 Mode.none in
    lowered (with_inputs ir (gpr d.rs ∷ immediate d.immediate ∷ []))
lower_as R5900Instruction.padduw d pc =
    if d.rd == 0
    then discarded_gpr_zero_write d pc
    else let base = base_instruction d pc Opcode.add_packed_u32_saturate128 in
      let ir = set_destination base Dest.gpr d.rd Mode.full128 in
      lowered (with_inputs ir (gpr d.rs ∷ gpr d.rt ∷ []))
lower_as R5900Instruction.mtc1 d pc =
    let ir = set_destination (base_instruction d pc Opcode.move_bits32) Dest.fpr d.rd Mode.none in
    lowered (with_inputs ir (gpr d.rt ∷ []))
lower_as R5900Instruction.ctc1 d pc =
    let ir = set_destination (base_instruction d pc Opcode.move_bits32) Dest.fcr31 0 Mode.none in
    if d.rd == 31 then lowered (with_inputs ir (gpr d.rt ∷ [])) else unsupported_lowering
lower_as R5900Instruction.adda_s d pc =
    let base = base_instruction d pc Opcode.add_f32_to_accumulator in
    let ir = set_destination base Dest.fp_accumulator 0 Mode.none in
    lowered (with_inputs ir (fpr d.rd ∷ fpr d.rt ∷ []))
lower_as _ d pc = unsupported_lowering

unfoldable pub lower_r5900_instruction : R5900DecodedInstruction → ℕ → R5900IrLoweringResult
unfolding lower_as
lower_r5900_instruction decoded guest_pc = lower_as decoded.instruction decoded guest_pc
