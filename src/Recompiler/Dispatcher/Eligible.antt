-- ===== src/Recompiler/Dispatcher/Eligible.antt =====
-- The dispatcher's list of instructions against the lowering of src/recompiler/r5900_ir.cpp.
use burnout_3_recompiled.Common.{ℕ, Bool, true, false, ◌≡◌, refl, ◌==◌, ◌&&◌, ◌||◌, not, arith}
use burnout_3_recompiled.Recompiler.Decoder.{R5900Instruction, R5900DecodedInstruction}
use burnout_3_recompiled.Recompiler.Ir.{R5900IrLoweringError, lower_as, lower_r5900_instruction}
use burnout_3_recompiled.Recompiler.Dispatcher.{is_dispatcher_v0_eligible}

abbrev pub is_lowered : R5900IrLoweringError → Bool
is_lowered R5900IrLoweringError.none = true
is_lowered R5900IrLoweringError.unsupported_instruction = false

abbrev pub is_ctc1 : R5900Instruction → Bool
is_ctc1 i = elim i [ R5900Instruction.ctc1 ↦ true | _ ↦ false ]

lower_as-eligible :
    (i : R5900Instruction) (d : R5900DecodedInstruction) (pc : ℕ)
    → is_lowered (lower_as i d pc).error
      ≡ is_dispatcher_v0_eligible i && (not (is_ctc1 i) || (d.rd == 31))
unfolding lower_as is_dispatcher_v0_eligible
lower_as-eligible R5900Instruction.addu d pc = ground arith
lower_as-eligible R5900Instruction.addiu d pc = ground arith
lower_as-eligible R5900Instruction.ori d pc = ground arith
lower_as-eligible R5900Instruction.andi d pc = ground arith
lower_as-eligible R5900Instruction.lui d pc = ground arith
lower_as-eligible R5900Instruction.padduw d pc = ground arith
lower_as-eligible R5900Instruction.ctc1 d pc = ground arith
lower_as-eligible _ d pc = refl

-- The dispatcher admits exactly the instructions that can be lowered, but for `CTC1`: it admits
-- every `CTC1`, and only that to control register 31 can be lowered.
pub lower-is_dispatcher_v0_eligible :
    (d : R5900DecodedInstruction) (pc : ℕ)
    → is_lowered (lower_r5900_instruction d pc).error
      ≡ is_dispatcher_v0_eligible d.instruction && (not (is_ctc1 d.instruction) || (d.rd == 31))
unfolding lower_r5900_instruction
lower-is_dispatcher_v0_eligible d pc = lower_as-eligible d.instruction d pc
