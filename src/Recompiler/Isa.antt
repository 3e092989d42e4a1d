-- ===== src/Recompiler/Isa.antt =====
-- The guest instructions as the architecture describes them, by arithmetic on the registers and
-- with no intermediate form. Lowering and execution are held against this description.
pub mod Exact
use burnout_3_recompiled.Common.{
  ℕ, List, set, ◌+◌, ◌-◌, ◌*◌, ◌/◌, ◌%◌, ◌^◌, ◌==◌, if◌then◌else◌, ltb, bit_and, bit_or, bit_xor,
}
use burnout_3_recompiled.Recompiler.Decoder.{R5900Instruction, R5900DecodedInstruction}
use burnout_3_recompiled.Recompiler.Executor.{
  R5900IrGprValue, R5900IrExecutionState, gpr_at, fpr_at, zero_value, normalize_zero,
}
use burnout_3_recompiled.Recompiler.Executor.Words.{sext32, add_halves}

-- Register zero is not written. The other registers keep their upper 64 bits.
pub write_register : R5900IrExecutionState → ℕ → ℕ → R5900IrExecutionState
write_register s index value = if index == 0 then s else record s {
  gpr = set s.gpr index (record { low64 = value; high64 = (gpr_at s index).high64 });
}

pub sext16_to_32 : ℕ → ℕ
sext16_to_32 x = if ltb x (2 ^ 15) then x else x + 2 ^ 32 - 2 ^ 16

module _ (f32_add : ℕ → ℕ → ℕ) (d : R5900DecodedInstruction) (s : R5900IrExecutionState) where
  abbrev low : ℕ → ℕ
  low index = (gpr_at s index).low64

  pub isa_step : R5900Instruction → R5900IrExecutionState
  unfolding write_register sext16_to_32
  isa_step R5900Instruction.addu = write_register s d.rd (sext32 ((low d.rs + low d.rt) % 2 ^ 32))
  isa_step R5900Instruction.addiu =
      write_register s d.rt (sext32 ((low d.rs + sext16_to_32 d.immediate) % 2 ^ 32))
  isa_step R5900Instruction.ori = write_register s d.rt (bit_or (low d.rs) d.immediate)
  isa_step R5900Instruction.andi = write_register s d.rt (bit_and (low d.rs) d.immediate)
  isa_step R5900Instruction.lui = write_register s d.rt (sext32 (d.immediate * 2 ^ 16))
  isa_step R5900Instruction.mthi = record s { hi = low d.rs }
  isa_step R5900Instruction.mtlo = record s { lo = low d.rs }
  isa_step R5900Instruction.mthi1 = record s { hi1 = low d.rs }
  isa_step R5900Instruction.mtlo1 = record s { lo1 = low d.rs }
  isa_step R5900Instruction.mtsah = record s { sa = 2 * bit_xor (low d.rs % 8) (d.immediate % 8) }
  isa_step R5900Instruction.padduw =
      if d.rd == 0
      then s
      else let a = gpr_at s d.rs in
        let b = gpr_at s d.rt in
        record s {
          gpr = set s.gpr d.rd (record {
            low64 = add_halves a.low64 b.low64;
            high64 = add_halves a.high64 b.high64;
          });
        }
  isa_step R5900Instruction.mtc1 = record s { fpr = set s.fpr d.rd (low d.rt % 2 ^ 32) }
  isa_step R5900Instruction.ctc1 = record s { fcr31 = low d.rt % 2 ^ 32 }
  isa_step R5900Instruction.adda_s = record s { fp_acc = f32_add (fpr_at s d.rd) (fpr_at s d.rt) }
  isa_step _ = s
