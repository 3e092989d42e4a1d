-- ===== src/Recompiler/Decoder/Types.antt =====
-- src/recompiler/r5900_decoder.h: the instruction names, classes and widths, and the record that
-- the decoder fills.
use burnout_3_recompiled.Common.{ℕ, Bool}

-- `enum class R5900Instruction`.
pub data R5900Instruction : Type 0 where
  unknown nop sll srl sra sllv srlv srav jr jalr syscall break sync mfhi mthi mflo mtlo :
      R5900Instruction
  mthi1 mtlo1 mtsah mult multu div divu add addu sub subu and or xor nor slt sltu padduw :
      R5900Instruction
  mtc1 ctc1 adda_s bltz bgez bltzl bgezl bltzal bgezal bltzall bgezall j jal beq bne blez :
      R5900Instruction
  bgtz addi addiu slti sltiu andi ori xori lui beql bnel blezl bgtzl daddi daddiu ldl ldr :
      R5900Instruction
  lq sq lb lh lwl lw lbu lhu lwr lwu sb sh swl sw sdl sdr swr lwc1 lqc2 ld swc1 sqc2 sd :
      R5900Instruction

pub data R5900InstructionClass : Type 0 where
  unknown alu branch jump load store system : R5900InstructionClass

pub data R5900MemoryWidth : Type 0 where
  none byte halfword word doubleword64 quadword128 : R5900MemoryWidth

-- `struct R5900DecodedInstruction`.
pub record R5900DecodedInstruction : Type 0 where
  pub raw : ℕ
  pub instruction : R5900Instruction
  pub instruction_class : R5900InstructionClass
  pub memory_width : R5900MemoryWidth
  pub primary_opcode : ℕ
  pub rs : ℕ
  pub rt : ℕ
  pub rd : ℕ
  pub sa : ℕ
  pub funct : ℕ
  pub immediate : ℕ
  pub target : ℕ
  pub has_delay_slot : Bool
  pub link : Bool
  pub likely : Bool
