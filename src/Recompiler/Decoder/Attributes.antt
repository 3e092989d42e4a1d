-- ===== src/Recompiler/Decoder/Attributes.antt =====
-- The instruction set as a table: for each instruction its class, the width of its memory access,
-- and whether it links or nullifies its delay slot. The decoder is held against this table.
use burnout_3_recompiled.Common.{Bool, true, false}
use burnout_3_recompiled.Recompiler.Decoder.{
  R5900Instruction, R5900InstructionClass, R5900MemoryWidth,
}
use burnout_3_recompiled.Recompiler.Decoder.{
  R5900InstructionClass as Class, R5900MemoryWidth as Width,
}

unfoldable pub class_of : R5900Instruction → R5900InstructionClass
class_of i = elim i [
  | R5900Instruction.unknown ↦ Class.unknown
  | R5900Instruction.bltz ↦ Class.branch
  | R5900Instruction.bgez ↦ Class.branch
  | R5900Instruction.bltzl ↦ Class.branch
  | R5900Instruction.bgezl ↦ Class.branch
  | R5900Instruction.bltzal ↦ Class.branch
  | R5900Instruction.bgezal ↦ Class.branch
  | R5900Instruction.bltzall ↦ Class.branch
  | R5900Instruction.bgezall ↦ Class.branch
  | R5900Instruction.beq ↦ Class.branch
  | R5900Instruction.bne ↦ Class.branch
  | R5900Instruction.blez ↦ Class.branch
  | R5900Instruction.bgtz ↦ Class.branch
  | R5900Instruction.beql ↦ Class.branch
  | R5900Instruction.bnel ↦ Class.branch
  | R5900Instruction.blezl ↦ Class.branch
  | R5900Instruction.bgtzl ↦ Class.branch
  | R5900Instruction.jr ↦ Class.jump
  | R5900Instruction.jalr ↦ Class.jump
  | R5900Instruction.j ↦ Class.jump
  | R5900Instruction.jal ↦ Class.jump
  | R5900Instruction.ldl ↦ Class.load
  | R5900Instruction.ldr ↦ Class.load
  | R5900Instruction.lq ↦ Class.load
  | R5900Instruction.lb ↦ Class.load
  | R5900Instruction.lh ↦ Class.load
  | R5900Instruction.lwl ↦ Class.load
  | R5900Instruction.lw ↦ Class.load
  | R5900Instruction.lbu ↦ Class.load
  | R5900Instruction.lhu ↦ Class.load
  | R5900Instruction.lwr ↦ Class.load
  | R5900Instruction.lwu ↦ Class.load
  | R5900Instruction.lwc1 ↦ Class.load
  | R5900Instruction.lqc2 ↦ Class.load
  | R5900Instruction.ld ↦ Class.load
  | R5900Instruction.sq ↦ Class.store
  | R5900Instruction.sb ↦ Class.store
  | R5900Instruction.sh ↦ Class.store
  | R5900Instruction.swl ↦ Class.store
  | R5900Instruction.sw ↦ Class.store
  | R5900Instruction.sdl ↦ Class.store
  | R5900Instruction.sdr ↦ Class.store
  | R5900Instruction.swr ↦ Class.store
  | R5900Instruction.swc1 ↦ Class.store
  | R5900Instruction.sqc2 ↦ Class.store
  | R5900Instruction.sd ↦ Class.store
  | R5900Instruction.syscall ↦ Class.system
  | R5900Instruction.break ↦ Class.system
  | _ ↦ Class.alu
]

unfoldable pub width_of : R5900Instruction → R5900MemoryWidth
width_of i = elim i [
  | R5900Instruction.lb ↦ Width.byte
  | R5900Instruction.lbu ↦ Width.byte
  | R5900Instruction.sb ↦ Width.byte
  | R5900Instruction.lh ↦ Width.halfword
  | R5900Instruction.lhu ↦ Width.halfword
  | R5900Instruction.sh ↦ Width.halfword
  | R5900Instruction.lwl ↦ Width.word
  | R5900Instruction.lw ↦ Width.word
  | R5900Instruction.lwr ↦ Width.word
  | R5900Instruction.lwu ↦ Width.word
  | R5900Instruction.swl ↦ Width.word
  | R5900Instruction.sw ↦ Width.word
  | R5900Instruction.swr ↦ Width.word
  | R5900Instruction.lwc1 ↦ Width.word
  | R5900Instruction.swc1 ↦ Width.word
  | R5900Instruction.ldl ↦ Width.doubleword64
  | R5900Instruction.ldr ↦ Width.doubleword64
  | R5900Instruction.ld ↦ Width.doubleword64
  | R5900Instruction.sdl ↦ Width.doubleword64
  | R5900Instruction.sdr ↦ Width.doubleword64
  | R5900Instruction.sd ↦ Width.doubleword64
  | R5900Instruction.lq ↦ Width.quadword128
  | R5900Instruction.sq ↦ Width.quadword128
  | R5900Instruction.lqc2 ↦ Width.quadword128
  | R5900Instruction.sqc2 ↦ Width.quadword128
  | _ ↦ Width.none
]

unfoldable pub has_delay_slot_of : R5900Instruction → Bool
unfolding class_of
has_delay_slot_of i = elim (class_of i) [ Class.branch ↦ true | Class.jump ↦ true | _ ↦ false ]

unfoldable pub links : R5900Instruction → Bool
links i = elim i [
  | R5900Instruction.jalr ↦ true
  | R5900Instruction.jal ↦ true
  | R5900Instruction.bltzal ↦ true
  | R5900Instruction.bgezal ↦ true
  | R5900Instruction.bltzall ↦ true
  | R5900Instruction.bgezall ↦ true
  | _ ↦ false
]

unfoldable pub is_likely : R5900Instruction → Bool
is_likely i = elim i [
  | R5900Instruction.bltzl ↦ true
  | R5900Instruction.bgezl ↦ true
  | R5900Instruction.bltzall ↦ true
  | R5900Instruction.bgezall ↦ true
  | R5900Instruction.beql ↦ true
  | R5900Instruction.bnel ↦ true
  | R5900Instruction.blezl ↦ true
  | R5900Instruction.bgtzl ↦ true
  | _ ↦ false
]
