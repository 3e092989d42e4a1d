-- ===== src/Recompiler/Decoder.antt =====
-- src/recompiler/r5900_decoder.cpp. A function that mutates `decoded` returns the changed record.
mod Types
pub mod Attributes
pub mod Fields
pub mod Target
pub use Types.{R5900Instruction, R5900InstructionClass, R5900MemoryWidth, R5900DecodedInstruction}
use burnout_3_recompiled.Common.{
  ℕ, Bool, true, false, Option, some, none, List, [], ◌∷◌, ◌+◌, ◌*◌, u8, u16, u32, shl, shr,
  i32_of_i16, bit_and, bit_or, if◌then◌else◌, ◌==◌, switch,
}
use Types.{R5900InstructionClass as Class, R5900MemoryWidth as Width}
use Types.R5900Instruction.{
  unknown, nop, sll, srl, sra, sllv, srlv, srav, jr, jalr, syscall, break, sync, mfhi, mthi, mflo,
  mtlo, mthi1, mtlo1, mtsah, mult, multu, div, divu, add, addu, sub, subu, and, or, xor, nor, slt,
  sltu, padduw, mtc1, ctc1, adda_s, bltz, bgez, bltzl, bgezl, bltzal, bgezal, bltzall, bgezall, j,
  jal, beq, bne, blez, bgtz, addi, addiu, slti, sltiu, andi, ori, xori, lui, beql, bnel, blezl,
  bgtzl, daddi, daddiu, ldl, ldr, lq, sq, lb, lh, lwl, lw, lbu, lhu, lwr, lwu, sb, sh, swl, sw, sdl,
  sdr, swr, lwc1, lqc2, ld, swc1, sqc2, sd,
}

set_instruction :
    R5900DecodedInstruction
    → R5900Instruction
    → R5900InstructionClass
    → R5900MemoryWidth
    → R5900DecodedInstruction
set_instruction d i c w = record d { instruction = i; instruction_class = c; memory_width = w }

mark_branch : R5900DecodedInstruction → R5900Instruction → Bool → Bool → R5900DecodedInstruction
unfolding set_instruction
mark_branch d i likely link =
    let d' = set_instruction d i Class.branch Width.none in
    record d' { has_delay_slot = true; likely = likely; link = link }

mark_jump : R5900DecodedInstruction → R5900Instruction → Bool → R5900DecodedInstruction
unfolding set_instruction
mark_jump d i link =
    let d' = set_instruction d i Class.jump Width.none in
    record d' { has_delay_slot = true; link = link }

decode_special : R5900DecodedInstruction → R5900DecodedInstruction
unfolding set_instruction mark_jump
decode_special d =
    if d.raw == 0
    then set_instruction d nop Class.alu Width.none
    else switch d.funct
        ((0x00, set_instruction d sll Class.alu Width.none)
          ∷ (0x02, set_instruction d srl Class.alu Width.none)
          ∷ (0x03, set_instruction d sra Class.alu Width.none)
          ∷ (0x04, set_instruction d sllv Class.alu Width.none)
          ∷ (0x06, set_instruction d srlv Class.alu Width.none)
          ∷ (0x07, set_instruction d srav Class.alu Width.none)
          ∷ (0x08, mark_jump d jr false)
          ∷ (0x09, mark_jump d jalr true)
          ∷ (0x0c, set_instruction d syscall Class.system Width.none)
          ∷ (0x0d, set_instruction d break Class.system Width.none)
          ∷ (0x0f, set_instruction d sync Class.alu Width.none)
          ∷ (0x10, set_instruction d mfhi Class.alu Width.none)
          ∷ (0x11, set_instruction d mthi Class.alu Width.none)
          ∷ (0x12, set_instruction d mflo Class.alu Width.none)
          ∷ (0x13, set_instruction d mtlo Class.alu Width.none)
          ∷ (0x18, set_instruction d mult Class.alu Width.none)
          ∷ (0x19, set_instruction d multu Class.alu Width.none)
          ∷ (0x1a, set_instruction d div Class.alu Width.none)
          ∷ (0x1b, set_instruction d divu Class.alu Width.none)
          ∷ (0x20, set_instruction d add Class.alu Width.none)
          ∷ (0x21, set_instruction d addu Class.alu Width.none)
          ∷ (0x22, set_instruction d sub Class.alu Width.none)
          ∷ (0x23, set_instruction d subu Class.alu Width.none)
          ∷ (0x24, set_instruction d and Class.alu Width.none)
          ∷ (0x25, set_instruction d or Class.alu Width.none)
          ∷ (0x26, set_instruction d xor Class.alu Width.none)
          ∷ (0x27, set_instruction d nor Class.alu Width.none)
          ∷ (0x2a, set_instruction d slt Class.alu Width.none)
          ∷ (0x2b, set_instruction d sltu Class.alu Width.none)
          ∷ [])
        d

decode_regimm : R5900DecodedInstruction → R5900DecodedInstruction
unfolding set_instruction mark_branch
decode_regimm d =
    switch d.rt
      ((0x00, mark_branch d bltz false false)
        ∷ (0x01, mark_branch d bgez false false)
        ∷ (0x02, mark_branch d bltzl true false)
        ∷ (0x03, mark_branch d bgezl true false)
        ∷ (0x10, mark_branch d bltzal false true)
        ∷ (0x11, mark_branch d bgezal false true)
        ∷ (0x12, mark_branch d bltzall true true)
        ∷ (0x13, mark_branch d bgezall true true)
        ∷ (0x19, set_instruction d mtsah Class.alu Width.none)
        ∷ [])
      d

decode_cop1 : R5900DecodedInstruction → R5900DecodedInstruction
unfolding set_instruction
decode_cop1 d =
    switch d.rs
      ((0x04, set_instruction d mtc1 Class.alu Width.none)
        ∷ (0x06, set_instruction d ctc1 Class.alu Width.none)
        ∷ (0x10, (if d.funct == 0x18 then set_instruction d adda_s Class.alu Width.none else d))
        ∷ [])
      d

decode_mmi : R5900DecodedInstruction → R5900DecodedInstruction
unfolding set_instruction
decode_mmi d =
    switch d.funct
      ((0x11, set_instruction d mthi1 Class.alu Width.none)
        ∷ (0x13, set_instruction d mtlo1 Class.alu Width.none)
        ∷ (0x28, (if d.sa == 0x10 then set_instruction d padduw Class.alu Width.none else d))
        ∷ [])
      d

-- The fields of a word, before an instruction is chosen.
word_fields : ℕ → R5900DecodedInstruction
word_fields word = record {
  raw = word;
  instruction = unknown;
  instruction_class = Class.unknown;
  memory_width = Width.none;
  primary_opcode = u8 (bit_and (shr word 26) 0x3f);
  rs = u8 (bit_and (shr word 21) 0x1f);
  rt = u8 (bit_and (shr word 16) 0x1f);
  rd = u8 (bit_and (shr word 11) 0x1f);
  sa = u8 (bit_and (shr word 6) 0x1f);
  funct = u8 (bit_and word 0x3f);
  immediate = u16 (bit_and word 0xffff);
  target = bit_and word 0x03ff_ffff;
  has_delay_slot = false;
  link = false;
  likely = false;
}

decode_opcode : R5900DecodedInstruction → R5900DecodedInstruction
unfolding set_instruction mark_jump mark_branch
decode_opcode d =
    switch d.primary_opcode
      ((0x00, decode_special d)
        ∷ (0x01, decode_regimm d)
        ∷ (0x02, mark_jump d j false)
        ∷ (0x03, mark_jump d jal true)
        ∷ (0x04, mark_branch d beq false false)
        ∷ (0x05, mark_branch d bne false false)
        ∷ (0x06, mark_branch d blez false false)
        ∷ (0x07, mark_branch d bgtz false false)
        ∷ (0x08, set_instruction d addi Class.alu Width.none)
        ∷ (0x09, set_instruction d addiu Class.alu Width.none)
        ∷ (0x0a, set_instruction d slti Class.alu Width.none)
        ∷ (0x0b, set_instruction d sltiu Class.alu Width.none)
        ∷ (0x0c, set_instruction d andi Class.alu Width.none)
        ∷ (0x0d, set_instruction d ori Class.alu Width.none)
        ∷ (0x0e, set_instruction d xori Class.alu Width.none)
        ∷ (0x0f, set_instruction d lui Class.alu Width.none)
        ∷ (0x11, decode_cop1 d)
        ∷ (0x14, mark_branch d beql true false)
        ∷ (0x15, mark_branch d bnel true false)
        ∷ (0x16, mark_branch d blezl true false)
        ∷ (0x17, mark_branch d bgtzl true false)
        ∷ (0x18, set_instruction d daddi Class.alu Width.none)
        ∷ (0x19, set_instruction d daddiu Class.alu Width.none)
        ∷ (0x1a, set_instruction d ldl Class.load Width.doubleword64)
        ∷ (0x1b, set_instruction d ldr Class.load Width.doubleword64)
        ∷ (0x1c, decode_mmi d)
        ∷ (0x1e, set_instruction d lq Class.load Width.quadword128)
        ∷ (0x1f, set_instruction d sq Class.store Width.quadword128)
        ∷ (0x20, set_instruction d lb Class.load Width.byte)
        ∷ (0x21, set_instruction d lh Class.load Width.halfword)
        ∷ (0x22, set_instruction d lwl Class.load Width.word)
        ∷ (0x23, set_instruction d lw Class.load Width.word)
        ∷ (0x24, set_instruction d lbu Class.load Width.byte)
        ∷ (0x25, set_instruction d lhu Class.load Width.halfword)
        ∷ (0x26, set_instruction d lwr Class.load Width.word)
        ∷ (0x27, set_instruction d lwu Class.load Width.word)
        ∷ (0x28, set_instruction d sb Class.store Width.byte)
        ∷ (0x29, set_instruction d sh Class.store Width.halfword)
        ∷ (0x2a, set_instruction d swl Class.store Width.word)
        ∷ (0x2b, set_instruction d sw Class.store Width.word)
        ∷ (0x2c, set_instruction d sdl Class.store Width.doubleword64)
        ∷ (0x2d, set_instruction d sdr Class.store Width.doubleword64)
        ∷ (0x2e, set_instruction d swr Class.store Width.word)
        ∷ (0x31, set_instruction d lwc1 Class.load Width.word)
        ∷ (0x36, set_instruction d lqc2 Class.load Width.quadword128)
        ∷ (0x37, set_instruction d ld Class.load Width.doubleword64)
        ∷ (0x39, set_instruction d swc1 Class.store Width.word)
        ∷ (0x3e, set_instruction d sqc2 Class.store Width.quadword128)
        ∷ (0x3f, set_instruction d sd Class.store Width.doubleword64)
        ∷ [])
      d

unfoldable pub decode_r5900 : ℕ → R5900DecodedInstruction
unfolding word_fields decode_opcode decode_special decode_regimm decode_cop1 decode_mmi
decode_r5900 word = decode_opcode (word_fields word)

unfoldable pub signed_immediate : R5900DecodedInstruction → ℕ
signed_immediate d = i32_of_i16 d.immediate

unfoldable pub is_branch : R5900DecodedInstruction → Bool
is_branch d = elim d.instruction_class [ Class.branch ↦ true | _ ↦ false ]

unfoldable pub is_jump : R5900DecodedInstruction → Bool
is_jump d = elim d.instruction_class [ Class.jump ↦ true | _ ↦ false ]

is_direct : R5900Instruction → Bool
is_direct i = elim i [ j ↦ true | jal ↦ true | _ ↦ false ]

-- The branch's target is relative to the delay slot, the jump's lies in its 256 MB region.
unfoldable pub direct_target : R5900DecodedInstruction → ℕ → Option ℕ
unfolding is_branch is_direct signed_immediate
direct_target d pc =
    let base = u32 (pc + 4) in
    if is_branch d
    then some (u32 (base + u32 (signed_immediate d * 4)))
    else if is_direct d.instruction
    then some (bit_or (bit_and base 0xf000_0000) (u32 (shl (bit_and d.target 0x03ff_ffff) 2)))
    else none
