-- ===== src/Tests/Decoder.antt =====
-- Decoding and lowering of single words.
use burnout_3_recompiled.Common.{switch, ℕ, some, ◌<◌, ◌%◌, ◌^◌, arith, ◌≡◌, refl, All}
use burnout_3_recompiled.Recompiler.Decoder.{
  R5900Instruction, decode_r5900, direct_target, is_branch, signed_immediate,
}
use burnout_3_recompiled.Recompiler.Decoder.Fields.{
  HasAttributes, decode_r5900-HasAttributes, encode_register, encode_immediate, encode_jump,
  encode-decode_r5900,
}
use burnout_3_recompiled.Recompiler.Decoder.Target.{
  target_of, direct_target-decode_r5900, direct_target_aligned,
}
use burnout_3_recompiled.Recompiler.Ir.{lower_r5900_instruction}
use burnout_3_recompiled.Recompiler.Ir.Valid.{IsValid, lower_r5900_instruction-IsValid}

-- addiu $1, $0, 5 and beq $0, $0, -1
abbrev addiu_word : ℕ
addiu_word = 0x2401_0005

abbrev beq_word : ℕ
beq_word = 0x1000_ffff

addiu_decodes : (decode_r5900 addiu_word).instruction ≡ R5900Instruction.addiu
unfolding switch decode_r5900
addiu_decodes = refl

padduw_decodes : (decode_r5900 0x7043_1428).instruction ≡ R5900Instruction.padduw
unfolding switch decode_r5900
padduw_decodes = refl

-- A branch to itself.
beq_target : direct_target (decode_r5900 beq_word) 0x10_0000 ≡ some 0x10_0000
unfolding switch decode_r5900 direct_target is_branch signed_immediate
beq_target = refl

decode_r5900-HasAttributes_example : HasAttributes (decode_r5900 addiu_word)
decode_r5900-HasAttributes_example = decode_r5900-HasAttributes addiu_word

encode-decode_r5900_example :
    ((decode_r5900 addiu_word).raw ≡ addiu_word)
    × (encode_register (decode_r5900 addiu_word) ≡ addiu_word)
    × (encode_immediate (decode_r5900 addiu_word) ≡ addiu_word)
    × (encode_jump (decode_r5900 addiu_word) ≡ addiu_word)
encode-decode_r5900_example = encode-decode_r5900 addiu_word (omega arith)

direct_target-decode_r5900_example :
    direct_target (decode_r5900 beq_word) 0x10_0000 ≡ target_of (decode_r5900 beq_word) 0x10_0000
direct_target-decode_r5900_example = direct_target-decode_r5900 beq_word 0x10_0000

direct_target_aligned_example : (0x10_0000 % 4 ≡ 0) × (0x10_0000 < 2 ^ 32)
direct_target_aligned_example = direct_target_aligned beq_word 0x10_0000 refl beq_target

lower_r5900_instruction-IsValid_example :
    All IsValid (lower_r5900_instruction (decode_r5900 addiu_word) 0x10_0000).instructions
lower_r5900_instruction-IsValid_example = lower_r5900_instruction-IsValid addiu_word 0x10_0000
