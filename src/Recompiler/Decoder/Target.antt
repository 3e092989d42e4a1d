-- ===== src/Recompiler/Decoder/Target.antt =====
-- Where direct branches and jumps go.
use burnout_3_recompiled.Common.{
  ℕ, Option, some, none, ◌≡◌, refl, sym, ◌∙◌, ◌+◌, ◌-◌, ◌*◌, ◌/◌, ◌%◌, ◌<◌, ◌^◌, arith, bit_and,
  bit_or, u32, shl, bit_and_mask, bit_and_high, bit_or_fields, if◌then◌else◌, ltb,
}
use burnout_3_recompiled.Recompiler.Decoder.{
  R5900DecodedInstruction, R5900Instruction, R5900InstructionClass, decode_r5900, direct_target,
  is_branch, is_direct,
}
use burnout_3_recompiled.Recompiler.Decoder.Fields.{
  FieldsFit, decode_r5900-FieldsFit, decode_r5900-HasAttributes,
}
use burnout_3_recompiled.Recompiler.Decoder.Attributes.{class_of}

-- The region of 2 ^ 28 bytes that holds `base`, and a word index inside it.
jump_target_lem :
    (base t : ℕ)
    → base < 2 ^ 32
    → t < 2 ^ 26
    → bit_or (bit_and base 0xf000_0000) (u32 (shl (bit_and t 0x03ff_ffff) 2))
      ≡ base / 2 ^ 28 * 2 ^ 28 + 4 * t
jump_target_lem base t hb ht = ground (
  arith,
  bit_and_mask 26 t,
  bit_and_high 28 4 (base / 2 ^ 28) (base % 2 ^ 28) (omega arith) (omega arith),
  bit_or_fields 28 (base / 2 ^ 28) (4 * t) (omega arith),
)

-- The architecture's rule: a branch adds its signed word offset to the delay slot's address, a
-- jump replaces the low 28 bits of that address, and nothing else has a direct target.
pub data TargetRule : Type 0 where
  relative in_region indirect : TargetRule

unfoldable pub target_rule : R5900Instruction → TargetRule
unfolding class_of
target_rule i = elim (class_of i) [
  | R5900InstructionClass.branch ↦ TargetRule.relative
  | R5900InstructionClass.jump ↦ elim i [
    | R5900Instruction.jr ↦ TargetRule.indirect
    | R5900Instruction.jalr ↦ TargetRule.indirect
    | _ ↦ TargetRule.in_region
  ]
  | _ ↦ TargetRule.indirect
]

unfoldable pub target_of : R5900DecodedInstruction → ℕ → Option ℕ
unfolding target_rule
target_of d pc =
    let slot = (pc + 4) % 2 ^ 32 in
    elim (target_rule d.instruction) [
      | TargetRule.relative ↦ some (
          if ltb d.immediate (2 ^ 15)
          then (slot + 4 * d.immediate) % 2 ^ 32
          else (slot + 2 ^ 32 - 4 * (2 ^ 16 - d.immediate)) % 2 ^ 32)
      | TargetRule.in_region ↦ some (slot / 2 ^ 28 * 2 ^ 28 + 4 * d.target)
      | TargetRule.indirect ↦ none
    ]

-- An instruction of each name, with the class that the architecture gives it.
direct_target-of :
    (d : R5900DecodedInstruction) (pc : ℕ)
    → FieldsFit d
    → (i : R5900Instruction) → d.instruction ≡ i
    → d.instruction_class ≡ class_of i
    → direct_target d pc ≡ target_of d pc
unfolding direct_target target_of target_rule class_of is_branch is_direct
direct_target-of d pc fits R5900Instruction.j ei ec =
    ground (arith, jump_target_lem ((pc + 4) % 2 ^ 32) d.target (omega arith) fits.7)
direct_target-of d pc fits R5900Instruction.jal ei ec =
    ground (arith, jump_target_lem ((pc + 4) % 2 ^ 32) d.target (omega arith) fits.7)
direct_target-of d pc fits _ ei ec = ground arith

-- The decoder's target of a decoded word is the architecture's, wrap-around and sign included, and it
-- is absent exactly where the architecture has none.
pub direct_target-decode_r5900 :
    (word pc : ℕ) → direct_target (decode_r5900 word) pc ≡ target_of (decode_r5900 word) pc
direct_target-decode_r5900 word pc =
    direct_target-of (decode_r5900 word) pc (decode_r5900-FieldsFit word)
      (decode_r5900 word).instruction refl (decode_r5900-HasAttributes word).0

pub target_of_aligned :
    (d : R5900DecodedInstruction) (pc : ℕ) {t : ℕ}
    → FieldsFit d
    → pc % 4 ≡ 0
    → target_of d pc ≡ some t
    → (t % 4 ≡ 0) × (t < 2 ^ 32)
unfolding target_of
target_of_aligned d pc f h e = ground arith

-- The direct target of a word that is decoded at an aligned address, where there is one, is an
-- aligned 32-bit address.
pub direct_target_aligned :
    (word pc : ℕ) {t : ℕ}
    → pc % 4 ≡ 0
    → direct_target (decode_r5900 word) pc ≡ some t
    → (t % 4 ≡ 0) × (t < 2 ^ 32)
direct_target_aligned word pc h e =
    target_of_aligned (decode_r5900 word) pc (decode_r5900-FieldsFit word) h
      (sym (direct_target-decode_r5900 word pc) ∙ e)
