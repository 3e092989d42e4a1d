-- ===== src/Recompiler/Decoder/Fields.antt =====
-- What decoding a word gives: the word's fields, and an instruction with the table's attributes.
use burnout_3_recompiled.Common.{
  ℕ, ◌≡◌, refl, false, ◌+◌, ◌*◌, ◌/◌, ◌<◌, ◌^◌, ◌==◌, arith, if_both, switch-All, bit_and_mask,
}
use burnout_3_recompiled.Recompiler.Decoder.{
  R5900DecodedInstruction, decode_special, decode_regimm, decode_cop1, decode_mmi, word_fields,
  decode_opcode, decode_r5900,
}
use burnout_3_recompiled.Recompiler.Decoder.Attributes.{
  class_of, width_of, has_delay_slot_of, links, is_likely,
}

-- The record `e` has the same fields of the word as `d`.
abbrev pub SameFields : R5900DecodedInstruction → R5900DecodedInstruction → Type 0
SameFields d e =
    (e.raw ≡ d.raw)
    × (e.primary_opcode ≡ d.primary_opcode)
    × (e.rs ≡ d.rs)
    × (e.rt ≡ d.rt)
    × (e.rd ≡ d.rd)
    × (e.sa ≡ d.sa)
    × (e.funct ≡ d.funct)
    × (e.immediate ≡ d.immediate)
    × (e.target ≡ d.target)

-- The attributes of `e` are those of its instruction in the table.
abbrev pub HasAttributes : R5900DecodedInstruction → Type 0
HasAttributes e =
    (e.instruction_class ≡ class_of e.instruction)
    × (e.memory_width ≡ width_of e.instruction)
    × (e.has_delay_slot ≡ has_delay_slot_of e.instruction)
    × (e.link ≡ links e.instruction)
    × (e.likely ≡ is_likely e.instruction)

abbrev Completes : R5900DecodedInstruction → R5900DecodedInstruction → Type 0
Completes d e = SameFields d e × HasAttributes e

abbrev IsBlank : R5900DecodedInstruction → Type 0
IsBlank d = (d.has_delay_slot ≡ false) × (d.link ≡ false) × (d.likely ≡ false)

module _ (d : R5900DecodedInstruction) (b : IsBlank d) (h : Completes d d) where
  decode_special-Completes : Completes d (decode_special d)
  unfolding decode_special class_of width_of has_delay_slot_of links is_likely
  decode_special-Completes =
      if_both (Completes d) (d.raw == 0) (assumption (refl))
        (switch-All (Completes d) d.funct _ d (assumption (refl, tt)) h)

  decode_regimm-Completes : Completes d (decode_regimm d)
  unfolding decode_regimm class_of width_of has_delay_slot_of links is_likely
  decode_regimm-Completes = switch-All (Completes d) d.rt _ d (assumption (refl, tt)) h

  decode_cop1-Completes : Completes d (decode_cop1 d)
  unfolding decode_cop1 class_of width_of has_delay_slot_of links is_likely
  decode_cop1-Completes =
      switch-All (Completes d) d.rs _ d
        (
          assumption (refl),
          (assumption (refl), (if_both (Completes d) (d.funct == 0x18) (assumption (refl)) h, tt)),
        )
        h

  decode_mmi-Completes : Completes d (decode_mmi d)
  unfolding decode_mmi class_of width_of has_delay_slot_of links is_likely
  decode_mmi-Completes =
      switch-All (Completes d) d.funct _ d
        (
          assumption (refl),
          (assumption (refl), (if_both (Completes d) (d.sa == 0x10) (assumption (refl)) h, tt)),
        )
        h

  decode_opcode-Completes : Completes d (decode_opcode d)
  unfolding decode_opcode class_of width_of has_delay_slot_of links is_likely
  decode_opcode-Completes =
      switch-All (Completes d) d.primary_opcode _ d
        (assumption (
          refl, tt, decode_special-Completes, decode_regimm-Completes, decode_cop1-Completes,
          decode_mmi-Completes,
        ))
        h

decode_r5900-Completes : (word : ℕ) → Completes (word_fields word) (decode_r5900 word)
unfolding decode_r5900 class_of width_of has_delay_slot_of links is_likely
decode_r5900-Completes word =
    decode_opcode-Completes (word_fields word) (assumption (refl)) (assumption (refl))

-- The decoder sets class, width, delay slot, link and likely exactly as the table says.
pub decode_r5900-HasAttributes : (word : ℕ) → HasAttributes (decode_r5900 word)
decode_r5900-HasAttributes word = (decode_r5900-Completes word).1

-- Every field fits the width that the instruction formats give it.
abbrev pub FieldsFit : R5900DecodedInstruction → Type 0
FieldsFit d =
    (d.primary_opcode < 64)
    × (d.rs < 32)
    × (d.rt < 32)
    × (d.rd < 32)
    × (d.sa < 32)
    × (d.funct < 64)
    × (d.immediate < 2 ^ 16)
    × (d.target < 2 ^ 26)

pub encode_register : R5900DecodedInstruction → ℕ
encode_register d =
    d.primary_opcode * 2 ^ 26
    + d.rs * 2 ^ 21
    + d.rt * 2 ^ 16
    + d.rd * 2 ^ 11
    + d.sa * 2 ^ 6
    + d.funct

pub encode_immediate : R5900DecodedInstruction → ℕ
encode_immediate d = d.primary_opcode * 2 ^ 26 + d.rs * 2 ^ 21 + d.rt * 2 ^ 16 + d.immediate

pub encode_jump : R5900DecodedInstruction → ℕ
encode_jump d = d.primary_opcode * 2 ^ 26 + d.target

module _ (word : ℕ) where
  word_fields-FieldsFit : FieldsFit (word_fields word)
  unfolding word_fields
  word_fields-FieldsFit = omega (
    arith,
    bit_and_mask 6 (word / 2 ^ 26),
    bit_and_mask 5 (word / 2 ^ 21),
    bit_and_mask 5 (word / 2 ^ 16),
    bit_and_mask 5 (word / 2 ^ 11),
    bit_and_mask 5 (word / 2 ^ 6),
    bit_and_mask 6 word,
    bit_and_mask 16 word,
    bit_and_mask 26 word,
  )

  -- The fields of the decoded record fit their widths.
  pub decode_r5900-FieldsFit : FieldsFit (decode_r5900 word)
  decode_r5900-FieldsFit = omega (arith, word_fields-FieldsFit, (decode_r5900-Completes word).0)

  word_fields-encode :
      word < 2 ^ 32
      → (encode_register (word_fields word) ≡ word)
        × (encode_immediate (word_fields word) ≡ word)
        × (encode_jump (word_fields word) ≡ word)
  unfolding encode_register encode_immediate encode_jump word_fields
  word_fields-encode h = omega (
    arith,
    bit_and_mask 6 (word / 2 ^ 26),
    bit_and_mask 5 (word / 2 ^ 21),
    bit_and_mask 5 (word / 2 ^ 16),
    bit_and_mask 5 (word / 2 ^ 11),
    bit_and_mask 5 (word / 2 ^ 6),
    bit_and_mask 6 word,
    bit_and_mask 16 word,
    bit_and_mask 26 word,
  )

  -- For a 32-bit word, the decoded record keeps the word, and each of the three instruction formats
  -- puts the word together again from the record's fields.
  pub encode-decode_r5900 :
      word < 2 ^ 32
      → ((decode_r5900 word).raw ≡ word)
        × (encode_register (decode_r5900 word) ≡ word)
        × (encode_immediate (decode_r5900 word) ≡ word)
        × (encode_jump (decode_r5900 word) ≡ word)
  unfolding encode_register encode_immediate encode_jump
  encode-decode_r5900 h =
      omega (arith, word_fields-encode h, (decode_r5900-Completes word).0, raw-word_fields)
    where
      raw-word_fields : (word_fields word).raw ≡ word
      raw-word_fields = unfold word_fields in refl
