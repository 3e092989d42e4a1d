-- ===== src/Recompiler/Elf/Types.antt =====
-- src/recompiler/ps2_elf.h: the parser's errors, the load segments and the image.
use burnout_3_recompiled.Common.{ℕ, List}

pub data Ps2ElfError : Type 0 where
  none too_small bad_magic unsupported_class unsupported_endian : Ps2ElfError
  unsupported_ident_version unsupported_type unsupported_machine unsupported_version : Ps2ElfError
  invalid_header_size invalid_program_header_size program_header_table_out_of_bounds : Ps2ElfError
  segment_out_of_bounds segment_memory_too_small : Ps2ElfError

pub record Ps2ElfLoadSegment : Type 0 where
  pub file_offset : ℕ
  pub virtual_address : ℕ
  pub physical_address : ℕ
  pub file_size : ℕ
  pub memory_size : ℕ
  pub flags : ℕ
  pub alignment : ℕ

pub record Ps2ElfImage : Type 0 where
  pub entry_point : ℕ
  pub program_header_count : ℕ
  pub load_segments : List Ps2ElfLoadSegment
  pub bytes : List ℕ

-- What a call of the parser does: it returns an image or an error, or it reads outside the span that
-- it was given, which C++ leaves undefined.
pub data Ps2ElfParseResult {ℓ} (A : Type ℓ) : Type ℓ where
  parsed : A → Ps2ElfParseResult A
  failed : Ps2ElfError → Ps2ElfParseResult A
  fault : Ps2ElfParseResult A
