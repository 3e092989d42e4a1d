-- ===== src/Recompiler/Elf.antt =====
-- src/recompiler/ps2_elf.cpp: the ELF parser. A file is the list of its bytes; `std::size_t` has 64
-- bits. The size of a program header table is at most 65535 * 32, so the source's test for overflow
-- of that product is false, and is kept.
mod Types
pub mod Reads
pub mod Sound
pub use Types.{Ps2ElfError, Ps2ElfLoadSegment, Ps2ElfImage, Ps2ElfParseResult}
use burnout_3_recompiled.Common.{
  ℕ, zero, suc, Bool, List, [], ◌∷◌, ◌++◌, ◌+◌, ◌-◌, ◌*◌, ◌/◌, ◌^◌, ◌==◌, ◌&&◌, ◌||◌, not, leb, ltb,
  if◌then◌else◌, bit_or, shl, length, get_or, take, drop,
}
use Types.{Ps2ElfError as Error}
use Types.Ps2ElfParseResult.{parsed, failed, fault}

infixl 5 ◌>>=◌ ◌>>◌
abbrev pub ◌>>=◌ {ℓ κ} :
    {A : Type ℓ} {B : Type κ}
    → Ps2ElfParseResult A
    → (A → Ps2ElfParseResult B)
    → Ps2ElfParseResult B
parsed a >>= k = k a
failed e >>= k = failed e
fault >>= k = fault

abbrev pub ◌>>◌ {ℓ} :
    {B : Type ℓ} → Ps2ElfParseResult (Unit {0}) → Ps2ElfParseResult B → Ps2ElfParseResult B
m >> k = m >>= λ _. k

-- `if (wrong) return fail(error);`
abbrev pub reject : Bool → Ps2ElfError → Ps2ElfParseResult (Unit {0})
reject wrong error = if wrong then failed error else parsed tt

abbrev pub header_size : ℕ
header_size = 52

abbrev pub program_header_size : ℕ
program_header_size = 32

abbrev pub pt_load : ℕ
pt_load = 1

-- `bytes[offset]`.
unfoldable pub byte_at : List ℕ → ℕ → Ps2ElfParseResult ℕ
byte_at bytes offset = if ltb offset (length bytes) then parsed (get_or bytes offset 0) else fault

unfoldable pub read_u16 : List ℕ → ℕ → Ps2ElfParseResult ℕ
unfolding byte_at
read_u16 bytes offset = do
  a ← byte_at bytes offset
  b ← byte_at bytes (offset + 1)
  parsed (bit_or a (shl b 8))

unfoldable pub read_u32 : List ℕ → ℕ → Ps2ElfParseResult ℕ
unfolding byte_at
read_u32 bytes offset = do
  a ← byte_at bytes offset
  b ← byte_at bytes (offset + 1)
  c ← byte_at bytes (offset + 2)
  d ← byte_at bytes (offset + 3)
  parsed (bit_or (bit_or (bit_or a (shl b 8)) (shl c 16)) (shl d 24))

unfoldable pub range_fits : ℕ → ℕ → ℕ → Bool
range_fits offset length total = leb offset total && leb length (total - offset)

abbrev pub no_segment : Ps2ElfLoadSegment
no_segment = record {
  file_offset = 0;
  virtual_address = 0;
  physical_address = 0;
  file_size = 0;
  memory_size = 0;
  flags = 0;
  alignment = 0;
}

unfoldable pub segment_file_bytes : Ps2ElfImage → ℕ → List ℕ
segment_file_bytes image index =
    if leb (length image.load_segments) index
    then []
    else let segment = get_or image.load_segments index no_segment in
      take segment.file_size (drop segment.file_offset image.bytes)

unfoldable pub read_segment : List ℕ → ℕ → Ps2ElfParseResult Ps2ElfLoadSegment
read_segment bytes base = do
  file_offset ← read_u32 bytes (base + 4)
  virtual_address ← read_u32 bytes (base + 8)
  physical_address ← read_u32 bytes (base + 12)
  file_size ← read_u32 bytes (base + 16)
  memory_size ← read_u32 bytes (base + 20)
  flags ← read_u32 bytes (base + 24)
  alignment ← read_u32 bytes (base + 28)
  parsed (record {
    file_offset = file_offset;
    virtual_address = virtual_address;
    physical_address = physical_address;
    file_size = file_size;
    memory_size = memory_size;
    flags = flags;
    alignment = alignment;
  })

unfoldable pub check_segment : List ℕ → Ps2ElfLoadSegment → Ps2ElfParseResult (Unit {0})
unfolding range_fits
check_segment bytes segment = do
  reject (ltb segment.memory_size segment.file_size) Error.segment_memory_too_small
  reject (not (range_fits segment.file_offset segment.file_size (length bytes)))
      Error.segment_out_of_bounds

-- The loop over the program headers from index `i`, with `left` headers to go.
unfoldable pub read_segments :
    List ℕ → ℕ → ℕ → ℕ → List Ps2ElfLoadSegment → Ps2ElfParseResult (List Ps2ElfLoadSegment)
read_segments bytes phoff zero i segments = parsed segments
read_segments bytes phoff (suc left) i segments =
    let base = phoff + i * program_header_size in
    read_u32 bytes (base + 0) >>= λ program_type.
    let skip = read_segments bytes phoff left (i + 1) segments in
    if not (program_type == pt_load)
    then skip
    else read_segment bytes base >>= λ segment.
        check_segment bytes segment
        >> read_segments bytes phoff left (i + 1) (segments ++ segment ∷ [])

-- The identification bytes.
unfoldable pub check_ident : List ℕ → Ps2ElfParseResult (Unit {0})
unfolding byte_at
check_ident bytes = do
  a ← byte_at bytes 0
  b ← byte_at bytes 1
  c ← byte_at bytes 2
  d ← byte_at bytes 3
  reject (not (a == 0x7f) || (not (b == b'E') || (not (c == b'L') || not (d == b'F'))))
      Error.bad_magic
  class ← byte_at bytes 4
  reject (not (class == 1)) Error.unsupported_class
  endian ← byte_at bytes 5
  reject (not (endian == 1)) Error.unsupported_endian
  version ← byte_at bytes 6
  reject (not (version == 1)) Error.unsupported_ident_version

unfoldable pub parse_ps2_elf : List ℕ → Ps2ElfParseResult Ps2ElfImage
parse_ps2_elf bytes = do
  reject (ltb (length bytes) header_size) Error.too_small
  check_ident bytes
  type ← read_u16 bytes 16
  machine ← read_u16 bytes 18
  version ← read_u32 bytes 20
  entry_point ← read_u32 bytes 24
  phoff ← read_u32 bytes 28
  ehsize ← read_u16 bytes 40
  phentsize ← read_u16 bytes 42
  phnum ← read_u16 bytes 44
  reject (not (type == 2)) Error.unsupported_type
  reject (not (machine == 8)) Error.unsupported_machine
  reject (not (version == 1)) Error.unsupported_version
  reject (not (ehsize == header_size)) Error.invalid_header_size
  reject (not (phentsize == program_header_size)) Error.invalid_program_header_size
  reject (ltb ((2 ^ 64 - 1) / program_header_size) phnum) Error.program_header_table_out_of_bounds
  reject (not (range_fits phoff (phnum * program_header_size) (length bytes)))
      Error.program_header_table_out_of_bounds
  segments ← read_segments bytes phoff phnum 0 []
  parsed (record {
    entry_point = entry_point;
    program_header_count = phnum;
    load_segments = segments;
    bytes = bytes;
  })
