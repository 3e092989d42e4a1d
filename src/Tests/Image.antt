-- ===== src/Tests/Image.antt =====
-- A small executable with one segment of three instructions and four bytes of zeros after them, and
-- the memory that it is loaded into.
use burnout_3_recompiled.Common.{
  ℕ, Bool, true, false, some, none, ◌≡◌, refl, List, [], ◌∷◌, ◌+◌, ◌-◌, subst, ◌<◌, arith, All,
  length, leb, ltb, ◌&&◌, if◌then◌else◌,
}
use burnout_3_recompiled.Recompiler.Elf.{
  Ps2ElfImage, Ps2ElfParseResult, check_ident, read_u16, read_u32 as image_u32, range_fits,
  read_segments, read_segment, check_segment, parse_ps2_elf, segment_file_bytes,
}
use burnout_3_recompiled.Recompiler.Elf.Reads.{Returns, value}
use burnout_3_recompiled.Recompiler.Elf.Sound.{
  IsImageOf, parse_ps2_elf-IsImageOf, length-segment_file_bytes,
}
use burnout_3_recompiled.Runtime.MemoryMap.{
  Ps2MemoryRegion, Ps2MemoryMap, BuildResult, from_elf, translate, read_u8, read_u32, write_u32,
  write_u16, read_u16 as memory_u16,
}
use burnout_3_recompiled.Runtime.MemoryMap.Build.{Builds, from_elf-IsMap}
use burnout_3_recompiled.Runtime.MemoryMap.Build.Builds.{built_as}
use burnout_3_recompiled.Runtime.MemoryMap.Contents.{loaded_byte, from_elf-loaded_byte}
use burnout_3_recompiled.Runtime.MemoryMap.Spans.{IsMap, translate_within}
use burnout_3_recompiled.Runtime.MemoryMap.Halfwords.{read_u16-write_u16, write_u32_refused}
use burnout_3_recompiled.Runtime.MemoryMap.Words.{byte_of, read_u8-write_u32, read_u32-write_u32}

abbrev pub elf_bytes : List ℕ
elf_bytes =
    127 ∷ 69 ∷ 76 ∷ 70 ∷ 1 ∷ 1 ∷ 1 ∷ 0 ∷ 0 ∷ 0 ∷ 0 ∷ 0 ∷ 0 ∷ 0 ∷ 0 ∷ 0 ∷ 2 ∷ 0 ∷ 8 ∷ 0 ∷ 1 ∷ 0 ∷ 0
    ∷ 0 ∷ 0 ∷ 0 ∷ 16 ∷ 0 ∷ 52 ∷ 0 ∷ 0 ∷ 0 ∷ 0 ∷ 0 ∷ 0 ∷ 0 ∷ 0 ∷ 0 ∷ 0 ∷ 0 ∷ 52 ∷ 0 ∷ 32 ∷ 0 ∷ 1 ∷ 0
    ∷ 0 ∷ 0 ∷ 0 ∷ 0 ∷ 0 ∷ 0 ∷ 1 ∷ 0 ∷ 0 ∷ 0 ∷ 84 ∷ 0 ∷ 0 ∷ 0 ∷ 0 ∷ 0 ∷ 16 ∷ 0 ∷ 0 ∷ 0 ∷ 16 ∷ 0 ∷ 12
    ∷ 0 ∷ 0 ∷ 0 ∷ 16 ∷ 0 ∷ 0 ∷ 0 ∷ 5 ∷ 0 ∷ 0 ∷ 0 ∷ 4 ∷ 0 ∷ 0 ∷ 0 ∷ 5 ∷ 0 ∷ 1 ∷ 36 ∷ 255 ∷ 255 ∷ 0
    ∷ 16 ∷ 0 ∷ 0 ∷ 0 ∷ 0 ∷ []

pub elf_bytes-bytes : All (λ b. b < 256) elf_bytes
elf_bytes-bytes = ground arith

abbrev pub image : Ps2ElfImage
image = record {
  entry_point = 0x10_0000;
  program_header_count = 1;
  load_segments =
      record {
        file_offset = 84;
        virtual_address = 0x10_0000;
        physical_address = 0x10_0000;
        file_size = 12;
        memory_size = 16;
        flags = 5;
        alignment = 4;
      }
      ∷ [];
  bytes = elf_bytes;
}

parses : parse_ps2_elf elf_bytes ≡ Ps2ElfParseResult.parsed image
unfolding parse_ps2_elf check_ident read_u16 read_segments read_segment check_segment range_fits
    image_u32
parses = refl

-- Every allocation is granted.
abbrev pub granted : ℕ → Bool
granted size = true

abbrev pub region : Ps2MemoryRegion
region = record { guest_base = 0x10_0000; size = 16; flags = 5 }

abbrev pub memory : Ps2MemoryMap
memory = record {
  regions = region ∷ [];
  backing_regions =
      record {
        metadata = region;
        bytes = 5 ∷ 0 ∷ 1 ∷ 36 ∷ 255 ∷ 255 ∷ 0 ∷ 16 ∷ 0 ∷ 0 ∷ 0 ∷ 0 ∷ 0 ∷ 0 ∷ 0 ∷ 0 ∷ [];
      }
      ∷ [];
}

loads : from_elf granted image ≡ BuildResult.built memory
unfolding from_elf segment_file_bytes
loads = refl

unbuilt : {P : Ps2MemoryMap → Type 0} {m : Ps2MemoryMap} → Builds P (BuildResult.built m) → P m
unbuilt (built_as h) = h

unparsed :
    {P : Ps2ElfImage → Type 0} {a : Ps2ElfImage} → Returns P (Ps2ElfParseResult.parsed a) → P a
unparsed (value h) = h

image-IsImageOf : IsImageOf elf_bytes image
image-IsImageOf = unparsed (
    subst (Returns (IsImageOf elf_bytes)) parses
      (parse_ps2_elf-IsImageOf elf_bytes elf_bytes-bytes))

pub memory-IsMap : IsMap memory
memory-IsMap = unbuilt (subst (Builds IsMap) loads (from_elf-IsMap image elf_bytes-bytes granted))

-- A word that straddles two instructions.
abbrev written : Ps2MemoryMap
written = (write_u32 memory 0x10_0002 0xdead_beef).0

writes : (write_u32 memory 0x10_0002 0xdead_beef).1 ≡ true
unfolding write_u32
writes = refl

in_place : translate memory 0x10_0004 8 ≡ some (record { region = 0; offset = 4 })
unfolding translate
in_place = refl

parse_ps2_elf-IsImageOf_example : Returns (IsImageOf elf_bytes) (parse_ps2_elf elf_bytes)
parse_ps2_elf-IsImageOf_example = parse_ps2_elf-IsImageOf elf_bytes elf_bytes-bytes

length-segment_file_bytes_example : length (segment_file_bytes image 0) ≡ 12
length-segment_file_bytes_example =
    length-segment_file_bytes elf_bytes image 0 image-IsImageOf (omega arith)

from_elf-IsMap_example : Builds IsMap (from_elf granted image)
from_elf-IsMap_example = from_elf-IsMap image elf_bytes-bytes granted

from_elf-loaded_byte_example :
    Builds
      (λ m. read_u8 m (0x10_0000 + 13) ≡ some (loaded_byte image 0 13))
      (from_elf granted image)
from_elf-loaded_byte_example =
    from_elf-loaded_byte image 0 13 elf_bytes-bytes (omega arith) (omega arith) granted

translate_within_example :
    translate memory (0x10_0004 + 2) 4 ≡ some (record { region = 0; offset = 4 + 2 })
translate_within_example =
    translate_within memory memory-IsMap 0x10_0004 8 {span = record { region = 0; offset = 4 }}
      in_place 2 4 (omega arith) (omega arith)

read_u32-write_u32_example : read_u32 written 0x10_0002 ≡ some 0xdead_beef
read_u32-write_u32_example =
    read_u32-write_u32 memory 0x10_0002 0xdead_beef memory-IsMap (omega arith) writes

read_u8-write_u32_example :
    IsMap written
    × (read_u8 written 0x10_0006 ≡ (
        if leb 0x10_0002 0x10_0006 && ltb 0x10_0006 (0x10_0002 + 4)
        then some (byte_of 0xdead_beef (0x10_0006 - 0x10_0002))
        else read_u8 memory 0x10_0006))
read_u8-write_u32_example =
    read_u8-write_u32 memory 0x10_0002 0xdead_beef 0x10_0006 memory-IsMap writes

half_writes : (write_u16 memory 0x10_000e 0xbeef).1 ≡ true
unfolding write_u16
half_writes = refl

read_u16-write_u16_example :
    memory_u16 (write_u16 memory 0x10_000e 0xbeef).0 0x10_000e ≡ some 0xbeef
read_u16-write_u16_example =
    read_u16-write_u16 memory 0x10_000e 0xbeef memory-IsMap (omega arith) half_writes

-- Only two of the four addresses are mapped.
write_u32_refused_example : write_u32 memory 0x10_000e 1 ≡ elim (read_u32 memory 0x10_000e) [
  | none ↦ (memory, false)
  | some _ ↦ ((write_u32 memory 0x10_000e 1).0, true)
]
write_u32_refused_example = write_u32_refused memory 0x10_000e 1
