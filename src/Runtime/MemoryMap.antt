-- ===== src/Runtime/MemoryMap.antt =====
-- src/runtime/ps2_memory_map.cpp: a map built from the load segments of an image, and its accesses.
-- The two overloads of `translate` find the same span. Whether the host grants the backing store of
-- a region of a given size is the parameter `can_allocate`.
mod Types
pub mod Spans
pub mod Writes
pub mod Build
pub mod Contents
pub mod Bytes
pub mod Words
pub mod Halfwords
pub use Types.{
  Ps2MemoryMapBuildError, Ps2MemoryRegion, BackingRegion, Ps2MemoryMap, PendingRegion, Span,
  BuildResult,
}
use burnout_3_recompiled.Common.{
  ℕ, zero, suc, Bool, true, false, Option, some, none, List, [], ◌∷◌, ◌++◌, ◌+◌, ◌-◌, ◌*◌, ◌/◌, ◌^◌,
  ◌==◌, ◌&&◌, not, leb, ltb, if◌then◌else◌, bit_and, bit_or, shl, shr, u8, u16, u32, length, get_or,
  set, replicate,
}
use burnout_3_recompiled.Recompiler.Elf.{Ps2ElfLoadSegment, Ps2ElfImage, segment_file_bytes}
use Types.{Ps2MemoryMapBuildError as Error}
use Types.BuildResult.{built, failed}

infixl 5 ◌>>=◌
abbrev pub ◌>>=◌ {ℓ κ} :
    {A : Type ℓ} {B : Type κ} → BuildResult A → (A → BuildResult B) → BuildResult B
built a >>= k = k a
failed e >>= k = failed e

abbrev pub guest_address_space_size : ℕ
guest_address_space_size = 2 ^ 32

abbrev pub region_end : Ps2MemoryRegion → ℕ
region_end region = region.guest_base + region.size

unfoldable pub access_range_fits : ℕ → ℕ → Bool
access_range_fits address length =
    if ltb guest_address_space_size length
    then false
    else leb (address + length) guest_address_space_size

-- The loop over the load segments, from index `i`.
unfoldable pub collect : Ps2ElfImage → List Ps2ElfLoadSegment → ℕ → BuildResult (List PendingRegion)
collect elf [] i = built []
collect elf (segment ∷ rest) i =
    let later = collect elf rest (i + 1) in
    if segment.memory_size == 0
    then later
    else if ltb guest_address_space_size (segment.virtual_address + segment.memory_size)
    then failed Error.address_overflow
    else if not (length (segment_file_bytes elf i) == segment.file_size)
    then failed Error.segment_payload_mismatch
    else later >>= λ pending. built (
        record {
          metadata = record {
            guest_base = segment.virtual_address;
            size = segment.memory_size;
            flags = segment.flags;
          };
          file_bytes = segment_file_bytes elf i;
        }
        ∷ pending)

-- `std::sort` by guest base.
unfoldable pub insert_pending : PendingRegion → List PendingRegion → List PendingRegion
insert_pending item [] = item ∷ []
insert_pending item (head ∷ rest) =
    if leb item.metadata.guest_base head.metadata.guest_base
    then item ∷ head ∷ rest
    else head ∷ insert_pending item rest

unfoldable pub sort_pending : List PendingRegion → List PendingRegion
unfolding insert_pending
sort_pending [] = []
sort_pending (item ∷ rest) = insert_pending item (sort_pending rest)

-- Does a region begin before the end of the one in front of it?
unfoldable pub has_overlap : List PendingRegion → Bool
has_overlap [] = false
has_overlap (a ∷ []) = false
has_overlap (a ∷ b ∷ rest) =
    let later = has_overlap (b ∷ rest) in
    if ltb b.metadata.guest_base (region_end a.metadata) then true else later

-- `std::copy` to the front of the zeroed store.
unfoldable pub copy_front : List ℕ → List ℕ → List ℕ
copy_front [] store = store
copy_front (b ∷ bytes) [] = []
copy_front (b ∷ bytes) (z ∷ store) = b ∷ copy_front bytes store

unfoldable pub allocate : (ℕ → Bool) → List PendingRegion → BuildResult (List BackingRegion)
unfolding copy_front
allocate can_allocate [] = built []
allocate can_allocate (item ∷ rest) =
    let later = allocate can_allocate rest in
    if can_allocate item.metadata.size
    then (later >>= λ backing. built (
        record {
          metadata = item.metadata;
          bytes = copy_front item.file_bytes (replicate item.metadata.size 0);
        }
        ∷ backing))
    else failed Error.allocation_failed

abbrev pub metadata_of : List BackingRegion → List Ps2MemoryRegion
metadata_of [] = []
metadata_of (region ∷ rest) = region.metadata ∷ metadata_of rest

unfoldable pub from_elf : (ℕ → Bool) → Ps2ElfImage → BuildResult Ps2MemoryMap
unfolding collect sort_pending has_overlap allocate
from_elf can_allocate elf = collect elf elf.load_segments 0 >>= λ collected.
    let pending = sort_pending collected in
    if has_overlap pending
    then failed Error.overlapping_regions
    else allocate can_allocate pending >>= λ backing.
        built (record { regions = metadata_of backing; backing_regions = backing })

-- The loop over the backing regions, from index `i`.
unfoldable pub find_span : List BackingRegion → ℕ → ℕ → ℕ → Option Span
find_span [] address access_end i = none
find_span (region ∷ rest) address access_end i =
    let later = find_span rest address access_end (i + 1) in
    let base = region.metadata.guest_base in
    if leb base address && leb access_end (region_end region.metadata)
    then some (record { region = i; offset = address - base })
    else later

unfoldable pub translate : Ps2MemoryMap → ℕ → ℕ → Option Span
unfolding access_range_fits find_span
translate memory address length =
    if access_range_fits address length
    then find_span memory.backing_regions address (address + length) 0
    else none

abbrev pub no_region : BackingRegion
no_region = record { metadata = record { guest_base = 0; size = 0; flags = 0 }; bytes = [] }

-- `(*bytes)[k]`, read and written.
unfoldable pub span_byte : Ps2MemoryMap → Span → ℕ → ℕ
span_byte memory span k =
    get_or (get_or memory.backing_regions span.region no_region).bytes (span.offset + k) 0

unfoldable pub set_span_byte : Span → ℕ → ℕ → Ps2MemoryMap → Ps2MemoryMap
set_span_byte span k value memory =
    let region = get_or memory.backing_regions span.region no_region in
    record memory {
      backing_regions =
          set memory.backing_regions span.region
            (record region { bytes = set region.bytes (span.offset + k) value });
    }

unfoldable pub read_u8 : Ps2MemoryMap → ℕ → Option ℕ
unfolding translate span_byte
read_u8 memory address = elim (translate memory address 1) [
  | none ↦ none
  | some span ↦ some (span_byte memory span 0)
]

unfoldable pub read_u16 : Ps2MemoryMap → ℕ → Option ℕ
unfolding translate span_byte
read_u16 memory address = elim (translate memory address 2) [
  | none ↦ none
  | some span ↦ some (bit_or (span_byte memory span 0) (shl (span_byte memory span 1) 8))
]

-- The value of four bytes, lowest first.
unfoldable pub join_u32 : ℕ → ℕ → ℕ → ℕ → ℕ
join_u32 a b c d = bit_or (bit_or (bit_or a (shl b 8)) (shl c 16)) (shl d 24)

unfoldable pub read_u32 : Ps2MemoryMap → ℕ → Option ℕ
unfolding translate span_byte join_u32
read_u32 memory address = elim (translate memory address 4) [
  | none ↦ none
  | some span ↦ some (
      join_u32 (span_byte memory span 0) (span_byte memory span 1) (span_byte memory span 2)
        (span_byte memory span 3))
]

-- A write returns the map that it leaves and whether it was done.
unfoldable pub write_u8 : Ps2MemoryMap → ℕ → ℕ → Ps2MemoryMap × Bool
unfolding translate set_span_byte
write_u8 memory address value = elim (translate memory address 1) [
  | none ↦ (memory, false)
  | some span ↦ (set_span_byte span 0 value memory, true)
]

unfoldable pub write_u16 : Ps2MemoryMap → ℕ → ℕ → Ps2MemoryMap × Bool
unfolding translate set_span_byte
write_u16 memory address value = elim (translate memory address 2) [
  | none ↦ (memory, false)
  | some span ↦
      let m₀ = set_span_byte span 0 (u8 (bit_and value 0xff)) memory in
      let m₁ = set_span_byte span 1 (u8 (bit_and (shr value 8) 0xff)) m₀ in (m₁, true)
]

unfoldable pub write_u32 : Ps2MemoryMap → ℕ → ℕ → Ps2MemoryMap × Bool
unfolding translate set_span_byte
write_u32 memory address value = elim (translate memory address 4) [
  | none ↦ (memory, false)
  | some span ↦
      let m₀ = set_span_byte span 0 (u8 (bit_and value 0xff)) memory in
      let m₁ = set_span_byte span 1 (u8 (bit_and (shr value 8) 0xff)) m₀ in
      let m₂ = set_span_byte span 2 (u8 (bit_and (shr value 16) 0xff)) m₁ in
      let m₃ = set_span_byte span 3 (u8 (bit_and (shr value 24) 0xff)) m₂ in (m₃, true)
]
