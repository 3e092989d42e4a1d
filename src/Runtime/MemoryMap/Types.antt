-- ===== src/Runtime/MemoryMap/Types.antt =====
-- src/runtime/ps2_memory_map.h: regions and the map.
use burnout_3_recompiled.Common.{ℕ, List}

pub data Ps2MemoryMapBuildError : Type 0 where
  none address_overflow overlapping_regions segment_payload_mismatch : Ps2MemoryMapBuildError
  allocation_failed : Ps2MemoryMapBuildError

pub record Ps2MemoryRegion : Type 0 where
  pub guest_base : ℕ
  pub size : ℕ
  pub flags : ℕ

pub record BackingRegion : Type 0 where
  pub metadata : Ps2MemoryRegion
  pub bytes : List ℕ

pub record Ps2MemoryMap : Type 0 where
  pub regions : List Ps2MemoryRegion
  pub backing_regions : List BackingRegion

pub record PendingRegion : Type 0 where
  pub metadata : Ps2MemoryRegion
  pub file_bytes : List ℕ

-- `std::span`: which backing region it is cut from, and where in that region it begins.
pub record Span : Type 0 where
  pub region : ℕ
  pub offset : ℕ

-- `Ps2MemoryMapBuildResult`, and the results of the steps of building.
pub data BuildResult {ℓ} (A : Type ℓ) : Type ℓ where
  built : A → BuildResult A
  failed : Ps2MemoryMapBuildError → BuildResult A
