-- ===== src/Runtime/MemoryMap/Contents.antt =====
-- What the addresses of a map hold once it has been built from an image.
use burnout_3_recompiled.Common.{
  ℕ, zero, suc, Bool, false, some, ◌≡◌, refl, ap, List, [], ◌∷◌, ◌⊎◌, ◌+◌, ◌<◌, ◌==◌, not, leb, ltb,
  arith, if◌then◌else◌, length, get_or, take, drop, replicate, All, Bool-cases, inl, inr, subst,
}
use burnout_3_recompiled.Recompiler.Elf.{
  Ps2ElfLoadSegment, Ps2ElfImage, segment_file_bytes, no_segment,
}
use burnout_3_recompiled.Runtime.MemoryMap.{
  PendingRegion, metadata_of, no_region, collect, insert_pending, sort_pending, has_overlap,
  copy_front, from_elf, guest_address_space_size,
}
use burnout_3_recompiled.Runtime.MemoryMap.Types.{BuildResult}
use burnout_3_recompiled.Runtime.MemoryMap.Types.BuildResult.{built, failed}
use burnout_3_recompiled.Runtime.MemoryMap.{read_u8, span_byte, translate, access_range_fits}
use burnout_3_recompiled.Runtime.MemoryMap.Spans.{find_span-Holds, base_of}
use burnout_3_recompiled.Runtime.MemoryMap.Build.{
  Builds, built_as, refused, Builds-bind, Builds-map, Builds-if, IsLoadable, backing_of,
  backing_list, allocate-backing_list, All-sort_pending, backing_list-IsOrdered, pending_of,
  collect-IsLoadable,
}

-- A list has an item.
abbrev Has : PendingRegion → List PendingRegion → Type 0
Has item [] = ⊥
Has item (p ∷ ps) = (p ≡ item) ⊎ Has item ps

Has-insert_pending :
    (item p : PendingRegion) (ps : List PendingRegion)
    → Has item (p ∷ ps)
    → Has item (insert_pending p ps)
unfolding insert_pending
Has-insert_pending item p [] h = h
Has-insert_pending item p (q ∷ ps) h =
    elim (Bool-cases (leb p.metadata.guest_base q.metadata.guest_base)) [
      | inl first ↦ rw (first) h
      | inr later ↦ rw (later) (elim h [
        | inl here ↦ inr (Has-insert_pending item p ps (inl here))
        | inr (inl next) ↦ inl next
        | inr (inr there) ↦ inr (Has-insert_pending item p ps (inr there))
      ])
    ]

Has-sort_pending :
    (item : PendingRegion) (ps : List PendingRegion) → Has item ps → Has item (sort_pending ps)
unfolding sort_pending
Has-sort_pending item [] h = h
Has-sort_pending item (p ∷ ps) (inl here) = Has-insert_pending item p (sort_pending ps) (inl here)
Has-sort_pending item (p ∷ ps) (inr there) =
    Has-insert_pending item p (sort_pending ps) (inr (Has-sort_pending item ps there))

All-Has :
    (P : PendingRegion → Type 0) (item : PendingRegion) (ps : List PendingRegion)
    → All P ps
    → Has item ps
    → P item
All-Has P item [] all h = absurd h
All-Has P item (p ∷ ps) all (inl here) = subst P here all.0
All-Has P item (p ∷ ps) all (inr there) = All-Has P item ps all.1 there

-- The position of an item.
Has-at :
    (item : PendingRegion) (ps : List PendingRegion)
    → Has item ps
    → (k : ℕ) × (k < length (backing_list ps))
      × (get_or (backing_list ps) k no_region ≡ backing_of item)
unfolding backing_list
Has-at item [] h = absurd h
Has-at item (p ∷ ps) (inl here) = (0, omega arith, ap backing_of here)
Has-at item (p ∷ ps) (inr there) = let (k, lt, e) = Has-at item ps there in (suc k, omega arith, e)

Builds-any : (r : BuildResult (List PendingRegion)) → Builds (λ _. Unit {0}) r
Builds-any (built ps) = built_as tt
Builds-any (failed e) = refused

Builds-both {ℓ} :
    {A : Type ℓ} {P Q : A → Type 0} {r : BuildResult A}
    → Builds P r
    → Builds Q r
    → Builds (λ a. P a × Q a) r
Builds-both (built_as h) (built_as g) = built_as (h, g)
Builds-both refused refused = refused

module _ (elf : Ps2ElfImage) where
  -- The loop passes over an empty segment, and puts any other in front of what follows.
  collect-Builds :
      {P Q : List PendingRegion → Type 0} (segment : Ps2ElfLoadSegment)
      (rest : List Ps2ElfLoadSegment) (i : ℕ)
      → Builds P (collect elf rest (i + 1))
      → (segment.memory_size ≡ 0 → (ps : List PendingRegion) → P ps → Q ps)
      → ((ps : List PendingRegion) → P ps → Q (pending_of elf segment i ∷ ps))
      → Builds Q (collect elf (segment ∷ rest) i)
  unfolding collect pending_of
  collect-Builds segment rest i later skip push =
      Builds-if (segment.memory_size == 0) (λ none. Builds-map later (skip (ground arith)))
        λ _.
          Builds-if (ltb guest_address_space_size (segment.virtual_address + segment.memory_size))
            (λ _. refused)
            λ _.
              Builds-if (not (length (segment_file_bytes elf i) == segment.file_size))
                (λ _. refused) λ _. Builds-bind later λ ps h. built_as (push ps h)

  collect-Has :
      (segments : List Ps2ElfLoadSegment) (i k j : ℕ)
      → j ≡ i + k
      → k < length segments
      → 0 < (get_or segments k no_segment).memory_size
      → Builds (Has (pending_of elf (get_or segments k no_segment) j)) (collect elf segments i)
  collect-Has [] i k j e lt pos = absurd (omega arith)
  collect-Has (segment ∷ rest) i zero j e lt pos =
      collect-Builds {P = λ _. Unit {0}} segment rest i (Builds-any (collect elf rest (i + 1)))
        (λ empty. absurd (omega arith)) (λ _ _. inl (ap (pending_of elf segment) (omega arith)))
  collect-Has (segment ∷ rest) i (suc k) j e lt pos =
      collect-Builds {P = Has (pending_of elf (get_or rest k no_segment) j)} segment rest i
        (collect-Has rest (i + 1) k j (omega arith) (omega arith) pos) (λ _ _ h. h) (λ _ h. inr h)

get_or-replicate : (n k z : ℕ) → get_or (replicate n z) k z ≡ z
get_or-replicate zero k z = refl
get_or-replicate (suc n) zero z = refl
get_or-replicate (suc n) (suc k) z = get_or-replicate n k z

get_or-copy_front :
    (bytes : List ℕ) (n k : ℕ)
    → k < n
    → get_or (copy_front bytes (replicate n 0)) k 0 ≡ get_or bytes k 0
unfolding copy_front
get_or-copy_front [] n k lt = get_or-replicate n k 0
get_or-copy_front (b ∷ bytes) zero k lt = absurd (omega arith)
get_or-copy_front (b ∷ bytes) (suc n) zero lt = refl
get_or-copy_front (b ∷ bytes) (suc n) (suc k) lt = get_or-copy_front bytes n k (omega arith)

suc_add : (o k : ℕ) → suc o + k ≡ suc (o + k)
suc_add o k = omega arith

get_or-take-drop :
    (xs : List ℕ) (n o k : ℕ)
    → get_or (take n (drop o xs)) k 0 ≡ (if ltb k n then get_or xs (o + k) 0 else 0)
get_or-take-drop xs zero o k = ground arith
get_or-take-drop [] (suc n) zero k = ground arith
get_or-take-drop [] (suc n) (suc o) k = ground arith
get_or-take-drop (x ∷ xs) (suc n) zero zero = ground arith
get_or-take-drop (x ∷ xs) (suc n) zero (suc k) = ground (arith, get_or-take-drop xs n zero k)
get_or-take-drop (x ∷ xs) (suc n) (suc o) k =
    ground (arith, get_or-take-drop xs (suc n) o k, suc_add o k)

module _ (elf : Ps2ElfImage) (i k : ℕ) where
  abbrev segment : Ps2ElfLoadSegment
  segment = get_or elf.load_segments i no_segment

  -- What the image has for address `k` of the segment: a byte of the file, or zero after them.
  unfoldable pub loaded_byte : ℕ
  loaded_byte = if ltb k segment.file_size then get_or elf.bytes (segment.file_offset + k) 0 else 0

  module _ (are_bytes : All (λ b. b < 256) elf.bytes) (in_range : i < length elf.load_segments)
      (inside : k < segment.memory_size) where
    read_u8-backing_list :
        (ps : List PendingRegion)
        → All IsLoadable ps
        → has_overlap ps ≡ false
        → Has (pending_of elf segment i) ps
        → read_u8
            (record { regions = metadata_of (backing_list ps); backing_regions = backing_list ps })
            (segment.virtual_address + k)
          ≡ some loaded_byte
    unfolding read_u8 translate span_byte access_range_fits base_of pending_of backing_of
        loaded_byte segment_file_bytes
    read_u8-backing_list ps loadable apart has =
        let (j, lt, e) = Has-at (pending_of elf segment i) ps has in
        let a : ℕ = segment.virtual_address + k in
        let fits = All-Has IsLoadable (pending_of elf segment i) ps loadable has in
        ground (
          arith,
          e,
          find_span-Holds (backing_list ps) j a (a + 1) 0 (backing_list-IsOrdered ps loadable apart)
              (omega arith) (lt, rw e (omega arith), rw e (omega arith)),
          get_or-copy_front (segment_file_bytes elf i) segment.memory_size k inside,
          get_or-take-drop elf.bytes segment.file_size segment.file_offset k,
        )

    -- Once the map is built from an image of bytes, each address of each segment's memory reads as the
    -- file's byte or, after the segment's bytes in the file, as zero.
    pub from_elf-loaded_byte :
        (can_allocate : ℕ → Bool)
        → Builds
            (λ m. read_u8 m (segment.virtual_address + k) ≡ some loaded_byte)
            (from_elf can_allocate elf)
    unfolding from_elf
    from_elf-loaded_byte can_allocate =
        Builds-bind
          (Builds-both (collect-IsLoadable elf are_bytes elf.load_segments 0)
            (collect-Has elf elf.load_segments 0 i i (omega arith) in_range (omega arith)))
          λ ps h.
            let loadable = All-sort_pending IsLoadable ps h.0 in
            Builds-if (has_overlap (sort_pending ps)) (λ _. refused)
              λ apart. Builds-bind (allocate-backing_list can_allocate (sort_pending ps)) λ bs e.
                built_as {a = record { regions = metadata_of bs; backing_regions = bs }} (
                  rw e (
                    read_u8-backing_list (sort_pending ps) loadable apart
                      (Has-sort_pending _ ps h.1)))
