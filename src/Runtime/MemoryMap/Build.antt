-- ===== src/Runtime/MemoryMap/Build.antt =====
-- Building a map from an image.
use burnout_3_recompiled.Common.{
  ℕ, zero, suc, Bool, true, false, ◌≡◌, refl, ap, ◌∙◌, List, [], ◌∷◌, ◌+◌, ◌≤◌, ◌<◌, ◌^◌, ◌==◌, not,
  leb, ltb, arith, if◌then◌else◌, length, get_or, take, drop, replicate, All, length-replicate,
  if_both,
}
use burnout_3_recompiled.Recompiler.Elf.{
  Ps2ElfLoadSegment, Ps2ElfImage, segment_file_bytes, no_segment,
}
use burnout_3_recompiled.Runtime.MemoryMap.{
  PendingRegion, BackingRegion, region_end, metadata_of, collect, insert_pending, sort_pending,
  has_overlap, copy_front, allocate, from_elf, guest_address_space_size, ◌>>=◌,
}
use burnout_3_recompiled.Runtime.MemoryMap.Types.{BuildResult, Ps2MemoryMapBuildError}
use burnout_3_recompiled.Runtime.MemoryMap.Types.BuildResult.{built, failed}
use burnout_3_recompiled.Runtime.MemoryMap.Spans.{IsMap, IsBacked, IsOrdered}

-- What the loop over the segments accepts.
abbrev pub IsLoadable : PendingRegion → Type 0
IsLoadable p =
    (0 < p.metadata.size) × (region_end p.metadata ≤ 2 ^ 32) × All (λ b. b < 256) p.file_bytes

unfoldable pub backing_of : PendingRegion → BackingRegion
backing_of p = record {
  metadata = p.metadata;
  bytes = copy_front p.file_bytes (replicate p.metadata.size 0);
}

unfoldable pub backing_list : List PendingRegion → List BackingRegion
backing_list [] = []
backing_list (p ∷ ps) = backing_of p ∷ backing_list ps

length-copy_front : (bytes store : List ℕ) → length (copy_front bytes store) ≡ length store
unfolding copy_front
length-copy_front [] store = refl
length-copy_front (b ∷ bytes) [] = refl
length-copy_front (b ∷ bytes) (z ∷ store) = ap suc (length-copy_front bytes store)

All-copy_front :
    (P : ℕ → Type 0) (bytes store : List ℕ)
    → All P bytes
    → All P store
    → All P (copy_front bytes store)
unfolding copy_front
All-copy_front P [] store hb hs = hs
All-copy_front P (b ∷ bytes) [] hb hs = tt
All-copy_front P (b ∷ bytes) (z ∷ store) hb hs = (hb.0, All-copy_front P bytes store hb.1 hs.1)

All-replicate : (P : ℕ → Type 0) (n x : ℕ) → P x → All P (replicate n x)
All-replicate P zero x h = tt
All-replicate P (suc n) x h = (h, All-replicate P n x h)

backing_of-IsBacked : (p : PendingRegion) → IsLoadable p → IsBacked (backing_of p)
unfolding backing_of
backing_of-IsBacked p h = (
  h.1,
  length-copy_front p.file_bytes _ ∙ length-replicate p.metadata.size 0,
  All-copy_front (λ b. b < 256) p.file_bytes _ h.2
      (All-replicate (λ b. b < 256) p.metadata.size 0 (omega arith)),
)

-- The steps of building, each with what it makes sure of.
pub data Builds {ℓ} {A : Type ℓ} (P : A → Type 0) : BuildResult A → Type ℓ where
  built_as : {a : A} → P a → Builds P (built a)
  refused : {e : Ps2MemoryMapBuildError} → Builds P (failed e)

pub Builds-bind {ℓ κ} :
    {A : Type ℓ} {B : Type κ} {P : A → Type 0} {Q : B → Type 0} {r : BuildResult A}
    {f : A → BuildResult B}
    → Builds P r
    → ((a : A) → P a → Builds Q (f a))
    → Builds Q (r >>= f)
Builds-bind (built_as {a = a} h) hf = hf a h
Builds-bind refused hf = refused

pub Builds-map {ℓ} :
    {A : Type ℓ} {P Q : A → Type 0} {r : BuildResult A}
    → Builds P r
    → ((a : A) → P a → Q a)
    → Builds Q r
Builds-map (built_as {a = a} h) f = built_as (f a h)
Builds-map refused f = refused

pub Builds-if {ℓ} :
    {A : Type ℓ} {P : A → Type 0} (b : Bool) {x y : BuildResult A}
    → (b ≡ true → Builds P x)
    → (b ≡ false → Builds P y)
    → Builds P (if b then x else y)
Builds-if true hx hy = hx refl
Builds-if false hx hy = hy refl

All-backing_list : (ps : List PendingRegion) → All IsLoadable ps → All IsBacked (backing_list ps)
unfolding backing_list
All-backing_list [] h = tt
All-backing_list (p ∷ ps) h = (backing_of-IsBacked p h.0, All-backing_list ps h.1)

-- Granted regions are the pending ones, each with its store.
pub allocate-backing_list :
    (can_allocate : ℕ → Bool) (ps : List PendingRegion)
    → Builds (λ bs. bs ≡ backing_list ps) (allocate can_allocate ps)
unfolding allocate backing_list backing_of
allocate-backing_list can_allocate [] = built_as refl
allocate-backing_list can_allocate (p ∷ ps) =
    Builds-if (can_allocate p.metadata.size)
      (λ _.
        Builds-bind (allocate-backing_list can_allocate ps)
          λ bs e. built_as (ap (λ t. backing_of p ∷ t) e))
      (λ _. refused)

All-insert_pending :
    (P : PendingRegion → Type 0) (item : PendingRegion) (ps : List PendingRegion)
    → P item
    → All P ps
    → All P (insert_pending item ps)
unfolding insert_pending
All-insert_pending P item [] hi h = (hi, tt)
All-insert_pending P item (p ∷ ps) hi h =
    if_both (All P) _ {x = item ∷ p ∷ ps} {y = p ∷ insert_pending item ps} (hi, h)
      (h.0, All-insert_pending P item ps hi h.1)

pub All-sort_pending :
    (P : PendingRegion → Type 0) (ps : List PendingRegion) → All P ps → All P (sort_pending ps)
unfolding sort_pending
All-sort_pending P [] h = tt
All-sort_pending P (p ∷ ps) h =
    All-insert_pending P p (sort_pending ps) h.0 (All-sort_pending P ps h.1)

All-raise :
    (ps : List PendingRegion) (x y : ℕ)
    → x ≤ y
    → All (λ (q : BackingRegion). y ≤ q.metadata.guest_base) (backing_list ps)
    → All (λ (q : BackingRegion). x ≤ q.metadata.guest_base) (backing_list ps)
unfolding backing_list backing_of
All-raise [] x y le h = tt
All-raise (p ∷ ps) x y le h = (omega (arith, h.0), All-raise ps x y le h.1)

-- No overlap of neighbours is no overlap at all.
pub backing_list-IsOrdered :
    (ps : List PendingRegion)
    → All IsLoadable ps
    → has_overlap ps ≡ false
    → IsOrdered (backing_list ps)
unfolding has_overlap backing_list backing_of
backing_list-IsOrdered [] hs h = tt
backing_list-IsOrdered (a ∷ []) hs h = (tt, tt)
backing_list-IsOrdered (a ∷ b ∷ ps) hs h =
    let rest = backing_list-IsOrdered (b ∷ ps) hs.1 (ground arith) in
    let apart : region_end a.metadata ≤ b.metadata.guest_base = ground arith in
    (
      (apart, All-raise ps (region_end a.metadata) (region_end b.metadata) (omega arith) rest.0),
      rest,
    )

All-take-drop : (P : ℕ → Type 0) (n k : ℕ) (xs : List ℕ) → All P xs → All P (take n (drop k xs))
All-take-drop P zero k xs h = tt
All-take-drop P (suc n) zero [] h = tt
All-take-drop P (suc n) (suc k) [] h = tt
All-take-drop P (suc n) zero (x ∷ xs) h = (h.0, All-take-drop P n zero xs h.1)
All-take-drop P (suc n) (suc k) (x ∷ xs) h = All-take-drop P (suc n) k xs h.1

module _ (elf : Ps2ElfImage) where
  -- What the loop makes of a segment.
  unfoldable pub pending_of : Ps2ElfLoadSegment → ℕ → PendingRegion
  pending_of segment i = record {
    metadata = record {
      guest_base = segment.virtual_address;
      size = segment.memory_size;
      flags = segment.flags;
    };
    file_bytes = segment_file_bytes elf i;
  }

  module _ (are_bytes : All (λ b. b < 256) elf.bytes) where
    segment_file_bytes-bytes : (i : ℕ) → All (λ b. b < 256) (segment_file_bytes elf i)
    unfolding segment_file_bytes
    segment_file_bytes-bytes i =
        let segment = get_or elf.load_segments i no_segment in
        if_both (All (λ b. b < 256)) (leb (length elf.load_segments) i) {x = []}
          {y = take segment.file_size (drop segment.file_offset elf.bytes)} tt
          (All-take-drop (λ b. b < 256) _ _ elf.bytes are_bytes)

    pub collect-IsLoadable :
        (segments : List Ps2ElfLoadSegment) (i : ℕ)
        → Builds (All IsLoadable) (collect elf segments i)
    unfolding collect pending_of
    collect-IsLoadable [] i = built_as tt
    collect-IsLoadable (segment ∷ rest) i =
        let later = collect-IsLoadable rest (i + 1) in
        Builds-if (segment.memory_size == 0) (λ _. later)
          λ used.
            Builds-if (ltb guest_address_space_size (segment.virtual_address + segment.memory_size))
              (λ _. refused)
              λ fits.
                Builds-if (not (length (segment_file_bytes elf i) == segment.file_size))
                  (λ _. refused)
                  λ _. Builds-bind later λ ps h.
                    built_as {a = pending_of segment i ∷ ps}
                      ((ground arith, ground arith, segment_file_bytes-bytes i), h)

    -- A map that is built from an image of bytes satisfies the invariant: its regions are apart, lie in
    -- the address space and have a byte for each of their addresses.
    pub from_elf-IsMap : (can_allocate : ℕ → Bool) → Builds IsMap (from_elf can_allocate elf)
    unfolding from_elf
    from_elf-IsMap can_allocate = Builds-bind (collect-IsLoadable elf.load_segments 0) λ ps h.
        let loadable = All-sort_pending IsLoadable ps h in
        Builds-if (has_overlap (sort_pending ps)) (λ _. refused)
          λ apart. Builds-bind (allocate-backing_list can_allocate (sort_pending ps)) λ bs e.
            built_as {a = record { regions = metadata_of bs; backing_regions = bs }} (record {
              same_regions = refl;
              backed = rw e (All-backing_list (sort_pending ps) loadable);
              ordered = rw e (backing_list-IsOrdered (sort_pending ps) loadable apart);
            })
