-- ===== src/Runtime/MemoryMap/Spans.antt =====
-- A map's invariant, and the spans that its accesses work on.
use burnout_3_recompiled.Common.{
  ℕ, zero, suc, some, ◌≡◌, refl, List, [], ◌∷◌, ◌+◌, ◌-◌, ◌≤◌, ◌<◌, ◌^◌, ◌&&◌, leb, arith, length,
  get_or, All, Bool-cases, inl, inr, All-at,
}
use burnout_3_recompiled.Runtime.MemoryMap.{
  BackingRegion, Ps2MemoryMap, Span, region_end, metadata_of, no_region, access_range_fits,
  find_span, translate,
}

-- A region lies in the guest's address space and has a byte for each of its addresses.
abbrev pub IsBacked : BackingRegion → Type 0
IsBacked r =
    (region_end r.metadata ≤ 2 ^ 32)
    × (length r.bytes ≡ r.metadata.size)
    × All (λ b. b < 256) r.bytes

-- Every region ends before the later ones begin.
abbrev pub IsOrdered : List BackingRegion → Type 0
IsOrdered [] = Unit
IsOrdered (r ∷ rest) =
    All (λ (q : BackingRegion). region_end r.metadata ≤ q.metadata.guest_base) rest × IsOrdered rest

pub record IsMap (m : Ps2MemoryMap) : Type 0 where
  pub same_regions : m.regions ≡ metadata_of m.backing_regions
  pub backed : All IsBacked m.backing_regions
  pub ordered : IsOrdered m.backing_regions

-- Region `k` of the list holds the addresses from `a` up to `e`.
abbrev pub Holds : List BackingRegion → ℕ → ℕ → ℕ → Type 0
Holds rs k a e =
    (k < length rs)
    × ((get_or rs k no_region).metadata.guest_base ≤ a)
    × (e ≤ region_end (get_or rs k no_region).metadata)

unfoldable pub base_of : List BackingRegion → ℕ → ℕ
base_of rs k = (get_or rs k no_region).metadata.guest_base

-- In an ordered list the search finds the one region that holds a range.
pub find_span-Holds :
    (rs : List BackingRegion) (k a e i : ℕ)
    → IsOrdered rs
    → a < e
    → Holds rs k a e
    → find_span rs a e i ≡ some (record { region = i + k; offset = a - base_of rs k })
unfolding find_span base_of
find_span-Holds [] k a e i o lt h = absurd (omega arith)
find_span-Holds (r ∷ rs) zero a e i o lt h = ground arith
find_span-Holds (r ∷ rs) (suc k) a e i o lt h = ground (
  arith,
  All-at (λ (q : BackingRegion). region_end r.metadata ≤ q.metadata.guest_base) rs k no_region o.0
      (omega arith),
  find_span-Holds rs k a e (i + 1) o.1 lt (omega arith, h.1, h.2),
)

-- What the search finds holds the range.
find_span_sound :
    (rs : List BackingRegion) (a e i : ℕ) {span : Span}
    → find_span rs a e i ≡ some span
    → (k : ℕ) × Holds rs k a e × (span ≡ record { region = i + k; offset = a - base_of rs k })
unfolding find_span base_of
find_span_sound [] a e i h = cc
find_span_sound (r ∷ rs) a e i {span} h =
    elim (Bool-cases (leb r.metadata.guest_base a && leb e (region_end r.metadata))) [
      | inl found ↦ (0, (ground arith, ground arith, ground arith), ground arith)
      | inr later ↦
          let (k, holds, at) = find_span_sound rs a e (i + 1) {span = span} (ground arith) in
          (suc k, (omega arith, holds.1, holds.2), ground arith)
    ]

pub find_span_metadata :
    (rs qs : List BackingRegion) (a e i : ℕ)
    → metadata_of rs ≡ metadata_of qs
    → find_span rs a e i ≡ find_span qs a e i
unfolding find_span
find_span_metadata [] [] a e i h = refl
find_span_metadata [] (q ∷ qs) a e i h = cc
find_span_metadata (r ∷ rs) [] a e i h = cc
find_span_metadata (r ∷ rs) (q ∷ qs) a e i h = ground (arith, find_span_metadata rs qs a e (i + 1))

-- The span of an access is where its first byte stands, and has room for all of them.
abbrev pub SpanFits : Ps2MemoryMap → Span → ℕ → Type 0
SpanFits m span len =
    (span.region < length m.backing_regions)
    × (span.offset + len ≤ length (get_or m.backing_regions span.region no_region).bytes)

module _ (m : Ps2MemoryMap) (valid : IsMap m) (a len : ℕ) {span : Span}
    (found : translate m a len ≡ some span) where
  pub translate_found :
      (a + len ≤ 2 ^ 32)
      × (k : ℕ) × Holds m.backing_regions k a (a + len)
      × (span ≡ record { region = k; offset = a - base_of m.backing_regions k })
  unfolding translate access_range_fits
  translate_found = elim (Bool-cases (access_range_fits a len)) [
    | inl fits ↦
        let (k, holds, at) =
          find_span_sound m.backing_regions a (a + len) 0 {span = span} (ground arith) in
        (ground arith, k, holds, ground arith)
    | inr out ↦ absurd (ground arith)
  ]

  pub translate-SpanFits : SpanFits m span len
  unfolding base_of
  translate-SpanFits =
      let (bound, k, holds, at) = translate_found in
      let backed = All-at IsBacked m.backing_regions k no_region valid.backed holds.0 in
      rw at (holds.0, omega arith)

  -- In a map that satisfies its invariant, a non-empty part of an access that has a span has a span
  -- too: it begins in the same region, further on by as much as the part does.
  pub translate_within :
      (k n : ℕ)
      → 0 < n
      → k + n ≤ len
      → translate m (a + k) n ≡ some (record span { offset = span.offset + k })
  unfolding translate access_range_fits base_of
  translate_within k n pos inside =
      let (bound, j, holds, at) = translate_found in
      ground (
        arith,
        find_span-Holds m.backing_regions j (a + k) (a + k + n) 0 valid.ordered (omega arith)
            (omega arith),
      )
