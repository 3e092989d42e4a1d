-- ===== src/Runtime/MemoryMap/Writes.antt =====
-- What a write changes: one byte at a time, and then the words.
use burnout_3_recompiled.Common.{
  ℕ, zero, suc, ◌≡◌, refl, sym, ap, ◌∙◌, List, [], ◌∷◌, ◌+◌, ◌≤◌, ◌<◌, ◌==◌, ◌&&◌, arith,
  if◌then◌else◌, length, get_or, set, All, All-at, All-set, length-set, get_or-set_self,
  get_or-set_ne,
}
use burnout_3_recompiled.Runtime.MemoryMap.{
  Ps2MemoryRegion, BackingRegion, Ps2MemoryMap, Span, region_end, metadata_of, no_region, translate,
  span_byte, set_span_byte,
}
use burnout_3_recompiled.Runtime.MemoryMap.Spans.{IsBacked, IsOrdered, IsMap, find_span_metadata}

module _ (rs : List BackingRegion) (k : ℕ) (bytes : List ℕ) where
  -- A region with its bytes replaced.
  abbrev with_bytes : BackingRegion
  with_bytes = record (get_or rs k no_region) { bytes = bytes }

metadata_of-with_bytes :
    (rs : List BackingRegion) (k : ℕ) (bytes : List ℕ)
    → metadata_of (set rs k (with_bytes rs k bytes)) ≡ metadata_of rs
metadata_of-with_bytes [] k bytes = refl
metadata_of-with_bytes (r ∷ rs) zero bytes = refl
metadata_of-with_bytes (r ∷ rs) (suc k) bytes =
    ap (λ t. r.metadata ∷ t) (metadata_of-with_bytes rs k bytes)

All-with_bytes :
    (P : Ps2MemoryRegion → Type 0) (rs : List BackingRegion) (k : ℕ) (bytes : List ℕ)
    → All (λ (q : BackingRegion). P q.metadata) rs
    → All (λ (q : BackingRegion). P q.metadata) (set rs k (with_bytes rs k bytes))
All-with_bytes P [] k bytes h = h
All-with_bytes P (r ∷ rs) zero bytes h = h
All-with_bytes P (r ∷ rs) (suc k) bytes h = (h.0, All-with_bytes P rs k bytes h.1)

IsOrdered-with_bytes :
    (rs : List BackingRegion) (k : ℕ) (bytes : List ℕ)
    → IsOrdered rs
    → IsOrdered (set rs k (with_bytes rs k bytes))
IsOrdered-with_bytes [] k bytes o = o
IsOrdered-with_bytes (r ∷ rs) zero bytes o = o
IsOrdered-with_bytes (r ∷ rs) (suc k) bytes o = (
  All-with_bytes (λ (q : Ps2MemoryRegion). region_end r.metadata ≤ q.guest_base) rs k bytes o.0,
  IsOrdered-with_bytes rs k bytes o.1,
)

module _ (m : Ps2MemoryMap) (span : Span) (k v : ℕ) where
  pub translate-set_span_byte :
      (a len : ℕ) → translate (set_span_byte span k v m) a len ≡ translate m a len
  unfolding translate set_span_byte
  translate-set_span_byte a len = rw (
      find_span_metadata _ m.backing_regions a (a + len) 0
        (metadata_of-with_bytes m.backing_regions span.region _))

  pub set_span_byte-IsMap :
      v < 256 → span.region < length m.backing_regions → IsMap m → IsMap (set_span_byte span k v m)
  unfolding set_span_byte
  set_span_byte-IsMap hv hr valid =
      let old = All-at IsBacked m.backing_regions span.region no_region valid.backed hr in
      let r = get_or m.backing_regions span.region no_region in
      record {
        same_regions =
            valid.same_regions ∙ sym (metadata_of-with_bytes m.backing_regions span.region _);
        backed = All-set IsBacked m.backing_regions span.region _ valid.backed (
          old.0,
          length-set r.bytes (span.offset + k) v ∙ old.1,
          All-set (λ b. b < 256) r.bytes (span.offset + k) v old.2 hv,
        );
        ordered = IsOrdered-with_bytes m.backing_regions span.region _ valid.ordered;
      }

  pub span_byte-set_span_byte :
      (other : Span) (j : ℕ)
      → span.region < length m.backing_regions
      → span.offset + k < length (get_or m.backing_regions span.region no_region).bytes
      → span_byte (set_span_byte span k v m) other j ≡ (
          if (span.region == other.region) && (span.offset + k == other.offset + j)
          then v
          else span_byte m other j)
  unfolding span_byte set_span_byte
  span_byte-set_span_byte other j hr ho =
      let rs = m.backing_regions in
      let r = get_or rs span.region no_region in
      let new = record r { bytes = set r.bytes (span.offset + k) v } in
      ground (
        arith,
        get_or-set_self rs span.region new no_region hr,
        get_or-set_ne rs span.region other.region new no_region,
        get_or-set_self r.bytes (span.offset + k) v 0 ho,
        get_or-set_ne r.bytes (span.offset + k) (other.offset + j) v 0,
      )
