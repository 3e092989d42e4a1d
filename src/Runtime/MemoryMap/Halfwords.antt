-- ===== src/Runtime/MemoryMap/Halfwords.antt =====
-- Writing a halfword and reading it back, and when a word is written at all.
use burnout_3_recompiled.Common.{
  ℕ, true, false, some, none, ◌≡◌, ◌/◌, ◌%◌, ◌<◌, ◌^◌, arith, Option-cases, inl, inr,
  bit_or_fields_swapped,
}
use burnout_3_recompiled.Runtime.MemoryMap.{
  Ps2MemoryMap, Span, translate, set_span_byte, read_u16, read_u32, write_u16, write_u32,
}
use burnout_3_recompiled.Runtime.MemoryMap.Spans.{IsMap, translate-SpanFits}
use burnout_3_recompiled.Runtime.MemoryMap.Writes.{span_byte-set_span_byte}
use burnout_3_recompiled.Runtime.MemoryMap.Bytes.{IsAccess, set_span_byte-IsAccess}
use burnout_3_recompiled.Runtime.MemoryMap.Words.{byte_mask}

module _ (m : Ps2MemoryMap) (a value : ℕ) (span : Span) (access : IsAccess m a 2 span) where
  abbrev low : Ps2MemoryMap
  low = set_span_byte span 0 (value % 256) m

  abbrev both : Ps2MemoryMap
  both = set_span_byte span 1 (value / 256 % 256) low

  write_u16-both : write_u16 m a value ≡ (both, true)
  unfolding write_u16
  write_u16-both = ground (arith, access.1, byte_mask value, byte_mask (value / 256))

  low-IsAccess : IsAccess low a 2 span
  low-IsAccess = set_span_byte-IsAccess m a 2 span access 0 _ (omega arith) (omega arith)

  both-IsAccess : IsAccess both a 2 span
  both-IsAccess = set_span_byte-IsAccess low a 2 span low-IsAccess 1 _ (omega arith) (omega arith)

  read_u16-both : value < 2 ^ 16 → read_u16 both a ≡ some value
  unfolding read_u16
  read_u16-both small =
      let fits = translate-SpanFits m access.0 a 2 {span = span} access.1 in
      let fits' = translate-SpanFits low low-IsAccess.0 a 2 {span = span} low-IsAccess.1 in
      ground (
        arith,
        both-IsAccess.1,
        span_byte-set_span_byte low span 1 (value / 256 % 256) span 0 fits'.0 (omega arith),
        span_byte-set_span_byte low span 1 (value / 256 % 256) span 1 fits'.0 (omega arith),
        span_byte-set_span_byte m span 0 (value % 256) span 0 fits.0 (omega arith),
        bit_or_fields_swapped 8 (value / 256 % 256) (value % 256) (omega arith),
      )

write_u16_done :
    (m : Ps2MemoryMap) (a value : ℕ)
    → (write_u16 m a value).1 ≡ true
    → (span : Span) × (translate m a 2 ≡ some span)
unfolding write_u16
write_u16_done m a value done = elim (Option-cases (translate m a 2)) [
  | inl missing ↦ absurd (ground arith)
  | inr found ↦ found
]

-- In a map that satisfies its invariant, a 16-bit halfword whose write is done is the halfword that
-- is then read back at that address.
pub read_u16-write_u16 :
    (m : Ps2MemoryMap) (a value : ℕ)
    → IsMap m
    → value < 2 ^ 16
    → (write_u16 m a value).1 ≡ true
    → read_u16 (write_u16 m a value).0 a ≡ some value
read_u16-write_u16 m a value valid small done =
    let (span, found) = write_u16_done m a value done in
    rw (write_u16-both m a value span (valid, found))
      (read_u16-both m a value span (valid, found) small)

-- A word is written just where one can be read. Anywhere else the write is refused and leaves the map
-- as it was.
pub write_u32_refused :
    (m : Ps2MemoryMap) (a value : ℕ)
    → write_u32 m a value
      ≡ elim (read_u32 m a) [ none ↦ (m, false) | some _ ↦ ((write_u32 m a value).0, true) ]
unfolding write_u32 read_u32
write_u32_refused m a value = elim (Option-cases (translate m a 4)) [
  | inl missing ↦ ground arith
  | inr (span, found) ↦ ground arith
]
