-- ===== src/Runtime/MemoryMap/Bytes.antt =====
-- The accesses of a map, address by address.
use burnout_3_recompiled.Common.{
  ℕ, some, ◌≡◌, ◌∙◌, ◌+◌, ◌<◌, ◌==◌, arith, if◌then◌else◌, Option-cases, inl, inr,
}
use burnout_3_recompiled.Runtime.MemoryMap.{
  Ps2MemoryMap, Span, translate, span_byte, set_span_byte, read_u8,
}
use burnout_3_recompiled.Runtime.MemoryMap.Spans.{
  IsMap, translate-SpanFits, translate_within, translate_found, base_of,
}
use burnout_3_recompiled.Runtime.MemoryMap.Writes.{
  translate-set_span_byte, set_span_byte-IsMap, span_byte-set_span_byte,
}

-- In a map `m`, an access of `len` bytes at `a` works on the span.
abbrev pub IsAccess : Ps2MemoryMap → ℕ → ℕ → Span → Type 0
IsAccess m a len span = IsMap m × (translate m a len ≡ some span)

module _ (m : Ps2MemoryMap) (a len : ℕ) (span : Span) (access : IsAccess m a len span) (k v : ℕ)
    (inside : k < len) where
  pub set_span_byte-IsAccess : v < 256 → IsAccess (set_span_byte span k v m) a len span
  set_span_byte-IsAccess hv =
      let fits = translate-SpanFits m access.0 a len {span = span} access.1 in
      (
        set_span_byte-IsMap m span k v hv fits.0 access.0,
        translate-set_span_byte m span k v a len ∙ access.1,
      )

  pub read_u8_of_span : read_u8 m (a + k) ≡ some (span_byte m span k)
  unfolding read_u8 span_byte
  read_u8_of_span = ground (
    arith,
    translate_within m access.0 a len {span = span} access.1 k 1 (omega arith) (omega arith),
  )

  pub read_u8-set_span_byte :
      (b : ℕ) → read_u8 (set_span_byte span k v m) b ≡ (if a + k == b then some v else read_u8 m b)
  unfolding read_u8 base_of
  read_u8-set_span_byte b =
      let fits = translate-SpanFits m access.0 a len {span = span} access.1 in
      let within =
        translate_within m access.0 a len {span = span} access.1 k 1 (omega arith) (omega arith) in
      let (bound, i, holds, at) = translate_found m access.0 a len {span = span} access.1 in
      elim (Option-cases (translate m b 1)) [
        | inl missing ↦ ground (arith, translate-set_span_byte m span k v b 1)
        | inr (other, found) ↦
            let (bound₁, j, holds₁, at₁) = translate_found m access.0 b 1 {span = other} found in
            ground (
              arith,
              translate-set_span_byte m span k v b 1,
              span_byte-set_span_byte m span k v other 0 fits.0 (omega arith),
            )
      ]
