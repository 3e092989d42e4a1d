-- ===== src/Runtime/MemoryMap/Words.antt =====
-- Writing a word and reading it back, and what the write leaves elsewhere.
use burnout_3_recompiled.Common.{
  ℕ, true, some, ◌≡◌, ◌+◌, ◌-◌, ◌*◌, ◌/◌, ◌%◌, ◌<◌, ◌^◌, ◌&&◌, leb, ltb, arith, if◌then◌else◌,
  Option-cases, inl, inr, bit_and, bit_and_mask, bit_or_fields_swapped, u8,
}
use burnout_3_recompiled.Runtime.MemoryMap.{
  Ps2MemoryMap, Span, translate, span_byte, set_span_byte, read_u8, read_u32, write_u32, join_u32,
}
use burnout_3_recompiled.Runtime.MemoryMap.Spans.{IsMap}
use burnout_3_recompiled.Runtime.MemoryMap.Bytes.{
  IsAccess, set_span_byte-IsAccess, read_u8-set_span_byte, read_u8_of_span,
}

-- The four bytes of a word, lowest first, as arithmetic.
unfoldable pub byte_of : ℕ → ℕ → ℕ
byte_of value k = value / 256 ^ k % 256

pub byte_mask : (x : ℕ) → u8 (bit_and x 0xff) ≡ x % 256
byte_mask x = omega (arith, bit_and_mask 8 x)

join_u32_lem :
    (a b c d : ℕ)
    → a < 256
    → b < 256
    → c < 256
    → d < 256
    → join_u32 a b c d ≡ a + b * 2 ^ 8 + c * 2 ^ 16 + d * 2 ^ 24
unfolding join_u32
join_u32_lem a b c d ha hb hc hd = ground (
  arith,
  bit_or_fields_swapped 8 b a ha,
  bit_or_fields_swapped 16 c (b * 2 ^ 8 + a) (omega arith),
  bit_or_fields_swapped 24 d (c * 2 ^ 16 + (b * 2 ^ 8 + a)) (omega arith),
)

-- Four bytes stored one after the other.
unfoldable pub store : Span → ℕ → Ps2MemoryMap → Ps2MemoryMap
store span value m = set_span_byte span 3 (byte_of value 3) (
    set_span_byte span 2 (byte_of value 2)
      (set_span_byte span 1 (byte_of value 1) (set_span_byte span 0 (byte_of value 0) m)))

write_u32-store :
    (m : Ps2MemoryMap) (a value : ℕ) {span : Span}
    → translate m a 4 ≡ some span
    → write_u32 m a value ≡ (store span value m, true)
unfolding write_u32 store byte_of
write_u32-store m a value found = ground (
  arith,
  byte_mask value,
  byte_mask (value / 256),
  byte_mask (value / 65536),
  byte_mask (value / 16777216),
)

-- The stores keep the map's invariant and change the four bytes.
module _ (m : Ps2MemoryMap) (a value : ℕ) (span : Span) (access : IsAccess m a 4 span) where
  abbrev m₁ : Ps2MemoryMap
  m₁ = set_span_byte span 0 (byte_of value 0) m

  abbrev m₂ : Ps2MemoryMap
  m₂ = set_span_byte span 1 (byte_of value 1) m₁

  abbrev m₃ : Ps2MemoryMap
  m₃ = set_span_byte span 2 (byte_of value 2) m₂

  at₁ : IsAccess m₁ a 4 span
  unfolding byte_of
  at₁ = set_span_byte-IsAccess m a 4 span access 0 _ (omega arith) (omega arith)

  at₂ : IsAccess m₂ a 4 span
  unfolding byte_of
  at₂ = set_span_byte-IsAccess m₁ a 4 span at₁ 1 _ (omega arith) (omega arith)

  at₃ : IsAccess m₃ a 4 span
  unfolding byte_of
  at₃ = set_span_byte-IsAccess m₂ a 4 span at₂ 2 _ (omega arith) (omega arith)

  store-IsAccess : IsAccess (store span value m) a 4 span
  unfolding store byte_of
  store-IsAccess = set_span_byte-IsAccess m₃ a 4 span at₃ 3 _ (omega arith) (omega arith)

  read_u8-store :
      (b : ℕ)
      → read_u8 (store span value m) b
        ≡ (if leb a b && ltb b (a + 4) then some (byte_of value (b - a)) else read_u8 m b)
  unfolding store
  read_u8-store b = ground (
    arith,
    read_u8-set_span_byte m₃ a 4 span at₃ 3 (byte_of value 3) (omega arith) b,
    read_u8-set_span_byte m₂ a 4 span at₂ 2 (byte_of value 2) (omega arith) b,
    read_u8-set_span_byte m₁ a 4 span at₁ 1 (byte_of value 1) (omega arith) b,
    read_u8-set_span_byte m a 4 span access 0 (byte_of value 0) (omega arith) b,
  )

  span_byte-store : (k : ℕ) → k < 4 → span_byte (store span value m) span k ≡ byte_of value k
  span_byte-store k inside = ground (
    arith,
    read_u8_of_span (store span value m) a 4 span store-IsAccess k 0 inside,
    read_u8-store (a + k),
  )

  read_u32-store : value < 2 ^ 32 → read_u32 (store span value m) a ≡ some value
  unfolding read_u32 byte_of
  read_u32-store small = ground (
    arith,
    store-IsAccess.1,
    span_byte-store 0 (omega arith),
    span_byte-store 1 (omega arith),
    span_byte-store 2 (omega arith),
    span_byte-store 3 (omega arith),
    join_u32_lem (byte_of value 0) (byte_of value 1) (byte_of value 2) (byte_of value 3)
        (omega arith) (omega arith) (omega arith) (omega arith),
  )

-- A write that is done has a span.
write_u32_done :
    (m : Ps2MemoryMap) (a value : ℕ)
    → (write_u32 m a value).1 ≡ true
    → (span : Span) × (translate m a 4 ≡ some span)
unfolding write_u32
write_u32_done m a value done = elim (Option-cases (translate m a 4)) [
  | inl missing ↦ absurd (ground arith)
  | inr found ↦ found
]

-- In a map that satisfies its invariant, a write of a word that is done leaves such a map again: the
-- four addresses hold the bytes of the word, lowest first, and every other address reads as before.
pub read_u8-write_u32 :
    (m : Ps2MemoryMap) (a value b : ℕ)
    → IsMap m
    → (write_u32 m a value).1 ≡ true
    → IsMap (write_u32 m a value).0
      × (read_u8 (write_u32 m a value).0 b
          ≡ (if leb a b && ltb b (a + 4) then some (byte_of value (b - a)) else read_u8 m b))
read_u8-write_u32 m a value b valid done =
    let (span, found) = write_u32_done m a value done in
    let access : IsAccess m a 4 span = (valid, found) in
    rw (write_u32-store m a value {span = span} found)
      ((store-IsAccess m a value span access).0, read_u8-store m a value span access b)

-- In a map that satisfies its invariant, a 32-bit word whose write is done is the word that is then
-- read back at that address.
pub read_u32-write_u32 :
    (m : Ps2MemoryMap) (a value : ℕ)
    → IsMap m
    → value < 2 ^ 32
    → (write_u32 m a value).1 ≡ true
    → read_u32 (write_u32 m a value).0 a ≡ some value
read_u32-write_u32 m a value valid small done =
    let (span, found) = write_u32_done m a value done in
    rw (write_u32-store m a value {span = span} found)
      (read_u32-store m a value span (valid, found) small)
