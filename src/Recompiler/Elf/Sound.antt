-- ===== src/Recompiler/Elf/Sound.antt =====
-- What an accepted file satisfies, and that no file makes the parser read outside it.
use burnout_3_recompiled.Common.{
  ℕ, zero, suc, false, ◌≡◌, refl, ◌+◌, ◌-◌, ◌*◌, ◌/◌, ◌^◌, ◌≤◌, ◌<◌, ◌==◌, arith, List, [], ◌∷◌,
  ◌++◌, length, get_or, ltb, leb, not, ◌||◌, if_both, All, All-get_or, All-append, length-append,
  take, drop,
}
use burnout_3_recompiled.Recompiler.Elf.{
  Ps2ElfLoadSegment, Ps2ElfImage, pt_load, range_fits, read_segment, check_segment, read_segments,
  check_ident, parse_ps2_elf, segment_file_bytes, no_segment,
}
use burnout_3_recompiled.Recompiler.Elf.Reads.{
  Returns, value, Returns-bind, Returns-map, reject-Returns, byte, word16, word32, byte_at-Returns,
  read_u16-Returns, read_u32-Returns,
}

-- The segment's file bytes lie in the file, and its memory has room for them.
abbrev pub SegmentFits : List ℕ → Ps2ElfLoadSegment → Type 0
SegmentFits bytes segment =
    (segment.file_size ≤ segment.memory_size)
    × (segment.file_offset + segment.file_size ≤ length bytes)

-- The image is the file's: a little-endian 32-bit MIPS executable whose load segments all fit.
pub record IsImageOf (bytes : List ℕ) (image : Ps2ElfImage) : Type 0 where
  pub same_bytes : image.bytes ≡ bytes
  pub whole_header : 52 ≤ length bytes
  pub magic :
      (byte bytes 0 ≡ 0x7f) × (byte bytes 1 ≡ b'E') × (byte bytes 2 ≡ b'L') × (byte bytes 3 ≡ b'F')
  pub ident : (byte bytes 4 ≡ 1) × (byte bytes 5 ≡ 1) × (byte bytes 6 ≡ 1)
  pub executable : (word16 bytes 16 ≡ 2) × (word16 bytes 18 ≡ 8) × (word32 bytes 20 ≡ 1)
  pub sizes : (word16 bytes 40 ≡ 52) × (word16 bytes 42 ≡ 32)
  pub entry : image.entry_point ≡ word32 bytes 24
  pub count : image.program_header_count ≡ word16 bytes 44
  pub table : word32 bytes 28 + word16 bytes 44 * 32 ≤ length bytes
  pub segments_fit : All (SegmentFits bytes) image.load_segments
  pub segment_count : length image.load_segments ≤ image.program_header_count

pub range_fits→le :
    (offset size total : ℕ) → not (range_fits offset size total) ≡ false → offset + size ≤ total
unfolding range_fits
range_fits→le offset size total h = ground arith

ltb-false→le : (a b : ℕ) → ltb a b ≡ false → b ≤ a
ltb-false→le a b h = ground arith

module _ (bytes : List ℕ) (are_bytes : All (λ b. b < 256) bytes) where
  read_segment-Returns :
      (base : ℕ) → base + 32 ≤ length bytes → Returns (λ _. Unit {0}) (read_segment bytes base)
  unfolding read_segment
  read_segment-Returns base h =
      Returns-bind (read_u32-Returns bytes are_bytes (base + 4) (omega arith)) λ _ _.
        Returns-bind (read_u32-Returns bytes are_bytes (base + 8) (omega arith)) λ _ _.
          Returns-bind (read_u32-Returns bytes are_bytes (base + 12) (omega arith)) λ _ _.
            Returns-bind (read_u32-Returns bytes are_bytes (base + 16) (omega arith)) λ _ _.
              Returns-bind (read_u32-Returns bytes are_bytes (base + 20) (omega arith)) λ _ _.
                Returns-bind (read_u32-Returns bytes are_bytes (base + 24) (omega arith)) λ _ _.
                  Returns-bind (read_u32-Returns bytes are_bytes (base + 28) (omega arith))
                    λ _ _. value tt

  check_segment-Returns :
      (segment : Ps2ElfLoadSegment)
      → Returns (λ _. SegmentFits bytes segment) (check_segment bytes segment)
  unfolding check_segment
  check_segment-Returns segment =
      Returns-bind (reject-Returns (ltb segment.memory_size segment.file_size) _) λ _ room.
        Returns-map (reject-Returns _ _)
          (λ _ inside. (ltb-false→le _ _ room, range_fits→le _ _ _ inside))

  read_segments-Returns :
      (phoff left i : ℕ) (segments : List Ps2ElfLoadSegment)
      → phoff + (i + left) * 32 ≤ length bytes
      → All (SegmentFits bytes) segments
      → Returns
          (λ r. All (SegmentFits bytes) r × (length r ≤ length segments + left))
          (read_segments bytes phoff left i segments)
  unfolding read_segments
  read_segments-Returns phoff zero i segments h fit = value (fit, omega arith)
  read_segments-Returns phoff (suc left) i segments h fit =
      Returns-bind (read_u32-Returns bytes are_bytes (phoff + i * 32 + 0) (omega arith)) λ t _.
        if_both (Returns _) (not (t == pt_load))
          (Returns-map (read_segments-Returns phoff left (i + 1) segments (omega arith) fit)
            (λ r found. (found.0, omega arith)))
          (Returns-bind (read_segment-Returns (phoff + i * 32) (omega arith)) λ segment _.
            Returns-bind (check_segment-Returns segment) λ _ fits.
              Returns-map
                (read_segments-Returns phoff left (i + 1) (segments ++ segment ∷ []) (omega arith)
                  (All-append (SegmentFits bytes) segments (segment ∷ []) fit (fits, tt)))
                (λ r found.
                  (found.0, omega (arith, length-append segments (segment ∷ []), found.1))))

  check_ident-Returns :
      7 ≤ length bytes
      → Returns
          (λ _.
            ((byte bytes 0 ≡ 0x7f)
              × (byte bytes 1 ≡ b'E')
              × (byte bytes 2 ≡ b'L')
              × (byte bytes 3 ≡ b'F'))
            × ((byte bytes 4 ≡ 1) × (byte bytes 5 ≡ 1) × (byte bytes 6 ≡ 1)))
          (check_ident bytes)
  unfolding check_ident
  check_ident-Returns h = Returns-bind (byte_at-Returns bytes are_bytes 0 (omega arith)) λ a ea.
      Returns-bind (byte_at-Returns bytes are_bytes 1 (omega arith)) λ b eb.
        Returns-bind (byte_at-Returns bytes are_bytes 2 (omega arith)) λ c ec.
          Returns-bind (byte_at-Returns bytes are_bytes 3 (omega arith)) λ d ed.
            Returns-bind
              (reject-Returns
                (not (a == 0x7f) || (not (b == b'E') || (not (c == b'L') || not (d == b'F')))) _)
              λ _ magic. Returns-bind (byte_at-Returns bytes are_bytes 4 (omega arith)) λ e ee.
                Returns-bind (reject-Returns (not (e == 1)) _) λ _ class.
                  Returns-bind (byte_at-Returns bytes are_bytes 5 (omega arith)) λ f ef.
                    Returns-bind (reject-Returns (not (f == 1)) _) λ _ endian.
                      Returns-bind (byte_at-Returns bytes are_bytes 6 (omega arith)) λ g eg.
                        Returns-map (reject-Returns (not (g == 1)) _)
                          λ _ version. (ground arith, ground arith)

  -- The parser, given any bytes, reads none outside the file; and if it accepts them, its image is
  -- the file's: the header is that of a little-endian MIPS executable, and each load segment lies in
  -- the file and fits its memory.
  pub parse_ps2_elf-IsImageOf : Returns (IsImageOf bytes) (parse_ps2_elf bytes)
  unfolding parse_ps2_elf
  parse_ps2_elf-IsImageOf = Returns-bind (reject-Returns (ltb (length bytes) 52) _) λ _ small.
      let large : 52 ≤ length bytes = ltb-false→le _ _ small in
      Returns-bind (check_ident-Returns (omega arith)) λ _ ident.
        Returns-bind (read_u16-Returns bytes are_bytes 16 (omega arith)) λ type e1.
          Returns-bind (read_u16-Returns bytes are_bytes 18 (omega arith)) λ machine e2.
            Returns-bind (read_u32-Returns bytes are_bytes 20 (omega arith)) λ version e3.
              Returns-bind (read_u32-Returns bytes are_bytes 24 (omega arith)) λ entry e4.
                Returns-bind (read_u32-Returns bytes are_bytes 28 (omega arith)) λ phoff e5.
                  Returns-bind (read_u16-Returns bytes are_bytes 40 (omega arith)) λ ehsize e6.
                    Returns-bind (read_u16-Returns bytes are_bytes 42 (omega arith)) λ phentsize e7.
                      Returns-bind (read_u16-Returns bytes are_bytes 44 (omega arith)) λ phnum e8.
                        Returns-bind (reject-Returns (not (type == 2)) _) λ _ f1.
                          Returns-bind (reject-Returns (not (machine == 8)) _) λ _ f2.
                            Returns-bind (reject-Returns (not (version == 1)) _) λ _ f3.
                              Returns-bind (reject-Returns (not (ehsize == 52)) _) λ _ f4.
                                Returns-bind (reject-Returns (not (phentsize == 32)) _) λ _ f5.
                                  Returns-bind (reject-Returns (ltb ((2 ^ 64 - 1) / 32) phnum) _)
                                    λ _ _.
                                      Returns-bind
                                        (reject-Returns
                                          (not (range_fits phoff (phnum * 32) (length bytes))) _)
                                        λ _ f6.
                                          let table : phoff + phnum * 32 ≤ length bytes =
                                            range_fits→le _ _ _ f6 in
                                          Returns-bind
                                            (read_segments-Returns phoff phnum 0 [] (omega arith)
                                              tt)
                                            λ segments found. value (record {
                                              same_bytes = refl;
                                              whole_header = large;
                                              magic = ident.0;
                                              ident = ident.1;
                                              executable =
                                                  (ground arith, ground arith, ground arith);
                                              sizes = (ground arith, ground arith);
                                              entry = e4;
                                              count = e8;
                                              table = omega arith;
                                              segments_fit = found.0;
                                              segment_count = omega arith;
                                            })

lt→leb-false : (a b : ℕ) → a < b → leb b a ≡ false
lt→leb-false a b h = ground arith

length-take-drop : (n k : ℕ) (xs : List ℕ) → k + n ≤ length xs → length (take n (drop k xs)) ≡ n
length-take-drop zero k xs h = omega arith
length-take-drop (suc n) zero [] h = absurd (omega arith)
length-take-drop (suc n) zero (x ∷ xs) h = omega (arith, length-take-drop n zero xs (omega arith))
length-take-drop (suc n) (suc k) [] h = absurd (omega arith)
length-take-drop (suc n) (suc k) (x ∷ xs) h = length-take-drop (suc n) k xs (omega arith)

-- An image of a file hands out, for each of its segments, as many bytes as the segment has in the
-- file.
pub length-segment_file_bytes :
    (bytes : List ℕ) (image : Ps2ElfImage) (i : ℕ)
    → IsImageOf bytes image
    → i < length image.load_segments
    → length (segment_file_bytes image i) ≡ (get_or image.load_segments i no_segment).file_size
unfolding segment_file_bytes
length-segment_file_bytes bytes image i h lt =
    let fits =
      All-get_or (SegmentFits bytes) image.load_segments i no_segment h.segments_fit
        (omega arith) in
    rw (lt→leb-false i (length image.load_segments) lt)
      (length-take-drop _ _ image.bytes (rw h.same_bytes fits.1))
