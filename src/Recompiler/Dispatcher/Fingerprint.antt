-- ===== src/Recompiler/Dispatcher/Fingerprint.antt =====
-- The fingerprint of a block's words, in src/recompiler/windows/r5900_block_dispatcher.cpp.
use burnout_3_recompiled.Common.{
  ℕ, zero, suc, List, [], ◌∷◌, ◌+◌, ◌*◌, ◌%◌, ◌^◌, length, bit_and, bit_xor, shr,
}

-- The Fowler-Noll-Vo hash of 64 bits.
abbrev pub fnv_offset : ℕ
fnv_offset = 14695981039346656037

abbrev pub fnv_prime : ℕ
fnv_prime = 1099511628211

unfoldable pub fnv_byte : ℕ → ℕ → ℕ
fnv_byte hash byte = (bit_xor hash byte * fnv_prime) % 2 ^ 64

-- The loop over `shift`, with `left` bytes to go.
unfoldable pub fnv_le : ℕ → ℕ → ℕ → ℕ → ℕ
fnv_le zero shift hash value = hash
fnv_le (suc left) shift hash value =
    fnv_le left (shift + 8) (fnv_byte hash (bit_and (shr value shift) 0xff)) value

unfoldable pub fnv_u32_le : ℕ → ℕ → ℕ
fnv_u32_le hash value = fnv_le 4 0 hash value

unfoldable pub fnv_u64_le : ℕ → ℕ → ℕ
fnv_u64_le hash value = fnv_le 8 0 hash value

unfoldable pub fnv_words : ℕ → List ℕ → ℕ
fnv_words hash [] = hash
fnv_words hash (word ∷ rest) = fnv_words (fnv_u32_le hash word) rest

unfoldable pub fingerprint_guest_words : ℕ → List ℕ → ℕ
fingerprint_guest_words start_pc words =
    fnv_words (fnv_u64_le (fnv_u32_le fnv_offset start_pc) (length words)) words
