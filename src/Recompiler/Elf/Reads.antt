-- ===== src/Recompiler/Elf/Reads.antt =====
-- What a call of the parser may do: reads stay inside the file, and a returned value has a property.
use burnout_3_recompiled.Common.{
  ℕ, Bool, true, false, ◌≡◌, refl, ◌+◌, ◌*◌, ◌^◌, ◌≤◌, ◌<◌, arith, List, length, get_or, lt→ltb,
  bit_or, shl, All, All-get_or, bit_or_fields_swapped,
}
use burnout_3_recompiled.Recompiler.Elf.{
  Ps2ElfParseResult, Ps2ElfError, ◌>>=◌, reject, byte_at, read_u16, read_u32,
}
use burnout_3_recompiled.Recompiler.Elf.Ps2ElfParseResult.{parsed, failed}

-- The call does not read outside the file, and a value that it returns has the property.
pub data Returns {ℓ} {A : Type ℓ} (P : A → Type 0) : Ps2ElfParseResult A → Type ℓ where
  value : {a : A} → P a → Returns P (parsed a)
  error : {e : Ps2ElfError} → Returns P (failed e)

pub Returns-bind {ℓ κ} :
    {A : Type ℓ} {B : Type κ} {P : A → Type 0} {Q : B → Type 0} {m : Ps2ElfParseResult A}
    {k : A → Ps2ElfParseResult B}
    → Returns P m
    → ((a : A) → P a → Returns Q (k a))
    → Returns Q (m >>= k)
Returns-bind (value p) next = next _ p
Returns-bind error next = error

pub Returns-map {ℓ} :
    {A : Type ℓ} {P Q : A → Type 0} {m : Ps2ElfParseResult A}
    → Returns P m
    → ((a : A) → P a → Q a)
    → Returns Q m
Returns-map (value p) f = value (f _ p)
Returns-map error f = error

pub reject-Returns :
    (wrong : Bool) (e : Ps2ElfError) → Returns (λ _. wrong ≡ false) (reject wrong e)
reject-Returns true e = error
reject-Returns false e = value refl

-- The little-endian words that stand at an offset.
pub byte : List ℕ → ℕ → ℕ
byte bytes i = get_or bytes i 0

pub word16 : List ℕ → ℕ → ℕ
unfolding byte
word16 bytes i = byte bytes i + byte bytes (i + 1) * 2 ^ 8

pub word32 : List ℕ → ℕ → ℕ
unfolding byte
word32 bytes i =
    byte bytes i
    + byte bytes (i + 1) * 2 ^ 8
    + byte bytes (i + 2) * 2 ^ 16
    + byte bytes (i + 3) * 2 ^ 24

module _ (bytes : List ℕ) (are_bytes : All (λ b. b < 256) bytes) where
  byte-lt : (i : ℕ) → byte bytes i < 256
  unfolding byte
  byte-lt i = All-get_or (λ b. b < 256) bytes i 0 are_bytes (omega arith)

  pub byte_at-byte : (i : ℕ) → i < length bytes → byte_at bytes i ≡ parsed (byte bytes i)
  unfolding byte_at byte
  byte_at-byte i h = rw (lt→ltb i (length bytes) h)

  pub byte_at-Returns :
      (i : ℕ) → i < length bytes → Returns (λ v. v ≡ byte bytes i) (byte_at bytes i)
  byte_at-Returns i h = rw (byte_at-byte i h) (value refl)

  pub read_u16-Returns :
      (i : ℕ) → i + 2 ≤ length bytes → Returns (λ v. v ≡ word16 bytes i) (read_u16 bytes i)
  unfolding read_u16 word16
  read_u16-Returns i h =
      rw (byte_at-byte i (omega arith), byte_at-byte (i + 1) (omega arith))
        (value
          (omega (arith, bit_or_fields_swapped 8 (byte bytes (i + 1)) (byte bytes i) (byte-lt i))))

  or_bytes :
      (a b c d : ℕ)
      → a < 256
      → b < 256
      → c < 256
      → d < 256
      → bit_or (bit_or (bit_or a (shl b 8)) (shl c 16)) (shl d 24)
        ≡ a + b * 2 ^ 8 + c * 2 ^ 16 + d * 2 ^ 24
  or_bytes a b c d ha hb hc hd = ground (
    arith,
    bit_or_fields_swapped 8 b a ha,
    bit_or_fields_swapped 16 c (a + b * 2 ^ 8) (omega arith),
    bit_or_fields_swapped 24 d (a + b * 2 ^ 8 + c * 2 ^ 16) (omega arith),
  )

  pub read_u32-Returns :
      (i : ℕ) → i + 4 ≤ length bytes → Returns (λ v. v ≡ word32 bytes i) (read_u32 bytes i)
  unfolding read_u32 word32
  read_u32-Returns i h =
      rw
        (
          byte_at-byte i (omega arith),
          byte_at-byte (i + 1) (omega arith),
          byte_at-byte (i + 2) (omega arith),
          byte_at-byte (i + 3) (omega arith),
        )
        (value (or_bytes _ _ _ _ (byte-lt i) (byte-lt (i + 1)) (byte-lt (i + 2)) (byte-lt (i + 3))))
