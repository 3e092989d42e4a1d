-- ===== src/Common/Bits.antt =====
-- Laws of the bitwise operations on numbers of any width. All three work digit by digit, so the
-- laws are proved once for an operation that has a law for its lowest digit.
use Prim.Native.Nat.{
  ℕ, zero, suc, ◌+◌, ◌-◌, ◌*◌, ◌/◌, ◌%◌, ◌^◌, ◌≤◌, ◌<◌, min, max, digits, bitwise, differ,
}
use Prim.Native.Nat.{bit_and, bit_or, bit_xor, bit_and-bitwise, bit_or-bitwise, bit_xor-bitwise}
use mathlib.Core.Path.{◌≡◌, refl, ap}
use native.Mathlib.Nat.{pow-suc, one-le-pow, mod-lt, div-add-mod', le_refl}
use native.Mathlib.Omega.{arith}

module _ (digit : ℕ → ℕ → ℕ) (keep : ℕ → ℕ) where
  -- More fuel than the first number gives the same digits.
  digits_enough :
      (fuel more x y : ℕ)
      → x ≤ fuel
      → x ≤ more
      → digits keep digit fuel x y ≡ digits keep digit more x y
  digits_enough zero zero zero y enough plenty = refl
  digits_enough zero (suc more) zero y enough plenty = refl
  digits_enough (suc fuel) zero zero y enough plenty = refl
  digits_enough (suc fuel) (suc more) zero y enough plenty = refl
  digits_enough zero more (suc x) y enough plenty = absurd (omega arith)
  digits_enough (suc fuel) zero (suc x) y enough plenty = absurd (omega arith)
  digits_enough (suc fuel) (suc more) (suc x) y enough plenty =
      rw (digits_enough fuel more (suc x / 2) (y / 2) (omega arith) (omega arith))

  bitwise_lowest :
      (x y : ℕ)
      → bitwise keep digit (suc x) y
        ≡ bitwise keep digit (suc x / 2) (y / 2) * 2 + digit (suc x % 2) (y % 2)
  bitwise_lowest x y =
      rw (digits_enough (suc x / 2) x (suc x / 2) (y / 2) (omega arith) (omega arith))

pub bit_and_step : (x y : ℕ) → bit_and x y ≡ bit_and (x / 2) (y / 2) * 2 + min (x % 2) (y % 2)
bit_and_step zero y = simp bit_and-bitwise (omega arith)
bit_and_step (suc x) y = simp bit_and-bitwise (bitwise_lowest min _ x y)

pub bit_or_step : (x y : ℕ) → bit_or x y ≡ bit_or (x / 2) (y / 2) * 2 + max (x % 2) (y % 2)
bit_or_step zero y = simp bit_or-bitwise (omega arith)
bit_or_step (suc x) y = simp bit_or-bitwise (bitwise_lowest max _ x y)

pub bit_xor_step : (x y : ℕ) → bit_xor x y ≡ bit_xor (x / 2) (y / 2) * 2 + differ (x % 2) (y % 2)
bit_xor_step zero y = omega (arith, bit_xor-bitwise 0 y, bit_xor-bitwise 0 (y / 2))
bit_xor_step (suc x) y = simp bit_xor-bitwise (bitwise_lowest differ _ x y)

-- `q` above bit `k` and `r` below it.
abbrev pub joined : ℕ → ℕ → ℕ → ℕ
joined k q r = q * 2 ^ k + r

joined_half : (k q r : ℕ) → joined (suc k) q r / 2 ≡ joined k q (r / 2)
joined_half k q r = omega (arith, ap (λ (t : ℕ). q * t) (pow-suc 2 k))

joined_low : (k q r : ℕ) → joined (suc k) q r % 2 ≡ r % 2
joined_low k q r = omega (arith, ap (λ (t : ℕ). q * t) (pow-suc 2 k))

half-lt : (k r : ℕ) → r < 2 ^ suc k → r / 2 < 2 ^ k
half-lt k r h = omega (arith, pow-suc 2 k)

module _ (op low : ℕ → ℕ → ℕ)
    (step : (a b : ℕ) → op a b ≡ op (a / 2) (b / 2) * 2 + low (a % 2) (b % 2))
    (low_bit : (a b : ℕ) → a < 2 → b < 2 → low a b < 2) (nothing : op 0 0 ≡ 0) where
  -- The operation works on the part above bit `k` and on the part below it on their own.
  op_joined :
      (k q p r s : ℕ)
      → r < 2 ^ k
      → s < 2 ^ k
      → op (joined k q r) (joined k p s) ≡ joined k (op q p) (op r s)
  op_joined zero q p zero zero hr hs = ground (arith, nothing)
  op_joined zero q p (suc r) s hr hs = absurd (omega arith)
  op_joined zero q p zero (suc s) hr hs = absurd (omega arith)
  op_joined (suc k) q p r s hr hs =
      rw
        (
          step (joined (suc k) q r) (joined (suc k) p s),
          joined_half k q r,
          joined_half k p s,
          joined_low k q r,
          joined_low k p s,
        )
        (rw (op_joined k q p (r / 2) (s / 2) (half-lt k r hr) (half-lt k s hs))
          (omega (arith, step r s, pow-suc 2 k, ap (λ (t : ℕ). op q p * t) (pow-suc 2 k))))

  op-lt : (k r s : ℕ) → r < 2 ^ k → s < 2 ^ k → op r s < 2 ^ k
  op-lt zero zero zero hr hs = omega (arith, nothing)
  op-lt zero (suc r) s hr hs = absurd (omega arith)
  op-lt zero zero (suc s) hr hs = absurd (omega arith)
  op-lt (suc k) r s hr hs = omega (
    arith,
    step r s,
    pow-suc 2 k,
    op-lt k (r / 2) (s / 2) (half-lt k r hr) (half-lt k s hs),
    low_bit (r % 2) (s % 2) (omega arith) (omega arith),
  )

differ-lt : (a b : ℕ) → a < 2 → b < 2 → differ a b < 2
differ-lt zero b p q = q
differ-lt (suc zero) zero p q = p
differ-lt (suc zero) (suc b) p q = omega arith
differ-lt (suc (suc a)) b p q = absurd (omega arith)

pub bit_and-joined :
    (k q p r s : ℕ)
    → r < 2 ^ k
    → s < 2 ^ k
    → bit_and (joined k q r) (joined k p s) ≡ joined k (bit_and q p) (bit_and r s)
bit_and-joined = op_joined bit_and min bit_and_step (λ a b p q. omega arith) refl

pub bit_or-joined :
    (k q p r s : ℕ)
    → r < 2 ^ k
    → s < 2 ^ k
    → bit_or (joined k q r) (joined k p s) ≡ joined k (bit_or q p) (bit_or r s)
bit_or-joined = op_joined bit_or max bit_or_step (λ a b p q. omega arith) refl

pub bit_xor-joined :
    (k q p r s : ℕ)
    → r < 2 ^ k
    → s < 2 ^ k
    → bit_xor (joined k q r) (joined k p s) ≡ joined k (bit_xor q p) (bit_xor r s)
bit_xor-joined = op_joined bit_xor differ bit_xor_step differ-lt refl

pub bit_and-lt : (k r s : ℕ) → r < 2 ^ k → s < 2 ^ k → bit_and r s < 2 ^ k
bit_and-lt = op-lt bit_and min bit_and_step (λ a b p q. omega arith) refl

pub bit_or-lt : (k r s : ℕ) → r < 2 ^ k → s < 2 ^ k → bit_or r s < 2 ^ k
bit_or-lt = op-lt bit_or max bit_or_step (λ a b p q. omega arith) refl

pub bit_xor-lt : (k r s : ℕ) → r < 2 ^ k → s < 2 ^ k → bit_xor r s < 2 ^ k
bit_xor-lt = op-lt bit_xor differ bit_xor_step differ-lt refl

-- Operations with zero and with all ones, by strong recursion on a bound.
pub bit_and-zero : (n a : ℕ) → a ≤ n → bit_and a 0 ≡ 0
bit_and-zero n zero h = refl
bit_and-zero zero (suc a) h = absurd (omega arith)
bit_and-zero (suc n) (suc a) h =
    omega (arith, bit_and_step (suc a) 0, bit_and-zero n (suc a / 2) (omega arith))

pub bit_or-zero : (n a : ℕ) → a ≤ n → bit_or a 0 ≡ a
bit_or-zero n zero h = refl
bit_or-zero zero (suc a) h = absurd (omega arith)
bit_or-zero (suc n) (suc a) h =
    omega (arith, bit_or_step (suc a) 0, bit_or-zero n (suc a / 2) (omega arith))

pub zero-bit_or : (b : ℕ) → bit_or 0 b ≡ b
zero-bit_or b = bit_or-bitwise 0 b

pub zero-bit_and : (b : ℕ) → bit_and 0 b ≡ 0
zero-bit_and b = bit_and-bitwise 0 b

half_ones : (k : ℕ) → (2 ^ suc k - 1) / 2 ≡ 2 ^ k - 1
half_ones k = omega (arith, pow-suc 2 k)

pub bit_and_ones : (k r : ℕ) → r < 2 ^ k → bit_and r (2 ^ k - 1) ≡ r
bit_and_ones zero zero h = refl
bit_and_ones zero (suc r) h = absurd (omega arith)
bit_and_ones (suc k) r h = omega (
  arith,
  bit_and_step r (2 ^ suc k - 1),
  pow-suc 2 k,
  one-le-pow k 2 (omega arith),
  ap (bit_and (r / 2)) (half_ones k),
  bit_and_ones k (r / 2) (half-lt k r h),
)

-- A mask of `k` ones is the remainder by `2 ^ k`.
pub bit_and_mask : (k a : ℕ) → bit_and a (2 ^ k - 1) ≡ a % 2 ^ k
bit_and_mask k a = ground (
  arith,
  ap (λ t. bit_and t (2 ^ k - 1)) (div-add-mod' a (2 ^ k)),
  bit_and-joined k (a / 2 ^ k) 0 (a % 2 ^ k) (2 ^ k - 1) (mod-lt a (one-le-pow k 2 (omega arith)))
      (omega (arith, one-le-pow k 2 (omega arith))),
  bit_and-zero _ (a / 2 ^ k) (le_refl _),
  bit_and_ones k (a % 2 ^ k) (mod-lt a (one-le-pow k 2 (omega arith))),
)

-- `|` of a shifted field and a field that fits below it is their sum.
pub bit_or_fields : (k q r : ℕ) → r < 2 ^ k → bit_or (q * 2 ^ k) r ≡ q * 2 ^ k + r
bit_or_fields k q r h = ground (
  arith,
  bit_or-joined k q 0 0 r (one-le-pow k 2 (omega arith)) h,
  ap (λ (t : ℕ). t * 2 ^ k) (bit_or-zero q q (le_refl q)),
  zero-bit_or r,
)

pub bit_or_fields_swapped : (k q r : ℕ) → r < 2 ^ k → bit_or r (q * 2 ^ k) ≡ q * 2 ^ k + r
bit_or_fields_swapped k q r h = ground (
  arith,
  bit_or-joined k 0 q r 0 h (one-le-pow k 2 (omega arith)),
  ap (λ (t : ℕ). t * 2 ^ k) (zero-bit_or q),
  bit_or-zero r r (le_refl r),
)

-- A mask of ones above bit `k` clears what stands below it.
pub bit_and_high :
    (k m q r : ℕ)
    → q < 2 ^ m
    → r < 2 ^ k
    → bit_and (q * 2 ^ k + r) ((2 ^ m - 1) * 2 ^ k) ≡ q * 2 ^ k
bit_and_high k m q r hq hr = ground (
  arith,
  bit_and-joined k q (2 ^ m - 1) r 0 hr (one-le-pow k 2 (omega arith)),
  bit_and-zero r r (omega arith),
  ap (λ (t : ℕ). t * 2 ^ k) (bit_and_ones m q hq),
)
