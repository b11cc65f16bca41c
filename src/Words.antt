-- ===== src/Words.antt =====
-- Go's fixed-width integers: the conversions between `int64` and `uint64`, and
-- `binary.LittleEndian` (encoding/binary) as rules/standard uses it.
use native.Mathlib.Nat.{pow-suc}
use dirk.Prelude.{
  ℕ, zero, suc, ◌+◌, ◌-◌, ◌*◌, ◌/◌, ◌%◌, ◌^◌, ◌≤◌, ◌<◌, ◌≡◌, refl, List, [], ◌∷◌, arith, ltb,
  if◌then◌else◌, length, Bool, true, false, ap, not,
}

-- `negsuc n` is -(n + 1).
pub data ℤ : Type 0 where
  pos : ℕ → ℤ
  negsuc : ℕ → ℤ

abbrev pub pow63 : ℕ
pow63 = 9223372036854775808

abbrev pub pow64 : ℕ
pow64 = 18446744073709551616

-- int64(n) of a uint64 n; of a larger number, its low 64 bits
abbrev pub int64 : ℕ → ℤ
int64 n = if ltb (n % pow64) pow63 then pos (n % pow64) else negsuc (pow64 - n % pow64 - 1)

-- uint64(z) of an int64 z
abbrev pub uint64 : ℤ → ℕ
uint64 (pos n) = n
uint64 (negsuc n) = pow64 - n - 1

-- z >= 0
abbrev pub is_nonneg : ℤ → Bool
is_nonneg (pos n) = true
is_nonneg (negsuc n) = false

abbrev pub IsInt64 : ℤ → Type 0
IsInt64 (pos n) = n < pow63
IsInt64 (negsuc n) = n < pow63

pub int64-uint64 : (z : ℤ) → IsInt64 z → int64 (uint64 z) ≡ z
int64-uint64 z h = ground arith

pub int64-IsInt64 : (n : ℕ) → IsInt64 (int64 n)
int64-IsInt64 n = ground arith

pub int64_small : (n : ℕ) → n < pow63 → int64 n ≡ pos n
int64_small n h = ground arith

-- int64(n) is below 0 from 2^63 on.
pub int64_large : (n : ℕ) → pow63 ≤ n → n < pow64 → is_nonneg (int64 n) ≡ false
int64_large n h h' = ground arith

-- z ≥ n
abbrev pub AtLeast : ℤ → ℕ → Type 0
AtLeast (pos m) n = n ≤ m
AtLeast (negsuc m) n = ⊥

-- The `k` lowest bytes of `n`, the lowest first: PutUint64 with k = 8.
unfoldable pub put_le : ℕ → ℕ → List ℕ
put_le zero n = []
put_le (suc k) n = (n % 256) ∷ put_le k (n / 256)

-- Uint64
unfoldable pub get_le : List ℕ → ℕ
get_le [] = 0
get_le (b ∷ bs) = b + 256 * get_le bs

pub get_le-put_le : (k n : ℕ) → n < 256 ^ k → get_le (put_le k n) ≡ n
unfolding put_le get_le
get_le-put_le zero n h = omega arith
get_le-put_le (suc k) n h =
    let small : n / 256 < 256 ^ k = omega (arith, pow-suc 256 k) in
    omega (arith, get_le-put_le k (n / 256) small)

pub length-put_le : (k n : ℕ) → length (put_le k n) ≡ k
unfolding put_le
length-put_le zero n = refl
length-put_le (suc k) n = ap suc (length-put_le k (n / 256))

-- a < b, a <= b of two int64
abbrev pub ltz : ℤ → ℤ → Bool
ltz (pos a) (pos b) = ltb a b
ltz (pos a) (negsuc b) = false
ltz (negsuc a) (pos b) = true
ltz (negsuc a) (negsuc b) = ltb b a

abbrev pub lez : ℤ → ℤ → Bool
lez a b = not (ltz b a)
