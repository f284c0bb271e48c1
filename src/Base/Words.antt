-- ===== src/Base/Words.antt =====
-- Machine words as native numbers: shifts, masks and `|` as arithmetic, at every width.
use Prim.Native.Nat.{
  ℕ, zero, suc, ◌+◌, ◌-◌, ◌*◌, ◌/◌, ◌%◌, ◌^◌, ◌≤◌, ◌<◌, min, max, bit_and, bit_or, digits,
  bit_and-bitwise, bit_or-bitwise,
}
use mathlib.Core.Path.{◌≡◌, refl, ap, ◌∙◌}
use native.Mathlib.Nat.{
  pow-suc, one-le-pow, le_refl, div-add-mod, mul-add-mod_self_left, mod-eq_of_lt, mod-lt,
}
use native.Mathlib.Omega.{arith}
use mathlib.Core.Bool.{Bool, true, ◌&&◌}
use minhq.Base.Tests.{◌==◌, ==_iff}

infixl 75 ◌<<<◌ ◌>>>◌
abbrev pub ◌<<<◌ : ℕ → ℕ → ℕ
x <<< k = x * 2 ^ k

abbrev pub ◌>>>◌ : ℕ → ℕ → ℕ
x >>> k = x / 2 ^ k

abbrev pub u8 : ℕ → ℕ
u8 n = n % 2 ^ 8

abbrev pub u64 : ℕ → ℕ
u64 n = n % 2 ^ 64

abbrev pub IsByte : ℕ → Type 0
IsByte b = b < 256

abbrev pub IsU64 : ℕ → Type 0
IsU64 v = v < 2 ^ 64

pub pow_pos : (k : ℕ) → 0 < 2 ^ k
pow_pos k = one-le-pow k 2 (omega arith)

-- What the native operations stand for is a recursion on digits with fuel; more fuel is the same.
module _ (z : ℕ → ℕ) (f : ℕ → ℕ → ℕ) where
  fuel_irrelevant : (n m a b : ℕ) → a ≤ n → a ≤ m → digits z f n a b ≡ digits z f m a b
  fuel_irrelevant zero zero zero b p q = refl
  fuel_irrelevant zero zero (suc a) b p q = absurd (omega arith)
  fuel_irrelevant zero (suc m) zero b p q = refl
  fuel_irrelevant zero (suc m) (suc a) b p q = absurd (omega arith)
  fuel_irrelevant (suc n) zero zero b p q = refl
  fuel_irrelevant (suc n) zero (suc a) b p q = absurd (omega arith)
  fuel_irrelevant (suc n) (suc m) zero b p q = refl
  fuel_irrelevant (suc n) (suc m) (suc a) b p q =
      rw (fuel_irrelevant n m (suc a / 2) (b / 2) (omega arith) (omega arith))

pub or_lowest : (a b : ℕ) → bit_or a b ≡ bit_or (a / 2) (b / 2) * 2 + max (a % 2) (b % 2)
or_lowest zero b = simp bit_or-bitwise (omega arith)
or_lowest (suc a) b = omega (
  arith,
  bit_or-bitwise (suc a) b,
  bit_or-bitwise (suc a / 2) (b / 2),
  fuel_irrelevant (λ y. y) max a (suc a / 2) (suc a / 2) (b / 2) (omega arith) (le_refl _),
)

pub and_lowest : (a b : ℕ) → bit_and a b ≡ bit_and (a / 2) (b / 2) * 2 + min (a % 2) (b % 2)
and_lowest zero b = simp bit_and-bitwise (omega arith)
and_lowest (suc a) b = omega (
  arith,
  bit_and-bitwise (suc a) b,
  bit_and-bitwise (suc a / 2) (b / 2),
  fuel_irrelevant (λ y. 0) min a (suc a / 2) (suc a / 2) (b / 2) (omega arith) (le_refl _),
)

or_zero_upto : (n a : ℕ) → a ≤ n → bit_or a 0 ≡ a
or_zero_upto n zero h = refl
or_zero_upto zero (suc a) h = absurd (omega arith)
or_zero_upto (suc n) (suc a) h =
    omega (arith, or_lowest (suc a) 0, or_zero_upto n (suc a / 2) (omega arith))

and_zero_upto : (n a : ℕ) → a ≤ n → bit_and a 0 ≡ 0
and_zero_upto n zero h = refl
and_zero_upto zero (suc a) h = absurd (omega arith)
and_zero_upto (suc n) (suc a) h =
    omega (arith, and_lowest (suc a) 0, and_zero_upto n (suc a / 2) (omega arith))

pub shl-suc : (q k : ℕ) → q <<< suc k ≡ 2 * (q <<< k)
shl-suc q k = omega (arith, ap (λ (t : ℕ). q * t) (pow-suc 2 k))

-- `|` fills the zeros that a shift left.
pub shl-or : (k q r : ℕ) → r < 2 ^ k → bit_or (q <<< k) r ≡ q <<< k + r
shl-or zero q r h = ground (arith, or_zero_upto q q (le_refl q))
shl-or (suc k) q r h = ground (
  arith,
  or_lowest (q <<< suc k) r,
  shl-suc q k,
  pow-suc 2 k,
  shl-or k q (r / 2) (omega (arith, pow-suc 2 k)),
)

-- The lowest digit of a remainder by a power of two.
pub mod-pow_suc : (k a : ℕ) → a % 2 ^ suc k ≡ a / 2 % 2 ^ k * 2 + a % 2
mod-pow_suc k a =
    let t = 2 ^ k in
    let q = a / 2 / t in
    let r = a / 2 % t * 2 + a % 2 in
    let whole : a ≡ 2 ^ suc k * q + r =
      omega (arith, div-add-mod (a / 2) t, ap (λ (x : ℕ). x * q) (pow-suc 2 k)) in
    ap (λ (x : ℕ). x % 2 ^ suc k) whole
    ∙ mul-add-mod_self_left (2 ^ suc k) q r
    ∙ mod-eq_of_lt (omega (arith, pow-suc 2 k, mod-lt (a / 2) (pow_pos k)))

-- A mask of `k` ones is the remainder by `2 ^ k`.
pub and_mask : (k a : ℕ) → bit_and a (2 ^ k - 1) ≡ a % 2 ^ k
and_mask zero a = ground (arith, and_zero_upto a a (le_refl a))
and_mask (suc k) a =
    let ones : 2 ^ suc k - 1 ≡ (2 ^ k - 1) * 2 + 1 = omega (arith, pow-suc 2 k, pow_pos k) in
    omega (
      arith,
      and_lowest a (2 ^ suc k - 1),
      ap (bit_and (a / 2)) (half ones),
      and_mask k (a / 2),
      mod-pow_suc k a,
      ones,
    )
  where
    half : 2 ^ suc k - 1 ≡ (2 ^ k - 1) * 2 + 1 → (2 ^ suc k - 1) / 2 ≡ 2 ^ k - 1
    half e = omega (arith, e)

-- Over a small range a law is checked at every value.
all_below : ℕ → (ℕ → Bool) → Bool
all_below zero p = true
all_below (suc n) p = p n && all_below n p

all_below-holds : (n : ℕ) (p : ℕ → Bool) (x : ℕ) → all_below n p ≡ true → x < n → p x ≡ true
unfolding all_below
all_below-holds zero p x h lt = absurd (omega arith)
all_below-holds (suc n) p x h lt = ground (arith, all_below-holds n p x)

top_set_table : all_below 128 (λ x. bit_or x 0x80 == x + 128) ≡ true
unfolding all_below
top_set_table = refl

top_bit_table : all_below 256 (λ x. bit_and x 0x80 == x / 128 * 128) ≡ true
unfolding all_below
top_bit_table = refl

pub or_top : (x : ℕ) → x < 128 → bit_or x 0x80 ≡ x + 128
or_top x h = (==_iff _ _).0 (all_below-holds 128 _ x top_set_table h)

pub and_top : (x : ℕ) → x < 256 → bit_and x 0x80 ≡ x / 128 * 128
and_top x h = (==_iff _ _).0 (all_below-holds 256 _ x top_bit_table h)
