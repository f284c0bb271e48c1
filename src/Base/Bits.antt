-- ===== src/Base/Bits.antt =====
-- A number as the string of its low bits, most significant first, and back.
use Prim.Native.Nat.{ℕ, zero, suc, ◌+◌, ◌*◌, ◌/◌, ◌%◌, ◌^◌, ◌-◌, ◌≤◌, ◌<◌, bit_or}
use mathlib.Core.Path.{◌≡◌, refl, ap, ◌∙◌}
use mathlib.Core.List.{List, [], ◌∷◌, ◌++◌, append-nil, append_assoc}
use native.Mathlib.Nat.{
  mul-one, div-add-mod, mod-lt, div-lt_iff_lt-mul, pow-le-pow_right, pow-suc, pow-succ', add-suc,
  add-zero, div-one, mod-eq_of_lt, div-div-eq-div-mul,
}
use native.Mathlib.Omega.{arith}
use minhq.Base.Lists.{length, length-append, take, drop}
use minhq.Base.Words.{◌<<<◌, ◌>>>◌, u64, shl-suc, shl-or, mod-pow_suc, pow_pos}

unfoldable pub bits_of : ℕ → ℕ → List ℕ
bits_of zero v = []
bits_of (suc n) v = bits_of n (v / 2) ++ v % 2 ∷ []

-- The number that a string of bits stands for, behind `acc`.
unfoldable pub value_from : ℕ → List ℕ → ℕ
value_from acc [] = acc
value_from acc (b ∷ bs) = value_from (acc * 2 + b) bs

pub bits_of-add : (a b v : ℕ) → bits_of (a + b) v ≡ bits_of a (v / 2 ^ b) ++ bits_of b v
unfolding bits_of
bits_of-add a zero v = rw (add-zero, div-one, append-nil) refl
bits_of-add a (suc b) v =
    rw (add-suc, bits_of-add a b (v / 2), append_assoc)
      (ap (λ x. bits_of a x ++ (bits_of b (v / 2) ++ v % 2 ∷ [])) shift)
  where
    shift : v / 2 / 2 ^ b ≡ v / 2 ^ suc b
    shift = rw (pow-succ', div-div-eq-div-mul)

pub bits_of-split : (n a b v : ℕ) → n ≡ a + b → bits_of n v ≡ bits_of a (v / 2 ^ b) ++ bits_of b v
bits_of-split n a b v e = rw e (bits_of-add a b v)

pub bits_of-mod : (n m v : ℕ) → n ≤ m → bits_of n (v % 2 ^ m) ≡ bits_of n v
unfolding bits_of
bits_of-mod zero m v h = refl
bits_of-mod (suc n) zero v h = absurd (omega arith)
bits_of-mod (suc n) (suc m) v h =
    rw (half, lowest) (ap (λ x. x ++ v % 2 ∷ []) (bits_of-mod n m (v / 2) (omega arith)))
  where
    half : v % 2 ^ suc m / 2 ≡ v / 2 % 2 ^ m
    half = omega (arith, mod-pow_suc m v)

    lowest : v % 2 ^ suc m % 2 ≡ v % 2
    lowest = omega (arith, mod-pow_suc m v)

pub bits_of-pack :
    (a b x y : ℕ) → y < 2 ^ b → bits_of (a + b) (x <<< b + y) ≡ bits_of a x ++ bits_of b y
unfolding bits_of
bits_of-pack a zero x y h = rw (add-zero, append-nil) (ap (bits_of a) (omega arith))
bits_of-pack a (suc b) x y h =
    rw
      (add-suc, half, lowest, bits_of-pack a b x (y / 2) (omega (arith, pow-suc 2 b)), append_assoc)
      refl
  where
    half : (x <<< suc b + y) / 2 ≡ x <<< b + y / 2
    half = omega (arith, shl-suc x b)

    lowest : (x <<< suc b + y) % 2 ≡ y % 2
    lowest = omega (arith, shl-suc x b)

pub length-bits_of : (n v : ℕ) → length (bits_of n v) ≡ n
unfolding bits_of
length-bits_of zero v = refl
length-bits_of (suc n) v =
    omega (arith, length-append (bits_of n (v / 2)) (v % 2 ∷ []), length-bits_of n (v / 2))

value_from-append :
    (acc : ℕ) (xs ys : List ℕ) → value_from acc (xs ++ ys) ≡ value_from (value_from acc xs) ys
unfolding value_from
value_from-append acc [] ys = refl
value_from-append acc (x ∷ xs) ys = value_from-append (acc * 2 + x) xs ys

pub value_from-bits_of : (n acc v : ℕ) → value_from acc (bits_of n v) ≡ acc <<< n + v % 2 ^ n
unfolding bits_of value_from
value_from-bits_of zero acc v = omega arith
value_from-bits_of (suc n) acc v =
    value_from-append acc (bits_of n (v / 2)) (v % 2 ∷ [])
    ∙ omega (arith, value_from-bits_of n acc (v / 2), mod-pow_suc n v, shl-suc acc n)

-- The bits of a number that fits give the number back.
pub value-bits_of : (n v : ℕ) → v < 2 ^ n → value_from 0 (bits_of n v) ≡ v
value-bits_of n v h = omega (arith, value_from-bits_of n 0 v, mod-eq_of_lt h)

pub pow-add : (a b : ℕ) → 2 ^ (a + b) ≡ 2 ^ a * 2 ^ b
pow-add a zero = rw (add-zero, mul-one) refl
pow-add a (suc b) = rw add-suc (
    omega (
      arith,
      pow-suc 2 (a + b),
      ap (λ (t : ℕ). t * 2) (pow-add a b),
      ap (λ (t : ℕ). 2 ^ a * t) (pow-suc 2 b),
    ))

pub pow_split : (n a b : ℕ) → n ≡ a + b → 2 ^ n ≡ 2 ^ a * 2 ^ b
pow_split n a b e = rw e (pow-add a b)

-- A shift to the left in 64 bits loses the top bits only.
pub u64-shl : (c x : ℕ) → c ≤ 64 → u64 (x <<< c) ≡ (x % 2 ^ (64 - c)) <<< c
u64-shl c x h =
    let t = 2 ^ (64 - c) in
    let q = x / t in
    let r = x % t in
    let size : 2 ^ 64 ≡ t * 2 ^ c = pow_split 64 (64 - c) c (omega arith) in
    let whole : x <<< c ≡ 2 ^ 64 * q + r <<< c =
      omega (arith, ap (λ (y : ℕ). y * 2 ^ c) (div-add-mod x t), ap (λ (y : ℕ). y * q) size) in
    let small : r <<< c < 2 ^ 64 = grind (arith, mod-lt x (pow_pos (64 - c)), pow_pos c) in
    ap (λ (y : ℕ). y % 2 ^ 64) whole ∙ omega arith

-- Writing `v` into the zeros that a shift by `c` leaves puts its bits behind those of `x`.
pub bits_of-or :
    (n a c x v : ℕ)
    → n ≡ a + c
    → n ≤ 64
    → v < 2 ^ c
    → bits_of n (bit_or (u64 (x <<< c)) v) ≡ bits_of a x ++ bits_of c v
bits_of-or n a c x v e h fits =
    rw (e, u64-shl c x (omega arith), shl-or c (x % 2 ^ (64 - c)) v fits)
      (bits_of-pack a c (x % 2 ^ (64 - c)) v fits
        ∙ ap (λ y. y ++ bits_of c v) (bits_of-mod a (64 - c) x (omega arith)))

-- And the value is below the next power of two.
pub or-lt :
    (n a c x v : ℕ) → n ≡ a + c → n ≤ 64 → x < 2 ^ a → v < 2 ^ c → bit_or (u64 (x <<< c)) v < 2 ^ n
or-lt n a c x v e h hx fits =
    let size : 2 ^ n ≡ 2 ^ a * 2 ^ c = pow_split n a c e in
    let below : x <<< c + 2 ^ c ≤ 2 ^ a * 2 ^ c = grind (arith, pow_pos c) in
    let whole : 2 ^ n ≤ 2 ^ 64 = pow-le-pow_right (omega arith) h in
    let same : u64 (x <<< c) ≡ x <<< c =
      mod-eq_of_lt (omega (arith, size, below, whole, pow_pos c)) in
    rw (same, shl-or c x v fits) (omega (arith, size, below))

pub shr-lt : (n a b v : ℕ) → n ≡ a + b → v < 2 ^ n → v >>> b < 2 ^ a
shr-lt n a b v e h = (div-lt_iff_lt-mul (pow_pos b)).1 (omega (arith, pow_split n a b e))

module _ {ℓ} {A : Type ℓ} where
  pub take-append_length : (n : ℕ) (xs ys : List A) → length xs ≡ n → take n (xs ++ ys) ≡ xs
  take-append_length zero [] ys h = refl
  take-append_length (suc n) [] ys h = absurd (omega arith)
  take-append_length zero (x ∷ xs) ys h = absurd (omega arith)
  take-append_length (suc n) (x ∷ xs) ys h = ap (◌∷◌ x) (take-append_length n xs ys (omega arith))

  pub drop-append_length : (n : ℕ) (xs ys : List A) → length xs ≡ n → drop n (xs ++ ys) ≡ ys
  drop-append_length zero [] ys h = refl
  drop-append_length (suc n) [] ys h = absurd (omega arith)
  drop-append_length zero (x ∷ xs) ys h = absurd (omega arith)
  drop-append_length (suc n) (x ∷ xs) ys h = drop-append_length n xs ys (omega arith)
