-- ===== src/Prelude/Bits.antt =====
-- Bits of a word: `|` and `&` digit by digit, and what they do to a single bit.
use Prim.Native.Nat.{
  ℕ, zero, suc, ◌+◌, ◌-◌, ◌*◌, ◌/◌, ◌%◌, ◌^◌, ◌≤◌, ◌<◌, min, max, digits, bit_and, bit_or,
  bit_and-bitwise, bit_or-bitwise,
}
use mathlib.Core.Path.{◌≡◌, refl, ap, sym, ◌∙◌}
use mathlib.Core.Bool.{Bool, true, false}
use native.Mathlib.Nat.{
  pow-suc, one-le-pow, div-add-mod', mod-lt, mul-add-mod_self_right, mod-eq_of_lt,
}
use native.Mathlib.Omega.{arith}
use mosh_client_rs.Prelude.Tests.{ltb, leb, ◌==◌, if◌then◌else◌}

-- The fuel of `digits` does not matter once it reaches the number.
module _ (z : ℕ → ℕ) (f : ℕ → ℕ → ℕ) where
  digits_enough : (n m a b : ℕ) → a ≤ n → a ≤ m → digits z f n a b ≡ digits z f m a b
  digits_enough zero zero a b p q = refl
  digits_enough zero (suc m) zero b p q = refl
  digits_enough zero (suc m) (suc a) b p q = absurd (omega arith)
  digits_enough (suc n) zero zero b p q = refl
  digits_enough (suc n) zero (suc a) b p q = absurd (omega arith)
  digits_enough (suc n) (suc m) zero b p q = refl
  digits_enough (suc n) (suc m) (suc a) b p q =
      omega (arith, digits_enough n m (suc a / 2) (b / 2) (omega arith) (omega arith))

pub bit_or_halves : (a b : ℕ) → bit_or a b ≡ bit_or (a / 2) (b / 2) * 2 + max (a % 2) (b % 2)
bit_or_halves zero b = omega (arith, bit_or-bitwise 0 b, bit_or-bitwise 0 (b / 2))
bit_or_halves (suc a) b = omega (
  arith,
  bit_or-bitwise (suc a) b,
  bit_or-bitwise (suc a / 2) (b / 2),
  digits_enough (λ y. y) max a (suc a / 2) (suc a / 2) (b / 2) (omega arith) (omega arith),
)

pub bit_and_halves : (a b : ℕ) → bit_and a b ≡ bit_and (a / 2) (b / 2) * 2 + min (a % 2) (b % 2)
bit_and_halves zero b = omega (arith, bit_and-bitwise 0 b, bit_and-bitwise 0 (b / 2))
bit_and_halves (suc a) b = omega (
  arith,
  bit_and-bitwise (suc a) b,
  bit_and-bitwise (suc a / 2) (b / 2),
  digits_enough (λ y. 0) min a (suc a / 2) (suc a / 2) (b / 2) (omega arith) (omega arith),
)

-- The bit at a place, 0 or 1.
abbrev pub bit_at : ℕ → ℕ → ℕ
bit_at x zero = x % 2
bit_at x (suc k) = bit_at (x / 2) k

bit_and_below : (n a : ℕ) → a ≤ n → bit_and a 0 ≡ 0
bit_and_below n zero h = bit_and-bitwise 0 0
bit_and_below zero (suc a) h = absurd (omega arith)
bit_and_below (suc n) (suc a) h =
    omega (arith, bit_and_halves (suc a) 0, bit_and_below n (suc a / 2) (omega arith))

bit_or_below : (n a : ℕ) → a ≤ n → bit_or a 0 ≡ a
bit_or_below n zero h = bit_or-bitwise 0 0
bit_or_below zero (suc a) h = absurd (omega arith)
bit_or_below (suc n) (suc a) h =
    omega (arith, bit_or_halves (suc a) 0, bit_or_below n (suc a / 2) (omega arith))

pub bit_and-zero : (a : ℕ) → bit_and a 0 ≡ 0
bit_and-zero a = bit_and_below a a (omega arith)

pub bit_or-zero : (a : ℕ) → bit_or a 0 ≡ a
bit_or-zero a = bit_or_below a a (omega arith)

-- `x & (1 << d)` is the bit at `d`, in place.
pub bit_and-pow : (d x : ℕ) → bit_and x (2 ^ d) ≡ bit_at x d * 2 ^ d
bit_and-pow zero x = omega (arith, bit_and_halves x 1, bit_and-zero (x / 2))
bit_and-pow (suc d) x =
    let p = pow-suc 2 d in
    let half : 2 ^ suc d / 2 ≡ 2 ^ d = omega (arith, p) in
    let rest : bit_and (x / 2) (2 ^ suc d / 2) ≡ bit_at (x / 2) d * 2 ^ d =
      ap (bit_and (x / 2)) half ∙ bit_and-pow d (x / 2) in
    let scaled : bit_at (x / 2) d * 2 ^ suc d ≡ 2 * (bit_at (x / 2) d * 2 ^ d) =
      omega (arith, ap (λ (t : ℕ). bit_at (x / 2) d * t) p) in
    omega (arith, p, bit_and_halves x (2 ^ suc d), rest, scaled)

-- A bit of `x | y`.
pub bit_at-bit_or : (k x y : ℕ) → bit_at (bit_or x y) k ≡ max (bit_at x k) (bit_at y k)
bit_at-bit_or zero x y = omega (arith, bit_or_halves x y)
bit_at-bit_or (suc k) x y =
    let h : bit_or x y / 2 ≡ bit_or (x / 2) (y / 2) = omega (arith, bit_or_halves x y) in
    rw h (bit_at-bit_or k (x / 2) (y / 2))

abbrev pub one_if : Bool → ℕ
one_if true = 1
one_if false = 0

bit_at-zero : (k : ℕ) → bit_at 0 k ≡ 0
bit_at-zero zero = refl
bit_at-zero (suc k) = bit_at-zero k

-- A single bit.
pub bit_at-pow : (d k : ℕ) → bit_at (2 ^ d) k ≡ one_if (d == k)
bit_at-pow zero zero = refl
bit_at-pow zero (suc k) = ground (arith, bit_at-zero k)
bit_at-pow (suc d) zero = ground (arith, pow-suc 2 d)
bit_at-pow (suc d) (suc k) =
    let h : 2 ^ suc d / 2 ≡ 2 ^ d = omega (arith, pow-suc 2 d) in ground (arith, h, bit_at-pow d k)

mul-pow-suc : (x s : ℕ) → x * 2 ^ suc s ≡ 2 * (x * 2 ^ s)
mul-pow-suc x s = omega (arith, ap (λ (t : ℕ). x * t) (pow-suc 2 s))

-- A shift to the left.
pub bit_at-shift : (s k x : ℕ) → bit_at (x * 2 ^ s) k ≡ (if leb s k then bit_at x (k - s) else 0)
bit_at-shift zero k x =
    let e : x * 2 ^ 0 ≡ x = omega arith in
    let f : k - 0 ≡ k = omega arith in ground (arith, ap (λ (t : ℕ). bit_at t k) e, ap (bit_at x) f)
bit_at-shift (suc s) zero x =
    let far : leb (suc s) 0 ≡ false = ground arith in
    let even : bit_at (x * 2 ^ suc s) 0 ≡ 0 = omega (arith, mul-pow-suc x s) in rw far even
bit_at-shift (suc s) (suc k) x =
    let h : x * 2 ^ suc s / 2 ≡ x * 2 ^ s = omega (arith, mul-pow-suc x s) in
    let f : suc k - suc s ≡ k - s = omega arith in
    ground (arith, ap (λ (t : ℕ). bit_at t k) h, bit_at-shift s k x, ap (bit_at x) f)

-- The halves of a remainder by `2 ^ (n + 1)`.
mod-pow-suc : (n x : ℕ) → (x % 2 ^ suc n % 2 ≡ x % 2) × (x % 2 ^ suc n / 2 ≡ x / 2 % 2 ^ n)
mod-pow-suc n x =
    let pos = one-le-pow n 2 in
    let p = pow-suc 2 n in
    let q = x / 2 ^ suc n in
    let r = x % 2 ^ suc n in
    let whole : q * 2 ^ suc n + r ≡ x = div-add-mod' x (2 ^ suc n) in
    let twice = mul-pow-suc q n in
    let small : r < 2 ^ suc n = mod-lt x (omega (arith, p, pos)) in
    let half : x / 2 ≡ q * 2 ^ n + r / 2 = omega (arith, whole, twice) in
    (
      omega (arith, whole, twice),
      sym (
          ap (λ (t : ℕ). t % 2 ^ n) half
          ∙ mul-add-mod_self_right q (2 ^ n) (r / 2)
          ∙ mod-eq_of_lt (omega (arith, small, p))),
    )

-- Cutting to `n` bits.
pub bit_at-mod : (n k x : ℕ) → bit_at (x % 2 ^ n) k ≡ (if ltb k n then bit_at x k else 0)
bit_at-mod zero k x =
    let e : x % 2 ^ 0 ≡ 0 = omega arith in
    ground (arith, ap (λ (t : ℕ). bit_at t k) e, bit_at-zero k)
bit_at-mod (suc n) zero x = ground (arith, (mod-pow-suc n x).0)
bit_at-mod (suc n) (suc k) x =
    let h = (mod-pow-suc n x).1 in
    ground (arith, ap (λ (t : ℕ). bit_at t k) h, bit_at-mod n k (x / 2))

-- A mask of the low bits is a remainder.
pub bit_and-mask : (k a : ℕ) → bit_and a (2 ^ k - 1) ≡ a % 2 ^ k
bit_and-mask zero a = omega (arith, bit_and-zero a)
bit_and-mask (suc k) a =
    let p = pow-suc 2 k in
    let pos = one-le-pow k 2 in
    let half : (2 ^ suc k - 1) / 2 ≡ 2 ^ k - 1 = omega (arith, p, pos) in
    let rest : bit_and (a / 2) ((2 ^ suc k - 1) / 2) ≡ a / 2 % 2 ^ k =
      ap (bit_and (a / 2)) half ∙ bit_and-mask k (a / 2) in
    omega (arith, bit_and_halves a (2 ^ suc k - 1), rest, p, pos, mod-pow-suc k a)

-- A flag above the low bits is a sum.
pub bit_or-flag : (k q r : ℕ) → r < 2 ^ k → bit_or (q * 2 ^ k) r ≡ q * 2 ^ k + r
bit_or-flag zero q r h =
    let e : r ≡ 0 = omega arith in
    ap (λ (t : ℕ). bit_or (q * 2 ^ 0) t) e ∙ bit_or-zero (q * 2 ^ 0) ∙ omega arith
bit_or-flag (suc k) q r h =
    let p = pow-suc 2 k in
    let twice = mul-pow-suc q k in
    let half : q * 2 ^ suc k / 2 ≡ q * 2 ^ k = omega (arith, twice) in
    let rest : bit_or (q * 2 ^ suc k / 2) (r / 2) ≡ q * 2 ^ k + r / 2 =
      ap (λ (t : ℕ). bit_or t (r / 2)) half ∙ bit_or-flag k q (r / 2) (omega (arith, p)) in
    omega (arith, bit_or_halves (q * 2 ^ suc k) r, rest, twice)

pub bit_or_comm : (k a b : ℕ) → a ≤ k → bit_or a b ≡ bit_or b a
bit_or_comm zero zero b h = bit_or-bitwise 0 b ∙ sym (bit_or-zero b)
bit_or_comm zero (suc a) b h = absurd (omega arith)
bit_or_comm (suc k) zero b h = bit_or-bitwise 0 b ∙ sym (bit_or-zero b)
bit_or_comm (suc k) (suc a) b h = omega (
  arith,
  bit_or_halves (suc a) b,
  bit_or_halves b (suc a),
  bit_or_comm k (suc a / 2) (b / 2) (omega arith),
)

-- A flag bit above a field: the flag and the field come back.
pub bit_and-flag :
    (k b r : ℕ) → b ≤ 1 → r < 2 ^ k → bit_and (bit_or (b * 2 ^ k) r) (2 ^ k) ≡ b * 2 ^ k
bit_and-flag k b r one h =
    let field : bit_at r k ≡ 0 =
      ap (λ (t : ℕ). bit_at t k) (sym (mod-eq_of_lt h)) ∙ bit_at-mod k k r ∙ (ground arith) in
    let same : k - k ≡ 0 = omega arith in
    let flag : bit_at (b * 2 ^ k) k ≡ b =
      bit_at-shift k k b ∙ (ground (arith, ap (bit_at b) same)) in
    let bit : bit_at (bit_or (b * 2 ^ k) r) k ≡ b =
      bit_at-bit_or k (b * 2 ^ k) r ∙ omega (arith, field, flag) in
    bit_and-pow k (bit_or (b * 2 ^ k) r) ∙ ap (λ (t : ℕ). t * 2 ^ k) bit

pub bit_and-field : (k b r : ℕ) → r < 2 ^ k → bit_and (bit_or (b * 2 ^ k) r) (2 ^ k - 1) ≡ r
bit_and-field k b r h =
    bit_and-mask k (bit_or (b * 2 ^ k) r)
    ∙ ap (λ (t : ℕ). t % 2 ^ k) (bit_or-flag k b r h)
    ∙ mul-add-mod_self_right b (2 ^ k) r
    ∙ mod-eq_of_lt h
