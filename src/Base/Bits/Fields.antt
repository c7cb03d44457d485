-- ===== src/Base/Bits/Fields.antt =====
-- Numbers cut into a high and a low part: `&` with a mask of either part, and `|` of both.
use Prim.Native.Nat.{ℕ, zero, suc, ◌+◌, ◌-◌, ◌*◌, ◌/◌, ◌%◌, ◌^◌, ◌<◌, ◌≤◌, bit_and, bit_or}
use mathlib.Core.Path.{◌≡◌, refl, sym, ap, ◌∙◌}
use native.Mathlib.Nat.{pow-suc, one-le-pow, div-add-mod'}
use native.Mathlib.Omega.{arith}
use asrt.Base.Bits.{and_digit, or_digit}

-- By recursion on a bound, since one digit is half the number.
and_nothing : (n a : ℕ) → a ≤ n → bit_and a 0 ≡ 0
and_nothing zero zero small = refl
and_nothing zero (suc a) small = absurd (omega arith)
and_nothing (suc n) a small = omega (arith, and_digit a 0, and_nothing n (a / 2) (omega arith))

or_nothing : (n a : ℕ) → a ≤ n → bit_or a 0 ≡ a
or_nothing zero zero small = refl
or_nothing zero (suc a) small = absurd (omega arith)
or_nothing (suc n) a small = omega (arith, or_digit a 0, or_nothing n (a / 2) (omega arith))

-- One digit more of the low part.
double : (q k : ℕ) → q * 2 ^ suc k ≡ 2 * (q * 2 ^ k)
double q k = omega (arith, ap (λ p. q * p) (pow-suc 2 k))

pub and_high_part :
    (k q r m : ℕ) → r < 2 ^ k → bit_and (q * 2 ^ k + r) (m * 2 ^ k) ≡ bit_and q m * 2 ^ k
and_high_part zero q r m small =
    let left : q * 1 + r ≡ q = omega arith in
    let right : m * 1 ≡ m = omega arith in rw (left, right) (omega arith)
and_high_part (suc k) q r m small =
    let half : (q * 2 ^ suc k + r) / 2 ≡ q * 2 ^ k + r / 2 = omega (arith, double q k) in
    let mask : m * 2 ^ suc k / 2 ≡ m * 2 ^ k = omega (arith, double m k) in
    let ih = and_high_part k q (r / 2) m (omega (arith, pow-suc 2 k)) in
    and_digit (q * 2 ^ suc k + r) (m * 2 ^ suc k)
    ∙ rw (half, mask, ih) (omega (arith, double (bit_and q m) k, double m k))

pub and_low_part : (k q r : ℕ) → r < 2 ^ k → bit_and (q * 2 ^ k + r) (2 ^ k - 1) ≡ r
and_low_part zero q r small = and_nothing (q * 1 + r) (q * 1 + r) (omega arith) ∙ omega arith
and_low_part (suc k) q r small =
    let half : (q * 2 ^ suc k + r) / 2 ≡ q * 2 ^ k + r / 2 = omega (arith, double q k) in
    let mask : (2 ^ suc k - 1) / 2 ≡ 2 ^ k - 1 = omega (arith, pow-suc 2 k) in
    let ih = and_low_part k q (r / 2) (omega (arith, pow-suc 2 k)) in
    and_digit (q * 2 ^ suc k + r) (2 ^ suc k - 1)
    ∙ rw (half, mask, ih) (omega (arith, double q k, pow-suc 2 k, one-le-pow k 2))

pub or_low_part : (k q r : ℕ) → r < 2 ^ k → bit_or (q * 2 ^ k) r ≡ q * 2 ^ k + r
or_low_part zero q r small =
    let e : r ≡ 0 = omega arith in
    let f : q * 1 ≡ q = omega arith in rw (e, f) (or_nothing q q (omega arith) ∙ omega arith)
or_low_part (suc k) q r small =
    let half : q * 2 ^ suc k / 2 ≡ q * 2 ^ k = omega (arith, double q k) in
    let ih = or_low_part k q (r / 2) (omega (arith, pow-suc 2 k)) in
    or_digit (q * 2 ^ suc k) r ∙ rw (half, ih) (omega (arith, double q k))

-- A mask of `w` bits from bit `k` on.
pub and_field : (k w h : ℕ) → bit_and h ((2 ^ w - 1) * 2 ^ k) ≡ h / 2 ^ k % 2 ^ w * 2 ^ k
and_field k w h =
    let p = 2 ^ k in
    let q = h / p in
    let mask = 2 ^ w - 1 in
    ap (λ x. bit_and x (mask * p)) (sym (div-add-mod' h p))
    ∙ and_high_part k q (h % p) mask (omega (arith, one-le-pow k 2))
    ∙ ap (λ x. bit_and x mask * p) (sym (div-add-mod' q (2 ^ w)))
    ∙ ap (λ x. x * p) (and_low_part w (q / 2 ^ w) (q % 2 ^ w) (omega (arith, one-le-pow w 2)))
