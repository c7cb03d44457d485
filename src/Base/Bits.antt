-- ===== src/Base/Bits.antt =====
-- Masks of w bits as numbers: `|`, `&` and `~` with the laws that the event masks need, each proved
-- by recursion on the width from one equation for the lowest digit.
pub mod Fields
use Prim.Native.Nat.{
  ℕ, zero, suc, ◌+◌, ◌-◌, ◌*◌, ◌/◌, ◌%◌, ◌^◌, ◌≤◌, ◌<◌, min, max, bit_and, bit_or, digits,
  bit_and-bitwise, bit_or-bitwise,
}
use mathlib.Core.Path.{◌≡◌, refl}
use native.Mathlib.Nat.{pow-suc}
use native.Mathlib.Omega.{arith}

-- More fuel than the first number has digits changes nothing.
digits_enough :
    (z : ℕ → ℕ) (f : ℕ → ℕ → ℕ) (a n m b : ℕ) → a ≤ n → a ≤ m → digits z f n a b ≡ digits z f m a b
digits_enough z f zero zero zero b p q = refl
digits_enough z f zero zero (suc m) b p q = refl
digits_enough z f zero (suc n) zero b p q = refl
digits_enough z f zero (suc n) (suc m) b p q = refl
digits_enough z f (suc a) zero m b p q = elim p [ ]
digits_enough z f (suc a) (suc n) zero b p q = elim q [ ]
digits_enough z f (suc a) (suc n) (suc m) b p q =
    rw (digits_enough z f (suc a / 2) n m (b / 2) (omega arith) (omega arith))

and_digit : (a b : ℕ) → bit_and a b ≡ bit_and (a / 2) (b / 2) * 2 + min (a % 2) (b % 2)
and_digit zero b = simp bit_and-bitwise (omega arith)
and_digit (suc a) b = simp bit_and-bitwise (
    omega (
      arith,
      digits_enough (λ _. 0) min (suc a / 2) a (suc a / 2) (b / 2) (omega arith) (omega arith),
    ))

or_digit : (a b : ℕ) → bit_or a b ≡ bit_or (a / 2) (b / 2) * 2 + max (a % 2) (b % 2)
or_digit zero b = simp bit_or-bitwise (omega arith)
or_digit (suc a) b = simp bit_or-bitwise (
    omega (
      arith,
      digits_enough (λ y. y) max (suc a / 2) a (suc a / 2) (b / 2) (omega arith) (omega arith),
    ))

and_half : (a b : ℕ) → bit_and a b / 2 ≡ bit_and (a / 2) (b / 2)
and_half a b = omega (arith, and_digit a b)

and_low : (a b : ℕ) → bit_and a b % 2 ≡ min (a % 2) (b % 2)
and_low a b = omega (arith, and_digit a b)

or_half : (a b : ℕ) → bit_or a b / 2 ≡ bit_or (a / 2) (b / 2)
or_half a b = omega (arith, or_digit a b)

or_low : (a b : ℕ) → bit_or a b % 2 ≡ max (a % 2) (b % 2)
or_low a b = omega (arith, or_digit a b)

same_digits : (a b : ℕ) → a / 2 ≡ b / 2 → a % 2 ≡ b % 2 → a ≡ b
same_digits a b h l = omega arith

ruleset low_digits = (and_low, or_low)

ruleset half_digits = (and_half, or_half)

-- `~e` on w bits.
abbrev pub complement : ℕ → ℕ → ℕ
complement w e = 2 ^ w - 1 - e

half_lt : (w a : ℕ) → a < 2 ^ suc w → a / 2 < 2 ^ w
half_lt w a h = omega (arith, pow-suc 2 w)

complement_half : (w e : ℕ) → e < 2 ^ suc w → complement (suc w) e / 2 ≡ complement w (e / 2)
complement_half w e h = omega (arith, pow-suc 2 w)

complement_low : (w e : ℕ) → e < 2 ^ suc w → complement (suc w) e % 2 ≡ 1 - e % 2
complement_low w e h = omega (arith, pow-suc 2 w)

pub complement-lt : (w e : ℕ) → 0 < 2 ^ w → complement w e < 2 ^ w
complement-lt w e h = omega arith

-- Nothing of `e` is left in `m & ~e`.
pub and-and-complement :
    (w m e : ℕ) → m < 2 ^ w → e < 2 ^ w → bit_and (bit_and m (complement w e)) e ≡ 0
and-and-complement zero zero zero hm he = refl
and-and-complement zero zero (suc e) hm he = absurd (omega arith)
and-and-complement zero (suc m) e hm he = absurd (omega arith)
and-and-complement (suc w) m e hm he =
    same_digits _ 0
      (simp half_digits (
        rw (complement_half w e he)
          (omega (arith, and-and-complement w (m / 2) (e / 2) (half_lt w m hm) (half_lt w e he)))))
      (simp low_digits (rw (complement_low w e he) (omega arith)))

-- `m & ~e` and `m & e` make up `m`.
pub or-and-complement :
    (w m e : ℕ) → m < 2 ^ w → e < 2 ^ w → bit_or (bit_and m (complement w e)) (bit_and m e) ≡ m
or-and-complement zero zero zero hm he = refl
or-and-complement zero zero (suc e) hm he = absurd (omega arith)
or-and-complement zero (suc m) e hm he = absurd (omega arith)
or-and-complement (suc w) m e hm he =
    same_digits _ m
      (simp half_digits (
        rw (complement_half w e he)
          (or-and-complement w (m / 2) (e / 2) (half_lt w m hm) (half_lt w e he))))
      (simp low_digits (rw (complement_low w e he) (omega arith)))

-- What was added is there.
pub and-or_right : (w m e : ℕ) → m < 2 ^ w → e < 2 ^ w → bit_and (bit_or m e) e ≡ e
and-or_right zero zero zero hm he = refl
and-or_right zero zero (suc e) hm he = absurd (omega arith)
and-or_right zero (suc m) e hm he = absurd (omega arith)
and-or_right (suc w) m e hm he =
    same_digits _ e
      (simp half_digits (and-or_right w (m / 2) (e / 2) (half_lt w m hm) (half_lt w e he)))
      (simp low_digits (omega arith))

-- Bits that `e` does not hold are left alone by `& ~e`.
pub and-complement_disjoint :
    (w m e f : ℕ)
    → m < 2 ^ w
    → e < 2 ^ w
    → f < 2 ^ w
    → bit_and e f ≡ 0
    → bit_and (bit_and m (complement w e)) f ≡ bit_and m f
and-complement_disjoint zero zero zero f hm he hf d = refl
and-complement_disjoint zero zero (suc e) f hm he hf d = absurd (omega arith)
and-complement_disjoint zero (suc m) e f hm he hf d = absurd (omega arith)
and-complement_disjoint (suc w) m e f hm he hf d =
    same_digits _ _
      (simp half_digits (
        rw (complement_half w e he) (
          and-complement_disjoint w (m / 2) (e / 2) (f / 2) (half_lt w m hm) (half_lt w e he)
            (half_lt w f hf) (omega (arith, and_digit e f)))))
      (simp low_digits (rw (complement_low w e he) (omega (arith, and_digit e f))))

pub and-lt : (w a b : ℕ) → a < 2 ^ w → bit_and a b < 2 ^ w
and-lt zero zero b h = simp bit_and-bitwise (omega arith)
and-lt zero (suc a) b h = absurd (omega arith)
and-lt (suc w) a b h =
    omega (arith, and_digit a b, and-lt w (a / 2) (b / 2) (half_lt w a h), pow-suc 2 w)

pub or-lt : (w a b : ℕ) → a < 2 ^ w → b < 2 ^ w → bit_or a b < 2 ^ w
or-lt zero zero zero h k = omega arith
or-lt zero zero (suc b) h k = absurd (omega arith)
or-lt zero (suc a) b h k = absurd (omega arith)
or-lt (suc w) a b h k =
    omega
      (arith, or_digit a b, or-lt w (a / 2) (b / 2) (half_lt w a h) (half_lt w b k), pow-suc 2 w)

-- Bits that `e` does not hold are left alone by `| e`.
pub and-or_disjoint :
    (w m e f : ℕ)
    → m < 2 ^ w
    → e < 2 ^ w
    → f < 2 ^ w
    → bit_and e f ≡ 0
    → bit_and (bit_or m e) f ≡ bit_and m f
and-or_disjoint zero zero zero f hm he hf d = refl
and-or_disjoint zero zero (suc e) f hm he hf d = absurd (omega arith)
and-or_disjoint zero (suc m) e f hm he hf d = absurd (omega arith)
and-or_disjoint (suc w) m e f hm he hf d =
    same_digits _ _
      (simp half_digits (
        and-or_disjoint w (m / 2) (e / 2) (f / 2) (half_lt w m hm) (half_lt w e he) (half_lt w f hf)
          (omega (arith, and_digit e f))))
      (simp low_digits (omega (arith, and_digit e f)))

-- Meeting `m` once more changes nothing.
pub and_absorb : (w m c : ℕ) → m < 2 ^ w → c < 2 ^ w → bit_and m (bit_and c m) ≡ bit_and c m
and_absorb zero zero zero hm hc = refl
and_absorb zero zero (suc c) hm hc = absurd (omega arith)
and_absorb zero (suc m) c hm hc = absurd (omega arith)
and_absorb (suc w) m c hm hc =
    same_digits _ _
      (simp half_digits (and_absorb w (m / 2) (c / 2) (half_lt w m hm) (half_lt w c hc)))
      (simp low_digits (omega arith))
