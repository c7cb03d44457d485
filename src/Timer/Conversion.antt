-- ===== src/Timer/Conversion.antt =====
-- include/asrt/timer/timer_util.hpp: durations and time points in nanoseconds, and `timespec`. Division
-- truncates towards zero, as in C++; the range of the 64-bit types is left out.
use asrt.Base.{
  ℕ, zero, suc, ◌+◌, ◌-◌, ◌*◌, ◌/◌, ◌%◌, ◌<◌, ◌≡◌, refl, sym, false, leb, if◌then◌else◌, ap, ◌∙◌,
  arith,
}
use asrt.Base.Int.{ℤ, pos, negsuc}

abbrev nsec_per_sec : ℕ
nsec_per_sec = 1000000000

-- -n.
abbrev neg_of : ℕ → ℤ
neg_of zero = pos 0
neg_of (suc n) = negsuc n

-- a - b.
abbrev difference : ℕ → ℕ → ℤ
difference a b = if leb b a then pos (a - b) else neg_of (b - a)

abbrev add_int : ℤ → ℤ → ℤ
add_int (pos a) (pos b) = pos (a + b)
add_int (pos a) (negsuc b) = difference a (suc b)
add_int (negsuc a) (pos b) = difference b (suc a)
add_int (negsuc a) (negsuc b) = negsuc (suc (a + b))

abbrev times_int : ℤ → ℕ → ℤ
times_int (pos a) k = pos (a * k)
times_int (negsuc a) k = neg_of (suc a * k)

pub record TimeSpec : Type 0 where
  pub tv_sec : ℤ
  pub tv_nsec : ℤ

-- `ToTimeSpec` of a duration, and of a time point by its duration since the epoch.
unfoldable pub to_time_spec : ℤ → TimeSpec
to_time_spec (pos n) = record { tv_sec = pos (n / nsec_per_sec); tv_nsec = pos (n % nsec_per_sec) }
to_time_spec (negsuc n) = record {
  tv_sec = neg_of (suc n / nsec_per_sec);
  tv_nsec = neg_of (suc n % nsec_per_sec);
}

-- `ToDuration` and `ToTimePoint`.
unfoldable pub to_duration : TimeSpec → ℤ
to_duration t = add_int (times_int t.tv_sec nsec_per_sec) t.tv_nsec

difference-zero : (b : ℕ) → 0 < b → difference 0 b ≡ neg_of b
difference-zero b positive =
    let e : leb b 0 ≡ false = ground arith in let f : b - 0 ≡ b = omega arith in rw (e, f) refl

add_int-neg_of : (a b : ℕ) → add_int (neg_of a) (neg_of b) ≡ neg_of (a + b)
add_int-neg_of zero zero = refl
add_int-neg_of zero (suc b) =
    let e : suc b ≡ 0 + suc b = omega arith in difference-zero (suc b) (omega arith) ∙ ap neg_of e
add_int-neg_of (suc a) zero =
    let e : suc a ≡ suc a + 0 = omega arith in difference-zero (suc a) (omega arith) ∙ ap neg_of e
add_int-neg_of (suc a) (suc b) =
    let e : suc (suc (a + b)) ≡ suc a + suc b = omega arith in ap neg_of e

times_int-neg_of : (q k : ℕ) → times_int (neg_of q) k ≡ neg_of (q * k)
times_int-neg_of zero k = let e : 0 * k ≡ 0 = omega arith in ap pos e ∙ ap neg_of (sym e)
times_int-neg_of (suc q) k = refl

-- A duration of any sign is the one of its timespec.
to_duration-to_time_spec : (d : ℤ) → to_duration (to_time_spec d) ≡ d
unfolding to_duration to_time_spec
to_duration-to_time_spec (pos n) = ap pos (omega arith)
to_duration-to_time_spec (negsuc n) =
    let q = suc n / nsec_per_sec in
    let r = suc n % nsec_per_sec in
    let whole : q * nsec_per_sec + r ≡ suc n = omega arith in
    ap (λ x. add_int x (neg_of r)) (times_int-neg_of q nsec_per_sec)
    ∙ add_int-neg_of (q * nsec_per_sec) r
    ∙ ap neg_of whole
