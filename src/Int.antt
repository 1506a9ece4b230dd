-- ===== src/Int.antt =====
-- Signed integers over the native numbers, for timeouts and durations.
use transport_cpp.Prelude.{
  ℕ, suc, ◌*◌, ◌-◌, ◌%◌, ◌^◌, ◌≤◌, ◌<◌, ◌≡◌, ◌≢◌, refl, ap, ◌==◌, if◌then◌else◌, Bool, true, false,
  ltb, arith,
}

-- `negsuc n` is -(n + 1).
pub data ℤ : Type 0 where
  pos : ℕ → ℤ
  negsuc : ℕ → ℤ

abbrev pub pos_part : ℤ → ℕ
pos_part (pos n) = n
pos_part (negsuc n) = 0

abbrev pub neg_part : ℤ → ℕ
neg_part (pos n) = 0
neg_part (negsuc n) = suc n

abbrev pub ltb_ℤ : ℤ → ℤ → Bool
ltb_ℤ (pos a) (pos b) = ltb a b
ltb_ℤ (pos a) (negsuc b) = false
ltb_ℤ (negsuc a) (pos b) = true
ltb_ℤ (negsuc a) (negsuc b) = ltb b a

abbrev pub eq_ℤ : ℤ → ℤ → Bool
eq_ℤ (pos a) (pos b) = a == b
eq_ℤ (pos a) (negsuc b) = false
eq_ℤ (negsuc a) (pos b) = false
eq_ℤ (negsuc a) (negsuc b) = a == b

pub eq_ℤ-false : (a b : ℤ) → a ≢ b → eq_ℤ a b ≡ false
eq_ℤ-false (pos a) (pos b) h = ground (arith, (λ (e : a ≡ b). h (ap pos e)))
eq_ℤ-false (pos a) (negsuc b) h = refl
eq_ℤ-false (negsuc a) (pos b) h = refl
eq_ℤ-false (negsuc a) (negsuc b) h = ground (arith, (λ (e : a ≡ b). h (ap negsuc e)))

-- A result in 64 bits, read as a signed number. C++ leaves the overflow undefined; the compilers that
-- define it wrap around.
unfoldable pub to_int64 : ℤ → ℤ
to_int64 (pos n) = let m = n % 2 ^ 64 in if ltb m (2 ^ 63) then pos m else negsuc (2 ^ 64 - 1 - m)
to_int64 (negsuc n) =
    let m = n % 2 ^ 64 in if ltb m (2 ^ 63) then negsuc m else pos (2 ^ 64 - 1 - m)

-- The conversion of `std::chrono::milliseconds` to nanoseconds, which multiplies in 64 bits.
unfoldable pub nanoseconds : ℤ → ℤ
unfolding to_int64
nanoseconds (pos n) = to_int64 (pos (n * 1000000))
nanoseconds (negsuc n) = to_int64 (negsuc (suc n * 1000000 - 1))

-- The most milliseconds whose nanoseconds fit.
abbrev pub longest : ℕ
longest = 9223372036854

-- Up to there the conversion is exact.
pub nanoseconds_fit : (n : ℕ) → n ≤ longest → nanoseconds (pos n) ≡ pos (n * 1000000)
unfolding nanoseconds to_int64
nanoseconds_fit n h = ground arith

-- Past it the product wraps around to a negative number.
pub nanoseconds_wrap :
    (n : ℕ) → longest < n → n ≤ 18446744073709 → (m : ℕ) × (nanoseconds (pos n) ≡ negsuc m)
unfolding nanoseconds to_int64
nanoseconds_wrap n long upto = (2 ^ 64 - 1 - n * 1000000, ground arith)
