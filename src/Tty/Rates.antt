-- ===== src/Tty/Rates.antt =====
-- The rates that Linux has a `speed_t` for, and `num2Baud` (src/serial.cpp) on them.
use transport_cpp.Prelude.{
  ℕ, zero, suc, ◌-◌, ◌==◌, ◌≡◌, ◌≢◌, refl, ◌∙◌, ap, ltb, Bool, true, ◌&&◌, if◌then◌else◌, some,
  List, [], ◌∷◌, lookup, arith, Option-cases, inl, inr,
}
use transport_cpp.Tty.{baud_table, num_to_baud, or_zero}

-- B0 to B38400 are 0 to 15, and B57600 to B4000000 follow 4096.
abbrev slow : List ℕ
slow =
    0 ∷ 50 ∷ 75 ∷ 110 ∷ 134 ∷ 150 ∷ 200 ∷ 300 ∷ 600 ∷ 1200 ∷ 1800 ∷ 2400 ∷ 4800 ∷ 9600 ∷ 19200
    ∷ 38400 ∷ []

abbrev fast : List ℕ
fast =
    57600 ∷ 115200 ∷ 230400 ∷ 460800 ∷ 500000 ∷ 576000 ∷ 921600 ∷ 1000000 ∷ 1152000 ∷ 1500000
    ∷ 2000000 ∷ 2500000 ∷ 3000000 ∷ 3500000 ∷ 4000000 ∷ []

abbrev nth : List ℕ → ℕ → ℕ
nth [] n = 0
nth (x ∷ xs) zero = x
nth (x ∷ xs) (suc n) = nth xs n

-- The rate of a `speed_t`.
abbrev pub rate_of : ℕ → ℕ
rate_of speed = if ltb speed 16 then nth slow speed else nth fast (speed - 4097)

module _ (f : ℕ → ℕ) where
  abbrev inverts : List (ℕ × ℕ) → Bool
  inverts [] = true
  inverts ((rate, speed) ∷ rest) = (f speed == rate) && inverts rest

  inverts-lookup :
      (table : List (ℕ × ℕ)) (num speed : ℕ)
      → inverts table ≡ true
      → lookup num table ≡ some speed
      → f speed ≡ num
  inverts-lookup [] num speed a h = absurd (ground arith)
  inverts-lookup ((rate, s) ∷ rest) num speed a h = ground (arith, inverts-lookup rest num speed)

-- A rate that is supported is the rate of its speed.
pub rate_of-num_to_baud : (num : ℕ) → num_to_baud num ≢ 0 → rate_of (num_to_baud num) ≡ num
unfolding num_to_baud
rate_of-num_to_baud num supported = elim (Option-cases (lookup num baud_table)) [
  | inl n ↦ absurd (supported (ap or_zero n))
  | inr (speed, h) ↦
      ap (λ o. rate_of (or_zero o)) h ∙ inverts-lookup rate_of baud_table num speed refl h
]
