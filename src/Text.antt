-- ===== src/Text.antt =====
-- Texts, where the code joins them.
use Prim.Native.String.{◌++◌}
use transport_cpp.Prelude.{ℕ, zero, suc, ◌/◌, ◌%◌, ltb, if◌then◌else◌, List, [], ◌∷◌, String}

abbrev pub joined : String → String → String
joined s t = s ++ t

abbrev text_at : ℕ → List String → String
text_at n [] = ""
text_at zero (s ∷ ss) = s
text_at (suc n) (s ∷ ss) = text_at n ss

abbrev digit : ℕ → String
digit n = text_at n ("0" ∷ "1" ∷ "2" ∷ "3" ∷ "4" ∷ "5" ∷ "6" ∷ "7" ∷ "8" ∷ "9" ∷ [])

-- At most so many digits.
abbrev decimal : ℕ → ℕ → String
decimal zero n = ""
decimal (suc fuel) n =
    let front = decimal fuel (n / 10) in if ltb n 10 then digit n else front ++ digit (n % 10)

-- A number of at most 64 bits, which 20 digits hold, in decimal.
abbrev pub to_string : ℕ → String
to_string n = decimal 20 n
