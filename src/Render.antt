-- ===== src/Render.antt =====
-- The texts that the tools put numbers into: `format!` with `{:02X}`, `{:04X}` and `{}`.
pub mod Parse
use Prim.Native.Char.{Char}
use Prim.Native.String.{String, ◌++◌}
use decomps_agent.Prelude.{ℕ, zero, suc, ◌/◌, ◌%◌, ltb, if◌then◌else◌, get_or, List, [], ◌∷◌}

abbrev pub hex_digits : List Char
hex_digits =
    "0" ∷ "1" ∷ "2" ∷ "3" ∷ "4" ∷ "5" ∷ "6" ∷ "7" ∷ "8" ∷ "9" ∷ "A" ∷ "B" ∷ "C" ∷ "D" ∷ "E" ∷ "F"
    ∷ []

-- The upper-case digit of a number below 16.
unfoldable pub hex_digit : ℕ → Char
hex_digit d = get_or hex_digits d "F"

-- `${v:02X}` of a byte
unfoldable pub hex2 : ℕ → String
hex2 v =
    String.◌∷◌ "$"
      (String.◌∷◌ (hex_digit (v / 16 % 16)) (String.◌∷◌ (hex_digit (v % 16)) String.[]))

-- `hex4` of a number of 16 bits
unfoldable pub hex4 : ℕ → String
hex4 v = String.◌∷◌ "$" (
    String.◌∷◌ (hex_digit (v / 4096 % 16)) (
      String.◌∷◌ (hex_digit (v / 256 % 16))
        (String.◌∷◌ (hex_digit (v / 16 % 16)) (String.◌∷◌ (hex_digit (v % 16)) String.[]))))

-- `{}` of a number, with enough rounds for its digits.
unfoldable pub decimal_in : ℕ → ℕ → String
decimal_in zero n = String.[]
decimal_in (suc rounds) n =
    let last = String.◌∷◌ (hex_digit (n % 10)) String.[] in
    let front = decimal_in rounds (n / 10) in if ltb n 10 then last else front ++ last

unfoldable pub decimal : ℕ → String
decimal n = decimal_in (suc n) n

-- `format!` of several parts: `a ⊕ b`.
infixr 65 ◌⊕◌
abbrev pub ◌⊕◌ : String → String → String
a ⊕ b = a ++ b
