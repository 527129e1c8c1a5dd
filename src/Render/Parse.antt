-- ===== src/Render/Parse.antt =====
-- tools/nesrom/src/mapper/mod.rs: `parse_addr`, on the code points of the text; an error is `none`,
-- without its message. `trim`, `parse` and `from_str_radix` are the standard library's.
use Prim.Native.Char.{code}
use Prim.Native.String.{String}
use decomps_agent.Prelude.{
  ℕ, ◌+◌, ◌-◌, ◌*◌, ◌/◌, ◌%◌, ◌<◌, ◌≡◌, refl, ap, ◌∙◌, arith, Bool, true, false, not, ◌&&◌, ◌||◌,
  ltb, leb, ◌==◌, ==_iff, if◌then◌else◌, List, [], ◌∷◌, Option, none, some,
}
use decomps_agent.Prelude.Bits.{all_below, all_below_sound}
use decomps_agent.Render.{hex_digit, hex4}

abbrev pub codes : String → List ℕ
codes String.[] = []
codes (String.◌∷◌ c text) = code c ∷ codes text

-- `char::is_whitespace`
unfoldable pub is_whitespace : ℕ → Bool
is_whitespace c =
    leb 9 c && leb c 13
    || c == 0x20
    || c == 0x85
    || c == 0xA0
    || c == 0x1680
    || leb 0x2000 c && leb c 0x200A
    || c == 0x2028
    || c == 0x2029
    || c == 0x202F
    || c == 0x205F
    || c == 0x3000

unfoldable pub trim_start : List ℕ → List ℕ
trim_start [] = []
trim_start (c ∷ text) = let rest = trim_start text in if is_whitespace c then rest else c ∷ text

abbrev pub keep_end : ℕ → List ℕ → List ℕ
keep_end c [] = if is_whitespace c then [] else c ∷ []
keep_end c (d ∷ text) = c ∷ d ∷ text

unfoldable pub trim_end : List ℕ → List ℕ
trim_end [] = []
trim_end (c ∷ text) = keep_end c (trim_end text)

-- `char::to_digit` for a radix up to 36; a code that is no digit gives 36.
unfoldable pub to_digit : ℕ → ℕ
to_digit c =
    if leb b'0' c && leb c b'9'
    then c - b'0'
    else if leb b'A' c && leb c b'Z'
    then c - b'A' + 10
    else if leb b'a' c && leb c b'z'
    then c - b'a' + 10
    else 36

-- The digits of a `u16` behind `value`: no other character, and no overflow on the way.
unfoldable pub digits_from : ℕ → ℕ → List ℕ → Option ℕ
digits_from radix value [] = some value
digits_from radix value (c ∷ text) =
    let next = value * radix + to_digit c in
    let rest = digits_from radix next text in
    if ltb (to_digit c) radix && ltb next 0x10000 then rest else none

-- `u16::from_str_radix`: one `+` may stand in front, and some digit must.
unfoldable pub from_str_radix : ℕ → List ℕ → Option ℕ
from_str_radix radix [] = none
from_str_radix radix (c ∷ []) = digits_from radix 0 (c ∷ [])
from_str_radix radix (c ∷ d ∷ text) =
    if c == b'+' then digits_from radix 0 (d ∷ text) else digits_from radix 0 (c ∷ d ∷ text)

-- The tests of the prefixes, `$`, then `0x` or `0X`, then `#`.
unfoldable pub parse_trimmed : List ℕ → Option ℕ
parse_trimmed [] = from_str_radix 16 []
parse_trimmed (c ∷ []) = if c == b'$' || c == b'#' then none else from_str_radix 16 (c ∷ [])
parse_trimmed (c ∷ d ∷ text) =
    if c == b'$'
    then from_str_radix 16 (d ∷ text)
    else if c == b'0' && (d == b'x' || d == b'X')
    then from_str_radix 16 text
    else if c == b'#'
    then from_str_radix 10 (d ∷ text)
    else from_str_radix 16 (c ∷ d ∷ text)

unfoldable pub parse_addr : List ℕ → Option ℕ
parse_addr text = parse_trimmed (trim_end (trim_start text))

to_digit-hex_digit : (d : ℕ) → d < 16 → to_digit (code (hex_digit d)) ≡ d
unfolding to_digit hex_digit all_below
to_digit-hex_digit d h =
    (==_iff (to_digit (code (hex_digit d))) d).0
      (all_below_sound 16 (λ n. to_digit (code (hex_digit n)) == n) d refl h)

not_blank : (d : ℕ) → d < 16 → not (is_whitespace (code (hex_digit d))) ≡ true
unfolding is_whitespace hex_digit all_below
not_blank d h = all_below_sound 16 (λ n. not (is_whitespace (code (hex_digit n)))) d refl h

not_plus : (d : ℕ) → d < 16 → not (code (hex_digit d) == b'+') ≡ true
unfolding hex_digit all_below
not_plus d h = all_below_sound 16 (λ n. not (code (hex_digit n) == b'+')) d refl h

parse_four :
    (a b c d : ℕ)
    → a < 16
    → b < 16
    → c < 16
    → d < 16
    → parse_addr (
        b'$'
        ∷ code (hex_digit a)
        ∷ code (hex_digit b)
        ∷ code (hex_digit c)
        ∷ code (hex_digit d)
        ∷ [])
      ≡ some (((a * 16 + b) * 16 + c) * 16 + d)
unfolding parse_addr trim_start trim_end parse_trimmed digits_from from_str_radix is_whitespace
parse_four a b c d ha hb hc hd =
    let blank : is_whitespace (code (hex_digit d)) ≡ false = ground (arith, not_blank d hd) in
    let plus : (code (hex_digit a) == b'+') ≡ false = ground (arith, not_plus a ha) in
    rw
      (
        blank,
        plus,
        to_digit-hex_digit a ha,
        to_digit-hex_digit b hb,
        to_digit-hex_digit c hc,
        to_digit-hex_digit d hd,
      )
      (ground arith)

-- The text of an address is read back as that address.
pub parse_addr-hex4 : (v : ℕ) → v < 0x10000 → parse_addr (codes (hex4 v)) ≡ some v
unfolding hex4
parse_addr-hex4 v h =
    let value : ((v / 4096 % 16 * 16 + v / 256 % 16) * 16 + v / 16 % 16) * 16 + v % 16 ≡ v =
      omega arith in
    parse_four (v / 4096 % 16) (v / 256 % 16) (v / 16 % 16) (v % 16) (omega arith) (omega arith)
      (omega arith) (omega arith)
    ∙ ap some value
