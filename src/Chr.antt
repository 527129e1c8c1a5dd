-- ===== src/Chr.antt =====
-- tools/nesrom/src/chr.rs: pattern tables as gray images. `none` is an index out of range.
pub mod Bounds
use decomps_agent.Prelude.{
  ℕ, zero, suc, ◌+◌, ◌-◌, ◌*◌, ◌/◌, ◌%◌, ◌^◌, bit_and, bit_or, max, ltb, ◌==◌, if◌then◌else◌,
  Option, none, some, ◌>>=◌, List, [], ◌∷◌, length, replicate, set, get_elem?,
}

-- `[0, 85, 170, 255][v]`, for a number of two bits.
abbrev pub shade : ℕ → ℕ
shade v = if v == 0 then 0 else if v == 1 then 85 else if v == 2 then 170 else 255

-- The two bits of column `x` in the bytes of the two planes.
abbrev pub two_bits : ℕ → ℕ → ℕ → ℕ
two_bits low high x = bit_or (bit_and (low / 2 ^ (7 - x)) 1) (bit_and (high / 2 ^ (7 - x)) 1 * 2)

abbrev pub put : ℕ → ℕ → List ℕ → Option (List ℕ)
put at v img = if ltb at (length img) then some (set img at v) else none

-- The place of the pixel `x`, `y` of tile `t` in an image of 16 tiles to a row.
abbrev pub place_of : ℕ → ℕ → ℕ → ℕ
place_of t y x = (t / 16 * 8 + y) * 128 + t % 16 * 8 + x

-- The loop over `x`, with `left` columns to go.
unfoldable pub draw_row : ℕ → ℕ → List ℕ → ℕ → ℕ → List ℕ → Option (List ℕ)
draw_row zero x bytes t y img = some img
draw_row (suc left) x bytes t y img = get_elem? bytes (t * 16 + y) >>= λ low.
    get_elem? bytes (t * 16 + y + 8) >>= λ high.
    put (place_of t y x) (shade (two_bits low high x)) img >>= λ img'.
    draw_row left (x + 1) bytes t y img'

-- The loop over `y`, with `left` rows to go.
unfoldable pub draw_tile : ℕ → ℕ → List ℕ → ℕ → List ℕ → Option (List ℕ)
draw_tile zero y bytes t img = some img
draw_tile (suc left) y bytes t img =
    draw_row 8 0 bytes t y img >>= λ img'. draw_tile left (y + 1) bytes t img'

-- The loop over the tiles, with `left` tiles to go.
unfoldable pub draw_tiles : ℕ → ℕ → List ℕ → List ℕ → Option (List ℕ)
draw_tiles zero t bytes img = some img
draw_tiles (suc left) t bytes img =
    draw_tile 8 0 bytes t img >>= λ img'. draw_tiles left (t + 1) bytes img'

abbrev pub height : ℕ → ℕ
height tiles = max ((tiles + 16 - 1) / 16) 1 * 8

unfoldable pub tiles_to_gray : List ℕ → Option (List ℕ)
tiles_to_gray bytes =
    let tiles = length bytes / 16 in draw_tiles tiles 0 bytes (replicate (128 * height tiles) 0)
