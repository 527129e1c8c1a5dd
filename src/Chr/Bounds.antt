-- ===== src/Chr/Bounds.antt =====
-- chr.rs: the indices of the drawing.
use decomps_agent.Prelude.{
  ℕ, zero, suc, ◌+◌, ◌*◌, ◌/◌, ◌≤◌, ◌<◌, ◌≡◌, refl, arith, ltb, lt→ltb, true, Option, some, List,
  length, replicate, length-replicate, set, length-set, get_elem?-some,
}
use decomps_agent.Chr.{
  shade, two_bits, place_of, draw_row, draw_tile, draw_tiles, height, tiles_to_gray,
}

-- The drawing returns an image of `size` pixels.
abbrev pub Draws : ℕ → Option (List ℕ) → Type 0
Draws size result = (img : List ℕ) × (result ≡ some img) × (length img ≡ size)

-- The image holds the rows of tile `t`, and the input holds its bytes.
abbrev pub HasRoom : ℕ → ℕ → ℕ → Type 0
HasRoom t size count = ((t / 16 * 8 + 8) * 128 ≤ size) × (t * 16 + 16 ≤ count)

draw_row-Draws :
    (left x : ℕ) (bytes : List ℕ) (t y : ℕ) (img : List ℕ)
    → x + left ≤ 8
    → y < 8
    → HasRoom t (length img) (length bytes)
    → Draws (length img) (draw_row left x bytes t y img)
unfolding draw_row
draw_row-Draws zero x bytes t y img hx hy room = (img, refl, refl)
draw_row-Draws (suc left) x bytes t y img hx hy room =
    let (low, e) = get_elem?-some bytes (t * 16 + y) (omega arith) in
    let (high, f) = get_elem?-some bytes (t * 16 + y + 8) (omega arith) in
    let inside : ltb (place_of t y x) (length img) ≡ true = lt→ltb _ _ (omega arith) in
    let next = set img (place_of t y x) (shade (two_bits low high x)) in
    let same = length-set img (place_of t y x) (shade (two_bits low high x)) in
    let (img', g, k) = draw_row-Draws left (x + 1) bytes t y next (omega arith) hy (omega arith) in
    (img', rw (draw_row, e, f, inside) g, omega arith)

draw_tile-Draws :
    (left y : ℕ) (bytes : List ℕ) (t : ℕ) (img : List ℕ)
    → y + left ≤ 8
    → HasRoom t (length img) (length bytes)
    → Draws (length img) (draw_tile left y bytes t img)
unfolding draw_tile
draw_tile-Draws zero y bytes t img hy room = (img, refl, refl)
draw_tile-Draws (suc left) y bytes t img hy room =
    let (next, e, k) = draw_row-Draws 8 0 bytes t y img (omega arith) (omega arith) room in
    let (img', f, l) = draw_tile-Draws left (y + 1) bytes t next (omega arith) (omega arith) in
    (img', rw (draw_tile, e) f, omega arith)

draw_tiles-Draws :
    (left t : ℕ) (bytes : List ℕ) (img : List ℕ)
    → (t + left) * 16 ≤ length bytes
    → (t + left + 15) / 16 * 8 * 128 ≤ length img
    → Draws (length img) (draw_tiles left t bytes img)
unfolding draw_tiles
draw_tiles-Draws zero t bytes img hd hi = (img, refl, refl)
draw_tiles-Draws (suc left) t bytes img hd hi =
    let (next, e, k) = draw_tile-Draws 8 0 bytes t img (omega arith) (omega arith, omega arith) in
    let (img', f, l) = draw_tiles-Draws left (t + 1) bytes next (omega arith) (omega arith) in
    (img', rw (draw_tiles, e) f, omega arith)

-- For input of any length the drawing reads and writes no index out of range, and the image has 128
-- pixels in each of its rows, eight rows for each 16 tiles begun and eight at least.
pub tiles_to_gray-Draws :
    (bytes : List ℕ) → Draws (128 * height (length bytes / 16)) (tiles_to_gray bytes)
unfolding tiles_to_gray
tiles_to_gray-Draws bytes =
    let tiles = length bytes / 16 in
    let size = length-replicate {A = ℕ} (128 * height tiles) 0 in
    let (img, e, k) =
      draw_tiles-Draws tiles 0 bytes (replicate (128 * height tiles) 0) (omega arith)
        (omega arith) in
    (img, e, omega arith)
